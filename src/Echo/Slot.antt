-- ===== src/Echo/Slot.antt =====
-- The echo server as a single slot: what the buffer, the length, the source and the flag are for.
use mathlib.Core.Option
use kmm_yocto.Base.{
  c_string, get_or, get_or-set_self, ◌==◌, ℕ, zero, suc, ◌+◌, ◌-◌, ◌≤◌, ◌<◌, ◌≡◌, refl, sym, ap,
  ◌∙◌, true, false, Option, none, some, List, [], ◌∷◌, ◌++◌, arith, leb, if◌then◌else◌, Bool-cases,
  inl, inr, length, length-append, length-take, length-drop, length-set, take, take-all,
  take-append, drop, set, copy_lem, ℤ, is_zero, u32, codes,
}
use kmm_yocto.Echo.{
  buf_size, Place, waiting, printing, sending, clearing, Echo, kept, rx_cb, negated, start, loop,
  Event, interrupt, proceed, step, run,
}

-- A server that holds one message at a time. `slot` is that message with its source, cut to 511
-- bytes; a message that comes while it is full is lost.
pub record Server : Type 0 where
  pub slot : Option (ℕ × List ℕ)
  pub doing : Place
  pub echoed : List (ℕ × List ℕ)

abbrev pub offer : ℕ × List ℕ → Option (ℕ × List ℕ) → Option (ℕ × List ℕ)
offer m none = some m
offer m (some m') = some m'

-- The next place, and what is echoed.
abbrev pub serve : Place → Option (ℕ × List ℕ) → List (ℕ × List ℕ) → Server
serve waiting none l = record { slot = none; doing = waiting; echoed = l }
serve waiting (some m) l = record { slot = some m; doing = printing; echoed = l }
serve printing o l = record { slot = o; doing = sending; echoed = l }
serve sending none l = record { slot = none; doing = clearing; echoed = l }
serve sending (some m) l = record { slot = some m; doing = clearing; echoed = m ∷ l }
serve clearing o l = record { slot = none; doing = waiting; echoed = l }

abbrev pub server_step : Event → Server → Server
server_step (interrupt src payload) v = record v {
  slot = offer (src, take (buf_size - 1) payload) v.slot;
}
server_step proceed v = serve v.doing v.slot v.echoed

unfoldable pub server_run : List Event → Server → Server
server_run [] v = v
server_run (e ∷ es) v = server_run es (server_step e v)

-- What a state of the firmware stands for.
abbrev pub view : Echo → Server
view s = record {
  slot = if s.msg_ready then some (s.msg_src, take s.msg_len s.msg_buf) else none;
  doing = s.place;
  echoed = s.out;
}

pub record IsValid (s : Echo) : Type 0 where
  pub whole : length s.msg_buf ≡ buf_size
  pub fits : s.msg_len < buf_size
  pub busy : s.msg_ready ≡ false → s.place ≡ waiting
  pub ended : s.place ≡ printing → get_or s.msg_buf s.msg_len 1 ≡ 0

c_string-some :
    (n : ℕ) (xs : List ℕ)
    → n < length xs
    → get_or xs n 1 ≡ 0
    → (text : List ℕ) × (c_string xs ≡ some text)
unfolding c_string
c_string-some n [] h e = absurd (omega arith)
c_string-some zero (x ∷ xs) h e = ([], ground arith)
c_string-some (suc n) (x ∷ xs) h e =
    let (text, more) = c_string-some n xs (omega arith) e in
    (if x == 0 then [] else x ∷ text, ground arith)

take-kept : (xs : List ℕ) → take (kept (length xs)) xs ≡ take (buf_size - 1) xs
take-kept xs = elim (Bool-cases (leb buf_size (length xs))) [
  | inl long ↦ rw long
  | inr short ↦
      rw short
        (take-all (length xs) xs (omega arith) ∙ sym (take-all (buf_size - 1) xs (ground arith)))
]

take-set : (n : ℕ) (xs : List ℕ) (v : ℕ) → take n (set xs n v) ≡ take n xs
take-set zero xs v = refl
take-set (suc n) [] v = refl
take-set (suc n) (x ∷ xs) v = ap (λ t. x ∷ t) (take-set n xs v)

-- What `copy` has put in front is what a later `take` finds.
take-copied : (n : ℕ) (xs ys : List ℕ) → n ≤ length xs → take n (take n xs ++ ys) ≡ take n xs
take-copied n xs ys h =
    take-append n (take n xs) ys (omega (arith, length-take n xs))
    ∙ take-all n (take n xs) (omega (arith, length-take n xs))

rx_cb-view :
    (src : ℕ) (payload : List ℕ) (s : Echo)
    → IsValid s
    → (s' : Echo) × (rx_cb src payload s ≡ some s')
      × IsValid s'
      × (view s' ≡ server_step (interrupt src payload) (view s))
unfolding rx_cb
rx_cb-view src payload s v = elim (Bool-cases s.msg_ready) [
  | inl full ↦ (s, ground arith, v, rw full)
  | inr free ↦
      (let n = kept (length payload) in
        let buf = take n payload ++ drop n s.msg_buf in
        let within : n ≤ length payload = ground arith in
        let small : n ≤ length s.msg_buf = ground (arith, v.whole) in
        (
          record s {
            msg_buf = buf;
            msg_len = n;
            msg_src = src;
            msg_ready = true;
            dbg_rx = u32 (s.dbg_rx + 1);
          },
          rw (free, copy_lem s.msg_buf payload n small within) refl,
          record {
            whole =
                length-append (take n payload) (drop n s.msg_buf)
                ∙ omega
                    (arith, length-take n payload, length-drop n s.msg_buf, small, within, v.whole);
            fits = ground arith;
            busy = λ e. cc;
            ended = λ e. cc (v.busy free);
          },
          rw (free, take-copied n payload (drop n s.msg_buf) within, take-kept payload) refl,
        ))
]

loop-view :
    (send : List (ℕ × List ℕ) → ℕ → List ℕ → ℤ) (p : Place) (s : Echo)
    → s.place ≡ p
    → IsValid s
    → (s' : Echo) × (loop send p s ≡ some s') × IsValid s' × (view s' ≡ serve p (view s).slot s.out)
unfolding loop
loop-view send waiting s h v = elim (Bool-cases s.msg_ready) [
  | inl full ↦ (
    record s { msg_buf = set s.msg_buf s.msg_len 0; place = printing },
    ground (arith, v.fits, v.whole),
    record {
      whole = length-set s.msg_buf s.msg_len 0 ∙ v.whole;
      fits = v.fits;
      busy = λ e. cc;
      ended = λ e. get_or-set_self s.msg_buf s.msg_len 0 1 (omega (arith, v.fits, v.whole));
    },
    rw (full, take-set s.msg_len s.msg_buf 0) refl,
  )
  | inr free ↦ (s, ground arith, v, rw (free, h) refl)
]
loop-view send printing s h v =
    let (text, read) =
      c_string-some s.msg_len s.msg_buf (omega (arith, v.fits, v.whole)) (v.ended h) in
    (
      record s { place = sending; said = codes "\n" ∷ text ∷ codes "rx: " ∷ s.said },
      rw read refl,
      record { whole = v.whole; fits = v.fits; busy = λ e. cc (v.busy e); ended = λ e. cc },
      refl,
    )
loop-view send sending s h v = elim (Bool-cases s.msg_ready) [
  | inl full ↦ (
    record s {
      dbg_rc = u32 (0x1000 + negated (send s.out s.msg_src (take s.msg_len s.msg_buf)));
      dbg_echoed = u32 (s.dbg_echoed + 1);
      place = clearing;
      said =
          (if is_zero (send s.out s.msg_src (take s.msg_len s.msg_buf))
            then codes "echoed\n"
            else codes "send FAILED\n")
          ∷ s.said;
      out = (s.msg_src, take s.msg_len s.msg_buf) ∷ s.out;
    },
    refl,
    record { whole = v.whole; fits = v.fits; busy = λ e. cc; ended = λ e. cc },
    rw full refl,
  )
  | inr free ↦ ground (arith, v.busy free)
]
loop-view send clearing s h v = (
  record s { msg_ready = false; place = waiting },
  refl,
  record { whole = v.whole; fits = v.fits; busy = λ e. refl; ended = λ e. cc },
  refl,
)

step-view :
    (send : List (ℕ × List ℕ) → ℕ → List ℕ → ℤ) (e : Event) (s : Echo)
    → IsValid s
    → (s' : Echo) × (step send e s ≡ some s') × IsValid s' × (view s' ≡ server_step e (view s))
unfolding step
step-view send (interrupt src payload) s v = rx_cb-view src payload s v
step-view send proceed s v = loop-view send s.place s refl v

pub start-IsValid : IsValid start
start-IsValid = record { whole = refl; fits = ground arith; busy = λ e. refl; ended = λ e. cc }

-- From any state whose buffer has 512 bytes, whose length is below 512, whose flag is up outside
-- the wait and whose text is ended by a zero before the print, and for any order of interrupts and
-- steps of the loop, the firmware never reaches behind its buffer, keeps that form, and shows at the
-- end what the one-slot server shows after the same events: the message that waits with its source,
-- the place in the loop, and every message echoed with its address. In particular an interrupt in
-- the middle of an answer does not change what is sent, whatever the sends return.
pub run-view :
    (send : List (ℕ × List ℕ) → ℕ → List ℕ → ℤ) (es : List Event) (s : Echo)
    → IsValid s
    → (s' : Echo) × (run send es s ≡ some s') × IsValid s' × (view s' ≡ server_run es (view s))
unfolding run server_run Option.bind
run-view send [] s v = (s, refl, v, refl)
run-view send (e ∷ es) s v =
    let (s1, run1, v1, view1) = step-view send e s v in
    let (s2, run2, v2, view2) = run-view send es s1 v1 in
    (s2, rw run1 run2, v2, view2 ∙ ap (server_run es) view1)
