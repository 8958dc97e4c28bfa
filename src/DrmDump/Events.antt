-- ===== src/DrmDump/Events.antt =====
-- `read`: the events that a read of the DRM device delivers. The buffer is the `r` bytes read, from
-- the current offset on; a read behind them gives `none`.
use mathlib.Core.Option
use kmm_yocto.Base.{
  ℕ, zero, suc, ◌+◌, ◌^◌, ◌≤◌, ◌<◌, ◌≡◌, refl, sym, ap, ◌∙◌, true, false, ◌&&◌, ◌||◌, Option, none,
  some, List, [], ◌∷◌, ◌++◌, map, arith, ltb, leb, ◌==◌, if◌then◌else◌, length, length-append, drop,
  All, le32, le32_at, get_or-append, of_le32-le32, Bool-cases, inl, inr,
}

-- A line of the log.
pub data Logged : Type 0 where
  flip_complete : (sequence crtc_id tv_sec tv_usec : ℕ) → Logged
  vblank : (sequence crtc_id tv_sec tv_usec : ℕ) → Logged
  other : (kind len : ℕ) → Logged

-- `sizeof(struct drm_event)` and `sizeof(struct drm_event_vblank)`.
abbrev pub header_size : ℕ
header_size = 8

abbrev pub vblank_size : ℕ
vblank_size = 32

abbrev pub event_vblank : ℕ
event_vblank = 1

abbrev pub event_flip_complete : ℕ
event_flip_complete = 2

-- The line for the event at the front.
unfoldable pub line_of : List ℕ → Option Logged
line_of buf =
    let kind = le32_at buf 0 in
    let len = le32_at buf 4 in
    if ((kind == event_flip_complete) || (kind == event_vblank)) && leb vblank_size len
    then (if ltb (length buf) vblank_size
        then none
        else (if kind == event_flip_complete
            then some
                (flip_complete (le32_at buf 24) (le32_at buf 28) (le32_at buf 16) (le32_at buf 20))
            else some (vblank (le32_at buf 24) (le32_at buf 28) (le32_at buf 16) (le32_at buf 20))))
    else some (other kind len)

-- The loop over the events, with fuel.
unfoldable pub log_events : (fuel : ℕ) → List ℕ → Option (List Logged)
unfolding Option.bind
log_events zero buf = none
log_events (suc fuel) buf =
    let len = le32_at buf 4 in
    let rest =
      Option.bind (line_of buf) (λ e. Option.map (λ es. e ∷ es) (log_events fuel (drop len buf))) in
    if leb header_size (length buf)
    then (if ltb len header_size then some [] else rest)
    else some []

-- An event as the kernel delivers it: its type, and what stands behind the header.
abbrev pub Event : Type 0
Event = ℕ × List ℕ

abbrev pub size_of : Event → ℕ
size_of (kind, body) = header_size + length body

abbrev pub bytes_of : Event → List ℕ
bytes_of (kind, body) = le32 kind ++ (le32 (header_size + length body) ++ body)

unfoldable pub delivered : List Event → List ℕ
delivered [] = []
delivered (e ∷ es) = bytes_of e ++ delivered es

abbrev pub IsEvent : Event → Type 0
IsEvent (kind, body) = (kind < 2 ^ 32) × (header_size + length body < 2 ^ 32)

-- What an event says.
abbrev pub said : Event → Logged
said (kind, body) =
    if ((kind == event_flip_complete) || (kind == event_vblank)) && leb 24 (length body)
    then (if kind == event_flip_complete
        then flip_complete (le32_at body 16) (le32_at body 20) (le32_at body 8) (le32_at body 12)
        else vblank (le32_at body 16) (le32_at body 20) (le32_at body 8) (le32_at body 12))
    else other kind (header_size + length body)

drop-append : (xs ys : List ℕ) → drop (length xs) (xs ++ ys) ≡ ys
drop-append [] ys = refl
drop-append (x ∷ xs) ys = drop-append xs ys

le32_at-append : (xs ys : List ℕ) (i : ℕ) → i + 3 < length xs → le32_at (xs ++ ys) i ≡ le32_at xs i
le32_at-append xs ys i h =
    rw
      (
        get_or-append xs ys i 0 (omega arith),
        get_or-append xs ys (i + 1) 0 (omega arith),
        get_or-append xs ys (i + 2) 0 (omega arith),
        get_or-append xs ys (i + 3) 0 (omega arith),
      )
      refl

line_of_lem : (e : Event) (rest : List ℕ) → IsEvent e → line_of (bytes_of e ++ rest) ≡ some (said e)
unfolding line_of
line_of_lem (kind, body) rest h =
    let buf = bytes_of (kind, body) ++ rest in
    let kind_at : le32_at buf 0 ≡ kind = of_le32-le32 kind h.0 in
    let len_at : le32_at buf 4 ≡ header_size + length body =
      of_le32-le32 (header_size + length body) h.1 in
    let whole : length buf ≡ 8 + (length body + length rest) =
      omega (arith, length-append body rest) in
    rw (kind_at, len_at)
      (elim (Bool-cases
        (((kind == event_flip_complete) || (kind == event_vblank)) && leb 24 (length body))) [
          | inl long ↦
              (let inside : 24 ≤ length body = ground arith in
                let there : (((kind == event_flip_complete) || (kind == event_vblank))
                      && leb vblank_size (header_size + length body))
                    ≡ true =
                  ground arith in
                let all : ltb (length buf) vblank_size ≡ false = ground arith in
                rw
                  (
                    long,
                    there,
                    all,
                    le32_at-append body rest 8 (omega arith),
                    le32_at-append body rest 12 (omega arith),
                    le32_at-append body rest 16 (omega arith),
                    le32_at-append body rest 20 (omega arith),
                  )
                  (ground arith))
          | inr short ↦
              (let there : (((kind == event_flip_complete) || (kind == event_vblank))
                      && leb vblank_size (header_size + length body))
                    ≡ false =
                  ground arith in
                rw (short, there) refl)
        ])

length-bytes_of : (e : Event) → length (bytes_of e) ≡ size_of e
length-bytes_of (kind, body) = omega arith

next_event : (e : Event) (rest : List ℕ) → drop (size_of e) (bytes_of e ++ rest) ≡ rest
next_event e rest =
    ap (λ n. drop n (bytes_of e ++ rest)) (sym (length-bytes_of e)) ∙ drop-append (bytes_of e) rest

-- The loop on whole events: it ends within as many rounds as there are bytes.
pub log_events-delivered :
    (es : List Event) (fuel : ℕ)
    → All IsEvent es
    → length (delivered es) < fuel
    → log_events fuel (delivered es) ≡ some (map said es)
unfolding log_events delivered Option.bind
log_events-delivered es zero h k = absurd (omega arith)
log_events-delivered [] (suc fuel) h k = refl
log_events-delivered ((kind, body) ∷ es) (suc fuel) h k =
    let e : Event = (kind, body) in
    let rest = delivered es in
    let len_at : le32_at (bytes_of e ++ rest) 4 ≡ size_of e =
      of_le32-le32 (header_size + length body) h.0.1 in
    let whole : length (bytes_of e ++ rest) ≡ size_of e + length rest =
      length-append (bytes_of e) rest ∙ ap (λ n. n + length rest) (length-bytes_of e) in
    let there : leb header_size (length (bytes_of e ++ rest)) ≡ true = ground arith in
    let long : ltb (size_of e) header_size ≡ false = ground arith in
    rw (there, len_at, long, line_of_lem e rest h.0, next_event e rest)
      (rw (log_events-delivered es fuel h.1 (omega (arith, whole))) refl)

-- `read`: the lines logged. `drm_fd` is the device, once a DRM request has been seen; `got` is what
-- the kernel's `read` delivers, which the program gets unchanged, or its failure.
unfoldable pub read : (drm_fd : Option ℕ) (fd : ℕ) (got : Option (List ℕ)) → Option (List Logged)
read none fd got = some []
read (some dev) fd none = some []
read (some dev) fd (some buf) =
    let lines = log_events (length buf + 1) buf in
    if (fd == dev) && ltb 0 (length buf) then lines else some []

-- A `read` that delivers any number of whole events, none included, ends and looks at no byte behind
-- them. On the DRM device it logs every event once and in order: a flip or a vblank with its
-- sequence, CRTC and time, any other event, or one too short for these, with its type and length. On
-- any other file it logs nothing.
pub read-delivered :
    (dev fd : ℕ) (es : List Event)
    → All IsEvent es
    → read (some dev) fd (some (delivered es)) ≡ some (if fd == dev then map said es else [])
unfolding read delivered
read-delivered dev fd [] h = ground arith
read-delivered dev fd (e ∷ es) h = elim (Bool-cases (fd == dev)) [
  | inl device ↦
      (let there : ltb 0 (length (delivered (e ∷ es))) ≡ true = ground arith in
        rw (device, there)
          (log_events-delivered (e ∷ es) (length (delivered (e ∷ es)) + 1) h (omega arith)))
  | inr another ↦ rw another refl
]
