-- ===== src/Bridge/Queues.antt =====
-- Serial ports in which nothing arrives by itself: an instance of what the bridge assumes.
use kmm_yocto.Base.{
  ℕ, ◌+◌, ◌≤◌, ◌≡◌, ◌≢◌, refl, sym, ap, Bool, ◌||◌, false, List, [], ◌++◌, arith, if◌then◌else◌,
  length, take, drop, length-drop, take-all, pos, ◌==◌, ==_refl, Bool-cases, inl, inr, ◌∙◌,
}
use mathlib.Core.List.{append-nil}
use kmm_yocto.Bridge.{Dev, usb_a, uart_a, usb_m, uart_m, usb_diag, Ports}
use kmm_yocto.Bridge.Laws.{Grows, IsLawful, Grows-refl}
use kmm_yocto.Bridge.Ends.{Finite}
use kmm_yocto.Bridge.Baud.{HasSpeed}

abbrev number : Dev → ℕ
number usb_a = 0
number uart_a = 1
number usb_m = 2
number uart_m = 3
number usb_diag = 4

numbered : ℕ → Dev
numbered n =
    if n == 0
    then usb_a
    else (if n == 1
        then uart_a
        else (if n == 2 then usb_m else (if n == 3 then uart_m else usb_diag)))

numbered-number : (d : Dev) → numbered (number d) ≡ d
unfolding numbered
numbered-number usb_a = refl
numbered-number uart_a = refl
numbered-number usb_m = refl
numbered-number uart_m = refl
numbered-number usb_diag = refl

-- Whether two ports are the same one.
abbrev is_same : Dev → Dev → Bool
is_same c d = number c == number d

abbrev at : {A : Type 0} → (Dev → A) → Dev → A → Dev → A
at f c v d = if is_same c d then v else f d

pub record Line : Type 0 where
  pub waits : Dev → List ℕ
  pub written : Dev → List ℕ
  pub speeds : Dev → ℕ
  pub asked : Dev → ℕ
  pub opened : Dev → Bool
  pub time : ℕ

-- With `always`, every port is open at any time. A write takes 64 bytes and loses any more.
abbrev pub queues : (always : Bool) → Ports
queues always = record {
  World = Line;
  available = λ w d. pos (length (w.waits d));
  available_for_write = λ w d. pos 64;
  is_open = λ w d. always || w.opened d;
  baud = λ w d. w.asked d;
  millis = λ w. w.time;
  read = λ w c. record w { waits = at w.waits c (drop 1 (w.waits c)) };
  read_bytes =
      λ w c n. (take n (w.waits c), record w { waits = at w.waits c (drop n (w.waits c)) });
  write = λ w c bytes. record w { written = at w.written c (w.written c ++ take 64 bytes) };
  begin = λ w c b. record w { speeds = at w.speeds c b };
  add_memory_for_read = λ w c n. w;
  pin_mode_led = λ w. w;
  digital_write_led = λ w b. record w { time = w.time + 1 };
  print_diag = λ w b. w;
}

is_same_ne : (c d : Dev) → c ≢ d → is_same c d ≡ false
is_same_ne c d ne = elim (Bool-cases (is_same c d)) [
  | inl same ↦
      absurd (ne (sym (numbered-number c) ∙ ap numbered (ground arith) ∙ numbered-number d))
  | inr other ↦ other
]

at_ne : {A : Type 0} (f : Dev → A) (c d : Dev) (v : A) → c ≢ d → at f c v d ≡ f d
at_ne f c d v ne = rw (is_same_ne c d ne) refl

at_self : {A : Type 0} (f : Dev → A) (c : Dev) (v : A) → at f c v c ≡ v
at_self f c v = rw (==_refl (number c)) refl

Grows-eq : (xs ys : List ℕ) → ys ≡ xs → Grows xs ys
Grows-eq xs ys e = ([], e ∙ sym (append-nil xs))

pub queues-IsLawful : (always : Bool) → IsLawful (queues always) (λ w. w.waits) (λ w. w.written)
queues-IsLawful always = record {
  available_lem = λ w d. refl;
  read_waiting = λ w c d ne. Grows-eq (w.waits d) _ (at_ne w.waits c d (drop 1 (w.waits c)) ne);
  read_sent = λ w c d. refl;
  bytes_lem = λ w c n h. refl;
  bytes_rest = λ w c n h. Grows-eq _ _ (at_self w.waits c (drop n (w.waits c)));
  bytes_waiting = λ w c d n ne. Grows-eq (w.waits d) _ (at_ne w.waits c d (drop n (w.waits c)) ne);
  bytes_sent = λ w c d n. refl;
  bytes_space = λ w c d n ne. omega arith;
  write_sent = λ w c bytes fits.
      at_self w.written c (w.written c ++ take 64 bytes)
      ∙ ap (λ l. w.written c ++ l) (take-all 64 bytes fits);
  write_other = λ w c d bytes ne. at_ne w.written c d (w.written c ++ take 64 bytes) ne;
  write_waiting = λ w c d bytes. Grows-refl (w.waits d);
  begin_lem = λ w c d b. (Grows-refl (w.waits d), refl);
  led_lem = λ w b d. (Grows-refl (w.waits d), refl);
  diag_lem = λ w b d ne. (Grows-refl (w.waits d), refl);
}

abbrev pub left : Line → Dev → ℕ
left w d = length (w.waits d)

at-drop : (f : Dev → List ℕ) (c d : Dev) (n : ℕ) → length (at f c (drop n (f c)) d) ≤ length (f d)
at-drop f c d n = elim (Bool-cases (is_same c d)) [
  | inl same ↦
      (let e : c ≡ d = sym (numbered-number c) ∙ ap numbered (ground arith) ∙ numbered-number d in
        rw same (omega (arith, ap (λ x. length (f x)) e, length-drop n (f c))))
  | inr other ↦ rw other (omega arith)
]

pub queues-Finite : (always : Bool) → Finite (queues always) left
queues-Finite always = record {
  kept = λ d. record {
    same = λ w. omega arith;
    then_on = λ u v w h k. omega arith;
    read_keeps = λ w c. at-drop w.waits c d 1;
    bytes_keeps = λ w c n. at-drop w.waits c d n;
    write_keeps = λ w c bytes. omega arith;
    led_keeps = λ w b. omega arith;
    diag_keeps = λ w b. omega arith;
  };
  begin_keeps = λ w c d b. omega arith;
  read_less = λ w d some_wait.
      rw (at_self w.waits d (drop 1 (w.waits d))) (ground (arith, length-drop 1 (w.waits d)));
}

pub queues-HasSpeed : (always : Bool) → HasSpeed (queues always) (λ w. w.speeds)
queues-HasSpeed always = record {
  kept = λ d. record {
    same = λ w. refl;
    then_on = λ u v w h k. k ∙ h;
    read_keeps = λ w c. refl;
    bytes_keeps = λ w c n. refl;
    write_keeps = λ w c bytes. refl;
    led_keeps = λ w b. refl;
    diag_keeps = λ w b. refl;
  };
  begin_sets = λ w c b. at_self w.speeds c b;
  begin_other = λ w c d b ne. at_ne w.speeds c d b ne;
  begin_baud = λ w c d b. refl;
}
