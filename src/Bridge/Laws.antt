-- ===== src/Bridge/Laws.antt =====
-- What the bridge assumes of the serial ports, and how the bytes under way are seen.
use kmm_yocto.Base.{
  ℕ, zero, suc, ◌≤◌, ◌≡◌, ◌≢◌, refl, sym, ap, ◌∙◌, Bool, List, [], ◌∷◌, ◌++◌, length, take, drop,
  pos,
}
use mathlib.Core.List.{append_assoc, append-nil}
use kmm_yocto.Bridge.{Dev, usb_diag, Ports, positive}

-- The second list is the first with more behind it.
abbrev pub Grows : List ℕ → List ℕ → Type 0
Grows xs ys = (more : List ℕ) × (ys ≡ xs ++ more)

-- A view of the ports: the bytes that wait to be read at each, and those written to it so far.
module _ (P : Ports) (waiting sent : P.World → Dev → List ℕ) where
  -- At `d` nothing is read or written, though bytes may arrive.
  abbrev pub Stays : P.World → P.World → Dev → Type 0
  Stays w v d = Grows (waiting w d) (waiting v d) × (sent v d ≡ sent w d)

  -- What the Teensy core documents of its calls. A byte that arrives while one of them runs is
  -- `more`; one that a UART drops, because its own buffer is full, never waits.
  pub record IsLawful : Type 0 where
    pub available_lem : (w : P.World) (d : Dev) → P.available w d ≡ pos (length (waiting w d))
    pub read_waiting :
        (w : P.World) (c d : Dev) → c ≢ d → Grows (waiting w d) (waiting (P.read w c) d)
    pub read_sent : (w : P.World) (c d : Dev) → sent (P.read w c) d ≡ sent w d
    pub bytes_lem :
        (w : P.World) (c : Dev) (n : ℕ)
        → n ≤ length (waiting w c)
        → (P.read_bytes w c n).0 ≡ take n (waiting w c)
    pub bytes_rest :
        (w : P.World) (c : Dev) (n : ℕ)
        → n ≤ length (waiting w c)
        → Grows (drop n (waiting w c)) (waiting (P.read_bytes w c n).1 c)
    pub bytes_waiting :
        (w : P.World) (c d : Dev) (n : ℕ)
        → c ≢ d
        → Grows (waiting w d) (waiting (P.read_bytes w c n).1 d)
    pub bytes_sent : (w : P.World) (c d : Dev) (n : ℕ) → sent (P.read_bytes w c n).1 d ≡ sent w d
    -- Reading at one port takes no space from another, which only grows while it sends.
    pub bytes_space :
        (w : P.World) (c d : Dev) (n : ℕ)
        → c ≢ d
        → positive (P.available_for_write w d)
          ≤ positive (P.available_for_write (P.read_bytes w c n).1 d)
    -- `availableForWrite` counts the bytes that can be written. Nothing is assumed of more.
    pub write_sent :
        (w : P.World) (c : Dev) (bytes : List ℕ)
        → length bytes ≤ positive (P.available_for_write w c)
        → sent (P.write w c bytes) c ≡ sent w c ++ bytes
    pub write_other :
        (w : P.World) (c d : Dev) (bytes : List ℕ) → c ≢ d → sent (P.write w c bytes) d ≡ sent w d
    pub write_waiting :
        (w : P.World) (c d : Dev) (bytes : List ℕ)
        → Grows (waiting w d) (waiting (P.write w c bytes) d)
    pub begin_lem : (w : P.World) (c d : Dev) (b : ℕ) → Stays w (P.begin w c b) d
    pub led_lem : (w : P.World) (b : Bool) (d : Dev) → Stays w (P.digital_write_led w b) d
    pub diag_lem : (w : P.World) (b : ℕ) (d : Dev) → d ≢ usb_diag → Stays w (P.print_diag w b) d

  -- From `w` to `v`, the bytes for `d` that waited at `c` are still there or have been written, in
  -- order, and more may have come behind them.
  abbrev pub Carries : P.World → P.World → Dev → Dev → Type 0
  Carries w v c d = Grows (sent w d ++ waiting w c) (sent v d ++ waiting v c)

pub Grows-trans : (xs ys zs : List ℕ) → Grows xs ys → Grows ys zs → Grows xs zs
Grows-trans xs ys zs (m, e) (n, f) = (m ++ n, f ∙ ap (λ l. l ++ n) e ∙ append_assoc xs m n)

pub Grows-refl : (xs : List ℕ) → Grows xs xs
Grows-refl xs = ([], sym (append-nil xs))

pub Grows-after : (front xs ys : List ℕ) → Grows xs ys → Grows (front ++ xs) (front ++ ys)
Grows-after front xs ys (m, e) = (m, ap (λ l. front ++ l) e ∙ sym (append_assoc front xs m))

pub take-drop : (n : ℕ) (xs : List ℕ) → take n xs ++ drop n xs ≡ xs
take-drop zero xs = refl
take-drop (suc n) [] = refl
take-drop (suc n) (x ∷ xs) = ap (λ l. x ∷ l) (take-drop n xs)
