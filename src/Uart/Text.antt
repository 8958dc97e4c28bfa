-- ===== src/Uart/Text.antt =====
-- What the console functions write to the transmit register.
use mathlib.Core.Option
use mathlib.Core.List.{map-append}
use kmm_yocto.Base.{
  ℕ, zero, suc, ◌+◌, ◌%◌, ◌<◌, ◌≡◌, refl, sym, ap, ◌∙◌, false, Option, some, List, [], ◌∷◌, ◌++◌,
  map, arith, ◌==◌, if◌then◌else◌, Bool-cases, inl, inr, onto, onto-append,
}
use kmm_yocto.Bus.{Bus, write, did_read, test_bit, poll_clear}
use kmm_yocto.Uart.{utxd, uts, txfull, uart4_putc, uart4_puts}

-- Every wait of the program for the transmitter ends within `fuel` reads of the status register.
abbrev pub Drains : (ℕ → ℕ → ℕ) → ℕ → Type 0
Drains reg fuel = (n : ℕ) → (m : ℕ) × (m < fuel) × (test_bit (reg (n + m) uts) txfull ≡ false)

-- The text with a carriage return before each line feed.
unfoldable pub crlf : List ℕ → List ℕ
crlf [] = []
crlf (c ∷ s) = if c == b'\n' then b'\r' ∷ c ∷ crlf s else c ∷ crlf s

-- A byte on its way to the line.
abbrev pub sent : ℕ → ℕ × ℕ
sent c = (utxd, c % 256)

-- The result is a bus on which these bytes have gone out after what went before.
pub record Puts (cs : List ℕ) (b : Bus) (r : Option Bus) : Type 0 where
  pub bus : Bus
  pub returns : r ≡ some bus
  pub went_out : bus.writes ≡ onto (map sent cs) b.writes

-- One piece of output after another.
pub Puts-append :
    (xs ys : List ℕ) (b : Bus) {r : Option Bus} (f : Bus → Option Bus)
    → Puts xs b r
    → ((b' : Bus) → Puts ys b' (f b'))
    → Puts (xs ++ ys) b (Option.bind r f)
unfolding Option.bind
Puts-append xs ys b f p q =
    let p' = q p.bus in
    record {
      bus = p'.bus;
      returns = rw p.returns p'.returns;
      went_out =
          p'.went_out
          ∙ ap (onto (map sent ys)) p.went_out
          ∙ sym (
              ap (λ l. onto l b.writes) (map-append sent xs ys)
              ∙ onto-append (map sent xs) (map sent ys) b.writes);
    }

module _ (reg : ℕ → ℕ → ℕ) (fuel : ℕ) where
  poll_clear-some :
      (m f a k : ℕ) (b : Bus)
      → m < f
      → test_bit (reg (b.reads + m) a) k ≡ false
      → (b' : Bus) × (poll_clear reg f a k b ≡ some b') × (b'.writes ≡ b.writes)
  unfolding poll_clear
  poll_clear-some m zero a k b h free = absurd (omega arith)
  poll_clear-some zero (suc f) a k b h free =
      let now : test_bit (reg b.reads a) k ≡ false =
        ap (λ n. test_bit (reg n a) k) (omega arith) ∙ free in
      (did_read b, rw now, refl)
  poll_clear-some (suc m) (suc f) a k b h free = elim (Bool-cases (test_bit (reg b.reads a) k)) [
    | inl full ↦
        (let later : test_bit (reg (b.reads + 1 + m) a) k ≡ false =
            ap (λ n. test_bit (reg n a) k) (omega arith) ∙ free in
          let (b', e, w) = poll_clear-some m f a k (did_read b) (omega arith) later in
          (b', rw full e, w))
    | inr now ↦ (did_read b, rw now refl, refl)
  ]

  pub uart4_putc-Puts :
      (c : ℕ) (b : Bus) → Drains reg fuel → Puts (c ∷ []) b (uart4_putc reg fuel c b)
  unfolding uart4_putc
  uart4_putc-Puts c b d =
      let (m, below, free) = d b.reads in
      let (b', e, w) = poll_clear-some m fuel uts txfull b below free in
      record { bus = write utxd (c % 256) b'; returns = rw e; went_out = rw w }

  -- If the transmitter drains, `uart4_puts` returns, and exactly the bytes of the text go out, in
  -- order, with a carriage return before each line feed.
  pub uart4_puts-Puts :
      (s : List ℕ) (b : Bus) → Drains reg fuel → Puts (crlf s) b (uart4_puts reg fuel s b)
  unfolding uart4_puts crlf
  uart4_puts-Puts [] b d = record { bus = b; returns = refl; went_out = refl }
  uart4_puts-Puts (c ∷ s) b d = elim (Bool-cases (c == b'\n')) [
    | inl feed ↦ rw feed (
        Puts-append (b'\r' ∷ c ∷ []) (crlf s) b (uart4_puts reg fuel s)
          (Puts-append (b'\r' ∷ []) (c ∷ []) b (uart4_putc reg fuel c) (uart4_putc-Puts b'\r' b d)
            (λ b'. uart4_putc-Puts c b' d))
          (λ b'. uart4_puts-Puts s b' d))
    | inr other ↦ rw other (
        Puts-append (c ∷ []) (crlf s) b (uart4_puts reg fuel s) (uart4_putc-Puts c b d)
          (λ b'. uart4_puts-Puts s b' d))
  ]
