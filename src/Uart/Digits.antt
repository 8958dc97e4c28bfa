-- ===== src/Uart/Digits.antt =====
-- `uart4_put_dec`: the decimal digits of a 32-bit number.
use mathlib.Core.Option
use native.Mathlib.Nat.{pow-suc}
use kmm_yocto.Base.{
  ℕ, zero, suc, ◌+◌, ◌-◌, ◌*◌, ◌/◌, ◌%◌, ◌^◌, ◌≤◌, ◌<◌, ◌≡◌, ◌≢◌, refl, sym, ap, ap₂, ◌∙◌, true,
  some, List, [], ◌∷◌, ◌++◌, arith, ltb, ◌==◌, if◌then◌else◌, Bool-cases, inl, inr, length,
  length-append, get_elem?-eq-get_or, get_or, set, drop, replicate, All,
}
use mathlib.Core.List.{append_assoc}
use kmm_yocto.Bus.{Bus}
use kmm_yocto.Uart.{dec_loop, put_back, uart4_put_dec}
use kmm_yocto.Uart.Text.{Drains, Puts, Puts-append, uart4_putc-Puts}

-- The value of a text of digits that stands behind the number `a`.
pub value_from : ℕ → List ℕ → ℕ
value_from a [] = a
value_from a (c ∷ cs) = value_from (a * 10 + (c - b'0')) cs

abbrev pub IsDigit : ℕ → Type 0
IsDigit c = (b'0' ≤ c) × (c ≤ b'9')

-- The first digit is not 0, unless it is the only one.
abbrev pub NoPadding : List ℕ → Type 0
NoPadding [] = ⊥
NoPadding (c ∷ []) = Unit {0}
NoPadding (c ∷ d ∷ cs) = c ≢ b'0'

-- The digits of a number below 10 ^ n, the lowest first.
lowest_first : (n v : ℕ) → List ℕ
lowest_first zero v = []
lowest_first (suc n) v =
    (b'0' + v % 10) ∷ (let more = lowest_first n (v / 10) in if v / 10 == 0 then [] else more)

-- The digits of a list from the last to the first.
backwards : List ℕ → List ℕ
backwards [] = []
backwards (d ∷ ds) = backwards ds ++ (d ∷ [])

value_from-append :
    (a : ℕ) (cs : List ℕ) (d : ℕ)
    → value_from a (cs ++ (d ∷ [])) ≡ value_from a cs * 10 + (d - b'0')
unfolding value_from
value_from-append a [] d = refl
value_from-append a (c ∷ cs) d = value_from-append (a * 10 + (c - b'0')) cs d

All-append : (cs : List ℕ) (d : ℕ) → All IsDigit cs → IsDigit d → All IsDigit (cs ++ (d ∷ []))
All-append [] d h k = (k, tt)
All-append (c ∷ cs) d h k = (h.0, All-append cs d h.1 k)

NoPadding-append :
    (cs : List ℕ) (d : ℕ) → NoPadding cs → (cs ≡ b'0' ∷ [] → ⊥) → NoPadding (cs ++ (d ∷ []))
NoPadding-append [] d h k = absurd h
NoPadding-append (c ∷ []) d h k = λ e. k (ap (λ x. x ∷ []) e)
NoPadding-append (c ∷ x ∷ cs) d h k = h

-- What the printed text is.
pub record IsDecimal (v : ℕ) (cs : List ℕ) : Type 0 where
  pub worth : value_from 0 cs ≡ v
  pub digits : All IsDigit cs
  pub no_padding : NoPadding cs

IsDecimal-one : (v : ℕ) → v < 10 → IsDecimal v ((b'0' + v % 10) ∷ [])
unfolding value_from
IsDecimal-one v h = omega arith

IsDecimal-append :
    (q v : ℕ) (cs : List ℕ)
    → q ≢ 0
    → q ≡ v / 10
    → IsDecimal q cs
    → IsDecimal v (cs ++ ((b'0' + v % 10) ∷ []))
unfolding value_from
IsDecimal-append q v cs ne e d = record {
  worth = omega (arith, value_from-append 0 cs (b'0' + v % 10), d.worth);
  digits = All-append cs (b'0' + v % 10) d.digits (omega arith);
  no_padding =
      NoPadding-append cs (b'0' + v % 10) d.no_padding
        (λ only. ne (sym d.worth ∙ ap (value_from 0) only));
}

lowest_first-IsDecimal :
    (n v : ℕ) → v < 10 ^ suc n → IsDecimal v (backwards (lowest_first (suc n) v))
unfolding lowest_first backwards
lowest_first-IsDecimal zero v h =
    let small : v / 10 == 0 ≡ true = ground arith in rw small (IsDecimal-one v h)
lowest_first-IsDecimal (suc n) v h = elim (Bool-cases (v / 10 == 0)) [
  | inl small ↦ rw small (IsDecimal-one v (ground arith))
  | inr big ↦
      let r = lowest_first-IsDecimal n (v / 10) (omega (arith, pow-suc 10 (suc n))) in
      rw big (
        IsDecimal-append (v / 10) v (backwards (lowest_first (suc n) (v / 10))) (ground arith) refl
          r)
]

length-lowest_first : (n v : ℕ) → length (lowest_first n v) ≤ n
unfolding lowest_first
length-lowest_first zero v = omega arith
length-lowest_first (suc n) v = ground (arith, length-lowest_first n (v / 10))

set-append :
    (done free : List ℕ) (x d : ℕ) → set (done ++ (x ∷ free)) (length done) d ≡ done ++ (d ∷ free)
set-append [] free x d = refl
set-append (y ∷ done) free x d = ap (λ t. y ∷ t) (set-append done free x d)

pos_of_pow : (n q : ℕ) → q < 10 ^ n → q ≢ 0 → 0 < n
pos_of_pow zero q h ne = absurd (omega arith)
pos_of_pow (suc n) q h ne = omega arith

-- The loop writes the digits behind what is done, and stays in the buffer.
dec_loop_lem :
    (fuel v i : ℕ) (done free buf : List ℕ)
    → i ≡ length done
    → buf ≡ done ++ free
    → length done + length free ≡ 10
    → fuel ≡ length free
    → v < 10 ^ fuel
    → 0 < fuel
    → let ds = lowest_first fuel v in
      dec_loop fuel v i buf ≡ some (i + length ds, done ++ (ds ++ drop (length ds) free))
unfolding dec_loop lowest_first
dec_loop_lem zero v i done free buf at whole h e lt pos = absurd (omega arith)
dec_loop_lem (suc fuel) v i done [] buf at whole h e lt pos = absurd (omega arith)
dec_loop_lem (suc fuel) v i done (x ∷ free) buf at whole h e lt pos =
    let d = b'0' + v % 10 in
    let inside : ltb i 10 ≡ true = ground arith in
    let written : set buf i d ≡ done ++ (d ∷ free) =
      ap₂ (λ b k. set b k d) whole at ∙ set-append done free x d in
    rw (inside, written)
      (elim (Bool-cases (v / 10 == 0)) [
        | inl small ↦ rw small
        | inr big ↦
            let lt' : v / 10 < 10 ^ fuel = omega (arith, pow-suc 10 fuel) in
            let rest =
              dec_loop_lem fuel (v / 10) (i + 1) (done ++ (d ∷ [])) free (done ++ (d ∷ free))
                (omega (arith, length-append done (d ∷ []))) (sym (append_assoc done (d ∷ []) free))
                (omega (arith, length-append done (d ∷ []))) (omega arith) lt'
                (pos_of_pow fuel (v / 10) lt' (ground arith)) in
            rw big (rest ∙ ap₂ (λ n l. some (n, l)) (omega arith) (append_assoc done (d ∷ []) _))
      ])

-- The first `n` bytes of a buffer, from the last of them down.
abbrev from_top : List ℕ → ℕ → List ℕ
from_top buf zero = []
from_top buf (suc i) = get_or buf i 0 ∷ from_top buf i

from_top-cons : (n d : ℕ) (xs : List ℕ) → from_top (d ∷ xs) (suc n) ≡ from_top xs n ++ (d ∷ [])
from_top-cons zero d xs = refl
from_top-cons (suc n) d xs = ap (λ t. get_or xs n 0 ∷ t) (from_top-cons n d xs)

from_top-backwards : (ds rest : List ℕ) → from_top (ds ++ rest) (length ds) ≡ backwards ds
unfolding backwards
from_top-backwards [] rest = refl
from_top-backwards (d ∷ ds) rest =
    from_top-cons (length ds) d (ds ++ rest) ∙ ap (λ t. t ++ (d ∷ [])) (from_top-backwards ds rest)

module _ (reg : ℕ → ℕ → ℕ) (fuel : ℕ) (drains : Drains reg fuel) where
  put_back-Puts :
      (n : ℕ) (buf : List ℕ) (b : Bus)
      → n ≤ length buf
      → Puts (from_top buf n) b (put_back reg fuel n buf b)
  unfolding put_back Option.bind
  put_back-Puts zero buf b h = record { bus = b; returns = refl; went_out = refl }
  put_back-Puts (suc i) buf b h = rw (get_elem?-eq-get_or buf i 0 h) (
      Puts-append (get_or buf i 0 ∷ []) (from_top buf i) b (put_back reg fuel i buf)
        (uart4_putc-Puts reg fuel (get_or buf i 0) b drains)
        (λ b'. put_back-Puts i buf b' (omega arith)))

  -- If the transmitter drains, `uart4_put_dec` of a 32-bit number returns and never leaves its
  -- buffer of ten bytes. What goes out is the number in decimal: digits only, worth that number, and
  -- with no leading zero.
  pub uart4_put_dec-Puts :
      (v : ℕ) (b : Bus)
      → v < 2 ^ 32
      → (cs : List ℕ) × IsDecimal v cs × Puts cs b (uart4_put_dec reg fuel v b)
  unfolding uart4_put_dec Option.bind
  uart4_put_dec-Puts v b h =
      let ds = lowest_first 10 v in
      let zs : List ℕ = replicate 10 0 in
      let lt : v < 10 ^ 10 = omega arith in
      let loop : dec_loop 10 v 0 zs ≡ some (length ds, ds ++ drop (length ds) zs) =
        dec_loop_lem 10 v 0 [] zs zs refl refl refl refl lt (omega arith)
        ∙ ap (λ n. some (n, ds ++ drop (length ds) zs)) (omega arith) in
      let buf = ds ++ drop (length ds) zs in
      let put =
        put_back-Puts (length ds) buf b (omega (arith, length-append ds (drop (length ds) zs))) in
      (
        backwards ds,
        lowest_first-IsDecimal 9 v lt,
        rw loop (rw (from_top-backwards ds (drop (length ds) zs)) at put),
      )
