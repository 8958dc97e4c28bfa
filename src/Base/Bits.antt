-- ===== src/Base/Bits.antt =====
-- The single bits of the bitwise operations.
use Prim.Native.Nat.{
  ℕ, zero, suc, ◌+◌, ◌-◌, ◌*◌, ◌/◌, ◌%◌, ◌^◌, ◌≤◌, ◌<◌, bit_and, bit_or, digits, min, max,
  bit_or-bitwise, bit_and-bitwise,
}
use native.Mathlib.Omega.{arith}
use mathlib.Core.Bool.{Bool, false, not, ◌&&◌, ◌||◌}
use mathlib.Core.Path.{◌≡◌, refl, sym, ap, ap₂, ◌∙◌}
use native.Mathlib.Nat.{div-div-eq-div-mul}
use kmm_yocto.Base.Tests.{◌==◌}

-- Bit `k` of a number.
abbrev pub bit : ℕ → ℕ → Bool
bit v k = v / 2 ^ k % 2 == 1

bit-zero : (v : ℕ) → bit v 0 ≡ (v % 2 == 1)
bit-zero v = ground arith

bit-suc : (v k : ℕ) → bit v (suc k) ≡ bit (v / 2) k
bit-suc v k =
    let twice : 2 * 2 ^ k ≡ 2 ^ suc k = omega arith in
    ap (λ n. v / n % 2 == 1) (sym twice)
    ∙ ap (λ n. n % 2 == 1) (sym (div-div-eq-div-mul v 2 (2 ^ k)))

pub none_set : (k : ℕ) → bit 0 k ≡ false
none_set zero = refl
none_set (suc k) = bit-suc 0 k ∙ none_set k

-- A digit in front.
bit_of_digits : (x r k : ℕ) → r < 2 → bit (x * 2 + r) (suc k) ≡ bit x k
bit_of_digits x r k h = bit-suc (x * 2 + r) k ∙ ap (λ v. bit v k) (omega arith)

-- What an operation on digits does to each bit: `f` on two digits, and `z` once the first number has
-- run out, act as `g` on the bits.
module _ (z : ℕ → ℕ) (f : ℕ → ℕ → ℕ) (g : Bool → Bool → Bool)
    (ends : (b k : ℕ) → bit (z b) k ≡ g false (bit b k))
    (small : (x y : ℕ) → x < 2 → y < 2 → f x y < 2)
    (acts : (x y : ℕ) → x < 2 → y < 2 → (f x y == 1) ≡ g (x == 1) (y == 1)) where
  digits-bit : (n a b k : ℕ) → a ≤ n → bit (digits z f n a b) k ≡ g (bit a k) (bit b k)
  digits-bit zero a b k h =
      let none : a ≡ 0 = omega arith in
      ends b k ∙ ap (λ v. g v (bit b k)) (sym (ap (λ c. bit c k) none ∙ none_set k))
  digits-bit (suc n) zero b k h = ends b k ∙ ap (λ v. g v (bit b k)) (sym (none_set k))
  digits-bit (suc n) (suc a) b zero h =
      let r = f (suc a % 2) (b % 2) in
      let low : r < 2 = small (suc a % 2) (b % 2) (omega arith) (omega arith) in
      let same : (digits z f n (suc a / 2) (b / 2) * 2 + r) % 2 ≡ r = omega arith in
      bit-zero (digits z f n (suc a / 2) (b / 2) * 2 + r)
      ∙ ap (λ v. v == 1) same
      ∙ acts (suc a % 2) (b % 2) (omega arith) (omega arith)
      ∙ ap₂ g (sym (bit-zero (suc a))) (sym (bit-zero b))
  digits-bit (suc n) (suc a) b (suc k) h =
      bit_of_digits (digits z f n (suc a / 2) (b / 2)) (f (suc a % 2) (b % 2)) k
        (small (suc a % 2) (b % 2) (omega arith) (omega arith))
      ∙ digits-bit n (suc a / 2) (b / 2) k (omega arith)
      ∙ ap₂ g (sym (bit-suc (suc a) k)) (sym (bit-suc b k))

pub bit-bit_or : (a b k : ℕ) → bit (bit_or a b) k ≡ (bit a k || bit b k)
bit-bit_or a b k =
    ap (λ v. bit v k) (λ i. bit_or-bitwise a b i)
    ∙ digits-bit (λ c. c) max ◌||◌ (λ c i. refl) (λ x y h i. omega arith) (λ x y h i. ground arith)
        a a b k (omega arith)

pub bit-bit_and : (a b k : ℕ) → bit (bit_and a b) k ≡ (bit a k && bit b k)
bit-bit_and a b k =
    ap (λ v. bit v k) (λ i. bit_and-bitwise a b i)
    ∙ digits-bit (λ c. zero) min ◌&&◌ (λ c i. none_set i) (λ x y h i. omega arith)
        (λ x y h i. ground arith) a a b k (omega arith)

-- The complement within `w` bits.
pub bit-complement : (w m k : ℕ) → m < 2 ^ w → k < w → bit (2 ^ w - 1 - m) k ≡ not (bit m k)
bit-complement zero m k h l = absurd (omega arith)
bit-complement (suc w) m zero h l =
    let even : 2 ^ suc w ≡ 2 * 2 ^ w = omega arith in
    bit-zero (2 ^ suc w - 1 - m) ∙ ground arith ∙ ap not (sym (bit-zero m))
bit-complement (suc w) m (suc k) h l =
    let even : 2 ^ suc w ≡ 2 * 2 ^ w = omega arith in
    let half : (2 ^ suc w - 1 - m) / 2 ≡ 2 ^ w - 1 - m / 2 = omega arith in
    bit-suc (2 ^ suc w - 1 - m) k
    ∙ ap (λ v. bit v k) half
    ∙ bit-complement w (m / 2) k (omega arith) (omega arith)
    ∙ ap not (sym (bit-suc m k))
