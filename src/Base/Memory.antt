-- ===== src/Base/Memory.antt =====
-- `memcpy` between two C arrays, and a store into one, with the access out of range that C leaves
-- undefined as `none`.
use Prim.Native.Nat.{ℕ, zero, suc, ◌+◌, ◌-◌, ◌≤◌, ◌<◌}
use mathlib.Core.Path.{◌≡◌, refl, ap, ◌∙◌}
use mathlib.Core.List.{List, [], ◌∷◌, ◌++◌}
use mathlib.Core.Option
use mathlib.Core.Option.{Option, none, some}
use native.Mathlib.Omega.{arith}
use mathlib.Core.Logic.{inl, inr}
use mathlib.Core.Bool.{true, ◌&&◌}
use kmm_yocto.Base.Lists.{
  length, length-append, length-take, length-drop, take, drop, set, get_or, get_or-set_self,
  get_or-set_ne,
}
use kmm_yocto.Base.Tests.{ltb, leb, ltb→lt, ◌==◌, Bool-cases, if◌then◌else◌}

-- `m[d] = v`
abbrev pub store : (d v : ℕ) → List ℕ → Option (List ℕ)
store d v m = if ltb d (length m) then some (set m d v) else none

unfoldable pub copy : (dst src : List ℕ) (n : ℕ) → Option (List ℕ)
copy dst src zero = some dst
copy [] src (suc n) = none
copy (d ∷ dst) [] (suc n) = none
copy (d ∷ dst) (s ∷ src) (suc n) = Option.map (λ out. s ∷ out) (copy dst src n)

-- In range, the first `n` bytes come from the source, and the rest of the target stays.
pub copy_lem :
    (dst src : List ℕ) (n : ℕ)
    → n ≤ length dst
    → n ≤ length src
    → copy dst src n ≡ some (take n src ++ drop n dst)
unfolding copy
copy_lem dst src zero h k = refl
copy_lem [] src (suc n) h k = absurd (omega arith)
copy_lem (d ∷ dst) [] (suc n) h k = absurd (omega arith)
copy_lem (d ∷ dst) (s ∷ src) (suc n) h k = rw (copy_lem dst src n (omega arith) (omega arith))

-- What a store does to every byte.
pub get_or-set :
    (m : List ℕ) (d v i : ℕ)
    → d < length m
    → get_or (set m d v) i 0 ≡ (if d == i then v else get_or m i 0)
get_or-set m d v i h = elim (Bool-cases (d == i)) [
  | inl same ↦ ground (arith, get_or-set_self m d v 0 h)
  | inr other ↦ rw other (get_or-set_ne m d i v 0 (ground arith))
]

-- `memcpy(dst + d, src + s, n)`
unfoldable pub blit : (dst : List ℕ) (d : ℕ) (src : List ℕ) (s n : ℕ) → Option (List ℕ)
blit dst d src s n =
    if leb (d + n) (length dst) && leb (s + n) (length src)
    then some (take d dst ++ (take n (drop s src) ++ drop (d + n) dst))
    else none

get_or-append :
    (xs ys : List ℕ) (i : ℕ)
    → get_or (xs ++ ys) i 0
      ≡ (if ltb i (length xs) then get_or xs i 0 else get_or ys (i - length xs) 0)
get_or-append [] ys i = ground arith
get_or-append (x ∷ xs) ys zero = ground arith
get_or-append (x ∷ xs) ys (suc i) = ground (arith, get_or-append xs ys i)

get_or-take : (n : ℕ) (xs : List ℕ) (i : ℕ) → i < n → get_or (take n xs) i 0 ≡ get_or xs i 0
get_or-take zero xs i h = absurd (omega arith)
get_or-take (suc n) [] i h = refl
get_or-take (suc n) (x ∷ xs) zero h = refl
get_or-take (suc n) (x ∷ xs) (suc i) h = get_or-take n xs i (omega arith)

get_or-drop : (n : ℕ) (xs : List ℕ) (i : ℕ) → get_or (drop n xs) i 0 ≡ get_or xs (n + i) 0
get_or-drop zero xs i = ap (λ k. get_or xs k 0) (omega arith)
get_or-drop (suc n) [] i = refl
get_or-drop (suc n) (x ∷ xs) i = get_or-drop n xs i ∙ ap (λ k. get_or (x ∷ xs) k 0) at
  where
    at : suc (n + i) ≡ suc n + i
    at = omega arith

-- In range, a copy changes only the bytes that it covers.
pub blit_lem :
    (dst : List ℕ) (d : ℕ) (src : List ℕ) (s n : ℕ)
    → d + n ≤ length dst
    → s + n ≤ length src
    → (out : List ℕ) × (blit dst d src s n ≡ some out)
      × (length out ≡ length dst)
      × ((i : ℕ)
          → get_or out i 0
            ≡ (if leb d i && ltb i (d + n) then get_or src (s + (i - d)) 0 else get_or dst i 0))
unfolding blit
blit_lem dst d src s n h k =
    let inside : (leb (d + n) (length dst) && leb (s + n) (length src)) ≡ true = ground arith in
    let middle = take n (drop s src) in
    let out = take d dst ++ (middle ++ drop (d + n) dst) in
    let front : length (take d dst) ≡ d = omega (arith, length-take d dst) in
    let within : length middle ≡ n = omega (arith, length-take n (drop s src), length-drop s src) in
    let rest = drop (d + n) dst in
    (
      out,
      rw inside refl,
      omega (
        arith,
        length-append (take d dst) (middle ++ rest),
        length-append middle rest,
        length-drop (d + n) dst,
      ),
      λ i. elim (Bool-cases (ltb i d)) [
        | inl before ↦
            (let there : i < d = ltb→lt i d before in
              ground
                (arith, get_or-append (take d dst) (middle ++ rest) i, get_or-take d dst i there))
        | inr on ↦ elim (Bool-cases (ltb i (d + n))) [
          | inl inner ↦
              (let there : i - d < n = ground arith in
                ground (
                  arith,
                  get_or-append (take d dst) (middle ++ rest) i,
                  get_or-append middle rest (i - d),
                  get_or-take n (drop s src) (i - d) there,
                  get_or-drop s src (i - d),
                ))
          | inr after ↦
              (let there : d + n + (i - d - n) ≡ i = ground arith in
                ground (
                  arith,
                  get_or-append (take d dst) (middle ++ rest) i,
                  get_or-append middle rest (i - d),
                  get_or-drop (d + n) dst (i - d - n),
                ))
        ]
      ],
    )
