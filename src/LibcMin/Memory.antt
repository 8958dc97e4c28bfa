-- ===== src/LibcMin/Memory.antt =====
-- What memset and memcpy do to every byte of the memory.
use mathlib.Core.Option
use kmm_yocto.Base.{
  Bool, ℕ, zero, suc, ◌+◌, ◌-◌, ◌%◌, ◌≤◌, ◌≡◌, ◌≢◌, ◌⊎◌, refl, ◌∙◌, true, false, ◌&&◌, some, List,
  arith, ltb, leb, ◌==◌, if◌then◌else◌, length, get_or, set, length-set, get_or-set, get_or-set_ne,
  get_elem?-eq-get_or, Bool-cases, inl, inr,
}
use kmm_yocto.LibcMin.{memset, memcpy}

-- Byte `i` lies in the `n` bytes from `d` on.
abbrev pub covers : (d n i : ℕ) → Bool
covers d n i = leb d i && ltb i (d + n)

-- In range, memset returns, writes the byte `c` modulo 256 to its `n` bytes, and changes no other.
pub memset_lem :
    (n d c : ℕ) (m : List ℕ)
    → d + n ≤ length m
    → (m' : List ℕ) × (memset n d c m ≡ some m')
      × (length m' ≡ length m)
      × ((i : ℕ) → get_or m' i 0 ≡ (if covers d n i then c % 256 else get_or m i 0))
unfolding memset Option.bind
memset_lem zero d c m h = (m, refl, refl, λ i. ground arith)
memset_lem (suc n) d c m h =
    let m₁ = set m d (c % 256) in
    let (m', ran, whole, bytes) =
      memset_lem n (d + 1) c m₁ (omega (arith, length-set m d (c % 256))) in
    let inside : ltb d (length m) ≡ true = ground arith in
    (
      m',
      rw inside ran,
      whole ∙ length-set m d (c % 256),
      λ i. bytes i ∙ ground (arith, get_or-set m d (c % 256) i (omega arith)),
    )

-- Byte `i` after the first step of a memcpy and the later ones.
copied_byte :
    (n d s i : ℕ) (m : List ℕ)
    → d + suc n ≤ length m
    → (d ≤ s) ⊎ (s + suc n ≤ d)
    → let m₁ = set m d (get_or m s 0) in
      (if covers (d + 1) n i then get_or m₁ (s + 1 + (i - (d + 1))) 0 else get_or m₁ i 0)
      ≡ (if covers d (suc n) i then get_or m (s + (i - d)) 0 else get_or m i 0)
copied_byte n d s i m h apart = elim (Bool-cases (covers (d + 1) n i)) [
  | inl later ↦
      (let past : d + 1 ≤ i = ground arith in
        let here : covers d (suc n) i ≡ true = ground arith in
        let at : s + 1 + (i - (d + 1)) ≡ s + (i - d) = omega arith in
        let other : d ≢ s + (i - d) = ground arith in
        rw (later, here, at) (get_or-set_ne m d (s + (i - d)) (get_or m s 0) 0 other))
  | inr outside ↦ rw outside (elim (Bool-cases (d == i)) [
    | inl first ↦
        (let here : covers d (suc n) i ≡ true = ground arith in
          let at : s + (i - d) ≡ s = ground arith in
          rw (here, at) (get_or-set m d (get_or m s 0) i (omega arith) ∙ rw first refl))
    | inr other ↦
        (let away : covers d (suc n) i ≡ false = ground arith in
          rw away (get_or-set_ne m d i (get_or m s 0) 0 (ground arith)))
  ])
]

-- If both ranges lie in the memory and the target does not begin inside the source, memcpy returns,
-- the target then holds what the source held, and no other byte has changed.
pub memcpy_lem :
    (n d s : ℕ) (m : List ℕ)
    → d + n ≤ length m
    → s + n ≤ length m
    → (d ≤ s) ⊎ (s + n ≤ d)
    → (m' : List ℕ) × (memcpy n d s m ≡ some m')
      × (length m' ≡ length m)
      × ((i : ℕ)
          → get_or m' i 0 ≡ (if covers d n i then get_or m (s + (i - d)) 0 else get_or m i 0))
unfolding memcpy Option.bind
memcpy_lem zero d s m h k apart = (m, refl, refl, λ i. ground arith)
memcpy_lem (suc n) d s m h k apart =
    let v = get_or m s 0 in
    let m₁ = set m d v in
    let (m', ran, whole, bytes) =
      memcpy_lem n (d + 1) (s + 1) m₁ (omega (arith, length-set m d v))
        (omega (arith, length-set m d v)) (ground arith) in
    let inside : ltb d (length m) ≡ true = ground arith in
    (
      m',
      rw (get_elem?-eq-get_or m s 0 (omega arith)) (rw inside ran),
      whole ∙ length-set m d v,
      λ i. bytes i ∙ copied_byte n d s i m h apart,
    )
