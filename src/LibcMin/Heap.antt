-- ===== src/LibcMin/Heap.antt =====
-- The blocks of the heap.
use kmm_yocto.Base.{
  ℕ, ◌+◌, ◌-◌, ◌*◌, ◌/◌, ◌%◌, ◌^◌, ◌≤◌, ◌<◌, ◌≡◌, ◌↔◌, none, some, List, [], ◌∷◌, arith, All,
  Option-cases, inl, inr,
}
use kmm_yocto.LibcMin.{heap_size, malloc}

-- The blocks that a sequence of requests is given, with their sizes, and the last `heap_off`.
unfoldable pub blocks : List ℕ → ℕ → List (ℕ × ℕ)
blocks [] off = []
blocks (n ∷ ns) off = elim (malloc n off).0 [
  | none ↦ blocks ns (malloc n off).1
  | some p ↦ (p, n) ∷ blocks ns (malloc n off).1
]

-- The blocks lie in the heap one behind the other from `low` on, each at a multiple of 8. So no two
-- of them share a byte.
abbrev pub Laid : ℕ → List (ℕ × ℕ) → Type 0
Laid low [] = low ≤ heap_size
Laid low ((p, n) ∷ bs) = (low ≤ p) × (p % 8 ≡ 0) × Laid (p + n) bs

-- A request that cannot wrap the 32-bit sums.
abbrev pub IsModest : ℕ → Type 0
IsModest n = n < 2 ^ 31

Laid-down : (low low' : ℕ) (bs : List (ℕ × ℕ)) → low ≤ low' → Laid low' bs → Laid low bs
Laid-down low low' [] h l = omega arith
Laid-down low low' ((p, n) ∷ bs) h l = (omega (arith, l.0), l.1, l.2)

-- A modest request is granted exactly if the rounded size still fits behind `heap_off`. It is given
-- the place at `heap_off`, which then moves past the block to a multiple of 8 within the heap.
-- A refusal leaves `heap_off` as it is.
pub malloc_iff :
    (n off : ℕ)
    → n < 2 ^ 31
    → off ≤ heap_size
    → off % 8 ≡ 0
    → let (p, off') = malloc n off in
      ((p ≡ some off) ↔ (off + (n + 7) / 8 * 8 ≤ heap_size))
      × ((p ≡ none) ↔ (off' ≡ off) × (heap_size < off + (n + 7) / 8 * 8))
      × (off' ≤ heap_size)
      × (off' % 8 ≡ 0)
unfolding malloc
malloc_iff n off h k e = ground arith

granted :
    (n off : ℕ) (p : ℕ)
    → n < 2 ^ 31
    → off ≤ heap_size
    → off % 8 ≡ 0
    → (malloc n off).0 ≡ some p
    → (p ≡ off)
      × (off + n ≤ (malloc n off).1)
      × ((malloc n off).1 ≤ heap_size)
      × ((malloc n off).1 % 8 ≡ 0)
unfolding malloc
granted n off p h k e g = ground arith

refused : (n off : ℕ) → (malloc n off).0 ≡ none → (malloc n off).1 ≡ off
unfolding malloc
refused n off g = ground arith

-- For any sequence of requests below 2^31 bytes, from any multiple of 8 in the heap, the blocks
-- handed out lie in the heap one behind the other, each with its whole size, at multiples of 8.
pub blocks-Laid :
    (ns : List ℕ) (off : ℕ)
    → All IsModest ns
    → off ≤ heap_size
    → off % 8 ≡ 0
    → Laid off (blocks ns off)
unfolding blocks
blocks-Laid [] off m k e = k
blocks-Laid (n ∷ ns) off m k e = elim (Option-cases (malloc n off).0) [
  | inl g ↦ rw (blocks, g, refused n off g) (blocks-Laid ns off m.1 k e)
  | inr (p, g) ↦
      (let (at, past, within, whole) = granted n off p m.0 k e g in
        rw (blocks, g)
          (
            omega arith,
            omega arith,
            Laid-down (p + n) (malloc n off).1 (blocks ns (malloc n off).1) (omega arith)
                (blocks-Laid ns (malloc n off).1 m.1 within whole),
          ))
]

-- The sum is not guarded against the wrap of a 32-bit `size_t`: once the heap has been used, a
-- request of 2^32 minus the used bytes is granted, and makes the allocator start again at 0, so
-- that the next block lies over the first. A request of more than 2^32 - 8 bytes is granted a block
-- of no bytes at all.
pub malloc_wraps :
    (off n : ℕ)
    → 0 < off
    → off ≤ heap_size
    → off % 8 ≡ 0
    → 2 ^ 32 - 8 < n
    → n < 2 ^ 32
    → (malloc (2 ^ 32 - off) off ≡ (some off, 0)) × (malloc n off ≡ (some off, off))
unfolding malloc
malloc_wraps off n h k e l g = ground arith
