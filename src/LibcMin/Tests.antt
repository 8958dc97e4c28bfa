-- ===== src/LibcMin/Tests.antt =====
-- The C library on small memories.
use mathlib.Core.Option
use kmm_yocto.Base.{ℕ, ◌-◌, ◌^◌, ◌≡◌, refl, none, some, List, [], ◌∷◌, arith, codes}
use kmm_yocto.LibcMin.{malloc, memset, memcpy, strncpy, pad_zeros}
use kmm_yocto.LibcMin.Heap.{blocks, Laid, blocks-Laid}
use kmm_yocto.LibcMin.Strings.{ended}

three_blocks : blocks (100 ∷ 16300 ∷ 24 ∷ []) 0 ≡ (0, 100) ∷ (104, 24) ∷ []
unfolding blocks malloc
three_blocks = refl

blocks-Laid_example : Laid 0 (blocks (100 ∷ 16300 ∷ 24 ∷ []) 0)
blocks-Laid_example = blocks-Laid (100 ∷ 16300 ∷ 24 ∷ []) 0 (ground arith) (omega arith) refl

-- Requests whose sum with the used bytes wraps are granted.
wrapped_blocks :
    (malloc (2 ^ 32 - 104) 104 ≡ (some 104, 0)) × (malloc (2 ^ 32 - 1) 104 ≡ (some 104, 104))
unfolding malloc
wrapped_blocks = (refl, refl)

abbrev six : List ℕ
six = 1 ∷ 2 ∷ 3 ∷ 4 ∷ 5 ∷ 6 ∷ []

-- The ranges overlap, and the target begins first.
moved : memcpy 4 0 2 six ≡ some (3 ∷ 4 ∷ 5 ∷ 6 ∷ 5 ∷ 6 ∷ [])
unfolding memcpy Option.bind
moved = refl

behind_the_end : memset 3 4 0 six ≡ none
unfolding memset Option.bind
behind_the_end = refl

padded_copy : strncpy 4 1 (ended (codes "hi") []) six ≡ some (1 ∷ b'h' ∷ b'i' ∷ 0 ∷ 0 ∷ 6 ∷ [])
unfolding strncpy pad_zeros Option.bind
padded_copy = refl
