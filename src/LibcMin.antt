-- ===== src/LibcMin.antt =====
-- m4/shim/libc_min.c: the few C library functions that rpmsg-lite needs on the M-core. `size_t` has
-- 32 bits there. Memory that a function writes is one list of bytes, and its pointers are indices;
-- a string that is only read is the list of bytes from its pointer to the end of its object. An
-- access out of range gives `none`. The functions that return their first argument are given
-- without that result.
pub mod Heap
pub mod Memory
pub mod Strings
mod Tests
use mathlib.Core.Option
use kmm_yocto.Base.{
  store, ℕ, zero, suc, ◌+◌, ◌-◌, ◌*◌, ◌/◌, ◌%◌, ◌^◌, Bool, true, false, ◌&&◌, not, Option, none,
  some, List, [], ◌∷◌, ltb, leb, ◌==◌, if◌then◌else◌, u32, length, get_elem?, set, ℤ, pos, negsuc,
}

-- `sizeof(heap)`
abbrev pub heap_size : ℕ
heap_size = 16 * 1024

-- `(size + 7) & ~(size_t)7`
abbrev pub rounded : ℕ → ℕ
rounded size = u32 (size + 7) / 8 * 8

-- `malloc`: from `heap_off`, the index of the block, or null, and the new `heap_off`.
unfoldable pub malloc : (size heap_off : ℕ) → Option ℕ × ℕ
malloc size heap_off =
    if ltb heap_size (u32 (heap_off + rounded size))
    then (none, heap_off)
    else (some heap_off, u32 (heap_off + rounded size))

-- `free` does nothing.
abbrev pub free : (p heap_off : ℕ) → ℕ
free p heap_off = heap_off

-- `memset`
unfoldable pub memset : (n dst c : ℕ) → List ℕ → Option (List ℕ)
unfolding Option.bind
memset zero dst c m = some m
memset (suc n) dst c m = Option.bind (store dst (c % 256) m) (memset n (dst + 1) c)

-- `memcpy`, byte by byte from the front.
unfoldable pub memcpy : (n dst src : ℕ) → List ℕ → Option (List ℕ)
unfolding Option.bind
memcpy zero dst src m = some m
memcpy (suc n) dst src m =
    Option.bind (get_elem? m src) (λ v. Option.bind (store dst v m) (memcpy n (dst + 1) (src + 1)))

-- The difference of two bytes as an `int`.
abbrev pub difference : ℕ → ℕ → ℤ
difference a b = if leb b a then pos (a - b) else negsuc (b - a - 1)

-- `memcmp`
unfoldable pub memcmp : (n : ℕ) (a b : List ℕ) → Option ℤ
memcmp zero a b = some (pos 0)
memcmp (suc n) (x ∷ a) (y ∷ b) =
    let rest = memcmp n a b in if not (x == y) then some (difference x y) else rest
memcmp (suc n) [] b = none
memcmp (suc n) (x ∷ a) [] = none

-- `strlen`
unfoldable pub strlen : List ℕ → Option ℕ
strlen [] = none
strlen (c ∷ s) = let rest = Option.map (λ n. n + 1) (strlen s) in if c == 0 then some 0 else rest

-- The second loop of `strncpy`.
unfoldable pub pad_zeros : (n d : ℕ) → List ℕ → Option (List ℕ)
unfolding Option.bind
pad_zeros zero d m = some m
pad_zeros (suc n) d m = Option.bind (store d 0 m) (pad_zeros n (d + 1))

-- `strncpy`
unfoldable pub strncpy : (n dst : ℕ) (src m : List ℕ) → Option (List ℕ)
unfolding Option.bind
strncpy zero dst src m = some m
strncpy (suc n) dst [] m = none
strncpy (suc n) dst (c ∷ src) m =
    let rest = Option.bind (store dst c m) (strncpy n (dst + 1) src) in
    if c == 0 then pad_zeros (suc n) dst m else rest

-- `strcmp`
unfoldable pub strcmp : (a b : List ℕ) → Option ℤ
strcmp [] b = none
strcmp (x ∷ a) [] = none
strcmp (x ∷ a) (y ∷ b) =
    let rest = strcmp a b in if not (x == 0) && (x == y) then rest else some (difference x y)

-- `strncmp`
unfoldable pub strncmp : (n : ℕ) (a b : List ℕ) → Option ℤ
strncmp zero a b = some (pos 0)
strncmp (suc n) [] b = none
strncmp (suc n) (x ∷ a) [] = none
strncmp (suc n) (x ∷ a) (y ∷ b) =
    let rest = strncmp n a b in
    if not (x == y) then some (difference x y) else (if x == 0 then some (difference x y) else rest)
