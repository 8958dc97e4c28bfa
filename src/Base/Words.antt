-- ===== src/Base/Words.antt =====
-- Machine words: the wrap of each width, and little-endian fields.
use Prim.Native.Nat.{ℕ, ◌+◌, ◌*◌, ◌/◌, ◌%◌, ◌^◌, ◌<◌}
use mathlib.Core.Path.{◌≡◌}
use mathlib.Core.List.{List, [], ◌∷◌}
use native.Mathlib.Omega.{arith}
use kmm_yocto.Base.Lists.{get_or}

abbrev pub u8 : ℕ → ℕ
u8 n = n % 2 ^ 8

abbrev pub u16 : ℕ → ℕ
u16 n = n % 2 ^ 16

abbrev pub u32 : ℕ → ℕ
u32 n = n % 2 ^ 32

abbrev pub u64 : ℕ → ℕ
u64 n = n % 2 ^ 64

-- The bytes of a little-endian field, low byte first.
abbrev pub le16 : ℕ → List ℕ
le16 n = n % 256 ∷ n / 256 % 256 ∷ []

abbrev pub le32 : ℕ → List ℕ
le32 n = n % 256 ∷ n / 256 % 256 ∷ n / 65536 % 256 ∷ n / 16777216 % 256 ∷ []

-- The number that the bytes of a field stand for.
abbrev pub of_le16 : ℕ → ℕ → ℕ
of_le16 a b = a + 256 * b

abbrev pub of_le32 : ℕ → ℕ → ℕ → ℕ → ℕ
of_le32 a b c d = a + 256 * b + 65536 * c + 16777216 * d

pub of_le16-le16 : (n : ℕ) → n < 2 ^ 16 → of_le16 (n % 256) (n / 256 % 256) ≡ n
of_le16-le16 n h = omega arith

pub of_le32-le32 :
    (n : ℕ)
    → n < 2 ^ 32
    → of_le32 (n % 256) (n / 256 % 256) (n / 65536 % 256) (n / 16777216 % 256) ≡ n
of_le32-le32 n h = omega arith

-- The little-endian field at an offset of a buffer.
abbrev pub le16_at : List ℕ → ℕ → ℕ
le16_at m i = of_le16 (get_or m i 0) (get_or m (i + 1) 0)

abbrev pub le32_at : List ℕ → ℕ → ℕ
le32_at m i = of_le32 (get_or m i 0) (get_or m (i + 1) 0) (get_or m (i + 2) 0) (get_or m (i + 3) 0)
