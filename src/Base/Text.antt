-- ===== src/Base/Text.antt =====
-- The bytes of an ASCII string literal, and C strings.
use Prim.Native.Nat.{ℕ}
use Prim.Native.Char.{code}
use Prim.Native.String.{String}
use mathlib.Core.Bool.{Bool, true, false, ◌&&◌, ◌||◌}
use mathlib.Core.List.{List, [], ◌∷◌}
use mathlib.Core.Option
use mathlib.Core.Option.{Option, none, some}
use kmm_yocto.Base.Tests.{◌==◌, if◌then◌else◌}

abbrev pub codes : String → List ℕ
codes String.[] = []
codes (String.◌∷◌ c s) = code c ∷ codes s

-- The characters of a C string: those before the first zero, which must be in the buffer.
unfoldable pub c_string : List ℕ → Option (List ℕ)
c_string [] = none
c_string (c ∷ cs) =
    let more = Option.map (λ s. c ∷ s) (c_string cs) in if c == 0 then some [] else more

-- `!strcmp(a, b)`
unfoldable pub same_text : List ℕ → List ℕ → Bool
same_text [] [] = true
same_text [] (b ∷ bs) = false
same_text (a ∷ more) [] = false
same_text (a ∷ more) (b ∷ bs) = a == b && same_text more bs

-- Whether one of the arguments is `name`.
unfoldable pub has_arg : List ℕ → List (List ℕ) → Bool
has_arg name [] = false
has_arg name (a ∷ rest) = same_text a name || has_arg name rest
