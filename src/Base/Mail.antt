-- ===== src/Base/Mail.antt =====
-- What rpmsg brings to an address of what a firmware has handed to `rpmsg_lite_send`.
use mathlib.Core.List.{List, [], ◌∷◌, ◌++◌, map}
use Prim.Native.Nat.{ℕ}
use native.Mathlib.Omega.{arith}
use mathlib.Core.Bool.{true, ◌&&◌}
use mathlib.Core.Path.{◌≡◌, refl, ◌∙◌}
use kmm_yocto.Base.Tests.{◌==◌, if◌then◌else◌}
use kmm_yocto.Base.Int.{ℤ, pos, is_zero}
use kmm_yocto.Base.Lists.{onto}

module _ (send : List (ℕ × List ℕ) → ℕ → List ℕ → ℤ) where
  -- The messages to `me` that a send has accepted, oldest first, then `later`; `out` is newest first.
  abbrev pub mail : (me : ℕ) (out : List (ℕ × List ℕ)) (later : List (List ℕ)) → List (List ℕ)
  mail me [] later = later
  mail me ((to, m) ∷ out) later =
      mail me out (if is_zero (send out to m) && (to == me) then m ∷ later else later)

  -- When every send is accepted, all that is sent to `me` arrives, in order.
  pub mail-onto {ℓ} :
      {A : Type ℓ} (f : A → List ℕ)
      → ((out : List (ℕ × List ℕ)) (to : ℕ) (m : List ℕ) → send out to m ≡ pos 0)
      → (me : ℕ) (xs : List A) (l : List (ℕ × List ℕ)) (later : List (List ℕ))
      → mail me (onto (map (λ x. (me, f x)) xs) l) later ≡ mail me l (map f xs ++ later)
  mail-onto f accepts me [] l later = refl
  mail-onto f accepts me (x ∷ xs) l later =
      let mine : me == me ≡ true = ground arith in
      mail-onto f accepts me xs ((me, f x) ∷ l) later ∙ rw (accepts l me (f x), mine) refl
