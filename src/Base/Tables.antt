-- ===== src/Base/Tables.antt =====
-- A Boolean test that holds of every number under a limit, found out by running it.
use Prim.Native.Nat.{ℕ, zero, suc, ◌<◌}
use mathlib.Core.Path.{◌≡◌, subst}
use mathlib.Core.Bool.{Bool, true, false}
use mathlib.Core.Logic.{inl, inr}
use native.Mathlib.Omega.{arith}
use kmm_yocto.Base.Tests.{◌==◌, if◌then◌else◌, Bool-cases}

unfoldable pub passes : (limit : ℕ) (test : ℕ → Bool) → Bool
passes zero test = true
passes (suc last) test = let others = passes last test in if test last then others else false

pub passes_at :
    (test : ℕ → Bool) (limit i : ℕ) → i < limit → passes limit test ≡ true → test i ≡ true
unfolding passes
passes_at test zero i below ran = absurd (omega arith)
passes_at test (suc last) i below ran = elim (Bool-cases (i == last)) [
  | inl at_last ↦
      (let same : last ≡ i = ground arith in
        let held : test last ≡ true = ground arith in subst (λ k. test k ≡ true) same held)
  | inr earlier ↦ passes_at test last i (ground arith) (ground arith)
]
