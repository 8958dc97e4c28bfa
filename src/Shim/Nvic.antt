-- ===== src/Shim/Nvic.antt =====
-- Which interrupts are enabled.
use kmm_yocto.Base.{
  ℕ, ◌+◌, ◌*◌, ◌/◌, ◌%◌, ◌^◌, ◌<◌, ◌≡◌, refl, sym, Bool, true, false, not, ◌&&◌, ◌||◌, List, [],
  ◌∷◌, arith, ◌==◌, if◌then◌else◌, Bool-cases, inl, inr,
}
use kmm_yocto.Base.Tables.{passes, passes_at}
use kmm_yocto.Bus.{Bus, test_bit}
use kmm_yocto.Shim.{nvic_iser, nvic_icer, nvic_enable_irq, nvic_disable_irq, number_of_int_vectors}

-- Whether an interrupt is enabled after these writes, newest first: a bit written to its place in
-- the set registers enables it, one in the clear registers disables it.
abbrev pub is_enabled : (irq : ℕ) → List (ℕ × ℕ) → Bool
is_enabled irq [] = false
is_enabled irq ((a, v) ∷ ws) =
    if a == nvic_iser + 4 * (irq / 32) && test_bit v (irq % 32)
    then true
    else (if a == nvic_icer + 4 * (irq / 32) && test_bit v (irq % 32)
        then false
        else is_enabled irq ws)

same_bool : Bool → Bool → Bool
same_bool true b = b
same_bool false b = not b

same_bool_eq : (a b : Bool) → same_bool a b ≡ true → a ≡ b
unfolding same_bool
same_bool_eq true true h = refl
same_bool_eq true false h = sym h
same_bool_eq false true h = h
same_bool_eq false false h = refl

power_table : passes 32 (λ a. passes 32 (λ c. same_bool (test_bit (2 ^ a) c) (a == c))) ≡ true
unfolding passes same_bool
power_table = refl

-- The bits of a power of two.
test_bit-power : (a c : ℕ) → a < 32 → c < 32 → test_bit (2 ^ a) c ≡ (a == c)
test_bit-power a c h k = same_bool_eq _ _ (
    passes_at (λ c. same_bool (test_bit (2 ^ a) c) (a == c)) 32 c k
      (passes_at (λ a. passes 32 (λ c. same_bool (test_bit (2 ^ a) c) (a == c))) 32 a h
        power_table))

-- Enabling an interrupt enables this one, disabling it disables this one, and neither changes any
-- other of the 128.
pub nvic_irq_lem :
    (i j : ℕ) (b : Bus)
    → i < number_of_int_vectors
    → j < number_of_int_vectors
    → (is_enabled j (nvic_enable_irq i b).writes ≡ (i == j || is_enabled j b.writes))
      × (is_enabled j (nvic_disable_irq i b).writes ≡ (not (i == j) && is_enabled j b.writes))
unfolding nvic_enable_irq nvic_disable_irq
nvic_irq_lem i j b h k =
    let bit = test_bit-power (i % 32) (j % 32) (omega arith) (omega arith) in
    elim (Bool-cases (i == j)) [
      | inl same ↦ rw bit (ground arith, ground arith)
      | inr other ↦ rw bit (ground arith, ground arith)
    ]
