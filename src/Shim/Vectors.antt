-- ===== src/Shim/Vectors.antt =====
-- The vector table.
use kmm_yocto.Base.{
  ℕ, ◌+◌, ◌<◌, ◌≡◌, refl, Bool, true, false, Option, none, some, ◌==◌, if◌then◌else◌, get_elem?,
}
use kmm_yocto.Base.Tables.{passes, passes_at}
use kmm_yocto.Shim.{
  Vector, estack, reset_handler, default_handler, mu_irq_wrapper, mu_m4_irqn, number_of_int_vectors,
  vector_table,
}

-- The vector of an interrupt is the handler of the messaging unit, or the default one.
abbrev pub is_vector : (mu : Bool) → Option Vector → Bool
is_vector true (some mu_irq_wrapper) = true
is_vector false (some default_handler) = true
is_vector _ _ = false

is_vector_sound :
    (mu : Bool) (v : Option Vector)
    → is_vector mu v ≡ true
    → v ≡ some (if mu then mu_irq_wrapper else default_handler)
is_vector_sound true none h = absurd (cc)
is_vector_sound true (some estack) h = absurd (cc)
is_vector_sound true (some reset_handler) h = absurd (cc)
is_vector_sound true (some default_handler) h = absurd (cc)
is_vector_sound true (some mu_irq_wrapper) h = refl
is_vector_sound false none h = absurd (cc)
is_vector_sound false (some estack) h = absurd (cc)
is_vector_sound false (some reset_handler) h = absurd (cc)
is_vector_sound false (some default_handler) h = refl
is_vector_sound false (some mu_irq_wrapper) h = absurd (cc)

vector_check :
    passes 128 (λ irq. is_vector (irq == mu_m4_irqn) (get_elem? vector_table (16 + irq))) ≡ true
unfolding passes vector_table
vector_check = refl

-- Of the 128 interrupts, that of the messaging unit has its handler, and every other one the default
-- handler, which never returns.
pub vector_of_irq :
    (irq : ℕ)
    → irq < number_of_int_vectors
    → get_elem? vector_table (16 + irq)
      ≡ some (if irq == mu_m4_irqn then mu_irq_wrapper else default_handler)
vector_of_irq irq h = is_vector_sound (irq == mu_m4_irqn) (get_elem? vector_table (16 + irq)) (
    passes_at (λ n. is_vector (n == mu_m4_irqn) (get_elem? vector_table (16 + n))) 128 irq h
      vector_check)
