-- ===== src/Shim/Interrupts.antt =====
-- Which interrupts of the messaging unit are enabled, after any calls.
use kmm_yocto.Base.{
  ℕ, ◌-◌, ◌^◌, ◌<◌, ◌≡◌, refl, ap, ◌∙◌, Bool, false, not, ◌&&◌, ◌||◌, some, List, [], ◌∷◌, arith,
  u32,
}
use kmm_yocto.Base.Bits.{bit, none_set, bit-bit_or, bit-bit_and, bit-complement}
use kmm_yocto.Bus.{Bus, peek}
use kmm_yocto.Uart.Setup.{held}
use kmm_yocto.Shim.{mu_cr, mu_init, mu_enable_interrupts, mu_disable_interrupts}

pub data Op : Type 0 where
  enable disable : (mask : ℕ) → Op

-- A mask is a 32-bit word.
abbrev pub IsWord : Op → Type 0
IsWord (enable mask) = mask < 2 ^ 32
IsWord (disable mask) = mask < 2 ^ 32

-- Whether the interrupt of bit `i` is enabled after these calls, if it was so before.
abbrev pub enabled : (i : ℕ) → List Op → Bool → Bool
enabled i [] on = on
enabled i (enable mask ∷ os) on = enabled i os (on || bit mask i)
enabled i (disable mask ∷ os) on = enabled i os (on && not (bit mask i))

module _ (reg : ℕ → ℕ → ℕ) where
  abbrev pub perform : Op → Bus → Bus
  perform (enable mask) b = mu_enable_interrupts reg mask b
  perform (disable mask) b = mu_disable_interrupts reg mask b

  abbrev pub perform_all : List Op → Bus → Bus
  perform_all [] b = b
  perform_all (o ∷ os) b = perform_all os (perform o b)

  -- The masks are words, and each call reads from the control register what was last written to it.
  abbrev pub Keeps : List Op → Bus → Type 0
  Keeps [] b = Unit {0}
  Keeps (o ∷ os) b =
      IsWord o × (held mu_cr b.writes ≡ some (peek reg mu_cr b)) × Keeps os (perform o b)

  enable-bit :
      (mask i : ℕ) (b : Bus)
      → (v : ℕ) × (held mu_cr (mu_enable_interrupts reg mask b).writes ≡ some v)
        × (bit v i ≡ (bit (peek reg mu_cr b) i || bit mask i))
  unfolding mu_enable_interrupts
  enable-bit mask i b = (_, refl, bit-bit_or (peek reg mu_cr b) mask i)

  disable-bit :
      (mask i : ℕ) (b : Bus)
      → mask < 2 ^ 32
      → i < 32
      → (v : ℕ) × (held mu_cr (mu_disable_interrupts reg mask b).writes ≡ some v)
        × (bit v i ≡ (bit (peek reg mu_cr b) i && not (bit mask i)))
  unfolding mu_disable_interrupts
  disable-bit mask i b word small =
      let same : u32 mask ≡ mask = omega arith in
      (
        _,
        refl,
        bit-bit_and (peek reg mu_cr b) (2 ^ 32 - 1 - u32 mask) i
            ∙ ap (λ m. bit (peek reg mu_cr b) i && bit (2 ^ 32 - 1 - m) i) same
            ∙ ap (λ c. bit (peek reg mu_cr b) i && c) (bit-complement 32 mask i word small),
      )

  run_enabled :
      (os : List Op) (b : Bus) (v i : ℕ)
      → held mu_cr b.writes ≡ some v
      → Keeps os b
      → i < 32
      → (v' : ℕ) × (held mu_cr (perform_all os b).writes ≡ some v')
        × (bit v' i ≡ enabled i os (bit v i))
  run_enabled [] b v i h k small = (v, h, refl)
  run_enabled (enable mask ∷ os) b v i h (word, read, k) small =
      let (v₁, h₁, set) = enable-bit mask i b in
      let was : peek reg mu_cr b ≡ v = ground (arith, h, read) in
      let (v₂, h₂, rest) = run_enabled os (perform (enable mask) b) v₁ i h₁ k small in
      (v₂, h₂, rest ∙ ap (enabled i os) (set ∙ ap (λ c. bit c i || bit mask i) was))
  run_enabled (disable mask ∷ os) b v i h (word, read, k) small =
      let (v₁, h₁, set) = disable-bit mask i b word small in
      let was : peek reg mu_cr b ≡ v = ground (arith, h, read) in
      let (v₂, h₂, rest) = run_enabled os (perform (disable mask) b) v₁ i h₁ k small in
      (v₂, h₂, rest ∙ ap (enabled i os) (set ∙ ap (λ c. bit c i && not (bit mask i)) was))

  -- After MU_Init and any sequence of MU_EnableInterrupts and MU_DisableInterrupts with 32-bit masks,
  -- where the control register reads as it was last written: an interrupt is enabled in the register
  -- if and only if it was enabled by a mask with its bit and not disabled by one since.
  pub mu_interrupts_lem :
      (os : List Op) (b : Bus) (i : ℕ)
      → Keeps os (mu_init b)
      → i < 32
      → (v : ℕ) × (held mu_cr (perform_all os (mu_init b)).writes ≡ some v)
        × (bit v i ≡ enabled i os false)
  unfolding mu_init
  mu_interrupts_lem os b i k small =
      let (v, h, e) = run_enabled os (mu_init b) 0 i refl k small in
      (v, h, e ∙ ap (enabled i os) (none_set i))
