-- ===== src/Shim/Tests.antt =====
-- The messaging unit's interrupt, one message, and the tables.
use kmm_yocto.Base.{
  ℕ, ◌+◌, ◌≡◌, refl, false, not, ◌&&◌, ◌||◌, some, List, [], ◌∷◌, arith, ◌==◌, if◌then◌else◌,
  length, le32_at, ltb,
}
use kmm_yocto.Bus.{Bus}
use kmm_yocto.Base.Bits.{bit}
use kmm_yocto.Uart.Setup.{held}
use kmm_yocto.Shim.Interrupts.{Op, enable, disable, enabled, perform_all, Keeps, mu_interrupts_lem}
use kmm_yocto.Shim.{
  mu_cr, mu_init, mu_enable_interrupts, mu_disable_interrupts, nvic_enable_irq, nvic_disable_irq,
  vector_table, resources, vring0, vring1, vring_size,
}
use kmm_yocto.Shim.Nvic.{is_enabled, nvic_irq_lem}
use kmm_yocto.Shim.Mu.{EmptyAfter}

abbrev reset : Bus
reset = record { reads = 0; writes = [] }

nvic_irq_lem_example :
    (is_enabled 97 (nvic_enable_irq 97 reset).writes ≡ (97 == 97 || false))
    × (is_enabled 97 (nvic_disable_irq 97 reset).writes ≡ (not (97 == 97) && false))
nvic_irq_lem_example = nvic_irq_lem 97 97 reset (omega arith) (omega arith)

-- A control register that reads as it was last written.
abbrev cr : ℕ → ℕ → ℕ
cr n a = if n == 0 then 0 else (if n == 1 then 0xC else 0x8)

abbrev ops : List Op
ops = enable 0xC ∷ disable 0x4 ∷ enable 0x1 ∷ []

ops-Keeps : Keeps cr ops (mu_init reset)
unfolding mu_init mu_enable_interrupts mu_disable_interrupts
ops-Keeps = (omega arith, refl, (omega arith, refl, (omega arith, refl, tt)))

mu_interrupts_lem_example :
    (v : ℕ) × (held mu_cr (perform_all cr ops (mu_init reset)).writes ≡ some v)
    × (bit v 2 ≡ enabled 2 ops false)
mu_interrupts_lem_example = mu_interrupts_lem cr ops reset 2 ops-Keeps (omega arith)

-- The register of channel 1 is empty at the third read.
abbrev status : ℕ → ℕ → ℕ
status n a = if ltb n 2 then 0 else 0x400000

status-EmptyAfter : EmptyAfter status 1 0 2
status-EmptyAfter = (refl, λ k h. ground arith)

-- The tables have the sizes that the processor and the kernel expect.
sizes : (length vector_table ≡ 144) × (length resources ≡ 0x58)
unfolding vector_table resources
sizes = (refl, refl)

-- The offset leads to the type of the entry, RSC_VDEV.
offset_ok : le32_at resources (le32_at resources 16) ≡ 3
unfolding resources
offset_ok = refl

-- The second ring begins where the first ends.
rings_ok : vring0.da + vring_size ≡ vring1.da
rings_ok = refl
