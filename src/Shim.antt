-- ===== src/Shim.antt =====
-- m4/shim/fsl_device_registers.h and m4/shim/fsl_mu.h: the interrupt controller and the messaging
-- unit, through their registers; and m4/can-sim/startup.c and rsc_table.c, of which the other
-- firmwares hold copies: the vector table, and the resource table that the kernel reads.
pub mod Nvic
pub mod Mu
pub mod Interrupts
pub mod Vectors
mod Tests
use Prim.Native.Nat.{bit_and, bit_or}
use mathlib.Core.Option
use kmm_yocto.Base.{
  ℕ, zero, suc, ◌+◌, ◌-◌, ◌*◌, ◌/◌, ◌%◌, ◌^◌, Option, none, some, List, [], ◌∷◌, ◌++◌, ◌==◌,
  if◌then◌else◌, u32, le32, replicate, length,
}
use kmm_yocto.Bus.{Bus, write, test_bit, peek, did_read}

abbrev pub mu_m4_irqn : ℕ
mu_m4_irqn = 97

abbrev pub number_of_int_vectors : ℕ
number_of_int_vectors = 128

abbrev pub nvic_iser : ℕ
nvic_iser = 0xE000E100

abbrev pub nvic_icer : ℕ
nvic_icer = 0xE000E180

abbrev pub nvic_ipr : ℕ
nvic_ipr = 0xE000E400

-- `NVIC_EnableIRQ`
unfoldable pub nvic_enable_irq : ℕ → Bus → Bus
nvic_enable_irq irq b = write (nvic_iser + 4 * (irq / 32)) (2 ^ (irq % 32)) b

-- `NVIC_DisableIRQ`
unfoldable pub nvic_disable_irq : ℕ → Bus → Bus
nvic_disable_irq irq b = write (nvic_icer + 4 * (irq / 32)) (2 ^ (irq % 32)) b

-- `NVIC_SetPriority`; the registers are bytes.
unfoldable pub nvic_set_priority : (irq prio : ℕ) → Bus → Bus
nvic_set_priority irq prio b = write (nvic_ipr + irq) (prio * 16 % 256) b

-- `MU_Type` at MUB
abbrev pub mub : ℕ
mub = 0x30AB0000

abbrev pub mu_tr : ℕ → ℕ
mu_tr ch = mub + 4 * ch

abbrev pub mu_rr : ℕ → ℕ
mu_rr ch = mub + 0x10 + 4 * ch

abbrev pub mu_sr : ℕ
mu_sr = mub + 0x20

abbrev pub mu_cr : ℕ
mu_cr = mub + 0x24

-- `MU_Init`
unfoldable pub mu_init : Bus → Bus
mu_init b = write mu_cr 0 b

module _ (reg : ℕ → ℕ → ℕ) where
  -- `base->CR |= mask`
  unfoldable pub mu_enable_interrupts : (mask : ℕ) → Bus → Bus
  mu_enable_interrupts mask b = write mu_cr (bit_or (peek reg mu_cr b) mask) (did_read b)

  -- `base->CR &= ~mask`
  unfoldable pub mu_disable_interrupts : (mask : ℕ) → Bus → Bus
  mu_disable_interrupts mask b =
      write mu_cr (bit_and (peek reg mu_cr b) (2 ^ 32 - 1 - u32 mask)) (did_read b)

  -- `MU_GetStatusFlags`
  unfoldable pub mu_get_status_flags : Bus → ℕ × Bus
  mu_get_status_flags b = (peek reg mu_sr b, did_read b)

  -- `while (!(base->SR & ((1u << 23) >> ch))) ;` with fuel, for the four channels.
  unfoldable pub mu_wait : (fuel ch : ℕ) → Bus → Option Bus
  mu_wait zero ch b = none
  mu_wait (suc fuel) ch b =
      let again = mu_wait fuel ch (did_read b) in
      if test_bit (peek reg mu_sr b) (23 - ch) then some (did_read b) else again

  -- `MU_SendMsg`
  unfoldable pub mu_send_msg : (fuel ch msg : ℕ) → Bus → Option Bus
  mu_send_msg fuel ch msg b = Option.map (write (mu_tr ch) msg) (mu_wait fuel ch b)

  -- `MU_ReceiveMsgNonBlocking`
  unfoldable pub mu_receive_msg_non_blocking : (ch : ℕ) → Bus → ℕ × Bus
  mu_receive_msg_non_blocking ch b = (peek reg (mu_rr ch) b, did_read b)

-- What a vector is: the initial stack pointer or a handler.
pub data Vector : Type 0 where
  estack reset_handler default_handler mu_irq_wrapper : Vector

-- `MU_VEC`
abbrev pub mu_vec : ℕ
mu_vec = 16 + 97

unfoldable pub vector_table : List Vector
vector_table =
    estack
    ∷ reset_handler
    ∷ (replicate (mu_vec - 2) default_handler
        ++ (mu_irq_wrapper ∷ replicate (16 + 128 - (mu_vec + 1)) default_handler))

-- `struct fw_rsc_vdev_vring`
pub record Vring : Type 0 where
  pub da : ℕ
  pub align : ℕ
  pub num : ℕ
  pub notifyid : ℕ

abbrev pub vring_bytes : Vring → List ℕ
vring_bytes v = le32 v.da ++ (le32 v.align ++ (le32 v.num ++ (le32 v.notifyid ++ le32 0)))

abbrev pub vdev0_vring_base : ℕ
vdev0_vring_base = 0xB8000000

abbrev pub vring_size : ℕ
vring_size = 0x8000

abbrev pub vring0 : Vring
vring0 = record { da = vdev0_vring_base; align = 0x1000; num = 256; notifyid = 0 }

abbrev pub vring1 : Vring
vring1 = record { da = vdev0_vring_base + vring_size; align = 0x1000; num = 256; notifyid = 1 }

-- The table before `type`, with the offset of that field in it.
abbrev pub table_head : (offset : ℕ) → List ℕ
table_head offset = le32 1 ++ (le32 1 ++ (le32 0 ++ (le32 0 ++ le32 offset)))

-- `resources`, byte by byte.
unfoldable pub resources : List ℕ
resources =
    table_head (length (table_head 0))
    ++ (le32 3
        ++ (le32 7
            ++ (le32 0
                ++ (le32 (2 ^ 0)
                    ++ (le32 0
                        ++ (le32 0
                            ++ ((0 ∷ 2 ∷ 0 ∷ 0 ∷ [])
                                ++ (vring_bytes vring0 ++ vring_bytes vring1))))))))
