-- ===== src/Bus.antt =====
-- The memory-mapped registers of the M-core firmware under m4/: `REG32(a)` and the breadcrumbs
-- `DBG[i]`. A write goes to a log, newest first. What a read returns is chosen by the hardware:
-- `reg n a` is the value that the n-th read of the program finds at address `a`.
use kmm_yocto.Base.{
  ℕ, zero, suc, ◌+◌, ◌*◌, ◌/◌, ◌%◌, ◌^◌, Bool, Option, none, some, List, ◌∷◌, ◌==◌, if◌then◌else◌,
}

pub record Bus : Type 0 where
  pub reads : ℕ
  pub writes : List (ℕ × ℕ)

-- `REG32(a) = v`
abbrev pub write : (a v : ℕ) → Bus → Bus
write a v b = record b { writes = (a, v) ∷ b.writes }

-- The address of `DBG[i]`.
abbrev pub dbg : ℕ → ℕ
dbg i = 0x20000100 + 4 * i

-- Bit `k` of a register.
abbrev pub test_bit : ℕ → ℕ → Bool
test_bit v k = v / 2 ^ k % 2 == 1

abbrev pub did_read : Bus → Bus
did_read b = record b { reads = b.reads + 1 }

module _ (reg : ℕ → ℕ → ℕ) where
  -- The value that a read of `a` finds now.
  abbrev pub peek : ℕ → Bus → ℕ
  peek a b = reg b.reads a

  -- `while (REG32(a) & (1u << k)) ;` with fuel.
  unfoldable pub poll_clear : (fuel a k : ℕ) → Bus → Option Bus
  poll_clear zero a k b = none
  poll_clear (suc fuel) a k b =
      let again = poll_clear fuel a k (did_read b) in
      if test_bit (peek a b) k then again else some (did_read b)
