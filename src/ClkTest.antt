-- ===== src/ClkTest.antt =====
-- m4/clk-test/main.c: reads clock and SPI registers, with breadcrumbs that stay readable when a read
-- hangs the system. `alive n` says whether the n-th read of the program returns.
pub mod Crumbs
mod Tests
use kmm_yocto.Base.{ℕ, zero, suc, ◌+◌, Bool, true, false, List, [], ◌∷◌, ◌++◌, if◌then◌else◌, u32}
use kmm_yocto.Bus.{Bus, write, dbg, peek, did_read}

abbrev pub ccm_ccgr_ecspi2 : ℕ
ccm_ccgr_ecspi2 = 0x30384080

abbrev pub ccm_ccgr_ecspi2_set : ℕ
ccm_ccgr_ecspi2_set = 0x30384084

abbrev pub ecspi2_statreg : ℕ
ecspi2_statreg = 0x30830018

-- `REG32(a) = v`, and `DBG[i] = REG32(a)`.
pub data Op : Type 0 where
  put : (a v : ℕ) → Op
  keep : (i a : ℕ) → Op

-- `main` before its loop
abbrev pub prelude : List Op
prelude =
    put (dbg 0) 0xA1
    ∷ put ccm_ccgr_ecspi2_set 0x3333
    ∷ keep 1 ccm_ccgr_ecspi2
    ∷ put (dbg 0) 0xA2
    ∷ keep 2 ecspi2_statreg
    ∷ put (dbg 0) 0xA3
    ∷ []

-- `k` rounds of the loop, from the counter `i` on.
unfoldable pub rounds : (i k : ℕ) → List Op
rounds i zero = []
rounds i (suc k) = put (dbg 3) (u32 i) ∷ keep 2 ecspi2_statreg ∷ rounds (i + 1) k

module _ (reg : ℕ → ℕ → ℕ) (alive : ℕ → Bool) where
  -- The operations up to the first read that hangs; `true` if none does.
  unfoldable pub run : List Op → Bus → Bus × Bool
  run [] b = (b, true)
  run (put a v ∷ ops) b = run ops (write a v b)
  run (keep i a ∷ ops) b =
      let rest = run ops (write (dbg i) (peek reg a b) (did_read b)) in
      if alive b.reads then rest else (b, false)

  -- `main`, for `k` rounds.
  unfoldable pub main : ℕ → Bus → Bus × Bool
  main k = run (prelude ++ rounds 0 k)
