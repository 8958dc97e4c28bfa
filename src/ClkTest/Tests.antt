-- ===== src/ClkTest/Tests.antt =====
-- A system that hangs at the first read of the SPI register, and one that hangs in the loop.
use kmm_yocto.Base.{ℕ, ◌-◌, ◌≡◌, refl, Bool, false, none, some, [], arith, ltb, if◌then◌else◌, u32}
use kmm_yocto.Bus.{Bus, dbg}
use kmm_yocto.Uart.Setup.{held}
use kmm_yocto.ClkTest.{run, rounds, main}
use kmm_yocto.ClkTest.Crumbs.{HangsAt, marker, main_crumbs}

abbrev zeros : ℕ → ℕ → ℕ
zeros n a = 0

abbrev reset : Bus
reset = record { reads = 0; writes = [] }

-- The reads below `h` return.
abbrev below : ℕ → ℕ → Bool
below h n = ltb n h

below-HangsAt : (h : ℕ) → HangsAt (below h) h
below-HangsAt h = (λ n l. ground arith, ground arith)

in_round_2 : held (dbg 3) (main zeros (below 4) 9 reset).0.writes ≡ some 2
unfolding main run rounds
in_round_2 = refl

main_crumbs_example :
    ((main zeros (below 4) 9 reset).1 ≡ false)
    × ((main zeros (below 4) 9 reset).0.reads ≡ 4)
    × (held (dbg 0) (main zeros (below 4) 9 reset).0.writes ≡ some (marker 4))
    × (held (dbg 3) (main zeros (below 4) 9 reset).0.writes
        ≡ (if ltb 4 2 then none else some (u32 (4 - 2))))
main_crumbs_example = main_crumbs zeros (below 4) 9 4 reset refl (below-HangsAt 4) (omega arith)
