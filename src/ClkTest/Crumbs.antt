-- ===== src/ClkTest/Crumbs.antt =====
-- The breadcrumbs tell which read hung.
use kmm_yocto.Base.{
  ℕ, zero, suc, ◌+◌, ◌-◌, ◌≤◌, ◌<◌, ◌≡◌, refl, ap, ◌∙◌, Bool, true, false, some, arith, ltb, ◌==◌,
  if◌then◌else◌, u32, Bool-cases, inl, inr,
}
use kmm_yocto.Bus.{Bus, write, dbg, peek, did_read}
use kmm_yocto.Uart.Setup.{held}
use kmm_yocto.ClkTest.{ccm_ccgr_ecspi2, ccm_ccgr_ecspi2_set, ecspi2_statreg, rounds, run, main}

-- The first read that does not return is the one with number `h`.
abbrev pub HangsAt : (alive : ℕ → Bool) → ℕ → Type 0
HangsAt alive h = ((n : ℕ) → n < h → alive n ≡ true) × (alive h ≡ false)

-- The phase marker when read `h` hangs.
abbrev pub marker : ℕ → ℕ
marker h = if h == 0 then 0xA1 else (if h == 1 then 0xA2 else 0xA3)

module _ (reg : ℕ → ℕ → ℕ) (alive : ℕ → Bool) where
  -- In the loop the counter in DBG[3] is that of the read, and DBG[0] stays.
  rounds_lem :
      (k i h : ℕ) (b : Bus)
      → b.reads ≡ i + 2
      → i + 2 ≤ h
      → h < i + 2 + k
      → HangsAt alive h
      → ((run reg alive (rounds i k) b).1 ≡ false)
        × ((run reg alive (rounds i k) b).0.reads ≡ h)
        × (held (dbg 0) (run reg alive (rounds i k) b).0.writes ≡ held (dbg 0) b.writes)
        × (held (dbg 3) (run reg alive (rounds i k) b).0.writes ≡ some (u32 (h - 2)))
  unfolding run rounds
  rounds_lem zero i h b e l u (ok, dead) = absurd (omega arith)
  rounds_lem (suc k) i h b e l u (ok, dead) = elim (Bool-cases (h == i + 2)) [
    | inl here ↦
        (let at : alive b.reads ≡ false = ap alive (ground arith) ∙ dead in
          let count : i ≡ h - 2 = ground arith in
          rw at (refl, ground arith, refl, ap (λ n. some (u32 n)) count))
    | inr later ↦
        (let at : alive b.reads ≡ true = ok b.reads (ground arith) in
          let b₁ =
            write (dbg 2) (peek reg ecspi2_statreg (write (dbg 3) (u32 i) b))
              (did_read (write (dbg 3) (u32 i) b)) in
          rw at (rounds_lem k (i + 1) h b₁ (omega arith) (ground arith) (omega arith) (ok, dead)))
  ]

  -- If a read hangs the system, in the set-up or in any round, then what the breadcrumbs hold says
  -- which one it was: DBG[0] is A1 if it was the read of the clock register, A2 if it was the first
  -- read of the SPI register, and A3 later; and then DBG[3]
  -- is the round in which it happened, and what it was at the start otherwise.
  pub main_crumbs :
      (k h : ℕ) (b : Bus)
      → b.reads ≡ 0
      → HangsAt alive h
      → h < 2 + k
      → ((main reg alive k b).1 ≡ false)
        × ((main reg alive k b).0.reads ≡ h)
        × (held (dbg 0) (main reg alive k b).0.writes ≡ some (marker h))
        × (held (dbg 3) (main reg alive k b).0.writes
            ≡ (if ltb h 2 then held (dbg 3) b.writes else some (u32 (h - 2))))
  unfolding main run
  main_crumbs k h b e (ok, dead) l = elim (Bool-cases (h == 0)) [
    | inl first ↦
        (let at : alive b.reads ≡ false = ap alive (ground arith) ∙ dead in
          rw at (refl, ground arith, ground arith, ground arith))
    | inr on ↦
        (let one : alive b.reads ≡ true = ok b.reads (ground arith) in
          elim (Bool-cases (h == 1)) [
            | inl second ↦
                (let at : alive (b.reads + 1) ≡ false = ap alive (ground arith) ∙ dead in
                  rw (one, at) (refl, ground arith, ground arith, ground arith))
            | inr more ↦
                (let two : alive (b.reads + 1) ≡ true = ok (b.reads + 1) (ground arith) in
                  let crumb = write (dbg 0) 0xA2 (
                    write (dbg 1) (reg b.reads ccm_ccgr_ecspi2)
                      (did_read (write ccm_ccgr_ecspi2_set 0x3333 (write (dbg 0) 0xA1 b)))) in
                  let b₁ =
                    write (dbg 0) 0xA3
                      (write (dbg 2) (reg (b.reads + 1) ecspi2_statreg) (did_read crumb)) in
                  let (hung, at, phase, count) =
                    rounds_lem k 0 h b₁ (omega arith) (ground arith) (omega arith) (ok, dead) in
                  rw (one, two) (hung, at, phase ∙ ground arith, count ∙ ground arith))
          ])
  ]
