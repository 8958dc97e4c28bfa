-- ===== src/CanSim/Clock.antt =====
-- `sctr_now`: a 64-bit counter read through two 32-bit registers while it runs. `counter n` is its
-- value at the n-th register read of the program, so every read may see a later value.
use kmm_yocto.Base.{
  ℕ, zero, suc, ◌+◌, ◌*◌, ◌/◌, ◌%◌, ◌^◌, ◌≤◌, ◌<◌, ◌≡◌, ◌⊎◌, inl, inr, Option, none, some, arith,
  ◌==◌, if◌then◌else◌, Bool-cases,
}

module _ (counter : ℕ → ℕ) where
  -- SCTR_CNTCV_HI and SCTR_CNTCV_LO at the n-th read.
  abbrev cntcv_hi : ℕ → ℕ
  cntcv_hi n = counter n / 2 ^ 32

  abbrev cntcv_lo : ℕ → ℕ
  cntcv_lo n = counter n % 2 ^ 32

  -- The loop from read `n` on: three reads a round. The result is the time and the next read;
  -- `none` means that the fuel ran out.
  unfoldable pub sctr_now : (fuel n : ℕ) → Option (ℕ × ℕ)
  sctr_now zero n = none
  sctr_now (suc fuel) n =
      let again = sctr_now fuel (n + 3) in
      if cntcv_hi n == cntcv_hi (n + 2)
      then some (cntcv_hi n * 2 ^ 32 + cntcv_lo (n + 1), n + 3)
      else again

  -- The loop ends within two rounds, and returns the value that the counter had when the low word
  -- of its last round was read: the two words are never torn. Assumed is that the counter does not
  -- run backwards, and advances by less than 2^32 over six reads.
  pub sctr_now_lem :
      (n : ℕ)
      → ((i : ℕ) → counter i ≤ counter (i + 1))
      → counter (n + 5) < counter n + 2 ^ 32
      → (sctr_now 2 n ≡ some (counter (n + 1), n + 3))
        ⊎ (sctr_now 2 n ≡ some (counter (n + 4), n + 6))
  unfolding sctr_now
  sctr_now_lem n mono slow = elim (Bool-cases (cntcv_hi n == cntcv_hi (n + 2))) [
    | inl same ↦ inl (ground (arith, mono n, mono (n + 1)))
    | inr torn ↦
        inr (ground (arith, mono n, mono (n + 1), mono (n + 2), mono (n + 3), mono (n + 4)))
  ]
