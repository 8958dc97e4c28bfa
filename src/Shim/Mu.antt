-- ===== src/Shim/Mu.antt =====
-- Sending over the messaging unit.
use mathlib.Core.Option
use kmm_yocto.Base.{ℕ, zero, suc, ◌+◌, ◌-◌, ◌<◌, ◌≡◌, ap, ◌∙◌, true, false, some, ◌∷◌, arith}
use kmm_yocto.Bus.{Bus, write, test_bit, did_read}
use kmm_yocto.Shim.{mu_sr, mu_tr, mu_wait, mu_send_msg}

module _ (reg : ℕ → ℕ → ℕ) (ch : ℕ) where
  -- From read `n` on, the transmit register of the channel is first empty after `m` more reads.
  abbrev pub EmptyAfter : (n m : ℕ) → Type 0
  EmptyAfter n m =
      (test_bit (reg (n + m) mu_sr) (23 - ch) ≡ true)
      × ((k : ℕ) → k < m → test_bit (reg (n + k) mu_sr) (23 - ch) ≡ false)

  mu_wait_lem :
      (m fuel : ℕ) (b : Bus)
      → EmptyAfter b.reads m
      → m < fuel
      → mu_wait reg fuel ch b ≡ some (record b { reads = b.reads + m + 1 })
  unfolding mu_wait
  mu_wait_lem m zero b (free, full) h = absurd (omega arith)
  mu_wait_lem zero (suc fuel) b (free, full) h =
      let now : test_bit (reg b.reads mu_sr) (23 - ch) ≡ true =
        ap (λ n. test_bit (reg n mu_sr) (23 - ch)) (omega arith) ∙ free in
      rw now (ap (λ n. some (record b { reads = n })) (omega arith))
  mu_wait_lem (suc m) (suc fuel) b (free, full) h =
      let now : test_bit (reg b.reads mu_sr) (23 - ch) ≡ false =
        ap (λ n. test_bit (reg n mu_sr) (23 - ch)) (omega arith) ∙ full 0 (omega arith) in
      let later =
        mu_wait_lem m fuel (did_read b)
          (
            ap (λ n. test_bit (reg n mu_sr) (23 - ch)) (omega arith) ∙ free,
            λ k l.
                ap (λ n. test_bit (reg n mu_sr) (23 - ch)) (omega arith)
                ∙ full (suc k) (omega arith),
          )
          (omega arith) in
      rw now (later ∙ ap (λ n. some (record b { reads = n })) (omega arith))

  -- If the transmit register of the channel becomes empty after `m` reads of the status, then
  -- MU_SendMsg waits for just these, and writes the message once, to the register of this channel.
  pub mu_send_msg_lem :
      (m fuel msg : ℕ) (b : Bus)
      → EmptyAfter b.reads m
      → m < fuel
      → mu_send_msg reg fuel ch msg b
        ≡ some (record { reads = b.reads + m + 1; writes = (mu_tr ch, msg) ∷ b.writes })
  unfolding mu_send_msg
  mu_send_msg_lem m fuel msg b e h =
      ap (Option.map (write (mu_tr ch) msg)) (mu_wait_lem m fuel b e h)
