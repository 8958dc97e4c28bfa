-- ===== src/Uart/Setup.antt =====
-- `uart4_init`: how it ends, and what the registers hold then.
use kmm_yocto.Base.{
  ℕ, zero, suc, ◌+◌, ◌-◌, ◌*◌, ◌/◌, ◌%◌, ◌^◌, ◌≤◌, ◌<◌, ◌≡◌, refl, ap, ◌∙◌, true, Option, none,
  some, List, [], ◌∷◌, arith, ltb, ◌==◌, if◌then◌else◌, Bool-cases, inl, inr, ◌⊎◌,
}
use kmm_yocto.Bus.{Bus, write, dbg, did_read, test_bit}
use kmm_yocto.Uart.{
  ucr1, ucr2, ucr3, ufcr, ubir, ubmr, ccm_uart4_root, ccm_ccgr_uart4_set, mux_uart4_rxd,
  mux_uart4_txd, conf_uart4_rxd, conf_uart4_txd, sel_uart4_rxd, reset_limit, clock_and_pins,
  settings, reset_wait, uart4_init,
}

-- What a register holds after these writes, given newest first.
abbrev pub held : ℕ → List (ℕ × ℕ) → Option ℕ
held a [] = none
held a ((a', v) ∷ ws) = if a' == a then some v else held a ws

module _ (reg : ℕ → ℕ → ℕ) where
  -- Bounded by the limit, whatever the hardware answers; an earlier end is one that bit 0 showed.
  pub reset_wait-some :
      (left t : ℕ) (b : Bus)
      → t + left ≡ reset_limit
      → 0 < left
      → (t' : ℕ) × (b' : Bus) × (reset_wait reg left t b ≡ some (t', b'))
        × (t' ≤ reset_limit)
        × (b'.writes ≡ b.writes)
        × (t' < reset_limit → test_bit (reg (b'.reads - 1) ucr2) 0 ≡ true)
  unfolding reset_wait
  reset_wait-some zero t b e pos = absurd (omega arith)
  reset_wait-some (suc left) t b e pos = elim (Bool-cases (test_bit (reg b.reads ucr2) 0)) [
    | inl done ↦ (
      t,
      did_read b,
      rw done,
      omega arith,
      refl,
      λ _. ap (λ n. test_bit (reg n ucr2) 0) (omega arith) ∙ done,
    )
    | inr busy ↦ elim (Bool-cases (ltb (t + 1) reset_limit)) [
      | inl more ↦
          (let (t', b', r, le, w, bit) =
              reset_wait-some left (t + 1) (did_read b) (omega arith) (ground arith) in
            (t', b', rw (busy, more) r, le, w, bit))
      | inr limit ↦
          (t + 1, did_read b, rw (busy, limit) refl, omega arith, refl, λ lt. absurd (ground arith))
    ]
  ]

-- The field of `n` bits from bit `k` on.
abbrev pub field : (k n v : ℕ) → ℕ
field k n v = v / 2 ^ k % 2 ^ n

-- After these writes the register has been given a value, and the value has this field.
abbrev pub Has : List (ℕ × ℕ) → (a k n v : ℕ) → Type 0
Has ws a k n v = (w : ℕ) × (held a ws ≡ some w) × (field k n w ≡ v)

-- UART4 for 8 data bits, no parity and one stop bit, in the fields of its registers and of those of
-- the clock and the pins; `divider` is the reference divider that RFDIV stands for.
pub record IsConsole (divider : ℕ → ℕ) (ws : List (ℕ × ℕ)) : Type 0 where
  -- The root clock is on, its source is 1 (sys_pll1_80m), its dividers are 1, its gate is open.
  pub root_on : Has ws ccm_uart4_root 28 1 1
  pub root_source : Has ws ccm_uart4_root 24 3 1
  pub root_undivided : Has ws ccm_uart4_root 16 3 0 × Has ws ccm_uart4_root 0 6 0
  pub gate : Has ws ccm_ccgr_uart4_set 4 2 3
  -- Both pads are UART4 (ALT0), and the receiver listens to its pad.
  pub pads : Has ws mux_uart4_rxd 0 3 0 × Has ws mux_uart4_txd 0 3 0
  pub pads_set : (held conf_uart4_rxd ws ≡ some 0x16) × (held conf_uart4_txd ws ≡ some 0x16)
  pub listens : Has ws sel_uart4_rxd 0 2 2
  -- Enabled, out of the reset, receiver and transmitter on, RTS ignored, receiver multiplexed.
  pub on : Has ws ucr1 0 1 1
  pub no_reset : Has ws ucr2 0 1 1
  pub receives : Has ws ucr2 1 1 1
  pub transmits : Has ws ucr2 2 1 1
  pub ignores_rts : Has ws ucr2 14 1 1
  pub multiplexed : Has ws ucr3 2 1 1
  -- Eight bits, one stop bit, no parity, and not the DTE.
  pub eight_bits : Has ws ucr2 5 1 1
  pub one_stop : Has ws ucr2 6 1 0
  pub no_parity : Has ws ucr2 8 1 0
  pub dce : Has ws ufcr 6 1 0
  -- The rate, from the source through the reference divider and the two rate registers.
  pub rate :
      (fcr : ℕ) × (bir : ℕ) × (bmr : ℕ) × (held ufcr ws ≡ some fcr)
      × (held ubir ws ≡ some bir)
      × (held ubmr ws ≡ some bmr)
      × (80000000 * (bir + 1) ≡ 115200 * (divider (field 7 3 fcr) * 16 * (bmr + 1)))

module _ (reg : ℕ → ℕ → ℕ) (divider : ℕ → ℕ) (by_one : divider 5 ≡ 1) where
  settings-IsConsole :
      (t : ℕ) (b b₁ : Bus)
      → b₁.writes ≡ (clock_and_pins reg b).writes
      → IsConsole divider (settings reg (write (dbg 6) t b₁)).writes
  settings-IsConsole t b b₁ w = record {
    root_on = rw w (2 ^ 28 + 2 ^ 24, refl, refl);
    root_source = rw w (2 ^ 28 + 2 ^ 24, refl, refl);
    root_undivided = rw w ((2 ^ 28 + 2 ^ 24, refl, refl), (2 ^ 28 + 2 ^ 24, refl, refl));
    gate = rw w (0x30, refl, refl);
    pads = rw w ((0, refl, refl), (0, refl, refl));
    pads_set = rw w (refl, refl);
    listens = rw w (2, refl, refl);
    on = (0x0001, refl, refl);
    no_reset = (0x4027, refl, refl);
    receives = (0x4027, refl, refl);
    transmits = (0x4027, refl, refl);
    ignores_rts = (0x4027, refl, refl);
    multiplexed = (0x0704, refl, refl);
    eight_bits = (0x4027, refl, refl);
    one_stop = (0x4027, refl, refl);
    no_parity = (0x4027, refl, refl);
    dce = (0x0A81, refl, refl);
    rate = (0x0A81, 0x47, 0xC34, refl, refl, refl, rw by_one refl);
  }

  -- Whatever the hardware answers, `uart4_init` ends after at most 100000 polls of the reset, and
  -- leaves in DBG[6] the count, which is below the limit only if the reset bit was seen. UART4 is
  -- then, by the fields of the registers as they were last written, a console of 8 data bits, no
  -- parity and one stop bit: clock source 1 undivided and its gate open, both pads and the receive
  -- input on UART4, receiver and transmitter on. Where the value 5 of RFDIV divides by 1, the
  -- reference divider and the two rate registers give exactly 115200 baud from an 80 MHz source.
  pub uart4_init-held :
      (b : Bus)
      → (t : ℕ) × (n : ℕ) × (b' : Bus) × (uart4_init reg b ≡ some b')
        × (held (dbg 6) b'.writes ≡ some t)
        × (t ≤ reset_limit)
        × ((t ≡ reset_limit) ⊎ (test_bit (reg n ucr2) 0 ≡ true))
        × IsConsole divider b'.writes
  unfolding uart4_init
  uart4_init-held b =
      let (t, b₁, r, le, w, bit) =
        reset_wait-some reg reset_limit 0 (clock_and_pins reg b) (omega arith) (omega arith) in
      (
        t,
        b₁.reads - 1,
        settings reg (write (dbg 6) t b₁),
        rw r refl,
        refl,
        le,
        elim (Bool-cases (ltb t reset_limit)) [
          | inl early ↦ inr (bit (ground arith))
          | inr late ↦ inl (ground arith)
        ],
        settings-IsConsole t b b₁ w,
      )
