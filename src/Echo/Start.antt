-- ===== src/Echo/Start.antt =====
-- The start of the echo firmware: its UART functions, and main up to the loop. Whether rpmsg-lite
-- comes up is a parameter; the wait for the link, which has no bound, is taken to end. The two calls
-- that create and announce the endpoint return nothing that the program reads, and are left out.
use mathlib.Core.Option
use mathlib.Core.Path.{subst, fun_ext}
use kmm_yocto.Base.{
  ℕ, ◌+◌, ◌%◌, ◌^◌, ◌≡◌, refl, sym, ap, ◌∙◌, Bool, true, false, Option, some, List, [], ◌∷◌, ◌++◌,
  map, arith, ◌==◌, if◌then◌else◌, codes, onto, Bool-cases, inl, inr,
}
use kmm_yocto.Bus.{Bus, write, dbg, poll_clear}
use kmm_yocto.Uart
use kmm_yocto.Uart.{
  ccm_uart4_root, ccm_ccgr_uart4_set, sel_uart4_rxd, utxd, ucr1, ucr2, ucr3, ufcr, ubir, ubmr, uts,
  reset_limit, reset_wait, uart4_putc,
}
use kmm_yocto.Uart.Setup.{held, reset_wait-some}
use kmm_yocto.Uart.Text.{Drains, crlf, Puts, sent, uart4_puts-Puts}

abbrev pub ccm_ccgr_mu_set : ℕ
ccm_ccgr_mu_set = 0x30384214

-- The settings after the reset.
abbrev pub settings : Bus → Bus
settings b =
    let b₁ = write ucr3 0x0704 (write ucr2 0x4027 (write ucr1 0x0001 b)) in
    write ubmr 0xC34 (write ubir 0x47 (write ufcr 0x0A81 b₁))

-- The announcement of the wait, in UTF-8.
abbrev pub waiting_text : List ℕ
waiting_text =
    codes "waiting for link (Linux "
    ++ ((229 ∷ 129 ∷ 180 ∷ 227 ∷ 129 ∷ 174 ∷ [])
        ++ (codes " vdev "
            ++ ((229 ∷ 136 ∷ 157 ∷ 230 ∷ 156 ∷ 159 ∷ 229 ∷ 140 ∷ 150 ∷ 229 ∷ 190 ∷ 133 ∷ 227 ∷ 129
                  ∷ 161 ∷ [])
                ++ codes ")...\n")))

-- How far `main` gets before its loop: it stops for ever, or is ready to echo.
pub data Begun : Type 0 where
  stopped : Bus → Begun
  ready : Bus → Begun

-- The phase in DBG[0] at the end of the start: 3 when the firmware is ready to echo, and 1 when it
-- has stopped because rpmsg-lite does not come up.
abbrev pub phase_of : Begun → Bus × ℕ
phase_of (stopped b) = (b, 1)
phase_of (ready b) = (b, 3)

abbrev pub is_ready : Begun → Bool
is_ready (stopped b) = false
is_ready (ready b) = true

module _ (reg : ℕ → ℕ → ℕ) where
  unfoldable pub uart4_init : Bus → Option Bus
  uart4_init b =
      let b₁ = write ccm_ccgr_uart4_set 0x30 (write ccm_uart4_root (2 ^ 28 + 2 ^ 24) b) in
      Option.map (λ (t, b'). settings b')
        (reset_wait reg reset_limit 0 (write ucr2 0 (write sel_uart4_rxd 2 b₁)))

  module _ (fuel : ℕ) where
    -- `while (UTS & (1u << 4)) ;`
    abbrev pub wait : Bus → Option Bus
    wait = poll_clear reg fuel uts 4

    -- `uart4_puts` on the characters before the terminating zero.
    unfoldable pub uart4_puts : List ℕ → Bus → Option Bus
    unfolding Option.bind
    uart4_puts [] b = some b
    uart4_puts (c ∷ s) b =
        let returned = if c == b'\n' then Option.map (write utxd b'\r') (wait b) else some b in
        Option.bind (Option.bind returned (λ b'. Option.map (write utxd (c % 256)) (wait b')))
          (uart4_puts s)

    -- What follows when `rpmsg_lite_remote_init` has succeeded.
    unfoldable pub link_up : Bus → Option Bus
    unfolding Option.bind
    link_up b = Option.bind (uart4_puts waiting_text b) (λ b₁.
        Option.bind (uart4_puts (codes "link up\n") (write (dbg 0) 2 b₁))
          (λ b₂. uart4_puts (codes "announced rpmsg-tty; echo ready\n") (write (dbg 0) 3 b₂)))

    unfoldable pub main_start : (remote_init : Bool) → Bus → Option Begun
    unfolding Option.bind
    main_start remote_init b = Option.bind (uart4_init b) (λ b₁.
        let b₂ = write (dbg 0) 1 (write ccm_ccgr_mu_set 0x30 b₁) in
        Option.bind (uart4_puts (codes "\nM4: rpmsg echo starting\n") b₂) (λ b₃.
          if remote_init
          then Option.map ready (link_up b₃)
          else Option.map stopped (uart4_puts (codes "rpmsg init FAILED\n") b₃)))

    puts_step :
        (c : ℕ) (s : List ℕ) (b : Bus)
        → uart4_puts s ≡ Uart.uart4_puts reg fuel s
        → uart4_puts (c ∷ s) b ≡ Uart.uart4_puts reg fuel (c ∷ s) b
    unfolding uart4_puts Uart.uart4_puts uart4_putc Option.bind
    puts_step c s b e = elim (Bool-cases (c == b'\n')) [
      | inl feed ↦ rw feed (ap (Option.bind _) e)
      | inr other ↦ rw other (ap (Option.bind _) e)
    ]

    -- The echo firmware's `uart4_puts`, with its waits written out, does what that of hello-world
    -- does, for every text and every answer of the hardware.
    pub uart4_puts-eq : (s : List ℕ) (b : Bus) → uart4_puts s b ≡ Uart.uart4_puts reg fuel s b
    unfolding uart4_puts Uart.uart4_puts
    uart4_puts-eq [] b = refl
    uart4_puts-eq (c ∷ s) b = puts_step c s b (fun_ext (uart4_puts-eq s))

    own-Puts : (s : List ℕ) (b : Bus) → Drains reg fuel → Puts (crlf s) b (uart4_puts s b)
    own-Puts s b drains =
        subst (Puts (crlf s) b) (sym (uart4_puts-eq s b)) (uart4_puts-Puts reg fuel s b drains)

    held_sent :
        (cs : List ℕ) (ws : List (ℕ × ℕ)) → held (dbg 0) (onto (map sent cs) ws) ≡ held (dbg 0) ws
    held_sent [] ws = refl
    held_sent (c ∷ cs) ws = held_sent cs (sent c ∷ ws)

    -- A text leaves the phase as it is.
    puts_phase :
        (s : List ℕ) (b : Bus)
        → Drains reg fuel
        → (b' : Bus) × (uart4_puts s b ≡ some b') × (held (dbg 0) b'.writes ≡ held (dbg 0) b.writes)
    puts_phase s b drains =
        let p = own-Puts s b drains in
        (p.bus, p.returns, ap (held (dbg 0)) p.went_out ∙ held_sent (crlf s) b.writes)

    link_up_phase :
        (b : Bus)
        → Drains reg fuel
        → (b' : Bus) × (link_up b ≡ some b') × (held (dbg 0) b'.writes ≡ some 3)
    unfolding link_up Option.bind
    link_up_phase b drains =
        let (b₁, e₁, _) = puts_phase waiting_text b drains in
        let (b₂, e₂, _) = puts_phase (codes "link up\n") (write (dbg 0) 2 b₁) drains in
        let (b₃, e₃, p₃) =
          puts_phase (codes "announced rpmsg-tty; echo ready\n") (write (dbg 0) 3 b₂) drains in
        (b₃, rw (e₁, e₂, e₃) refl, p₃)

    uart4_init-some : (b : Bus) → (b' : Bus) × (uart4_init b ≡ some b')
    unfolding uart4_init
    uart4_init-some b =
        let b₁ = write ccm_ccgr_uart4_set 0x30 (write ccm_uart4_root (2 ^ 28 + 2 ^ 24) b) in
        let (t, b', e, _, _, _) =
          reset_wait-some reg reset_limit 0 (write ucr2 0 (write sel_uart4_rxd 2 b₁)) (omega arith)
            (omega arith) in
        (settings b', rw e refl)

    -- If the transmitter drains, the start comes to an end, whatever the reset bit shows: ready to
    -- echo if and only if rpmsg-lite comes up. DBG[0] then tells which: it holds 3 or 1.
    pub main_start-phase :
        (remote_init : Bool) (b : Bus)
        → Drains reg fuel
        → (r : Begun) × (main_start remote_init b ≡ some r)
          × (is_ready r ≡ remote_init)
          × (held (dbg 0) (phase_of r).0.writes ≡ some (phase_of r).1)
    unfolding main_start Option.bind
    main_start-phase remote_init b drains =
        let (b₁, e₁) = uart4_init-some b in
        let b₂ = write (dbg 0) 1 (write ccm_ccgr_mu_set 0x30 b₁) in
        let (b₃, e₃, p₃) = puts_phase (codes "\nM4: rpmsg echo starting\n") b₂ drains in
        elim (Bool-cases remote_init) [
          | inl up ↦
              (let (b₄, e₄, p₄) = link_up_phase b₃ drains in
                (ready b₄, rw (up, e₁, e₃, e₄) refl, sym up, p₄))
          | inr down ↦
              (let (b₄, e₄, p₄) = puts_phase (codes "rpmsg init FAILED\n") b₃ drains in
                (stopped b₄, rw (down, e₁, e₃, e₄) refl, sym down, p₄ ∙ p₃))
        ]
