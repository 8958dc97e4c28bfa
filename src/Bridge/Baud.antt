-- ===== src/Bridge/Baud.antt =====
-- The speed of each UART follows its USB port.
use kmm_yocto.Base.{
  ℕ, zero, suc, ◌+◌, ◌≡◌, ◌≢◌, refl, sym, ap, ◌∙◌, some, not, ◌==◌, if◌then◌else◌, Bool-cases, inl,
  inr, bind_inv, map_inv, arith,
}
use mathlib.Core.Option
use mathlib.Core.Option.{some-injective}
use mathlib.Core.Path.{subst}
use kmm_yocto.Bridge.{
  Dev, usb_a, uart_a, usb_m, uart_m, Ports, Bridge, default_baud, sync_baud, side, diag_report,
  show_activity, finish, sync, loop, setup, run,
}
use kmm_yocto.Bridge.Ops.{IsKept, side_keeps, finish_keeps}

-- The speed that the host asks for, 115200 if it has not set any.
abbrev pub wanted : ℕ → ℕ
wanted baud = if baud == 0 then 115200 else baud

-- `speed w d` is the speed to which the UART `d` is set: `begin` sets it, and no other call does.
-- `begin` does not change what the host asks for.
module _ (P : Ports) (speed : P.World → Dev → ℕ) where
  pub record HasSpeed : Type 0 where
    pub kept : (d : Dev) → IsKept P (λ w v. speed v d ≡ speed w d)
    pub begin_sets : (w : P.World) (c : Dev) (b : ℕ) → speed (P.begin w c b) c ≡ b
    pub begin_other :
        (w : P.World) (c d : Dev) (b : ℕ) → c ≢ d → speed (P.begin w c b) d ≡ speed w d
    pub begin_baud : (w : P.World) (c d : Dev) (b : ℕ) → P.baud (P.begin w c b) d ≡ P.baud w d

  -- The variables hold the speeds of the UARTs.
  abbrev pub InStep : Bridge × P.World → Type 0
  InStep (s, w) = (speed w uart_a ≡ s.baud_a) × (speed w uart_m ≡ s.baud_m)

module _ (P : Ports) (speed : P.World → Dev → ℕ) (has : HasSpeed P speed) where
  -- After `sync_baud` the speed is the wanted one, and the other UART keeps its own.
  sync_baud_speed :
      (usb uart other : Dev) (current : ℕ) (w : P.World)
      → uart ≢ other
      → speed w uart ≡ current
      → ((sync_baud P usb uart current w).0 ≡ wanted (P.baud w usb))
        × (speed (sync_baud P usb uart current w).1 uart ≡ wanted (P.baud w usb))
        × (speed (sync_baud P usb uart current w).1 other ≡ speed w other)
        × ((d : Dev) → P.baud (sync_baud P usb uart current w).1 d ≡ P.baud w d)
  unfolding sync_baud
  sync_baud_speed usb uart other current w ne is =
      let b = if P.baud w usb == 0 then default_baud else P.baud w usb in
      elim (Bool-cases (not (b == current))) [
        | inl changed ↦ rw changed (
          refl,
          has.begin_sets w uart b,
          has.begin_other w uart other b ne,
          λ d. has.begin_baud w uart d b,
        )
        | inr same ↦ (let e : current ≡ b = ground arith in rw same (e, is ∙ e, refl, λ d. refl))
      ]

  -- What one call of `loop` does to the speeds.
  Follows : Bridge × P.World → Bridge × P.World → Type 0
  Follows sw r =
      InStep P speed r
      × (r.0.baud_a ≡ wanted (P.baud sw.1 usb_a))
      × (r.0.baud_m ≡ wanted (P.baud sw.1 usb_m))

  finish_bauds :
      (moved : ℕ) (s : Bridge) (w : P.World)
      → ((finish P moved (s, w)).0.baud_a ≡ s.baud_a)
        × ((finish P moved (s, w)).0.baud_m ≡ s.baud_m)
  unfolding finish show_activity diag_report
  finish_bauds moved s w = ground arith

  loop-Follows :
      (fuel : ℕ) (sw r : Bridge × P.World)
      → InStep P speed sw
      → loop P fuel sw ≡ some r
      → Follows sw r
  unfolding loop sync Follows
  loop-Follows fuel (s, w) r (at_a, at_m) e =
      let begun = sync P (s, w) in
      let va = sync_baud P usb_a uart_a s.baud_a w in
      let (a_is, a_speed, m_stays, bauds) =
        sync_baud_speed usb_a uart_a uart_m s.baud_a w (cc) at_a in
      let (m_is, m_speed, a_stays, _) =
        sync_baud_speed usb_m uart_m uart_a s.baud_m va.1 (cc) (m_stays ∙ at_m) in
      let (a, ran_a, rest) =
        bind_inv (side P fuel usb_a uart_a begun.1)
          (λ a.
            Option.map (λ m. finish P (a.0 + m.0) (begun.0, m.1)) (side P fuel usb_m uart_m a.1))
          r e in
      let (m, ran_m, ends) =
        map_inv (side P fuel usb_m uart_m a.1) (λ m. finish P (a.0 + m.0) (begun.0, m.1)) r rest in
      let keeps : (d : Dev) → speed (finish P (a.0 + m.0) (begun.0, m.1)).1 d ≡ speed begun.1 d =
        λ d.
          finish_keeps P (λ w v. speed v d ≡ speed w d) (has.kept d) (a.0 + m.0) begun.0 m.1
          ∙ side_keeps P (λ w v. speed v d ≡ speed w d) (has.kept d) usb_m uart_m fuel a.1 m ran_m
          ∙ side_keeps P (λ w v. speed v d ≡ speed w d) (has.kept d) usb_a uart_a fuel begun.1 a
              ran_a in
      let (end_a, end_m) = finish_bauds (a.0 + m.0) begun.0 m.1 in
      subst (Follows (s, w)) ends (
        (
          keeps uart_a ∙ a_stays ∙ a_speed ∙ sym a_is ∙ sym end_a,
          keeps uart_m ∙ m_speed ∙ sym m_is ∙ sym end_m,
        ),
        end_a ∙ a_is,
        end_m ∙ m_is ∙ ap wanted (bauds usb_m),
      )

  run-InStep :
      (fuel k : ℕ) (sw r : Bridge × P.World)
      → InStep P speed sw
      → run P fuel k sw ≡ some r
      → InStep P speed r
  unfolding run Follows
  run-InStep fuel zero sw r at e = subst (InStep P speed) (some-injective _ _ e) at
  run-InStep fuel (suc k) sw r at e =
      let (t, first, rest) = bind_inv (loop P fuel sw) (run P fuel k) r e in
      run-InStep fuel k t r (loop-Follows fuel sw t at first).0 rest

  setup-InStep : (w : P.World) → InStep P speed (setup P w)
  unfolding setup
  setup-InStep w =
      let v =
        P.add_memory_for_read (P.add_memory_for_read (P.pin_mode_led w) uart_a 4096) uart_m 4096 in
      (
        has.begin_other (P.begin v uart_a default_baud) uart_m uart_a default_baud (cc)
            ∙ has.begin_sets v uart_a default_baud,
        has.begin_sets (P.begin v uart_a default_baud) uart_m default_baud,
      )

  -- After `setup` and any number of calls of `loop`, one more call leaves both UARTs at the speed
  -- that the host asked for on their USB ports when it began, or at 115200 if it asked for none.
  pub run_speeds :
      (fuel k : ℕ) (w : P.World) (m r : Bridge × P.World)
      → run P fuel k (setup P w) ≡ some m
      → loop P fuel m ≡ some r
      → (speed r.1 uart_a ≡ wanted (P.baud m.1 usb_a))
        × (speed r.1 uart_m ≡ wanted (P.baud m.1 usb_m))
  unfolding Follows
  run_speeds fuel k w m r ran last =
      let (at, a_is, m_is) =
        loop-Follows fuel m r (run-InStep fuel k (setup P w) m (setup-InStep w) ran) last in
      (at.0 ∙ a_is, at.1 ∙ m_is)
