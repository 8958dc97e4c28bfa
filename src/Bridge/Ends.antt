-- ===== src/Bridge/Ends.antt =====
-- The main loop ends, as long as what the UARTs bring is finite.
use kmm_yocto.Base.{
  ℕ, zero, suc, ◌+◌, ◌≤◌, ◌<◌, ◌≡◌, refl, ◌∙◌, some, arith, false, not, ◌==◌, if◌then◌else◌,
  Bool-cases, inl, inr,
}
use mathlib.Core.Option
use kmm_yocto.Bridge.{
  Dev, usb_a, uart_a, usb_m, uart_m, Ports, Bridge, default_baud, positive, sync_baud, discard,
  side, finish, sync, loop, run,
}
use kmm_yocto.Bridge.Buffer.{moved, served, side-served}
use kmm_yocto.Bridge.Ops.{IsKept, side_keeps, finish_keeps}

-- `left w d` bytes wait at `d` or will still come: a read of a waiting byte leaves fewer, and no
-- call makes them more.
module _ (P : Ports) (left : P.World → Dev → ℕ) where
  pub record Finite : Type 0 where
    pub kept : (d : Dev) → IsKept P (λ w v. left v d ≤ left w d)
    pub begin_keeps : (w : P.World) (c d : Dev) (b : ℕ) → left (P.begin w c b) d ≤ left w d
    pub read_less :
        (w : P.World) (d : Dev)
        → (positive (P.available w d) == 0) ≡ false
        → left (P.read w d) d < left w d

module _ (P : Ports) (left : P.World → Dev → ℕ) (finite : Finite P left) where
  discard_ends :
      (fuel : ℕ) (d : Dev) (w : P.World)
      → left w d < fuel
      → (v : P.World) × (discard P fuel d w ≡ some v)
  unfolding discard
  discard_ends zero d w h = absurd (omega arith)
  discard_ends (suc fuel) d w h = elim (Bool-cases (positive (P.available w d) == 0)) [
    | inl dry ↦ (w, rw dry refl)
    | inr more ↦
        (let (v, ran) =
            discard_ends fuel d (P.read w d) (omega (arith, finite.read_less w d more)) in
          (v, rw more ran))
  ]

  side_ends :
      (fuel : ℕ) (usb uart : Dev) (w : P.World)
      → left w uart < fuel
      → (m : ℕ × P.World) × (side P fuel usb uart w ≡ some m)
  unfolding served
  side_ends fuel usb uart w h = elim (Bool-cases (P.is_open w usb)) [
    | inl opened ↦
        (let there = moved P usb uart w in
          let back = moved P uart usb there.1 in
          let done : served P fuel usb uart w ≡ some (there.0 + back.0, back.1) = rw opened refl in
          ((there.0 + back.0, back.1), side-served P fuel usb uart w ∙ done))
    | inr closed ↦
        (let (v, ran) = discard_ends fuel uart w h in
          let done : served P fuel usb uart w ≡ some (0, v) = rw (closed, ran) refl in
          ((0, v), side-served P fuel usb uart w ∙ done))
  ]

  left-sync_baud :
      (usb uart d : Dev) (current : ℕ) (w : P.World)
      → left (sync_baud P usb uart current w).1 d ≤ left w d
  unfolding sync_baud
  left-sync_baud usb uart d current w =
      let b = if P.baud w usb == 0 then default_baud else P.baud w usb in
      elim (Bool-cases (not (b == current))) [
        | inl changed ↦ rw changed (finite.begin_keeps w uart d b)
        | inr same ↦ rw same (omega arith)
      ]

  left-sync : (s : Bridge) (w : P.World) (d : Dev) → left (sync P (s, w)).1 d ≤ left w d
  unfolding sync
  left-sync s w d =
      let v = (sync_baud P usb_a uart_a s.baud_a w).1 in
      omega
        (arith, left-sync_baud usb_a uart_a d s.baud_a w, left-sync_baud usb_m uart_m d s.baud_m v)

  -- What one call of `loop` comes to.
  Passed : (fuel : ℕ) (sw : Bridge × P.World) → Type 0
  Passed fuel sw =
      (r : Bridge × P.World) × (loop P fuel sw ≡ some r)
      × (left r.1 uart_a ≤ left sw.1 uart_a)
      × (left r.1 uart_m ≤ left sw.1 uart_m)

  loop_ends :
      (fuel : ℕ) (sw : Bridge × P.World)
      → left sw.1 uart_a < fuel
      → left sw.1 uart_m < fuel
      → Passed fuel sw
  unfolding Passed loop Option.bind
  loop_ends fuel (s, w) h k =
      let begun = sync P (s, w) in
      let (a, ran_a) = side_ends fuel usb_a uart_a begun.1 (omega (arith, left-sync s w uart_a)) in
      let less_a = λ (d : Dev).
        side_keeps P (λ w v. left v d ≤ left w d) (finite.kept d) usb_a uart_a fuel begun.1 a
          ran_a in
      let (m, ran_m) =
        side_ends fuel usb_m uart_m a.1 (omega (arith, left-sync s w uart_m, less_a uart_m)) in
      let less_m = λ (d : Dev).
        side_keeps P (λ w v. left v d ≤ left w d) (finite.kept d) usb_m uart_m fuel a.1 m ran_m in
      let less_f = λ (d : Dev).
        finish_keeps P (λ w v. left v d ≤ left w d) (finite.kept d) (a.0 + m.0) begun.0 m.1 in
      (
        finish P (a.0 + m.0) (begun.0, m.1),
        rw (ran_a, ran_m) refl,
        omega (arith, left-sync s w uart_a, less_a uart_a, less_m uart_a, less_f uart_a),
        omega (arith, left-sync s w uart_m, less_a uart_m, less_m uart_m, less_f uart_m),
      )

  -- If each UART brings fewer bytes than `fuel`, then every number of calls of `loop` comes to an
  -- end: no discarding loop runs for ever.
  pub run_ends :
      (fuel k : ℕ) (sw : Bridge × P.World)
      → left sw.1 uart_a < fuel
      → left sw.1 uart_m < fuel
      → (r : Bridge × P.World) × (run P fuel k sw ≡ some r)
  unfolding run Passed Option.bind
  run_ends fuel zero sw h l = (sw, refl)
  run_ends fuel (suc k) sw h l =
      let (t, ran, less_a, less_m) = loop_ends fuel sw h l in
      let (r, rest) = run_ends fuel k t (omega (arith)) (omega (arith)) in (r, rw ran rest)
