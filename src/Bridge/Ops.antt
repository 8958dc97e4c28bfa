-- ===== src/Bridge/Ops.antt =====
-- Relations on worlds that every call of the main loop keeps, other than `begin`.
use kmm_yocto.Base.{
  ℕ, zero, suc, ◌≡◌, sym, ap, ◌∙◌, Bool, some, List, [], ◌∷◌, arith, ltb, lt→ltb, ◌||◌, not, ◌==◌,
  min, length, Bool-cases, map_inv, inl, inr,
}
use mathlib.Core.Option.{some-injective}
use mathlib.Core.Path.{subst}
use kmm_yocto.Bridge.{
  Dev, usb_diag, Ports, Bridge, positive, buf_size, elapsed, write_some, discard, side, diag_report,
  show_activity, finish,
}
use kmm_yocto.Bridge.Buffer.{moved, served, side-served}

pub record IsKept (P : Ports) (R : P.World → P.World → Type 0) : Type 0 where
  pub same : (w : P.World) → R w w
  pub then_on : (u v w : P.World) → R u v → R v w → R u w
  pub read_keeps : (w : P.World) (c : Dev) → R w (P.read w c)
  pub bytes_keeps : (w : P.World) (c : Dev) (n : ℕ) → R w (P.read_bytes w c n).1
  pub write_keeps : (w : P.World) (c : Dev) (bytes : List ℕ) → R w (P.write w c bytes)
  pub led_keeps : (w : P.World) (b : Bool) → R w (P.digital_write_led w b)
  pub diag_keeps : (w : P.World) (b : ℕ) → R w (P.print_diag w b)

module _ (P : Ports) (R : P.World → P.World → Type 0) (kept : IsKept P R) where
  write_some_keeps : (dst : Dev) (r : List ℕ × P.World) → R r.1 (write_some P dst r).1
  write_some_keeps dst ([], w) = kept.same w
  write_some_keeps dst (x ∷ bytes, w) =
      rw (lt→ltb 0 (suc (length bytes)) (omega arith)) (kept.write_keeps w dst (x ∷ bytes))

  moved_keeps : (src dst : Dev) (w : P.World) → R w (moved P src dst w).1
  unfolding moved
  moved_keeps src dst w =
      let n = positive (P.available w src) in
      let space = positive (P.available_for_write w dst) in
      let r = P.read_bytes w src (min (min n space) buf_size) in
      elim (Bool-cases (n == 0 || space == 0)) [
        | inl none_or_full ↦ rw none_or_full (kept.same w)
        | inr some_move ↦ rw some_move (
            kept.then_on w r.1 (write_some P dst r).1
              (kept.bytes_keeps w src (min (min n space) buf_size)) (write_some_keeps dst r))
      ]

  discard_keeps : (fuel : ℕ) (uart : Dev) (w v : P.World) → discard P fuel uart w ≡ some v → R w v
  unfolding discard
  discard_keeps zero uart w v e = absurd (cc)
  discard_keeps (suc fuel) uart w v e = elim (Bool-cases (positive (P.available w uart) == 0)) [
    | inl dry ↦ subst (λ u. R w u) (some-injective _ _ (rw dry at e)) (kept.same w)
    | inr more ↦
        kept.then_on w (P.read w uart) v (kept.read_keeps w uart)
          (discard_keeps fuel uart (P.read w uart) v (rw more at e))
  ]

  pub side_keeps :
      (usb uart : Dev) (fuel : ℕ) (w : P.World) (m : ℕ × P.World)
      → side P fuel usb uart w ≡ some m
      → R w m.1
  unfolding served
  side_keeps usb uart fuel w m e =
      let done : served P fuel usb uart w ≡ some m = sym (side-served P fuel usb uart w) ∙ e in
      let v = (moved P usb uart w).1 in
      elim (Bool-cases (P.is_open w usb)) [
        | inl opened ↦
            subst (λ u. R w u) (ap (λ n. n.1) (some-injective _ _ (rw opened at done)))
              (kept.then_on w v (moved P uart usb v).1 (moved_keeps usb uart w)
                (moved_keeps uart usb v))
        | inr closed ↦
            (let (u, ran, at) =
                map_inv (discard P fuel uart w) (λ v. (0, v)) m (rw closed at done) in
              subst (λ u. R w u) (ap (λ n. n.1) at) (discard_keeps fuel uart w u ran))
      ]

  diag_keeps : (s : Bridge) (w : P.World) → R w (diag_report P (s, w)).1
  unfolding diag_report
  diag_keeps s w = elim (Bool-cases (ltb (elapsed P w s.since_diag) 1000)) [
    | inl early ↦ rw early (kept.same w)
    | inr due ↦
        elim (Bool-cases
          (not (P.is_open w usb_diag) || ltb (positive (P.available_for_write w usb_diag)) 96)) [
            | inl silent ↦ rw (due, silent) (kept.same w)
            | inr heard ↦ rw (due, heard) (kept.diag_keeps w s.baud_m)
          ]
  ]

  pub finish_keeps : (moved : ℕ) (s : Bridge) (w : P.World) → R w (finish P moved (s, w)).1
  unfolding finish show_activity
  finish_keeps moved s w =
      let r = diag_report P (s, w) in
      kept.then_on w r.1 (show_activity P moved r).1 (diag_keeps s w) (kept.led_keeps r.1 _)
