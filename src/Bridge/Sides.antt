-- ===== src/Bridge/Sides.antt =====
-- One side of the bridge: what its two transfers, or the discarding, do to the bytes under way.
use kmm_yocto.Base.{
  ℕ, ◌≡◌, ◌≢◌, sym, ap, ◌∙◌, true, false, some, List, ◌++◌, Bool-cases, map_inv, inl, inr,
}
use mathlib.Core.Path.{subst}
use mathlib.Core.Option.{some-injective}
use kmm_yocto.Bridge.{Dev, Ports, discard, side}
use kmm_yocto.Bridge.Buffer.{moved, served, side-served}
use kmm_yocto.Bridge.Laws.{Stays, IsLawful, Carries, Grows-trans}
use kmm_yocto.Bridge.Pump.{
  Carries-of, moved-Carries, moved_waiting, moved_sent, discard_sent, discard_waiting,
}

module _ (P : Ports) (waiting sent : P.World → Dev → List ℕ)
    (lawful : IsLawful P waiting sent) where
  pub Carries-trans :
      (u v w : P.World) (c d : Dev)
      → Carries P waiting sent u v c d
      → Carries P waiting sent v w c d
      → Carries P waiting sent u w c d
  Carries-trans u v w c d =
      Grows-trans (sent u d ++ waiting u c) (sent v d ++ waiting v c) (sent w d ++ waiting w c)

  pub Stays-Carries :
      (w v : P.World) (c d : Dev)
      → Stays P waiting sent w v c
      → Stays P waiting sent w v d
      → Carries P waiting sent w v c d
  Stays-Carries w v c d at_c at_d = Carries-of P waiting sent lawful w v c d at_c.0 at_d.1

  -- The world in which both directions of a side have been served.
  abbrev both : (usb uart : Dev) → P.World → P.World
  both usb uart w = (moved P uart usb (moved P usb uart w).1).1

  side_opened :
      (usb uart : Dev) (fuel : ℕ) (w : P.World) (m : ℕ × P.World)
      → P.is_open w usb ≡ true
      → side P fuel usb uart w ≡ some m
      → both usb uart w ≡ m.1
  unfolding served
  side_opened usb uart fuel w m opened e =
      let ran : served P fuel usb uart w ≡ some m = sym (side-served P fuel usb uart w) ∙ e in
      ap (λ n. n.1) (some-injective _ _ (rw opened at ran))

  side_closed :
      (usb uart : Dev) (fuel : ℕ) (w : P.World) (m : ℕ × P.World)
      → P.is_open w usb ≡ false
      → side P fuel usb uart w ≡ some m
      → discard P fuel uart w ≡ some m.1
  unfolding served
  side_closed usb uart fuel w m closed e =
      let done : served P fuel usb uart w ≡ some m = sym (side-served P fuel usb uart w) ∙ e in
      let (v, ran, at) = map_inv (discard P fuel uart w) (λ v. (0, v)) m (rw closed at done) in
      ran ∙ ap (λ n. some n.1) at

  both_to_uart :
      (usb uart : Dev) (w : P.World)
      → usb ≢ uart
      → Carries P waiting sent w (both usb uart w) usb uart
  both_to_uart usb uart w ne =
      let v = (moved P usb uart w).1 in
      Carries-trans w v (both usb uart w) usb uart
        (moved-Carries P waiting sent lawful usb uart w ne)
        (Carries-of P waiting sent lawful v (both usb uart w) usb uart
          (moved_waiting P waiting sent lawful uart usb usb v (λ e. ne (sym e)))
          (moved_sent P waiting sent lawful uart usb uart v ne))

  both_to_host :
      (usb uart : Dev) (w : P.World)
      → usb ≢ uart
      → Carries P waiting sent w (both usb uart w) uart usb
  both_to_host usb uart w ne =
      let v = (moved P usb uart w).1 in
      Carries-trans w v (both usb uart w) uart usb
        (Carries-of P waiting sent lawful w v uart usb
          (moved_waiting P waiting sent lawful usb uart uart w ne)
          (moved_sent P waiting sent lawful usb uart usb w (λ e. ne (sym e))))
        (moved-Carries P waiting sent lawful uart usb v (λ e. ne (sym e)))

  both_apart :
      (usb uart c d : Dev) (w : P.World)
      → usb ≢ c
      → uart ≢ c
      → usb ≢ d
      → uart ≢ d
      → Carries P waiting sent w (both usb uart w) c d
  both_apart usb uart c d w ne1 ne2 ne3 ne4 =
      let v = (moved P usb uart w).1 in
      Carries-of P waiting sent lawful w (both usb uart w) c d
        (Grows-trans (waiting w c) (waiting v c) (waiting (both usb uart w) c)
          (moved_waiting P waiting sent lawful usb uart c w ne1)
          (moved_waiting P waiting sent lawful uart usb c v ne2))
        (moved_sent P waiting sent lawful uart usb d v ne3
          ∙ moved_sent P waiting sent lawful usb uart d w ne4)

  pub side_to_uart :
      (usb uart : Dev) (fuel : ℕ) (w : P.World) (m : ℕ × P.World)
      → usb ≢ uart
      → side P fuel usb uart w ≡ some m
      → Carries P waiting sent w m.1 usb uart
  side_to_uart usb uart fuel w m ne e = elim (Bool-cases (P.is_open w usb)) [
    | inl opened ↦
        subst (λ v. Carries P waiting sent w v usb uart) (side_opened usb uart fuel w m opened e)
          (both_to_uart usb uart w ne)
    | inr closed ↦
        (let ran = side_closed usb uart fuel w m closed e in
          Carries-of P waiting sent lawful w m.1 usb uart
            (discard_waiting P waiting sent lawful fuel uart usb w m.1 (λ e. ne (sym e)) ran)
            (discard_sent P waiting sent lawful fuel uart uart w m.1 ran))
  ]

  pub side_to_host :
      (usb uart : Dev) (fuel : ℕ) (w : P.World) (m : ℕ × P.World)
      → usb ≢ uart
      → P.is_open w usb ≡ true
      → side P fuel usb uart w ≡ some m
      → Carries P waiting sent w m.1 uart usb
  side_to_host usb uart fuel w m ne opened e =
      subst (λ v. Carries P waiting sent w v uart usb) (side_opened usb uart fuel w m opened e)
        (both_to_host usb uart w ne)

  pub side_apart :
      (usb uart c d : Dev) (fuel : ℕ) (w : P.World) (m : ℕ × P.World)
      → usb ≢ c
      → uart ≢ c
      → usb ≢ d
      → uart ≢ d
      → side P fuel usb uart w ≡ some m
      → Carries P waiting sent w m.1 c d
  side_apart usb uart c d fuel w m ne1 ne2 ne3 ne4 e = elim (Bool-cases (P.is_open w usb)) [
    | inl opened ↦
        subst (λ v. Carries P waiting sent w v c d) (side_opened usb uart fuel w m opened e)
          (both_apart usb uart c d w ne1 ne2 ne3 ne4)
    | inr closed ↦
        (let ran = side_closed usb uart fuel w m closed e in
          Carries-of P waiting sent lawful w m.1 c d
            (discard_waiting P waiting sent lawful fuel uart c w m.1 ne2 ran)
            (discard_sent P waiting sent lawful fuel uart d w m.1 ran))
  ]
