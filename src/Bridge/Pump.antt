-- ===== src/Bridge/Pump.antt =====
-- A transfer carries its bytes over in order, and leaves the other ports alone.
use kmm_yocto.Base.{
  ℕ, zero, suc, ◌≤◌, ◌≡◌, ◌≢◌, refl, sym, ap, ap₂, ◌∙◌, some, List, [], ◌∷◌, ◌++◌, arith, lt→ltb,
  ◌||◌, ◌==◌, min, length, take, drop, length-take, Bool-cases, inl, inr,
}
use mathlib.Core.Option.{some-injective}
use mathlib.Core.List.{append_assoc, append-nil}
use kmm_yocto.Bridge.{Dev, Ports, positive, buf_size, write_some, discard}
use kmm_yocto.Bridge.Buffer.{moved}
use kmm_yocto.Bridge.Laws.{
  Grows, IsLawful, Carries, Grows-trans, Grows-refl, Grows-after, take-drop,
}

rejoin :
    (n : ℕ) (xs put : List ℕ) {s ys : List ℕ} (more : List ℕ)
    → s ≡ put ++ take n xs
    → ys ≡ drop n xs ++ more
    → s ++ ys ≡ (put ++ xs) ++ more
rejoin n xs put {s} {ys} more e f =
    ap₂ ◌++◌ e f
    ∙ append_assoc put (take n xs) (drop n xs ++ more)
    ∙ ap (λ l. put ++ l)
        (sym (append_assoc (take n xs) (drop n xs) more) ∙ ap (λ l. l ++ more) (take-drop n xs))
    ∙ sym (append_assoc put xs more)

module _ (P : Ports) (waiting sent : P.World → Dev → List ℕ)
    (lawful : IsLawful P waiting sent) where
  -- Where nothing is read at `c` and nothing is written to `d`, the bytes are carried.
  pub Carries-of :
      (w v : P.World) (c d : Dev)
      → Grows (waiting w c) (waiting v c)
      → sent v d ≡ sent w d
      → Carries P waiting sent w v c d
  Carries-of w v c d g e =
      let (m, f) = Grows-after (sent w d) (waiting w c) (waiting v c) g in
      (m, ap (λ l. l ++ waiting v c) e ∙ f)

  -- A write appends to what is sent, also one that is left out because there is nothing to write.
  write_some_sent :
      (dst : Dev) (r : List ℕ × P.World)
      → length r.0 ≤ positive (P.available_for_write r.1 dst)
      → sent (write_some P dst r).1 dst ≡ sent r.1 dst ++ r.0
  write_some_sent dst ([], w) fits = sym (append-nil (sent w dst))
  write_some_sent dst (x ∷ bytes, w) fits =
      rw (lt→ltb 0 (suc (length bytes)) (omega arith)) (lawful.write_sent w dst (x ∷ bytes) fits)

  write_some_other :
      (dst d : Dev) (r : List ℕ × P.World) → dst ≢ d → sent (write_some P dst r).1 d ≡ sent r.1 d
  write_some_other dst d ([], w) ne = refl
  write_some_other dst d (x ∷ bytes, w) ne =
      rw (lt→ltb 0 (suc (length bytes)) (omega arith)) (lawful.write_other w dst d (x ∷ bytes) ne)

  write_some_waiting :
      (dst d : Dev) (r : List ℕ × P.World)
      → Grows (waiting r.1 d) (waiting (write_some P dst r).1 d)
  write_some_waiting dst d ([], w) = Grows-refl (waiting w d)
  write_some_waiting dst d (x ∷ bytes, w) =
      rw (lt→ltb 0 (suc (length bytes)) (omega arith)) (lawful.write_waiting w dst d (x ∷ bytes))

  -- One transfer carries its bytes.
  move-Carries :
      (src dst : Dev) (w : P.World) (n : ℕ)
      → src ≢ dst
      → n ≤ length (waiting w src)
      → n ≤ positive (P.available_for_write w dst)
      → Carries P waiting sent w (write_some P dst (P.read_bytes w src n)).1 src dst
  move-Carries src dst w n ne h room =
      let r = P.read_bytes w src n in
      let fits : length r.0 ≤ positive (P.available_for_write r.1 dst) = omega (
        arith,
        ap length (lawful.bytes_lem w src n h),
        length-take n (waiting w src),
        lawful.bytes_space w src dst n ne,
      ) in
      let v = (write_some P dst r).1 in
      let put : sent v dst ≡ sent w dst ++ take n (waiting w src) =
        write_some_sent dst r fits
        ∙ ap₂ ◌++◌ (lawful.bytes_sent w src dst n) (lawful.bytes_lem w src n h) in
      let (more, left) =
        Grows-trans (drop n (waiting w src)) (waiting r.1 src) (waiting v src)
          (lawful.bytes_rest w src n h) (write_some_waiting dst src r) in
      (more, rejoin n (waiting w src) (sent w dst) more put left)

  pub moved-Carries :
      (src dst : Dev) (w : P.World)
      → src ≢ dst
      → Carries P waiting sent w (moved P src dst w).1 src dst
  unfolding moved
  moved-Carries src dst w ne =
      let n = positive (P.available w src) in
      let space = positive (P.available_for_write w dst) in
      elim (Bool-cases (n == 0 || space == 0)) [
        | inl none_or_full ↦ rw none_or_full (Grows-refl (sent w dst ++ waiting w src))
        | inr some_move ↦ rw some_move (
            move-Carries src dst w (min (min n space) buf_size) ne
              (ground (arith, ap positive (lawful.available_lem w src))) (ground arith))
      ]

  pub moved_waiting :
      (src dst d : Dev) (w : P.World)
      → src ≢ d
      → Grows (waiting w d) (waiting (moved P src dst w).1 d)
  unfolding moved
  moved_waiting src dst d w ne =
      let n = positive (P.available w src) in
      let space = positive (P.available_for_write w dst) in
      let r = P.read_bytes w src (min (min n space) buf_size) in
      elim (Bool-cases (n == 0 || space == 0)) [
        | inl none_or_full ↦ rw none_or_full (Grows-refl (waiting w d))
        | inr some_move ↦ rw some_move (
            Grows-trans (waiting w d) (waiting r.1 d) (waiting (write_some P dst r).1 d)
              (lawful.bytes_waiting w src d (min (min n space) buf_size) ne)
              (write_some_waiting dst d r))
      ]

  pub moved_sent :
      (src dst d : Dev) (w : P.World) → dst ≢ d → sent (moved P src dst w).1 d ≡ sent w d
  unfolding moved
  moved_sent src dst d w ne =
      let n = positive (P.available w src) in
      let space = positive (P.available_for_write w dst) in
      let r = P.read_bytes w src (min (min n space) buf_size) in
      elim (Bool-cases (n == 0 || space == 0)) [
        | inl none_or_full ↦ rw none_or_full refl
        | inr some_move ↦
            rw some_move
              (write_some_other dst d r ne ∙ lawful.bytes_sent w src d (min (min n space) buf_size))
      ]

  pub discard_sent :
      (fuel : ℕ) (uart d : Dev) (w v : P.World)
      → discard P fuel uart w ≡ some v
      → sent v d ≡ sent w d
  unfolding discard
  discard_sent zero uart d w v e = cc
  discard_sent (suc fuel) uart d w v e = elim (Bool-cases (positive (P.available w uart) == 0)) [
    | inl dry ↦ ap (λ u. sent u d) (sym (some-injective _ _ (rw dry at e)))
    | inr more ↦
        discard_sent fuel uart d (P.read w uart) v (rw more at e) ∙ lawful.read_sent w uart d
  ]

  pub discard_waiting :
      (fuel : ℕ) (uart d : Dev) (w v : P.World)
      → uart ≢ d
      → discard P fuel uart w ≡ some v
      → Grows (waiting w d) (waiting v d)
  unfolding discard
  discard_waiting zero uart d w v ne e = absurd (cc)
  discard_waiting (suc fuel) uart d w v ne e =
      elim (Bool-cases (positive (P.available w uart) == 0)) [
        | inl dry ↦ rw (some-injective _ _ (rw dry at e)) (Grows-refl (waiting v d))
        | inr more ↦
            Grows-trans (waiting w d) (waiting (P.read w uart) d) (waiting v d)
              (lawful.read_waiting w uart d ne)
              (discard_waiting fuel uart d (P.read w uart) v ne (rw more at e))
      ]
