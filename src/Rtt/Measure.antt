-- ===== src/Rtt/Measure.antt =====
-- The measuring loop: how it ends, and what it has measured then.
use kmm_yocto.Base.{
  ℕ, zero, suc, ◌+◌, ◌≤◌, ◌<◌, ◌≡◌, inl, inr, refl, sym, ap, ◌∙◌, some, List, [], ◌∷◌, ◌++◌, arith,
  length, length-append, ltb, ◌==◌, if◌then◌else◌, Bool-cases, ℤ,
}
use kmm_yocto.Rtt.{tx_size, collect, Measured, done, too_many_losses, measure}

module _ (n : ℕ) (answers : ℕ → List ℤ) (elapsed : ℕ → ℕ) where
  -- The times of the whole answers among the first `a` attempts, in order.
  unfoldable pub times : ℕ → List ℕ
  times zero = []
  times (suc a) = if collect 0 (answers a) == tx_size then times a ++ (elapsed a ∷ []) else times a

  -- How many of the first `a` attempts brought no whole answer.
  unfoldable pub losses : ℕ → ℕ
  losses zero = 0
  losses (suc a) = if collect 0 (answers a) == tx_size then losses a else losses a + 1

  -- What is measured after `a` attempts.
  abbrev pub Ends : ℕ → Measured → Type 0
  Ends a (done lost rtt) =
      (length (times a) ≡ n) × (rtt ≡ times a) × (lost ≡ losses a) × (lost ≤ 50)
  Ends a too_many_losses = (losses a ≡ 51) × (length (times a) < n)

  next_attempt : (a : ℕ) → a + 1 ≡ suc a
  next_attempt a = omega arith

  pub times-next :
      (a : ℕ)
      → times (a + 1)
        ≡ (if collect 0 (answers a) == tx_size then times a ++ (elapsed a ∷ []) else times a)
  unfolding times
  times-next a = ap times (next_attempt a)

  losses-next :
      (a : ℕ)
      → losses (a + 1) ≡ (if collect 0 (answers a) == tx_size then losses a else losses a + 1)
  unfolding losses
  losses-next a = ap losses (next_attempt a)

  measure_from :
      (fuel a i lost : ℕ) (rtt : List ℕ)
      → i ≡ length rtt
      → rtt ≡ times a
      → lost ≡ losses a
      → lost ≤ 50
      → i ≤ n
      → n + 51 < fuel + (i + lost)
      → (r : Measured) × (b : ℕ) × (measure n answers elapsed fuel a i lost rtt ≡ some r) × Ends b r
  unfolding measure
  measure_from zero a i lost rtt e t l h k f = absurd (omega arith)
  measure_from (suc fuel) a i lost rtt e t l h k f = elim (Bool-cases (ltb i n)) [
    | inr over ↦
        (done lost rtt, a, rw over refl, (ap length (sym t) ∙ sym e ∙ ground arith, t, l, h))
    | inl more ↦ elim (Bool-cases (collect 0 (answers a) == tx_size)) [
      | inl good ↦
          (let t' : rtt ++ (elapsed a ∷ []) ≡ times (a + 1) =
              ap (λ l. l ++ (elapsed a ∷ [])) t ∙ sym (times-next a ∙ rw good refl) in
            let l' : lost ≡ losses (a + 1) = l ∙ sym (losses-next a ∙ rw good refl) in
            let (r, b, ran, ends) =
              measure_from fuel (a + 1) (i + 1) lost (rtt ++ (elapsed a ∷ []))
                (omega (arith, e, length-append rtt (elapsed a ∷ []))) t' l' h (ground arith)
                (omega arith) in
            (r, b, rw (more, good) ran, ends))
      | inr bad ↦
          (let t' : rtt ≡ times (a + 1) = t ∙ sym (times-next a ∙ rw bad refl) in
            let l' : lost + 1 ≡ losses (a + 1) =
              ap (λ m. m + 1) l ∙ sym (losses-next a ∙ rw bad refl) in
            elim (Bool-cases (ltb 50 (lost + 1))) [
              | inl last ↦ (
                too_many_losses,
                a + 1,
                rw (more, bad, last) refl,
                (sym l' ∙ ground arith, ground (arith, ap length t', e)),
              )
              | inr going ↦
                  (let (r, b, ran, ends) =
                      measure_from fuel (a + 1) i (lost + 1) rtt e t' l' (ground arith) k
                        (omega arith) in
                    (r, b, rw (more, bad, going) ran, ends))
            ])
    ]
  ]

  -- The measurement always ends, after at most n + 51 attempts: with `n` times, those of the whole
  -- answers in order, and the number of losses, which is at most 50; or at the 51st loss, with fewer
  -- than `n` whole answers by then.
  pub measure-Ends :
      (r : Measured) × (b : ℕ) × (measure n answers elapsed (n + 52) 0 0 0 [] ≡ some r) × Ends b r
  unfolding times losses
  measure-Ends =
      measure_from (n + 52) 0 0 0 [] refl refl refl (omega arith) (omega arith) (omega arith)
