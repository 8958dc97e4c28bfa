-- ===== src/Rtt/Lossless.antt =====
-- The measurement of rpmsg-rtt.c when every attempt brings a whole answer.
use mathlib.Core.Option
use kmm_yocto.Base.{
  ℕ, zero, suc, ◌+◌, ◌≤◌, ◌<◌, ◌≡◌, refl, sym, ap, ◌∙◌, true, false, some, ltb, List, [], ◌∷◌, ◌++◌,
  arith, length, length-append, get_or, get_or-append, get_or-last, Bool-cases, inl, inr, ◌==◌, ℤ,
}
use kmm_yocto.Rtt.{tx_size, collect, done, offered, measure, Summary}
use kmm_yocto.Rtt.Measure.{times, losses, times-next, Ends}
use kmm_yocto.Rtt.Main.{Ended, exits, reports, main, total, EndsWith, finish-EndsWith}
use kmm_yocto.CharRtt.{cmp_ll}
use kmm_yocto.CharRtt.Report.{Sorts}

-- Attempt `a` brings a whole answer.
abbrev pub IsWhole : (answers : ℕ → List ℤ) (a : ℕ) → Type 0
IsWhole answers a = collect 0 (answers a) == tx_size ≡ true

module _ (answers : ℕ → List ℤ) (elapsed : ℕ → ℕ) (n : ℕ)
    (whole : (a : ℕ) → a < n → IsWhole answers a) where
  none_lost : (b : ℕ) → b ≤ n → losses n answers elapsed b ≡ 0
  unfolding losses
  none_lost zero h = refl
  none_lost (suc b) h = rw (whole b (omega arith)) (none_lost b (omega arith))

  length-times : (b : ℕ) → b ≤ n → length (times n answers elapsed b) ≡ b
  unfolding times
  length-times zero h = refl
  length-times (suc b) h = rw (whole b (omega arith)) (
      omega (
        arith,
        length-append (times n answers elapsed b) (elapsed b ∷ []),
        length-times b (omega arith),
      ))

  get_or-times : (b k : ℕ) → b ≤ n → k < b → get_or (times n answers elapsed b) k 0 ≡ elapsed k
  unfolding times
  get_or-times zero k l h = absurd (omega arith)
  get_or-times (suc b) k l h =
      let long = length-times b (omega arith) in
      rw (whole b (omega arith)) (elim (Bool-cases (k == b)) [
        | inl last ↦
            (let at : k ≡ length (times n answers elapsed b) = ground (arith, long) in
              let same : b ≡ k = ground arith in
              ap (λ i. get_or (times n answers elapsed b ++ (elapsed b ∷ [])) i 0) at
              ∙ get_or-last (times n answers elapsed b) (elapsed b) 0
              ∙ ap elapsed same)
        | inr earlier ↦
            (let below : k < b = ground arith in
              get_or-append (times n answers elapsed b) (elapsed b ∷ []) k 0 (omega (arith, long))
              ∙ get_or-times b k (omega arith) below)
      ])

  measure_all :
      (left fuel a : ℕ)
      → a + left ≡ n
      → left < fuel
      → measure n answers elapsed fuel a a 0 (times n answers elapsed a)
        ≡ some (done 0 (times n answers elapsed n))
  unfolding measure
  measure_all left zero a e f = absurd (omega arith)
  measure_all zero (suc fuel) a e f =
      let over : ltb a n ≡ false = ground arith in
      let at : a ≡ n = omega arith in
      rw over (ap (λ b. some (done 0 (times n answers elapsed b))) at)
  measure_all (suc left) (suc fuel) a e f =
      let more : ltb a n ≡ true = ground arith in
      let good = whole a (omega arith) in
      let next : times n answers elapsed (a + 1) ≡ times n answers elapsed a ++ (elapsed a ∷ []) =
        times-next n answers elapsed a ∙ rw good refl in
      rw (more, good)
        (ap (measure n answers elapsed fuel (a + 1) (a + 1) 0) (sym next)
          ∙ measure_all left fuel (a + 1) (omega arith) (omega arith))

  -- A report without a loss, on the times of the n attempts.
  abbrev pub Reports : Ended → Type 0
  Reports e =
      (s : Summary) × (bins : List ℕ) × (e ≡ reports 0 s bins)
      × (s.least ≤ s.median)
      × (s.median ≤ s.p99)
      × (s.p99 ≤ s.most)
      × ((k : ℕ) → k < n → (s.least ≤ elapsed k) × (elapsed k ≤ s.most))
      × (length bins ≡ 20)
      × (total bins ≡ n)

  Reports-end : (e : Ended) → EndsWith answers elapsed n n e → Reports e
  Reports-end (exits code) (_, l, _) = absurd (omega (arith, l, none_lost n (omega arith)))
  Reports-end (reports lost s bins) (l, _, size, low, middle, high, between, twenty, all) = (
    s,
    bins,
    ap (λ m. reports m s bins) (l ∙ none_lost n (omega arith)),
    low,
    middle,
    high,
    λ k h.
        let at = get_or-times n k (omega arith) h in
        let (above, below) = between k h in (omega (arith, at, above), omega (arith, at, below)),
    twenty,
    all,
  )

module _ (replies : ℕ → List ℤ) (elapsed : ℕ → ℕ) (n : ℕ)
    (whole : (a : ℕ) → a < n → IsWhole (offered replies) a) where
  pub main-Reports :
      (qsort : (ℕ → ℕ → ℤ) → List ℕ → List ℕ)
      → ((l : List ℕ) → Sorts cmp_ll l (qsort cmp_ll l))
      → 0 < n
      → (e : Ended) × (main qsort true replies elapsed (some n) ≡ some e)
        × Reports (offered replies) elapsed n whole e
  unfolding main Option.bind times
  main-Reports qsort sorts some_n =
      let answers = offered replies in
      let ran = measure_all answers elapsed n whole n (n + 52) 0 (omega arith) (omega arith) in
      let ends : Ends n answers elapsed n (done 0 (times n answers elapsed n)) = (
        length-times answers elapsed n whole n (omega arith),
        refl,
        sym (none_lost answers elapsed n whole n (omega arith)),
        omega arith,
      ) in
      let (e, out, what) =
        finish-EndsWith answers elapsed n qsort sorts some_n n (done 0 (times n answers elapsed n))
          ends in
      (e, rw ran out, Reports-end answers elapsed n whole e what)
