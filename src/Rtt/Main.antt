-- ===== src/Rtt/Main.antt =====
-- `main` of rpmsg-rtt.c as a whole: the terminal, the warm-up, the measurement, and what is
-- reported. The warm-up writes a ping and reads once; what this read leaves, the first attempt finds.
-- `qsort` is a parameter; its comparison function
-- is the one of rpmsg-char-rtt.c.
use mathlib.Core.Option
use kmm_yocto.Base.{
  ℕ, zero, suc, ◌+◌, ◌-◌, ◌≤◌, ◌<◌, ◌≡◌, refl, ap, ◌∙◌, Bool, true, Option, none, some, List, [],
  ◌∷◌, arith, length, length-replicate, replicate, get_or, set, length-set, get_elem?-eq-get_or,
  ltb, if◌then◌else◌, ℤ,
}
use kmm_yocto.Rtt.{
  Measured, done, too_many_losses, offered, measure, Summary, summary, bin_of, histogram,
}
use kmm_yocto.Rtt.Measure.{times, losses, Ends, measure-Ends}
use kmm_yocto.Rtt.Report.{summary-some}
use kmm_yocto.CharRtt.{cmp_ll}
use kmm_yocto.CharRtt.Report.{Sorts, IsSorted-up}

-- How the program ends.
pub data Ended : Type 0 where
  exits : ℕ → Ended
  reports : (lost : ℕ) → Summary → (bins : List ℕ) → Ended

-- `argc > 1 ? atoi(argv[1]) : 1000`, with what `atoi` gives; not below 0.
abbrev pub count_of : Option ℕ → ℕ
count_of none = 1000
count_of (some n) = n

module _ (qsort : (ℕ → ℕ → ℤ) → List ℕ → List ℕ) where
  -- After the loop. `rtt[...]` and `bins[...]` out of range give `none`.
  unfoldable pub finish : ℕ → Measured → Option Ended
  unfolding Option.bind
  finish n (done lost rtt) =
      let sorted = qsort cmp_ll rtt in
      Option.bind (summary n sorted)
        (λ s. Option.map (reports lost s) (histogram sorted (replicate 20 0)))
  finish n too_many_losses = some (exits 1)

  -- `main`: whether the terminal opens, the reads that each ping brings, the time of each attempt, and
  -- the argument.
  unfoldable pub main :
      (opens : Bool) (answers : ℕ → List ℤ) (elapsed : ℕ → ℕ) (arg : Option ℕ) → Option Ended
  unfolding Option.bind
  main opens answers elapsed arg =
      let n = count_of arg in
      if opens
      then Option.bind (measure n (offered answers) elapsed (n + 52) 0 0 0 []) (finish n)
      else some (exits 1)

abbrev pub total : List ℕ → ℕ
total [] = 0
total (b ∷ bins) = b + total bins

total-set :
    (bins : List ℕ) (b : ℕ)
    → b < length bins
    → total (set bins b (get_or bins b 0 + 1)) ≡ total bins + 1
total-set [] b h = absurd (omega arith)
total-set (c ∷ bins) zero h = omega arith
total-set (c ∷ bins) (suc b) h = omega (arith, total-set bins b (omega arith))

total-zero : (n : ℕ) → total (replicate n 0) ≡ 0
total-zero zero = refl
total-zero (suc n) = omega (arith, total-zero n)

-- Each time is counted in one bin.
histogram-total :
    (ts bins : List ℕ)
    → length bins ≡ 20
    → (bins' : List ℕ) × (histogram ts bins ≡ some bins')
      × (length bins' ≡ 20)
      × (total bins' ≡ total bins + length ts)
unfolding histogram Option.bind
histogram-total [] bins e = (bins, refl, e, omega arith)
histogram-total (t ∷ ts) bins e =
    let b = bin_of t in
    let below : b < length bins = ground (arith, e) in
    let c = get_or bins b 0 in
    let inside : ltb b (length bins) ≡ true = ground (arith, below) in
    let (bins', ran, whole, all) =
      histogram-total ts (set bins b (c + 1)) (length-set bins b (c + 1) ∙ e) in
    (
      bins',
      rw (get_elem?-eq-get_or bins b 0 below, inside) ran,
      whole,
      omega (arith, all, total-set bins b below),
    )

module _ (answers : ℕ → List ℤ) (elapsed : ℕ → ℕ) (n : ℕ) where
  -- How the program ends after `b` attempts.
  abbrev pub EndsWith : (b : ℕ) → Ended → Type 0
  EndsWith b (exits code) =
      (code ≡ 1) × (losses n answers elapsed b ≡ 51) × (length (times n answers elapsed b) < n)
  EndsWith b (reports lost s bins) =
      (lost ≡ losses n answers elapsed b)
      × (lost ≤ 50)
      × (length (times n answers elapsed b) ≡ n)
      × (s.least ≤ s.median)
      × (s.median ≤ s.p99)
      × (s.p99 ≤ s.most)
      × ((k : ℕ)
          → k < n
          → (s.least ≤ get_or (times n answers elapsed b) k 0)
            × (get_or (times n answers elapsed b) k 0 ≤ s.most))
      × (length bins ≡ 20)
      × (total bins ≡ n)

  module _ (qsort : (ℕ → ℕ → ℤ) → List ℕ → List ℕ)
      (sorts : (l : List ℕ) → Sorts cmp_ll l (qsort cmp_ll l)) (some_n : 0 < n) where
    pub finish-EndsWith :
        (b : ℕ) (r : Measured)
        → Ends n answers elapsed b r
        → (e : Ended) × (finish qsort n r ≡ some e) × EndsWith b e
    unfolding finish Option.bind
    finish-EndsWith b too_many_losses (l, few) = (exits 1, refl, (refl, l, few))
    finish-EndsWith b (done lost rtt) (size, same, l, few) =
        let sorted = qsort cmp_ll rtt in
        let long : length rtt ≡ n = ap length same ∙ size in
        let size' : length sorted ≡ n = (sorts rtt).same_length ∙ long in
        let up = IsSorted-up rtt sorted (sorts rtt) in
        let (s, is, first, low, middle, high, last) = summary-some n sorted some_n size' up in
        let (bins, ran, twenty, all) =
          histogram-total sorted (replicate 20 0) (length-replicate {A = ℕ} 20 0) in
        (
          reports lost s bins,
          rw (is, ran) refl,
          (
            l,
            few,
            size,
            low,
            middle,
            high,
            λ k h.
                let (j, inside, at) = (sorts rtt).keeps k (omega (arith, long)) in
                let time : get_or sorted j 0 ≡ get_or (times n answers elapsed b) k 0 =
                  at ∙ ap (λ l. get_or l k 0) same in
                let above = up 0 j (omega arith) inside in
                let below = up j (n - 1) (omega (arith, size')) (omega (arith, size')) in
                (omega (arith, first, time, above), omega (arith, last, time, below)),
            twenty,
            omega (arith, all, total-zero 20, size'),
          ),
        )

module _ (answers : ℕ → List ℤ) (elapsed : ℕ → ℕ) (n : ℕ) (qsort : (ℕ → ℕ → ℤ) → List ℕ → List ℕ)
    (sorts : (l : List ℕ) → Sorts cmp_ll l (qsort cmp_ll l)) (some_n : 0 < n) where
  -- With a terminal that opens, a `qsort` that sorts and a count `n` above 0, the program ends
  -- whatever the reads return, those that the one read of the warm-up leaves included. Either it
  -- gives up with code 1 at the 51st attempt without a whole answer, with fewer than `n` whole
  -- answers by then. Or it reports the number of those attempts, at most 50, and of the `n` times:
  -- the least is at most the median, that at most the 99th percentile, that at most the greatest;
  -- every time lies between the least and the greatest; and the 20 bins of the histogram count `n`
  -- times in all.
  pub main-EndsWith :
      (arg : Option ℕ)
      → count_of arg ≡ n
      → (e : Ended) × (b : ℕ) × (main qsort true answers elapsed arg ≡ some e)
        × EndsWith (offered answers) elapsed n b e
  unfolding main Option.bind
  main-EndsWith arg count =
      let (r, b, ran, ends) = measure-Ends n (offered answers) elapsed in
      let (e, out, what) =
        finish-EndsWith (offered answers) elapsed n qsort sorts some_n b r ends in
      (e, b, rw (count, ran) out, what)
