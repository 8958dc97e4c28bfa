-- ===== src/Rtt/Report.antt =====
-- What is printed of the measured times.
use mathlib.Core.Option
use kmm_yocto.Base.{
  ℕ, ◌+◌, ◌-◌, ◌*◌, ◌/◌, ◌≤◌, ◌<◌, ◌≡◌, refl, ◌∙◌, true, false, some, List, [], ◌∷◌, arith, length,
  get_or, get_elem?-eq-get_or, set, length-set, get_or-set, ltb, ◌==◌, if◌then◌else◌, Bool-cases,
  inl, inr,
}
use kmm_yocto.Rtt.{Summary, summary, bin_of, histogram}

-- The list goes up, as `qsort` leaves it.
abbrev pub IsSorted : List ℕ → Type 0
IsSorted l = (i j : ℕ) → i ≤ j → j < length l → get_or l i 0 ≤ get_or l j 0

-- With at least one time, the four reads are in range, and on sorted times the numbers printed go up
-- from the least to the greatest.
pub summary-some :
    (n : ℕ) (rtt : List ℕ)
    → 0 < n
    → length rtt ≡ n
    → IsSorted rtt
    → (s : Summary) × (summary n rtt ≡ some s)
      × (s.least ≡ get_or rtt 0 0)
      × (s.least ≤ s.median)
      × (s.median ≤ s.p99)
      × (s.p99 ≤ s.most)
      × (s.most ≡ get_or rtt (n - 1) 0)
unfolding summary Option.bind
summary-some n rtt h e sorted =
    let some_n : n == 0 ≡ false = ground arith in
    (
      record {
        least = get_or rtt 0 0;
        median = get_or rtt (n / 2) 0;
        p99 = get_or rtt (n * 99 / 100) 0;
        most = get_or rtt (n - 1) 0;
      },
      rw
          (
            get_elem?-eq-get_or rtt 0 0 (omega arith),
            get_elem?-eq-get_or rtt (n / 2) 0 (omega arith),
            get_elem?-eq-get_or rtt (n * 99 / 100) 0 (omega arith),
            some_n,
            get_elem?-eq-get_or rtt (n - 1) 0 (omega arith),
          )
          refl,
      refl,
      sorted 0 (n / 2) (omega arith) (omega arith),
      sorted (n / 2) (n * 99 / 100) (omega arith) (omega arith),
      sorted (n * 99 / 100) (n - 1) (omega arith) (omega arith),
      refl,
    )

-- How many times fall into bin `j`.
unfoldable pub falls : (j : ℕ) → List ℕ → ℕ
falls j [] = 0
falls j (t ∷ ts) = if bin_of t == j then falls j ts + 1 else falls j ts

counted :
    (j more b : ℕ) (bins : List ℕ)
    → length bins ≡ 20
    → b < length bins
    → get_or (set bins b (get_or bins b 0 + 1)) j 0 + (if ltb j 20 then more else 0)
      ≡ get_or bins j 0 + (if ltb j 20 then (if b == j then more + 1 else more) else 0)
counted j more b bins e h = elim (Bool-cases (b == j)) [
  | inl same ↦
      (let here : j ≡ b = ground arith in
        rw here (ground (arith, get_or-set bins b (get_or bins b 0 + 1) b h)))
  | inr other ↦ ground (arith, get_or-set bins b (get_or bins b 0 + 1) j h)
]

-- With 20 bins the histogram is in range for any times, and each bin grows by the number of times
-- that fall into it.
pub histogram-falls :
    (ts bins : List ℕ)
    → length bins ≡ 20
    → (bins' : List ℕ) × (histogram ts bins ≡ some bins')
      × (length bins' ≡ 20)
      × ((j : ℕ) → get_or bins' j 0 ≡ get_or bins j 0 + (if ltb j 20 then falls j ts else 0))
unfolding histogram falls Option.bind
histogram-falls [] bins e = (bins, refl, e, λ j. ground arith)
histogram-falls (t ∷ ts) bins e =
    let b = bin_of t in
    let below : b < length bins = ground (arith, e) in
    let c = get_or bins b 0 in
    let bins₁ = set bins b (c + 1) in
    let inside : ltb b (length bins) ≡ true = ground (arith, below) in
    let (bins', ran, whole, counts) = histogram-falls ts bins₁ (length-set bins b (c + 1) ∙ e) in
    (
      bins',
      rw (get_elem?-eq-get_or bins b 0 below, inside) ran,
      whole,
      λ j. counts j ∙ counted j (falls j ts) b bins e below,
    )
