-- ===== src/CharRtt/Report.antt =====
-- What the tool reports, and how it fails.
use kmm_yocto.Base.{
  ℕ, zero, suc, ◌+◌, ◌-◌, ◌≤◌, ◌<◌, ◌≡◌, ◌≢◌, inl, inr, refl, sym, ap, ◌∙◌, Bool, true, false, ◌&&◌,
  some, List, [], ◌∷◌, ◌++◌, arith, length, get_or, ltb, ◌==◌, if◌then◌else◌, Bool-cases, codes, ℤ,
  pos,
}
use mathlib.Core.Path.{subst}
use mathlib.Core.List.{append-nil, append_assoc}
use kmm_yocto.Rtt.{Summary}
use kmm_yocto.Rtt.Report.{IsSorted, summary-some}
use kmm_yocto.CharRtt.{
  m4_ept_addr, cmp_ll, EndpointInfo, Os, exits, reports, find_dev, not_positive, is_sixteen, fails,
  measured, elapsed, measure, finish, with_device, main,
}

-- Round `i` brings an answer.
abbrev pub Answered : Os → ℕ → Type 0
Answered os i =
    (is_sixteen (os.sends i) ≡ true)
    × (not_positive (os.polls i) ≡ false)
    × (not_positive (os.receives i) ≡ false)

-- The times of `n` rounds from round `i` on.
abbrev pub times_from : Os → (i n : ℕ) → List ℕ
times_from os i zero = []
times_from os i (suc n) = elapsed os i ∷ times_from os (i + 1) n

-- `qsort` has sorted this list: it is as long, goes up in the order of the comparison function, and
-- every element is still there.
pub record Sorts (cmp : ℕ → ℕ → ℤ) (before after : List ℕ) : Type 0 where
  pub same_length : length after ≡ length before
  pub goes_up :
      (i j : ℕ)
      → i ≤ j
      → j < length after
      → ((k : ℕ) → cmp (get_or after i 0) (get_or after j 0) ≢ pos (suc k))
  pub keeps :
      (i : ℕ)
      → i < length before
      → (k : ℕ) × (k < length after) × (get_or after k 0 ≡ get_or before i 0)

module _ (os : Os) where
  length-times_from : (i n : ℕ) → length (times_from os i n) ≡ n
  length-times_from i zero = refl
  length-times_from i (suc n) = ap suc (length-times_from (i + 1) n)

  get_or-times_from : (i n k : ℕ) → k < n → get_or (times_from os i n) k 0 ≡ elapsed os (i + k)
  get_or-times_from i zero k h = absurd (omega arith)
  get_or-times_from i (suc n) zero h = ap (elapsed os) (omega arith)
  get_or-times_from i (suc n) (suc k) h =
      get_or-times_from (i + 1) n k (omega arith) ∙ ap (elapsed os) (omega arith)

  measure_from :
      (left i : ℕ) (rtt : List ℕ)
      → ((k : ℕ) → i ≤ k → k < i + left → Answered os k)
      → measure os left i rtt ≡ measured (rtt ++ times_from os i left)
  unfolding measure
  measure_from zero i rtt h = ap measured (sym (append-nil rtt))
  measure_from (suc left) i rtt h =
      let (s, p, r) = h i (omega arith) (omega arith) in
      rw (s, p, r)
        (measure_from left (i + 1) (rtt ++ (elapsed os i ∷ []))
            (λ k a b. h k (omega arith) (omega arith))
          ∙ ap measured (append_assoc rtt (elapsed os i ∷ []) (times_from os (i + 1) left)))

cmp_ll-le : (x y : ℕ) → ((k : ℕ) → cmp_ll x y ≢ pos (suc k)) → x ≤ y
cmp_ll-le x y h = elim (Bool-cases (ltb y x)) [
  | inl above ↦ absurd (h 0 (rw above refl))
  | inr below ↦ ground arith
]

pub IsSorted-up : (l l' : List ℕ) → Sorts cmp_ll l l' → IsSorted l'
IsSorted-up l l' s i j h k = cmp_ll-le (get_or l' i 0) (get_or l' j 0) (s.goes_up i j h k)

-- The device with the highest number among the first `n` that can be opened.
abbrev pub IsHighest : (can_open : ℕ → Bool) (n i : ℕ) → Type 0
IsHighest can_open n i =
    (i < n) × (can_open i ≡ true) × ((k : ℕ) → i < k → k < n → can_open k ≡ false)

find_dev-some :
    (can_open : ℕ → Bool) (n i : ℕ) → IsHighest can_open n i → find_dev can_open n ≡ some i
unfolding find_dev
find_dev-some can_open zero i (h, o, c) = absurd (omega arith)
find_dev-some can_open (suc n) i (h, o, c) = elim (Bool-cases (i == n)) [
  | inl last ↦ (let at : i ≡ n = ground arith in rw (ap can_open (sym at) ∙ o) (ap some (sym at)))
  | inr earlier ↦
      (let below : i < n = ground arith in
        rw (c n below (omega arith))
          (find_dev-some can_open n i (below, o, λ k a b. c k a (omega arith))))
]

-- What the endpoint is created with.
abbrev pub endpoint : EndpointInfo
endpoint = record { name = codes "rpmsg-rtt"; src = 0xFFFFFFFF; dst = m4_ept_addr }

-- The tool has its endpoint and device, and the warm-up was answered.
pub record Ready (os : Os) (device : ℕ) : Type 0 where
  pub opens : os.opens_ctrl ≡ true
  pub creates : os.creates endpoint ≡ true
  pub highest : IsHighest os.can_open 8 device
  pub warm : not_positive os.warm_poll ≡ false

module _ (os : Os) (qsort : (ℕ → ℕ → ℤ) → List ℕ → List ℕ) (device n : ℕ)
    (ready : Ready os device) where
  main-Ready : main os qsort n ≡ finish os qsort n device (measure os n 0 [])
  unfolding main with_device measure finish
  main-Ready =
      let o = ready.opens in
      let c = ready.creates in
      let f = find_dev-some os.can_open 8 device ready.highest in rw (o, c, f, ready.warm) refl

  -- When the tool has its endpoint, the device opened is the one with the highest number below 8
  -- that can be. If every one of the n > 0 rounds is answered, the tool reports; the least time is at
  -- most the median, that at most the 99th percentile, that at most the greatest, and the time of
  -- every round lies between the least and the greatest.
  pub main-reports :
      0 < n
      → ((k : ℕ) → k < n → Answered os k)
      → Sorts cmp_ll (times_from os 0 n) (qsort cmp_ll (times_from os 0 n))
      → (s : Summary) × (main os qsort n ≡ some (reports device s))
        × (s.least ≤ s.median)
        × (s.median ≤ s.p99)
        × (s.p99 ≤ s.most)
        × ((k : ℕ) → k < n → (s.least ≤ elapsed os k) × (elapsed os k ≤ s.most))
  unfolding finish
  main-reports some_n all sorts =
      let times = times_from os 0 n in
      let sorted = qsort cmp_ll times in
      let up = IsSorted-up times sorted sorts in
      let size : length sorted ≡ n = sorts.same_length ∙ length-times_from os 0 n in
      let (s, is, first, low, middle, high, last) = summary-some n sorted some_n size up in
      let got : measure os n 0 [] ≡ measured times =
        measure_from os n 0 [] (λ k a b. all k (omega arith)) in
      (
        s,
        main-Ready ∙ rw (got, is) refl,
        low,
        middle,
        high,
        λ k h.
            let (j, inside, at) = sorts.keeps k (omega (arith, length-times_from os 0 n)) in
            let time : get_or sorted j 0 ≡ elapsed os k =
              at ∙ get_or-times_from os 0 n k h ∙ ap (elapsed os) (omega arith) in
            let above = up 0 j (omega arith) inside in
            let below = up j (n - 1) (omega (arith, size)) (omega (arith, size)) in
            (omega (arith, first, time, above), omega (arith, last, time, below)),
      )

  -- The exit code of a round that is not answered: 2 if the message was sent whole, and nothing came
  -- within 2 s.
  abbrev pub code_of : ℕ → ℕ
  code_of i = if is_sixteen (os.sends i) && not_positive (os.polls i) then 2 else 1

  bad_round :
      (left i : ℕ) (rtt : List ℕ)
      → ¬ Answered os i
      → measure os (suc left) i rtt ≡ fails (code_of i)
  unfolding measure
  bad_round left i rtt bad = elim (Bool-cases (is_sixteen (os.sends i))) [
    | inr unsent ↦ rw unsent refl
    | inl sent ↦ elim (Bool-cases (not_positive (os.polls i))) [
      | inl silent ↦ rw (sent, silent) refl
      | inr came ↦ elim (Bool-cases (not_positive (os.receives i))) [
        | inl broken ↦ rw (sent, came, broken) refl
        | inr good ↦ absurd (bad (sent, came, good))
      ]
    ]
  ]

  fails_from :
      (left i j : ℕ) (rtt : List ℕ)
      → i ≤ j
      → j < i + left
      → ((k : ℕ) → i ≤ k → k < j → Answered os k)
      → ¬ Answered os j
      → measure os left i rtt ≡ fails (code_of j)
  unfolding measure
  fails_from zero i j rtt h k all bad = absurd (omega arith)
  fails_from (suc left) i j rtt h k all bad = elim (Bool-cases (i == j)) [
    | inl here ↦
        subst (λ r. measure os (suc left) i rtt ≡ fails (code_of r)) (ground arith)
          (bad_round left i rtt (λ good. bad (subst (Answered os) (ground arith) good)))
    | inr later ↦
        (let (s, p, r) = all i (omega arith) (ground arith) in
          rw (s, p, r)
            (fails_from left (i + 1) j (rtt ++ (elapsed os i ∷ [])) (ground arith) (omega arith)
              (λ k a b. all k (omega arith) b) bad))
  ]

  -- When the tool has its endpoint, device and warm-up, and round `j` is the first that is not
  -- answered, the tool ends there, with the exit code of that round.
  pub main-fails :
      (j : ℕ)
      → j < n
      → ((k : ℕ) → k < j → Answered os k)
      → ¬ Answered os j
      → main os qsort n ≡ some (exits (code_of j))
  unfolding finish
  main-fails j h all bad =
      let got : measure os n 0 [] ≡ fails (code_of j) =
        fails_from n 0 j [] (omega arith) (omega arith) (λ k a b. all k b) bad in
      main-Ready ∙ rw got refl
