-- ===== src/Rtt/Sort.antt =====
-- A function in the place of `qsort`: insertion by the comparison function of the tools.
use kmm_yocto.Base.{
  ℕ, zero, suc, ◌+◌, ◌≤◌, ◌<◌, ◌≡◌, inl, inr, refl, sym, ap, ◌∙◌, ◌≢◌, Bool, true, false, List, [],
  ◌∷◌, arith, length, get_or, ltb, if◌then◌else◌, Bool-cases, ℤ, pos, negsuc,
}
use kmm_yocto.CharRtt.{cmp_ll}
use kmm_yocto.CharRtt.Report.{Sorts}

abbrev is_above : ℤ → Bool
is_above (pos zero) = false
is_above (pos (suc k)) = true
is_above (negsuc k) = false

module _ (cmp : ℕ → ℕ → ℤ) where
  unfoldable pub insert : ℕ → List ℕ → List ℕ
  insert x [] = x ∷ []
  insert x (y ∷ ys) = if is_above (cmp x y) then y ∷ insert x ys else x ∷ y ∷ ys

  unfoldable pub sort : List ℕ → List ℕ
  sort [] = []
  sort (x ∷ xs) = insert x (sort xs)

is_above-cmp_ll : (x y : ℕ) → is_above (cmp_ll x y) ≡ ltb y x
is_above-cmp_ll x y = elim (Bool-cases (ltb y x)) [
  | inl above ↦ rw above refl
  | inr below ↦
      rw below (elim (Bool-cases (ltb x y)) [ inl under ↦ rw under refl | inr same ↦ rw same refl ])
]

length-insert : (x : ℕ) (l : List ℕ) → length (insert cmp_ll x l) ≡ length l + 1
unfolding insert
length-insert x [] = refl
length-insert x (y ∷ ys) = elim (Bool-cases (is_above (cmp_ll x y))) [
  | inl above ↦ rw above (omega (arith, length-insert x ys))
  | inr below ↦ rw below (omega arith)
]

length-sort : (l : List ℕ) → length (sort cmp_ll l) ≡ length l
unfolding sort
length-sort [] = refl
length-sort (x ∷ xs) = omega (arith, length-insert x (sort cmp_ll xs), length-sort xs)

-- Every element is at least `b`.
abbrev IsBounded : (b : ℕ) → List ℕ → Type 0
IsBounded b [] = Unit {0}
IsBounded b (x ∷ xs) = (b ≤ x) × IsBounded b xs

-- Every element is at most each that follows.
abbrev GoesUp : List ℕ → Type 0
GoesUp [] = Unit {0}
GoesUp (x ∷ xs) = IsBounded x xs × GoesUp xs

IsBounded-below : (b c : ℕ) (l : List ℕ) → b ≤ c → IsBounded c l → IsBounded b l
IsBounded-below b c [] h all = tt
IsBounded-below b c (x ∷ xs) h (first, rest) = (omega arith, IsBounded-below b c xs h rest)

IsBounded-get_or : (b : ℕ) (l : List ℕ) (k : ℕ) → IsBounded b l → k < length l → b ≤ get_or l k 0
IsBounded-get_or b [] k all h = absurd (omega arith)
IsBounded-get_or b (x ∷ xs) zero all h = all.0
IsBounded-get_or b (x ∷ xs) (suc k) all h = IsBounded-get_or b xs k all.1 (omega arith)

IsBounded-insert : (b x : ℕ) (l : List ℕ) → b ≤ x → IsBounded b l → IsBounded b (insert cmp_ll x l)
unfolding insert
IsBounded-insert b x [] h all = (h, tt)
IsBounded-insert b x (y ∷ ys) h all = elim (Bool-cases (is_above (cmp_ll x y))) [
  | inl above ↦ rw above (all.0, IsBounded-insert b x ys h all.1)
  | inr below ↦ rw below (h, all)
]

GoesUp-get_or :
    (l : List ℕ) (i j : ℕ) → GoesUp l → i ≤ j → j < length l → get_or l i 0 ≤ get_or l j 0
GoesUp-get_or [] i j u h k = absurd (omega arith)
GoesUp-get_or (x ∷ l) zero zero u h k = omega arith
GoesUp-get_or (x ∷ l) zero (suc j) u h k = IsBounded-get_or x l j u.0 (omega arith)
GoesUp-get_or (x ∷ l) (suc i) zero u h k = absurd (omega arith)
GoesUp-get_or (x ∷ l) (suc i) (suc j) u h k = GoesUp-get_or l i j u.1 (omega arith) (omega arith)

GoesUp-insert : (x : ℕ) (l : List ℕ) → GoesUp l → GoesUp (insert cmp_ll x l)
unfolding insert
GoesUp-insert x [] u = (tt, tt)
GoesUp-insert x (y ∷ ys) u = elim (Bool-cases (is_above (cmp_ll x y))) [
  | inl above ↦
      (let less : ltb y x ≡ true = sym (is_above-cmp_ll x y) ∙ above in
        rw above (IsBounded-insert y x ys (ground arith) u.0, GoesUp-insert x ys u.1))
  | inr below ↦
      (let up : ltb y x ≡ false = sym (is_above-cmp_ll x y) ∙ below in
        let least : x ≤ y = ground arith in rw below ((least, IsBounded-below x y ys least u.0), u))
]

GoesUp-sort : (l : List ℕ) → GoesUp (sort cmp_ll l)
unfolding sort
GoesUp-sort [] = tt
GoesUp-sort (x ∷ xs) = GoesUp-insert x (sort cmp_ll xs) (GoesUp-sort xs)

-- `x` stands somewhere in the list.
abbrev Has : ℕ → List ℕ → Type 0
Has x l = (k : ℕ) × (k < length l) × (get_or l k 0 ≡ x)

Has-later : (x y : ℕ) (l : List ℕ) → Has x l → Has x (y ∷ l)
Has-later x y l (k, h, e) = (suc k, omega arith, e)

Has-insert : (x : ℕ) (l : List ℕ) → Has x (insert cmp_ll x l)
unfolding insert
Has-insert x [] = (0, omega arith, refl)
Has-insert x (y ∷ ys) = elim (Bool-cases (is_above (cmp_ll x y))) [
  | inl above ↦ rw above (Has-later x y (insert cmp_ll x ys) (Has-insert x ys))
  | inr below ↦ rw below (0, omega arith, refl)
]

Has-insert_other : (z x : ℕ) (l : List ℕ) → Has z l → Has z (insert cmp_ll x l)
unfolding insert
Has-insert_other z x [] (k, h, e) = absurd (omega arith)
Has-insert_other z x (y ∷ ys) (zero, h, e) = elim (Bool-cases (is_above (cmp_ll x y))) [
  | inl above ↦ rw above (0, omega arith, e)
  | inr below ↦ rw below (1, omega arith, e)
]
Has-insert_other z x (y ∷ ys) (suc k, h, e) = elim (Bool-cases (is_above (cmp_ll x y))) [
  | inl above ↦
      rw above (Has-later z y (insert cmp_ll x ys) (Has-insert_other z x ys (k, omega arith, e)))
  | inr below ↦ rw below (suc (suc k), omega arith, e)
]

Has-sort : (l : List ℕ) (i : ℕ) → i < length l → Has (get_or l i 0) (sort cmp_ll l)
unfolding sort
Has-sort [] i h = absurd (omega arith)
Has-sort (x ∷ xs) zero h = Has-insert x (sort cmp_ll xs)
Has-sort (x ∷ xs) (suc i) h =
    Has-insert_other (get_or xs i 0) x (sort cmp_ll xs) (Has-sort xs i (omega arith))

cmp_ll-up : (x y : ℕ) → x ≤ y → (k : ℕ) → cmp_ll x y ≢ pos (suc k)
cmp_ll-up x y h k e =
    let below : ltb y x ≡ false = ground arith in
    let is : is_above (cmp_ll x y) ≡ true = ap is_above e in cc (is_above-cmp_ll x y, below, is)

pub sort-Sorts : (l : List ℕ) → Sorts cmp_ll l (sort cmp_ll l)
sort-Sorts l = record {
  same_length = length-sort l;
  goes_up = λ i j h k.
      cmp_ll-up (get_or (sort cmp_ll l) i 0) (get_or (sort cmp_ll l) j 0)
        (GoesUp-get_or (sort cmp_ll l) i j (GoesUp-sort l) h k);
  keeps = Has-sort l;
}
