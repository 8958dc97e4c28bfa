-- ===== src/LibcMin/Strings.antt =====
-- The string functions on strings that are ended by a zero, and memcmp.
use mathlib.Core.Option
use kmm_yocto.Base.{
  ℕ, zero, suc, ◌+◌, ◌-◌, ◌≤◌, ◌<◌, ◌≡◌, ◌≢◌, ◌⊎◌, inl, inr, ◌↔◌, refl, ap, ◌∙◌, true, false, some,
  Option, List, [], ◌∷◌, ◌++◌, arith, ltb, ◌==◌, if◌then◌else◌, length, get_or, set, take,
  length-set, get_or-set, get_or-set_ne, All, Bool-cases, ℤ, pos, is_zero, is_negative,
}
use kmm_yocto.LibcMin.{difference, memcmp, strlen, pad_zeros, strncpy, strcmp, strncmp}
use kmm_yocto.LibcMin.Memory.{covers}

-- No character is the zero that ends a string.
abbrev pub IsText : List ℕ → Type 0
IsText = All (λ c. 0 < c)

-- The string in memory: its text, the zero, and what stands behind.
abbrev pub ended : (t rest : List ℕ) → List ℕ
ended t rest = t ++ (0 ∷ rest)

-- The order of the dictionary, bytes taken as unsigned.
abbrev pub Before : List ℕ → List ℕ → Type 0
Before [] [] = ⊥
Before [] (y ∷ b) = Unit {0}
Before (x ∷ a) [] = ⊥
Before (x ∷ a) (y ∷ b) = (x < y) ⊎ ((x ≡ y) × Before a b)

-- The sign of a comparison.
pub record Compares (a b : List ℕ) (r : Option ℤ) : Type 0 where
  pub sign : ℤ
  pub returns : r ≡ some sign
  pub same : (is_zero sign ≡ true) ↔ (a ≡ b)
  pub less : (is_negative sign ≡ true) ↔ Before a b

-- strlen of a string is the length of its text.
pub strlen-ended : (t rest : List ℕ) → IsText t → strlen (ended t rest) ≡ some (length t)
unfolding strlen
strlen-ended [] rest h = refl
strlen-ended (c ∷ t) rest h = ground (arith, strlen-ended t rest h.1)

head_of : List ℕ → ℕ
head_of l = get_or l 0 0

tail_of : List ℕ → List ℕ
tail_of [] = []
tail_of (x ∷ l) = l

cons_injective : (x y : ℕ) (a b : List ℕ) → x ∷ a ≡ y ∷ b → (x ≡ y) × (a ≡ b)
unfolding head_of tail_of
cons_injective x y a b e = (ap head_of e, ap tail_of e)

Compares-cons : (x : ℕ) (a b : List ℕ) {r : Option ℤ} → Compares a b r → Compares (x ∷ a) (x ∷ b) r
Compares-cons x a b c = record {
  sign = c.sign;
  returns = c.returns;
  same = (λ z. ap (λ l. x ∷ l) (c.same.0 z), λ e. c.same.1 (cons_injective x x a b e).1);
  less = (
    λ z. inr (refl, c.less.0 z),
    λ o. elim o [ inl l ↦ absurd (omega arith) | inr e ↦ c.less.1 e.1 ],
  );
}

Compares-differ :
    (x y : ℕ) (a b : List ℕ) → x ≢ y → Compares (x ∷ a) (y ∷ b) (some (difference x y))
Compares-differ x y a b ne = record {
  sign = difference x y;
  returns = refl;
  same = (λ z. ground arith, λ e. absurd (ne (cons_injective x y a b e).0));
  less = (λ z. inl (ground arith), λ o. elim o [ inl l ↦ ground arith | inr e ↦ absurd (ne e.0) ]);
}

-- strcmp of two strings returns 0 exactly if their texts are equal, and a negative number exactly
-- if the first comes before the second in the dictionary.
pub strcmp-Compares :
    (a b rest rest' : List ℕ)
    → IsText a
    → IsText b
    → Compares a b (strcmp (ended a rest) (ended b rest'))
unfolding strcmp
strcmp-Compares [] [] rest rest' h k = record {
  sign = pos 0;
  returns = refl;
  same = (λ z. refl, λ e. refl);
  less = (λ z. ground arith, λ o. absurd o);
}
strcmp-Compares [] (y ∷ b) rest rest' h k = record {
  sign = difference 0 y;
  returns = refl;
  same = (λ z. ground arith, λ e. ground arith);
  less = (λ z. tt, λ o. ground arith);
}
strcmp-Compares (x ∷ a) [] rest rest' h k = record {
  sign = difference x 0;
  returns = ground arith;
  same = (λ z. ground arith, λ e. ground arith);
  less = (λ z. ground arith, λ o. absurd o);
}
strcmp-Compares (x ∷ a) (y ∷ b) rest rest' h k = elim (Bool-cases (x == y)) [
  | inl same ↦
      (let e : x ≡ y = ground arith in
        let char : x == 0 ≡ false = ground arith in
        rw (same, char) (rw e (Compares-cons y a b (strcmp-Compares a b rest rest' h.1 k.1))))
  | inr other ↦
      (let char : x == 0 ≡ false = ground arith in
        rw (other, char) (Compares-differ x y a b (ground arith)))
]

-- strncmp of two strings is strcmp of their texts cut to `n` characters.
pub strncmp-strcmp :
    (n : ℕ) (a b rest rest' : List ℕ)
    → IsText a
    → IsText b
    → strncmp n (ended a rest) (ended b rest') ≡ strcmp (ended (take n a) []) (ended (take n b) [])
unfolding strncmp strcmp
strncmp-strcmp zero a b rest rest' h k = refl
strncmp-strcmp (suc n) [] [] rest rest' h k = refl
strncmp-strcmp (suc n) [] (y ∷ b) rest rest' h k = ground arith
strncmp-strcmp (suc n) (x ∷ a) [] rest rest' h k = ground arith
strncmp-strcmp (suc n) (x ∷ a) (y ∷ b) rest rest' h k =
    ground (arith, strncmp-strcmp n a b rest rest' h.1 k.1)

-- If both ranges are in range, memcmp returns 0 exactly if their `n` bytes are equal, and a
-- negative number exactly if the first comes before the second, bytes taken as unsigned.
pub memcmp-Compares :
    (n : ℕ) (a b : List ℕ)
    → n ≤ length a
    → n ≤ length b
    → Compares (take n a) (take n b) (memcmp n a b)
unfolding memcmp
memcmp-Compares zero a b h k = record {
  sign = pos 0;
  returns = refl;
  same = (λ z. refl, λ e. refl);
  less = (λ z. ground arith, λ o. absurd o);
}
memcmp-Compares (suc n) [] b h k = absurd (omega arith)
memcmp-Compares (suc n) (x ∷ a) [] h k = absurd (omega arith)
memcmp-Compares (suc n) (x ∷ a) (y ∷ b) h k = elim (Bool-cases (x == y)) [
  | inl same ↦
      (let e : x ≡ y = ground arith in
        rw same (
          rw e (
            Compares-cons y (take n a) (take n b)
              (memcmp-Compares n a b (omega arith) (omega arith)))))
  | inr other ↦ rw other (Compares-differ x y (take n a) (take n b) (ground arith))
]

pad_zeros_lem :
    (n d : ℕ) (m : List ℕ)
    → d + n ≤ length m
    → (m' : List ℕ) × (pad_zeros n d m ≡ some m')
      × (length m' ≡ length m)
      × ((i : ℕ) → get_or m' i 0 ≡ (if covers d n i then 0 else get_or m i 0))
unfolding pad_zeros Option.bind
pad_zeros_lem zero d m h = (m, refl, refl, λ i. ground arith)
pad_zeros_lem (suc n) d m h =
    let m₁ = set m d 0 in
    let (m', ran, whole, bytes) = pad_zeros_lem n (d + 1) m₁ (omega (arith, length-set m d 0)) in
    let inside : ltb d (length m) ≡ true = ground arith in
    (
      m',
      rw inside ran,
      whole ∙ length-set m d 0,
      λ i. bytes i ∙ ground (arith, get_or-set m d 0 i (omega arith)),
    )

-- Byte `i` after the first step of a strncpy and the later ones.
copied_char :
    (n d c i : ℕ) (t m : List ℕ)
    → d < length m
    → (if covers (d + 1) n i then get_or t (i - (d + 1)) 0 else get_or (set m d c) i 0)
      ≡ (if covers d (suc n) i then get_or (c ∷ t) (i - d) 0 else get_or m i 0)
copied_char n d c i t m h = elim (Bool-cases (covers (d + 1) n i)) [
  | inl later ↦
      (let here : covers d (suc n) i ≡ true = ground arith in
        let at : i - d ≡ suc (i - (d + 1)) = ground arith in rw (later, here, at) refl)
  | inr outside ↦ rw outside (elim (Bool-cases (d == i)) [
    | inl first ↦
        (let here : covers d (suc n) i ≡ true = ground arith in
          let at : i - d ≡ 0 = ground arith in rw (here, at) (get_or-set m d c i h ∙ rw first refl))
    | inr other ↦
        (let away : covers d (suc n) i ≡ false = ground arith in
          rw away (get_or-set_ne m d i c 0 (ground arith)))
  ])
]

-- In range, strncpy of a string returns and fills exactly `n` bytes: with the text, cut to `n`
-- characters, and zeros behind it. No other byte changes.
pub strncpy_lem :
    (n d : ℕ) (t rest m : List ℕ)
    → IsText t
    → d + n ≤ length m
    → (m' : List ℕ) × (strncpy n d (ended t rest) m ≡ some m')
      × (length m' ≡ length m)
      × ((i : ℕ) → get_or m' i 0 ≡ (if covers d n i then get_or t (i - d) 0 else get_or m i 0))
unfolding strncpy Option.bind
strncpy_lem zero d t rest m x h = (m, refl, refl, λ i. ground arith)
strncpy_lem (suc n) d [] rest m x h = pad_zeros_lem (suc n) d m h
strncpy_lem (suc n) d (c ∷ t) rest m x h =
    let m₁ = set m d c in
    let (m', ran, whole, bytes) =
      strncpy_lem n (d + 1) t rest m₁ x.1 (omega (arith, length-set m d c)) in
    let inside : ltb d (length m) ≡ true = ground arith in
    let char : c == 0 ≡ false = ground (arith, x.0) in
    (
      m',
      rw (char, inside) ran,
      whole ∙ length-set m d c,
      λ i. bytes i ∙ copied_char n d c i t m (omega arith),
    )
