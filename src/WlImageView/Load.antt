-- ===== src/WlImageView/Load.antt =====
-- The loading loop with reads that may be short.
use kmm_yocto.Base.{
  ℕ, zero, suc, ◌+◌, ◌-◌, ◌≤◌, ◌<◌, ◌≡◌, refl, sym, ap, ap₂, ◌∙◌, some, List, [], ◌∷◌, ◌++◌, arith,
  length, take, drop, take-all, length-take, length-drop, length-append, ltb, ◌==◌, min, Bool-cases,
  inl, inr,
}
use kmm_yocto.WlImageView.{load_loop}

-- A read of a regular file: at most the bytes asked for, in order, and at least one before the end.
abbrev pub ReadsFile : ((k off n : ℕ) → List ℕ) → List ℕ → Type 0
ReadsFile read file =
    (k off n : ℕ) → 0 < n → (c : ℕ) × (0 < c) × (c ≤ n) × (read k off n ≡ take c (drop off file))

take_more : (n c : ℕ) (xs : List ℕ) → take n xs ++ take c (drop n xs) ≡ take (n + c) xs
take_more zero c xs = ap (λ k. take k xs) (omega arith)
take_more (suc n) c [] = take-all c [] (omega arith) ∙ sym (take-all (suc n + c) [] (omega arith))
take_more (suc n) c (x ∷ xs) = ap (λ l. x ∷ l) (take_more n c xs) ∙ ap (λ k. take k (x ∷ xs)) at
  where
    at : suc (n + c) ≡ suc n + c
    at = omega arith

take_whole : (n : ℕ) (xs : List ℕ) → take (length (take n xs)) xs ≡ take n xs
take_whole zero xs = refl
take_whole (suc n) [] = refl
take_whole (suc n) (x ∷ xs) = ap (λ l. x ∷ l) (take_whole n xs)

module _ (read : (k off n : ℕ) → List ℕ) (file : List ℕ) (reads : ReadsFile read file) where
  load_loop_lem :
      (want fuel k : ℕ) (img : List ℕ)
      → img ≡ take (length img) file
      → length img ≤ want
      → want < length img + fuel
      → load_loop read want fuel k img ≡ some (take want file)
  unfolding load_loop
  load_loop_lem want zero k img e h f = absurd (omega arith)
  load_loop_lem want (suc fuel) k img e h f = elim (Bool-cases (ltb (length img) want)) [
    | inl more ↦
        (let (c, some_c, at_most, got) = reads k (length img) (want - length img) (ground arith) in
          let bytes = read k (length img) (want - length img) in
          let size : length bytes ≡ min c (length file - length img) =
            ap length got
            ∙ length-take c (drop (length img) file)
            ∙ ap (min c) (length-drop (length img) file) in
          let have : img ++ bytes ≡ take (length img + c) file =
            ap₂ ◌++◌ e got ∙ take_more (length img) c file in
          elim (Bool-cases (length bytes == 0)) [
            | inl ended ↦
                (let over : length file ≤ length img = ground (arith, size) in
                  rw (more, ended)
                    (ap some (
                      e
                      ∙ take-all (length img) file over
                      ∙ sym (take-all want file (ground arith)))))
            | inr going ↦
                (let longer : length (img ++ bytes) ≡ length img + length bytes =
                    length-append img bytes in
                  let within : length (img ++ bytes) ≤ want = ground (arith, longer, size) in
                  let prefix : img ++ bytes ≡ take (length (img ++ bytes)) file =
                    have
                    ∙ sym (take_whole (length img + c) file)
                    ∙ ap (λ xs. take (length xs) file) (sym have) in
                  rw (more, going)
                    (load_loop_lem want fuel (k + 1) (img ++ bytes) prefix within
                      (ground (arith, longer))))
          ])
    | inr all ↦
        (let full : length img ≡ want = ground arith in
          rw all (ap some (e ∙ ap (λ n. take n file) full)))
  ]

  -- However short the reads are, the loop ends within as many reads as there are bytes to get, and
  -- one more, and the buffer then holds the first `want` bytes of the file, or all of a shorter one.
  pub load_loop-take : (want : ℕ) → load_loop read want (want + 1) 0 [] ≡ some (take want file)
  load_loop-take want = load_loop_lem want (want + 1) 0 [] refl (omega arith) (omega arith)
