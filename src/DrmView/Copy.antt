-- ===== src/DrmView/Copy.antt =====
-- The placing of the image, byte by byte.
use mathlib.Core.Option
use native.Mathlib.Nat.{mul_comm}
use kmm_yocto.Base.{
  ℕ, zero, suc, ◌+◌, ◌-◌, ◌*◌, ◌^◌, ◌≤◌, ◌<◌, ◌≡◌, refl, ap, ◌∙◌, true, ◌&&◌, some, List, arith,
  ltb, leb, ◌==◌, if◌then◌else◌, length, get_or, min, u32, blit, blit_lem, row_below, Bool-cases,
  inl, inr,
}
use kmm_yocto.DrmView.{copy_rows}

-- Byte `i` of row `y'` after the copy of row `y`, and after those of the later rows up to `h`.
copied_row :
    (f : ℕ → ℕ → ℕ) (n pitch h y y' i old : ℕ)
    → n ≤ pitch
    → i < pitch
    → y < h
    → (if leb (y + 1) y' && (ltb y' h && ltb i n)
        then f y' i
        else (if leb (y * pitch) (y' * pitch + i) && ltb (y' * pitch + i) (y * pitch + n)
            then f y (y' * pitch + i - y * pitch)
            else old))
      ≡ (if leb y y' && (ltb y' h && ltb i n) then f y' i else old)
copied_row f n pitch h y y' i old k j l = elim (Bool-cases (y == y')) [
  | inl same ↦
      (let here : y' ≡ y = ground arith in
        let at : y * pitch + i - y * pitch ≡ i = omega arith in rw (here, at) (ground arith))
  | inr other ↦ ground (arith, row_below pitch y y', row_below pitch y' y)
]

-- The copy of one row, and then the rest.
copy_rows_step :
    (img : List ℕ) (w hdisplay vdisplay pitch left y : ℕ) (map map₁ : List ℕ)
    → ltb y vdisplay ≡ true
    → blit map (u32 (y * pitch)) img (y * w * 4) (min w hdisplay * 4) ≡ some map₁
    → copy_rows img w hdisplay vdisplay pitch (suc left) y map
      ≡ copy_rows img w hdisplay vdisplay pitch left (y + 1) map₁
unfolding copy_rows Option.bind
copy_rows_step img w hdisplay vdisplay pitch left y map map₁ on step = rw (on, step) refl

module _ (img : List ℕ) (w hdisplay vdisplay pitch h : ℕ) (whole : w * h * 4 ≤ length img)
    (wide : hdisplay * 4 ≤ pitch) where
  pub copy_rows_lem :
      (left y : ℕ) (map : List ℕ)
      → y + left ≡ h
      → vdisplay * pitch ≤ length map
      → length map < 2 ^ 32
      → (map' : List ℕ) × (copy_rows img w hdisplay vdisplay pitch left y map ≡ some map')
        × (length map' ≡ length map)
        × ((i y' : ℕ)
            → i < pitch
            → y' < vdisplay
            → get_or map' (y' * pitch + i) 0 ≡ (
                if leb y y' && (ltb y' h && ltb i (min w hdisplay * 4))
                then get_or img (y' * w * 4 + i) 0
                else get_or map (y' * pitch + i) 0))
  unfolding copy_rows Option.bind
  copy_rows_lem zero y map e k small = (map, refl, refl, λ i y' a b. ground arith)
  copy_rows_lem (suc left) y map e k small = elim (Bool-cases (ltb y vdisplay)) [
    | inr below ↦ (map, rw below refl, refl, λ i y' a b. ground arith)
    | inl on ↦
        (let n = min w hdisplay * 4 in
          let fits : y * pitch + pitch ≤ vdisplay * pitch =
            row_below pitch y vdisplay (ground arith) in
          let in_img : y * w + w ≤ h * w = row_below w y h (omega arith) in
          let no_wrap : u32 (y * pitch) ≡ y * pitch = omega arith in
          let (map₁, ran₁, same₁, bytes₁) =
            blit_lem map (y * pitch) img (y * w * 4) n (omega arith)
              (omega (arith, mul_comm w h)) in
          let (map', ran, same, bytes) =
            copy_rows_lem left (y + 1) map₁ (omega arith) (omega arith) (omega arith) in
          (
            map',
            copy_rows_step img w hdisplay vdisplay pitch left y map map₁ on
                  (ap (λ o. blit map o img (y * w * 4) n) no_wrap ∙ ran₁)
                ∙ ran,
            same ∙ same₁,
            λ i y' a b.
                bytes i y' a b
                ∙ ap
                    (λ p.
                      if leb (y + 1) y' && (ltb y' h && ltb i n)
                      then get_or img (y' * w * 4 + i) 0
                      else p)
                    (bytes₁ (y' * pitch + i))
                ∙ copied_row (λ r c. get_or img (r * w * 4 + c) 0) n pitch h y y' i
                    (get_or map (y' * pitch + i) 0) (omega arith) a (omega arith),
          ))
  ]
