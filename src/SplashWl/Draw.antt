-- ===== src/SplashWl/Draw.antt =====
-- The picture that `draw` leaves, pixel by pixel.
use mathlib.Core.Option
use native.Mathlib.Nat.{mul_comm}
use kmm_yocto.Base.{
  row_below, ℕ, zero, suc, ◌+◌, ◌-◌, ◌*◌, ◌/◌, ◌%◌, ◌≤◌, ◌<◌, ◌≡◌, refl, ◌∙◌, Bool, true, ◌&&◌,
  some, List, arith, ltb, leb, ◌==◌, if◌then◌else◌, get_elem?, get_or, store, length, set,
  length-set, get_or-set, get_elem?-eq-get_or, Bool-cases, inl, inr,
}
use kmm_yocto.Bus.{test_bit}
use kmm_yocto.SplashWl.{
  bg_xrgb, white, logo_w, logo_h, logo_x, logo_y, clear, draw_cols, draw_rows, draw,
}

clear_lem :
    (n i : ℕ) (px : List ℕ)
    → i + n ≤ length px
    → (px' : List ℕ) × (clear n i px ≡ some px')
      × (length px' ≡ length px)
      × ((j : ℕ) → get_or px' j 0 ≡ (if leb i j && ltb j (i + n) then bg_xrgb else get_or px j 0))
unfolding clear Option.bind
clear_lem zero i px h = (px, refl, refl, λ j. ground arith)
clear_lem (suc n) i px h =
    let px₁ = set px i bg_xrgb in
    let (px', ran, whole, pixels) =
      clear_lem n (i + 1) px₁ (omega (arith, length-set px i bg_xrgb)) in
    let inside : ltb i (length px) ≡ true = ground arith in
    (
      px',
      rw inside ran,
      whole ∙ length-set px i bg_xrgb,
      λ j. pixels j ∙ ground (arith, get_or-set px i bg_xrgb j (omega arith)),
    )

module _ (logo_bits : List ℕ) (size : length logo_bits ≡ 6510) where
  -- The bit of the logo at a column and a row.
  unfoldable pub lit : (col row : ℕ) → Bool
  lit col row =
      let bit = row * logo_w + col in test_bit (get_or logo_bits (bit / 8) 0) (7 - bit % 8)

  -- What one row of the logo, from `col` on, does to pixel `i`.
  abbrev touched : (w row y left col i : ℕ) → Bool
  touched w row y left col i =
      (leb (y * w + logo_x + col) i && (ltb i (y * w + logo_x + col + left) && ltb i (y * w + w)))
      && lit (i - (y * w + logo_x)) row

  -- Pixel `i` after column `col`, and after all of them.
  touched_next :
      (w row y left col i : ℕ) (px : List ℕ)
      → logo_x + col < w
      → y * w + w ≤ length px
      → let px₁ = if lit col row then set px (y * w + (logo_x + col)) white else px in
        (if touched w row y left (col + 1) i then white else get_or px₁ i 0)
        ≡ (if touched w row y (suc left) col i then white else get_or px i 0)
  touched_next w row y left col i px on k = elim (Bool-cases (y * w + (logo_x + col) == i)) [
    | inl here ↦
        (let at : i - (y * w + logo_x) ≡ col = ground arith in
          rw at (ground (arith, get_or-set px (y * w + (logo_x + col)) white i (omega arith))))
    | inr away ↦ ground (arith, get_or-set px (y * w + (logo_x + col)) white i (omega arith))
  ]

  draw_cols_lem :
      (w h row y left col : ℕ) (px : List ℕ)
      → row < logo_h
      → col + left ≡ logo_w
      → y * w + w ≤ length px
      → (px' : List ℕ) × (draw_cols logo_bits w h row y left col px ≡ some px')
        × (length px' ≡ length px)
        × ((i : ℕ) → get_or px' i 0 ≡ (if touched w row y left col i then white else get_or px i 0))
  unfolding draw_cols lit Option.bind
  draw_cols_lem w h row y zero col px r c k = (px, refl, refl, λ i. ground arith)
  draw_cols_lem w h row y (suc left) col px r c k = elim (Bool-cases (leb w (logo_x + col))) [
    | inl out ↦ (px, rw out refl, refl, λ i. ground arith)
    | inr on ↦
        (let there : get_elem? logo_bits ((row * logo_w + col) / 8)
              ≡ some (get_or logo_bits ((row * logo_w + col) / 8) 0) =
            get_elem?-eq-get_or logo_bits ((row * logo_w + col) / 8) 0 (omega arith) in
          let px₁ = if lit col row then set px (y * w + (logo_x + col)) white else px in
          let inside : ltb (y * w + (logo_x + col)) (length px) ≡ true = ground arith in
          let same : length px₁ ≡ length px =
            ground (arith, length-set px (y * w + (logo_x + col)) white) in
          let stored : (if lit col row then store (y * w + (logo_x + col)) white px else some px)
              ≡ some px₁ =
            ground arith in
          let (px', ran, whole, pixels) =
            draw_cols_lem w h row y left (col + 1) px₁ r (omega arith) (omega (arith, same)) in
          (
            px',
            rw (on, there, stored) ran,
            whole ∙ same,
            λ i. pixels i ∙ touched_next w row y left col i px (ground arith) k,
          ))
  ]

  -- Pixel (x, y) of the window shows a set bit of the logo, in the rows from `row` on.
  abbrev pub in_logo : (row left x y : ℕ) → Bool
  in_logo row left x y =
      ((leb (logo_y + row) y && ltb y (logo_y + row + left))
        && (leb logo_x x && ltb x (logo_x + logo_w)))
      && lit (x - logo_x) (y - logo_y)

  touched_at :
      (w row y₀ x y : ℕ)
      → x < w
      → y₀ ≡ logo_y + row
      → touched w row y₀ logo_w 0 (y * w + x) ≡ in_logo row 1 x y
  touched_at w row y₀ x y h e = elim (Bool-cases (y == y₀)) [
    | inl same ↦
        (let here : y ≡ y₀ = ground arith in
          let at : y₀ - logo_y ≡ row = omega arith in
          let off : y₀ * w + x - (y₀ * w + logo_x) ≡ x - logo_x = omega arith in
          rw (here, at, off) (ground arith))
    | inr other ↦ ground (arith, row_below w y y₀, row_below w y₀ y)
  ]

  draw_rows_lem :
      (w h left row : ℕ) (px : List ℕ)
      → row + left ≡ logo_h
      → h * w ≤ length px
      → (px' : List ℕ) × (draw_rows logo_bits w h left row px ≡ some px')
        × (length px' ≡ length px)
        × ((x y : ℕ)
            → x < w
            → y < h
            → get_or px' (y * w + x) 0
              ≡ (if in_logo row left x y then white else get_or px (y * w + x) 0))
  unfolding draw_rows Option.bind
  draw_rows_lem w h zero row px e k = (px, refl, refl, λ x y a b. ground arith)
  draw_rows_lem w h (suc left) row px e k = elim (Bool-cases (leb h (logo_y + row))) [
    | inl out ↦ (px, rw out refl, refl, λ x y a b. ground arith)
    | inr on ↦
        (let y₀ = logo_y + row in
          let room : y₀ * w + w ≤ length px = omega (arith, row_below w y₀ h (ground arith)) in
          let (px₁, ran₁, whole₁, pixels₁) =
            draw_cols_lem w h row y₀ logo_w 0 px (omega arith) refl room in
          let (px', ran, whole, pixels) =
            draw_rows_lem w h left (row + 1) px₁ (omega arith) (omega (arith, whole₁)) in
          (
            px',
            rw (on, ran₁) ran,
            whole ∙ whole₁,
            λ x y a b.
                pixels x y a b
                ∙ ground (arith, pixels₁ (y * w + x), touched_at w row y₀ x y a refl),
          ))
  ]

  draw_all :
      (w h : ℕ) (px : List ℕ)
      → length px ≡ w * h
      → (px' : List ℕ) × (draw logo_bits w h px ≡ some px')
        × (length px' ≡ w * h)
        × ((x y : ℕ)
            → x < w
            → y < h
            → get_or px' (y * w + x) 0 ≡ (if in_logo 0 logo_h x y then white else bg_xrgb))
  unfolding draw Option.bind
  draw_all w h px e =
      let (px₁, ran₁, whole₁, pixels₁) = clear_lem (w * h) 0 px (omega (arith, e)) in
      let (px', ran, whole, pixels) =
        draw_rows_lem w h logo_h 0 px₁ refl (omega (arith, whole₁, e, mul_comm w h)) in
      (
        px',
        rw ran₁ ran,
        whole ∙ whole₁ ∙ e,
        λ x y a b.
            let inside : y * w + x < w * h = omega (arith, row_below w y h b, mul_comm w h) in
            pixels x y a b ∙ ground (arith, pixels₁ (y * w + x)),
      )

  -- On a buffer of w times h pixels `draw` returns and writes no pixel out of range. Each pixel of
  -- the window is then white exactly if it is a set bit of the logo, whose corner is at (120, 193),
  -- and black otherwise, whatever the buffer held: a smaller window cuts the logo off.
  pub draw-pixel :
      (w h : ℕ) (px : List ℕ) (x y : ℕ)
      → length px ≡ w * h
      → x < w
      → y < h
      → (px' : List ℕ) × (draw logo_bits w h px ≡ some px')
        × (length px' ≡ w * h)
        × (get_or px' (y * w + x) 0 ≡ (if in_logo 0 logo_h x y then white else bg_xrgb))
  draw-pixel w h px x y e a b =
      let (px', ran, whole, pixels) = draw_all w h px e in (px', ran, whole, pixels x y a b)
