-- ===== src/WlImageView/Place.antt =====
-- The window that is shown, pixel by pixel.
use mathlib.Core.Option
use native.Mathlib.Nat.{mul_comm}
use kmm_yocto.Base.{
  ℕ, zero, suc, ◌+◌, ◌-◌, ◌*◌, ◌≤◌, ◌<◌, ◌≡◌, refl, ap, ◌∙◌, Bool, true, ◌&&◌, Option, some, List,
  arith, ltb, leb, ◌==◌, if◌then◌else◌, get_or, length, set, take, replicate, length-replicate,
  length-take, length-set, get_or-set, Bool-cases, inl, inr, row_below, pixel_inside, le32_at, ℤ,
}
use kmm_yocto.WlImageView.{
  black, value_at, place_cols, place_rows, shows, draw_window, is_positive, magnitude, main,
}
use kmm_yocto.WlImageView.Load.{ReadsFile, load_loop-take}
use kmm_yocto.Wayland.{Interface, Event, Client, draws, set_up}

-- The picture: the image at the top left, black around it.
abbrev pub picture : (img : List ℕ) (img_w img_h x y : ℕ) → ℕ
picture img img_w img_h x y =
    if ltb x img_w && ltb y img_h then le32_at img (4 * (y * img_w + x)) else black

-- Pixel `i` of a row that begins at `b`, after column `x` and after the later ones.
placed_next :
    (f : ℕ → ℕ) (b w x i : ℕ) (px : List ℕ)
    → x < w
    → b + x < length px
    → (if leb (b + (x + 1)) i && ltb i (b + w)
        then f (i - b)
        else get_or (set px (b + x) (f x)) i 0)
      ≡ (if leb (b + x) i && ltb i (b + w) then f (i - b) else get_or px i 0)
placed_next f b w x i px h k = elim (Bool-cases (b + x == i)) [
  | inl here ↦
      (let at : i - b ≡ x = ground arith in rw at (ground (arith, get_or-set px (b + x) (f x) i k)))
  | inr away ↦ ground (arith, get_or-set px (b + x) (f x) i k)
]

-- Pixel (x, y') after row `y` and after the later ones.
placed_row :
    (f : ℕ → ℕ → ℕ) (w y y' x old : ℕ)
    → x < w
    → (if leb (y + 1) y'
        then f x y'
        else (if leb (y * w + 0) (y' * w + x) && ltb (y' * w + x) (y * w + w)
            then f (y' * w + x - y * w) y
            else old))
      ≡ (if leb y y' then f x y' else old)
placed_row f w y y' x old h = elim (Bool-cases (y == y')) [
  | inl same ↦
      (let here : y' ≡ y = ground arith in
        let at : y * w + x - y * w ≡ x = omega arith in rw (here, at) (ground arith))
  | inr other ↦ ground (arith, row_below w y y', row_below w y' y)
]

module _ (img : List ℕ) (img_w img_h : ℕ) (whole : length img ≡ img_w * img_h * 4) where
  value_at-some : (w x y : ℕ) → value_at img img_w img_h w x y ≡ some (picture img img_w img_h x y)
  value_at-some w x y = elim (Bool-cases (ltb x img_w && ltb y img_h)) [
    | inl in_image ↦
        (let inside : y * img_w + x < img_h * img_w =
            pixel_inside img_w img_h x y (ground arith) (ground arith) in
          let there : ltb (4 * (y * img_w + x) + 3) (length img) ≡ true =
            ground (arith, whole, mul_comm img_w img_h) in
          rw (in_image, there) refl)
    | inr out ↦ rw out refl
  ]

  place_cols_lem :
      (w y left x : ℕ) (px : List ℕ)
      → x + left ≡ w
      → y * w + w ≤ length px
      → (px' : List ℕ) × (place_cols img img_w img_h w y left x px ≡ some px')
        × (length px' ≡ length px)
        × ((i : ℕ)
            → get_or px' i 0 ≡ (
                if leb (y * w + x) i && ltb i (y * w + w)
                then picture img img_w img_h (i - y * w) y
                else get_or px i 0))
  unfolding place_cols Option.bind
  place_cols_lem w y zero x px e k = (px, refl, refl, λ i. ground arith)
  place_cols_lem w y (suc left) x px e k =
      let v = picture img img_w img_h x y in
      let px₁ = set px (y * w + x) v in
      let inside : ltb (y * w + x) (length px) ≡ true = ground arith in
      let (px', ran, same, pixels) =
        place_cols_lem w y left (x + 1) px₁ (omega arith)
          (omega (arith, length-set px (y * w + x) v)) in
      (
        px',
        rw (value_at-some w x y, inside) ran,
        same ∙ length-set px (y * w + x) v,
        λ i.
            pixels i
            ∙ placed_next (λ n. picture img img_w img_h n y) (y * w) w x i px (omega arith)
                (omega arith),
      )

  place_rows_lem :
      (w h left y : ℕ) (px : List ℕ)
      → y + left ≡ h
      → h * w ≤ length px
      → (px' : List ℕ) × (place_rows img img_w img_h w left y px ≡ some px')
        × (length px' ≡ length px)
        × ((x y' : ℕ)
            → x < w
            → y' < h
            → get_or px' (y' * w + x) 0
              ≡ (if leb y y' then picture img img_w img_h x y' else get_or px (y' * w + x) 0))
  unfolding place_rows Option.bind
  place_rows_lem w h zero y px e k = (px, refl, refl, λ x y' a b. ground arith)
  place_rows_lem w h (suc left) y px e k =
      let (px₁, ran₁, same₁, pixels₁) =
        place_cols_lem w y w 0 px (omega arith) (omega (arith, row_below w y h (omega arith))) in
      let (px', ran, same, pixels) =
        place_rows_lem w h left (y + 1) px₁ (omega arith) (omega (arith, same₁)) in
      (
        px',
        rw ran₁ ran,
        same ∙ same₁,
        λ x y' a b.
            pixels x y' a b
            ∙ ap (λ p. if leb (y + 1) y' then picture img img_w img_h x y' else p)
                (pixels₁ (y' * w + x))
            ∙ placed_row (picture img img_w img_h) w y y' x (get_or px (y' * w + x) 0) a,
      )

  place-picture :
      (w h : ℕ) (px : List ℕ) (x y : ℕ)
      → length px ≡ w * h
      → x < w
      → y < h
      → (px' : List ℕ) × (place_rows img img_w img_h w h 0 px ≡ some px')
        × (length px' ≡ w * h)
        × (get_or px' (y * w + x) 0 ≡ picture img img_w img_h x y)
  place-picture w h px x y e a b =
      let (px', ran, same, pixels) =
        place_rows_lem w h h 0 px (omega arith) (omega (arith, e, mul_comm w h)) in
      let there : leb 0 y ≡ true = ground arith in
      (px', ran, same ∙ e, pixels x y a b ∙ rw there refl)

-- A file that holds at least the pixels of the image, sizes above 0, a compositor that gets the
-- client to draw, and a buffer that can be made: then the program shows a window of the size the
-- compositor asked for. Each of its pixels is the one of the file at the same place of the image, and
-- black right of the image and below it. Neither the image nor the window is accessed out of range,
-- however short the reads are.
pub main-picture :
    (read : (k off n : ℕ) → List ℕ) (answers : ℕ → Bool) (globals : List Interface)
    (ds : List (Option (List Event))) (file : List ℕ) (img_w img_h : ℤ) (c : Client) (x y : ℕ)
    → ReadsFile read file
    → is_positive img_w ≡ true
    → is_positive img_h ≡ true
    → magnitude img_w * magnitude img_h * 4 ≤ length file
    → set_up answers globals ds ≡ draws c
    → x < c.win_w
    → y < c.win_h
    → (px : List ℕ) × (main true read answers globals ds img_w img_h
        ≡ some (shows c.win_w c.win_h px))
      × (length px ≡ c.win_w * c.win_h)
      × (get_or px (y * c.win_w + x) 0
          ≡ picture
              (take (magnitude img_w * magnitude img_h * 4) file)
              (magnitude img_w)
              (magnitude img_h)
              x
              y)
unfolding main draw_window Option.bind
main-picture read answers globals ds file img_w img_h c x y reads pw ph enough set a b =
    let w = magnitude img_w in
    let h = magnitude img_h in
    let img = take (w * h * 4) file in
    let size : length img ≡ w * h * 4 = omega (arith, length-take (w * h * 4) file) in
    let right_size : length img == w * h * 4 ≡ true = ground arith in
    let (px, ran, same, pixel) =
      place-picture img w h size c.win_w c.win_h (replicate (c.win_w * c.win_h) 0) x y
        (length-replicate (c.win_w * c.win_h) 0) a b in
    (
      px,
      rw (pw, ph, load_loop-take read file reads (w * h * 4), right_size, set, ran) refl,
      same,
      pixel,
    )
