-- ===== src/DrmView/Bar.antt =====
-- The picture of one frame of the animation.
use mathlib.Core.Option
use kmm_yocto.Base.{
  ℕ, zero, suc, ◌+◌, ◌-◌, ◌*◌, ◌^◌, ◌≤◌, ◌<◌, ◌≡◌, refl, ap, ◌∙◌, Bool, ◌%◌, ◌&&◌, some, List,
  arith, ltb, leb, ◌==◌, if◌then◌else◌, length, get_or, min, u32, blit, blit_lem, row_below,
  Bool-cases, inl, inr,
}
use kmm_yocto.DrmView.{red, bar_cols, bar_rows, draw_frame, Dumb}

-- Whether byte `i` of a row lies in the bar from column `x` to `n` columns on.
abbrev pub in_bar : (hdisplay n x i : ℕ) → Bool
in_bar hdisplay n x i = leb (4 * x) i && ltb i (4 * min (x + n) hdisplay)

-- Byte `i` of red pixels.
abbrev pub red_byte : ℕ → ℕ
red_byte i = get_or red (i % 4) 0

-- Byte `i` after column `x`, and after the later ones.
bar_next :
    (hdisplay left x off i old : ℕ)
    → x < hdisplay
    → (if leb off i && in_bar hdisplay left (x + 1) (i - off)
        then red_byte (i - off)
        else (if leb (off + 4 * x) i && ltb i (off + 4 * x + 4)
            then get_or red (0 + (i - (off + 4 * x))) 0
            else old))
      ≡ (if leb off i && in_bar hdisplay (suc left) x (i - off) then red_byte (i - off) else old)
bar_next hdisplay left x off i old h =
    elim (Bool-cases (leb (off + 4 * x) i && ltb i (off + 4 * x + 4))) [
      | inl here ↦
          (let at : 0 + (i - (off + 4 * x)) ≡ (i - off) % 4 = ground arith in
            rw (here, at) (ground arith))
      | inr away ↦ rw away (ground arith)
    ]

bar_cols_lem :
    (hdisplay left x off : ℕ) (map : List ℕ)
    → off + 4 * hdisplay ≤ length map
    → (map' : List ℕ) × (bar_cols hdisplay left x off map ≡ some map')
      × (length map' ≡ length map)
      × ((i : ℕ)
          → get_or map' i 0 ≡ (
              if leb off i && in_bar hdisplay left x (i - off)
              then red_byte (i - off)
              else get_or map i 0))
unfolding bar_cols Option.bind
bar_cols_lem hdisplay zero x off map h = (map, refl, refl, λ i. ground arith)
bar_cols_lem hdisplay (suc left) x off map h = elim (Bool-cases (ltb x hdisplay)) [
  | inr edge ↦ (map, rw edge refl, refl, λ i. ground arith)
  | inl on ↦
      (let (map₁, ran₁, same₁, bytes₁) =
          blit_lem map (off + 4 * x) red 0 4 (ground arith) (omega arith) in
        let (map', ran, same, bytes) =
          bar_cols_lem hdisplay left (x + 1) off map₁ (omega (arith, same₁)) in
        (
          map',
          rw (on, ran₁) ran,
          same ∙ same₁,
          λ i.
              bytes i
              ∙ ap
                  (λ p.
                    if leb off i && in_bar hdisplay left (x + 1) (i - off)
                    then red_byte (i - off)
                    else p)
                  (bytes₁ i)
              ∙ bar_next hdisplay left x off i (get_or map i 0) (ground arith),
        ))
]

-- Byte `i` of row `y'` after row `y`, and after the later ones.
bar_row :
    (hdisplay pitch col y y' i old : ℕ)
    → 4 * hdisplay ≤ pitch
    → i < pitch
    → (if leb (y + 1) y' && in_bar hdisplay 20 col i
        then red_byte i
        else (if leb (y * pitch) (y' * pitch + i)
              && in_bar hdisplay 20 col (y' * pitch + i - y * pitch)
            then red_byte (y' * pitch + i - y * pitch)
            else old))
      ≡ (if leb y y' && in_bar hdisplay 20 col i then red_byte i else old)
bar_row hdisplay pitch col y y' i old h k = elim (Bool-cases (y == y')) [
  | inl same ↦
      (let here : y' ≡ y = ground arith in
        let at : y * pitch + i - y * pitch ≡ i = omega arith in rw (here, at) (ground arith))
  | inr other ↦ ground (arith, row_below pitch y y', row_below pitch y' y)
]

bar_rows_step :
    (hdisplay pitch col left y : ℕ) (map map₁ : List ℕ)
    → bar_cols hdisplay 20 col (u32 (y * pitch)) map ≡ some map₁
    → bar_rows hdisplay pitch col (suc left) y map ≡ bar_rows hdisplay pitch col left (y + 1) map₁
unfolding bar_rows Option.bind
bar_rows_step hdisplay pitch col left y map map₁ step = rw step refl

module _ (hdisplay vdisplay pitch col : ℕ) (wide : 4 * hdisplay ≤ pitch) where
  bar_rows_lem :
      (left y : ℕ) (map : List ℕ)
      → y + left ≡ vdisplay
      → vdisplay * pitch ≤ length map
      → length map < 2 ^ 32
      → (map' : List ℕ) × (bar_rows hdisplay pitch col left y map ≡ some map')
        × (length map' ≡ length map)
        × ((i y' : ℕ)
            → i < pitch
            → y' < vdisplay
            → get_or map' (y' * pitch + i) 0 ≡ (
                if leb y y' && in_bar hdisplay 20 col i
                then red_byte i
                else get_or map (y' * pitch + i) 0))
  unfolding bar_rows
  bar_rows_lem zero y map e h small = (map, refl, refl, λ i y' a b. ground arith)
  bar_rows_lem (suc left) y map e h small =
      let fits : y * pitch + pitch ≤ vdisplay * pitch = row_below pitch y vdisplay (omega arith) in
      let no_wrap : u32 (y * pitch) ≡ y * pitch = omega arith in
      let (map₁, ran₁, same₁, bytes₁) =
        bar_cols_lem hdisplay 20 col (y * pitch) map (omega arith) in
      let (map', ran, same, bytes) =
        bar_rows_lem left (y + 1) map₁ (omega arith) (omega arith) (omega arith) in
      (
        map',
        bar_rows_step hdisplay pitch col left y map map₁
              (ap (λ o. bar_cols hdisplay 20 col o map) no_wrap ∙ ran₁)
            ∙ ran,
        same ∙ same₁,
        λ i y' a b.
            bytes i y' a b
            ∙ ap (λ p. if leb (y + 1) y' && in_bar hdisplay 20 col i then red_byte i else p)
                (bytes₁ (y' * pitch + i))
            ∙ bar_row hdisplay pitch col y y' i (get_or map (y' * pitch + i) 0) wide a,
      )

draw_frame_step :
    (hdisplay vdisplay col : ℕ) (d : Dumb) (base map map₁ : List ℕ)
    → blit map 0 base 0 d.size ≡ some map₁
    → draw_frame hdisplay vdisplay d base col map ≡ bar_rows hdisplay d.pitch col vdisplay 0 map₁
unfolding draw_frame Option.bind
draw_frame_step hdisplay vdisplay col d base map map₁ step = rw step refl

-- One frame is drawn: the picture, with a red bar of 20 columns at `col`, cut at the right edge.
pub draw_frame_lem :
    (hdisplay vdisplay col : ℕ) (d : Dumb) (base map : List ℕ)
    → 4 * hdisplay ≤ d.pitch
    → length base ≡ d.size
    → length map ≡ d.size
    → vdisplay * d.pitch ≤ d.size
    → d.size < 2 ^ 32
    → (map' : List ℕ) × (draw_frame hdisplay vdisplay d base col map ≡ some map')
      × (length map' ≡ d.size)
      × ((i y : ℕ)
          → i < d.pitch
          → y < vdisplay
          → get_or map' (y * d.pitch + i) 0
            ≡ (if in_bar hdisplay 20 col i then red_byte i else get_or base (y * d.pitch + i) 0))
draw_frame_lem hdisplay vdisplay col d base map wide lb lm high small =
    let (map₁, ran₁, same₁, bytes₁) =
      blit_lem map 0 base 0 d.size (omega (arith, lm)) (omega (arith, lb)) in
    let (map', ran, same, bytes) =
      bar_rows_lem hdisplay vdisplay d.pitch col wide vdisplay 0 map₁ (omega arith)
        (omega (arith, same₁, lm)) (omega (arith, same₁, lm)) in
    (
      map',
      draw_frame_step hdisplay vdisplay col d base map map₁ ran₁ ∙ ran,
      same ∙ same₁ ∙ lm,
      λ i y a b.
          bytes i y a b
          ∙ ap (λ p. if leb 0 y && in_bar hdisplay 20 col i then red_byte i else p)
              (bytes₁ (y * d.pitch + i))
          ∙ ground (arith, row_below d.pitch y vdisplay b),
    )
