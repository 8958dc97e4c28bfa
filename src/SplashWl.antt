-- ===== src/SplashWl.antt =====
-- meta-kart/recipes-graphics/splash-wl/files/splash-wl.c: `draw`, with the numbers of
-- meta-kart/recipes-bsp-imx/u-boot/files/spl_splash_logo.h. The bits of the logo, which a script of
-- the repository generates, are a parameter. The pixels are a list of 32-bit numbers, and an access
-- out of range gives `none`. `w * h` is assumed to fit an `int`.
pub mod Draw
pub mod Main
mod Tests
use mathlib.Core.Option
use kmm_yocto.Base.{
  ℕ, zero, suc, ◌+◌, ◌-◌, ◌*◌, ◌/◌, ◌%◌, ◌^◌, Bool, true, false, Option, none, some, List, ltb, leb,
  ◌==◌, if◌then◌else◌, get_elem?, store, length, set,
}
use kmm_yocto.Bus.{test_bit}

abbrev pub bg_xrgb : ℕ
bg_xrgb = 0xff000000

abbrev pub white : ℕ
white = 0xffffffff

abbrev pub logo_w : ℕ
logo_w = 560

abbrev pub logo_h : ℕ
logo_h = 93

abbrev pub logo_x : ℕ
logo_x = 120

abbrev pub logo_y : ℕ
logo_y = 193

-- `for (i = 0; i < w * h; i++) px[i] = BG_XRGB;` from `i` on.
unfoldable pub clear : (left i : ℕ) → List ℕ → Option (List ℕ)
unfolding Option.bind
clear zero i px = some px
clear (suc left) i px = Option.bind (store i bg_xrgb px) (clear left (i + 1))

module _ (logo_bits : List ℕ) (w h : ℕ) where
  -- The loop over `col`, in `row`, at the height `y`.
  unfoldable pub draw_cols : (row y left col : ℕ) → List ℕ → Option (List ℕ)
  unfolding Option.bind
  draw_cols row y zero col px = some px
  draw_cols row y (suc left) col px =
      let x = logo_x + col in
      let bit = row * logo_w + col in
      let rest = Option.bind (get_elem? logo_bits (bit / 8)) (λ byte.
        Option.bind (if test_bit byte (7 - bit % 8) then store (y * w + x) white px else some px)
          (draw_cols row y left (col + 1))) in
      if leb w x then some px else rest

  -- The loop over `row`.
  unfoldable pub draw_rows : (left row : ℕ) → List ℕ → Option (List ℕ)
  unfolding Option.bind
  draw_rows zero row px = some px
  draw_rows (suc left) row px =
      let y = logo_y + row in
      let rest = Option.bind (draw_cols row y logo_w 0 px) (draw_rows left (row + 1)) in
      if leb h y then some px else rest

  -- `draw`
  unfoldable pub draw : List ℕ → Option (List ℕ)
  unfolding Option.bind
  draw px = Option.bind (clear (w * h) 0 px) (draw_rows logo_h 0)
