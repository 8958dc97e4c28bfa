-- ===== src/SplashWl/Main.antt =====
-- `main` of splash-wl.c: the set-up with the compositor, and the window that is drawn then.
use mathlib.Core.Option
use kmm_yocto.Base.{
  ℕ, ◌+◌, ◌*◌, ◌<◌, ◌≡◌, refl, Bool, true, Option, some, List, length, get_or, replicate,
  length-replicate, if◌then◌else◌,
}
use kmm_yocto.Wayland.{Interface, Event, Client, Outcome, exited, waits, draws, set_up}
use kmm_yocto.SplashWl.{draw, white, bg_xrgb, logo_h}
use kmm_yocto.SplashWl.Draw.{in_logo, draw-pixel}

-- How the program ends, or the window that it shows.
pub data Shown : Type 0 where
  exits : ℕ → Shown
  blocked : Shown
  shows : (w h : ℕ) → List ℕ → Shown

-- `maps` says whether `memfd_create`, `ftruncate` and `mmap` succeed; the buffer that they give is
-- zero.
unfoldable pub draw_window : (maps : Bool) (logo_bits : List ℕ) → Outcome → Option Shown
draw_window maps logo_bits (exited code) = some (exits code)
draw_window maps logo_bits waits = some blocked
draw_window maps logo_bits (draws c) =
    if maps
    then Option.map (shows c.win_w c.win_h)
        (draw logo_bits c.win_w c.win_h (replicate (c.win_w * c.win_h) 0))
    else some (exits 1)

unfoldable pub main :
    (maps : Bool) (logo_bits : List ℕ) (answers : ℕ → Bool) (globals : List Interface)
    (ds : List (Option (List Event)))
    → Option Shown
main maps logo_bits answers globals ds = draw_window maps logo_bits (set_up answers globals ds)

-- When the compositor gets the client to draw and the buffer can be made, the program shows a
-- window of the size that the compositor asked for. The pixel at (x, y) is white if the logo, put at
-- its place, has a set bit there, and black otherwise. Neither the bits of the logo, which are 6510
-- bytes, nor the window is accessed out of range, however small the window is.
pub main-pixel :
    (logo_bits : List ℕ) (size : length logo_bits ≡ 6510) (answers : ℕ → Bool)
    (globals : List Interface) (ds : List (Option (List Event))) (c : Client) (x y : ℕ)
    → set_up answers globals ds ≡ draws c
    → x < c.win_w
    → y < c.win_h
    → (px : List ℕ) × (main true logo_bits answers globals ds ≡ some (shows c.win_w c.win_h px))
      × (length px ≡ c.win_w * c.win_h)
      × (get_or px (y * c.win_w + x) 0
          ≡ (if in_logo logo_bits size 0 logo_h x y then white else bg_xrgb))
unfolding main draw_window
main-pixel logo_bits size answers globals ds c x y set a b =
    let old = replicate (c.win_w * c.win_h) 0 in
    let (px, ran, whole, pixel) =
      draw-pixel logo_bits size c.win_w c.win_h old x y
        (length-replicate {A = ℕ} (c.win_w * c.win_h) 0) a b in
    (px, rw (set, ran) refl, whole, pixel)
