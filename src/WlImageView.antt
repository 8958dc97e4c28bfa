-- ===== src/WlImageView.antt =====
-- meta-kart/recipes-graphics/wl-image-view/files/wl-image-view.c: shows a file of raw pixels on the
-- whole screen. What the operating system reads and the two numbers on the command line are
-- parameters. The file's bytes stay bytes, and a pixel is the little-endian word at its index; an
-- access out of range gives `none`. `w * h * 4` is assumed to fit an `int`.
pub mod Args
pub mod Command
pub mod Load
pub mod Place
mod Tests
use mathlib.Core.Option
use kmm_yocto.Base.{
  ℕ, zero, suc, ◌+◌, ◌-◌, ◌*◌, Bool, true, false, ◌&&◌, Option, none, some, List, [], ◌∷◌, ◌++◌,
  ltb, leb, ◌==◌, if◌then◌else◌, length, le32_at, store, replicate, ℤ, pos, negsuc,
}
use kmm_yocto.Wayland.{Interface, Event, Client, Outcome, exited, waits, draws, set_up}

abbrev pub black : ℕ
black = 0xff000000

-- `img[i]`
abbrev pub pixel_at : List ℕ → ℕ → Option ℕ
pixel_at img i = if ltb (4 * i + 3) (length img) then some (le32_at img (4 * i)) else none

-- `while (got < want)`: `read k off n` is what the k-th read delivers of at most `n` bytes, nothing
-- at the end of the file and on an error. `none` means that the fuel ran out.
module _ (read : (k off n : ℕ) → List ℕ) where
  unfoldable pub load_loop : (want fuel k : ℕ) → List ℕ → Option (List ℕ)
  load_loop want zero k img = none
  load_loop want (suc fuel) k img =
      let bytes = read k (length img) (want - length img) in
      let rest = load_loop want fuel (k + 1) (img ++ bytes) in
      if ltb (length img) want then (if length bytes == 0 then some img else rest) else some img

module _ (img : List ℕ) (img_w img_h win_w : ℕ) where
  -- The value of the pixel (x, y) of the window.
  abbrev pub value_at : (x y : ℕ) → Option ℕ
  value_at x y = if ltb x img_w && ltb y img_h then pixel_at img (y * img_w + x) else some black

  -- `for (x = 0; x < win_w; x++)`
  unfoldable pub place_cols : (y left x : ℕ) → List ℕ → Option (List ℕ)
  unfolding Option.bind
  place_cols y zero x px = some px
  place_cols y (suc left) x px =
      Option.bind (value_at x y)
        (λ v. Option.bind (store (y * win_w + x) v px) (place_cols y left (x + 1)))

  -- `for (y = 0; y < win_h; y++)`
  unfoldable pub place_rows : (left y : ℕ) → List ℕ → Option (List ℕ)
  unfolding Option.bind
  place_rows zero y px = some px
  place_rows (suc left) y px = Option.bind (place_cols y win_w 0 px) (place_rows left (y + 1))

-- How the program ends, or the window that it shows.
pub data Shown : Type 0 where
  exits : ℕ → Shown
  blocked : Shown
  shows : (w h : ℕ) → List ℕ → Shown

-- `maps` says whether `memfd_create`, `ftruncate` and `mmap` succeed; the buffer that they give is
-- zero.
unfoldable pub draw_window : (maps : Bool) → List ℕ → (img_w img_h : ℕ) → Outcome → Option Shown
draw_window maps img img_w img_h (exited code) = some (exits code)
draw_window maps img img_w img_h waits = some blocked
draw_window maps img img_w img_h (draws c) =
    let shown =
      Option.map (shows c.win_w c.win_h)
        (place_rows img img_w img_h c.win_w c.win_h 0 (replicate (c.win_w * c.win_h) 0)) in
    if maps then shown else some (exits 1)

abbrev pub is_positive : ℤ → Bool
is_positive (pos zero) = false
is_positive (pos (suc n)) = true
is_positive (negsuc n) = false

abbrev pub magnitude : ℤ → ℕ
magnitude (pos n) = n
magnitude (negsuc n) = 0

-- `main` with the numbers that `atoi` gives, once the file is open and the memory allocated.
unfoldable pub main :
    (maps : Bool) (read : (k off n : ℕ) → List ℕ) (answers : ℕ → Bool) (globals : List Interface)
    (ds : List (Option (List Event))) (img_w img_h : ℤ)
    → Option Shown
unfolding Option.bind
main maps read answers globals ds img_w img_h =
    let w = magnitude img_w in
    let h = magnitude img_h in
    let want = w * h * 4 in
    let run = Option.bind (load_loop read want (want + 1) 0 []) (λ img.
      if length img == want
      then draw_window maps img w h (set_up answers globals ds)
      else some (exits 1)) in
    if is_positive img_w && is_positive img_h then run else some (exits 2)
