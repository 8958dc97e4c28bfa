-- ===== src/Base/Grid.antt =====
-- Pixels in rows: the index of pixel (x, y) in a window of width w is `y * w + x`.
use Prim.Native.Nat.{ℕ, suc, ◌+◌, ◌*◌, ◌≤◌, ◌<◌}
use native.Mathlib.Nat.{mul-le-mul_left, mul-suc, mul_comm}
use native.Mathlib.Omega.{arith}

-- A row ends before a later one begins.
pub row_below : (w y y' : ℕ) → y < y' → y * w + w ≤ y' * w
row_below w y y' h =
    let up : w * suc y ≤ w * y' = mul-le-mul_left w (omega arith) in
    omega (arith, up, mul-suc w y, mul_comm w y, mul_comm w y')

pub pixel_inside : (w h x y : ℕ) → x < w → y < h → y * w + x < h * w
pixel_inside w h x y a b = omega (arith, row_below w y h b)
