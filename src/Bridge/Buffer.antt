-- ===== src/Bridge/Buffer.antt =====
-- A transfer never asks for more than its buffer of 512 bytes holds.
use mathlib.Core.Option
use kmm_yocto.Base.{
  ℕ, ◌+◌, ◌≡◌, refl, Option, some, arith, ◌||◌, ◌==◌, min, le→leb, if◌then◌else◌, Bool-cases, inl,
  inr,
}
use kmm_yocto.Bridge.{Dev, Ports, positive, buf_size, write_some, read_into, pump, discard, side}

module _ (P : Ports) where
  -- What a transfer comes to where its buffer is never left.
  unfoldable pub moved : (src dst : Dev) → P.World → ℕ × P.World
  moved src dst w =
      let n = positive (P.available w src) in
      let space = positive (P.available_for_write w dst) in
      if n == 0 || space == 0
      then (0, w)
      else write_some P dst (P.read_bytes w src (min (min n space) buf_size))

  pump-moved : (src dst : Dev) (w : P.World) → pump P src dst w ≡ some (moved src dst w)
  unfolding pump moved read_into
  pump-moved src dst w =
      let n = positive (P.available w src) in
      let space = positive (P.available_for_write w dst) in
      elim (Bool-cases (n == 0 || space == 0)) [
        | inl none_or_full ↦ rw none_or_full refl
        | inr some_move ↦
            rw (some_move, le→leb (min (min n space) buf_size) buf_size (ground arith)) refl
      ]

  unfoldable pub served : (fuel : ℕ) (usb uart : Dev) → P.World → Option (ℕ × P.World)
  served fuel usb uart w =
      let there = moved usb uart w in
      let back = moved uart usb there.1 in
      if P.is_open w usb
      then some (there.0 + back.0, back.1)
      else Option.map (λ v. (0, v)) (discard P fuel uart w)

  pub side-served :
      (fuel : ℕ) (usb uart : Dev) (w : P.World) → side P fuel usb uart w ≡ served fuel usb uart w
  unfolding side served Option.bind
  side-served fuel usb uart w =
      rw (pump-moved usb uart w, pump-moved uart usb (moved usb uart w).1) refl
