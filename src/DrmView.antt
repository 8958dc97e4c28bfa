-- ===== src/DrmView.antt =====
-- meta-kart/recipes-graphics/drm-image-view/files/drm-image-view.c: shows a file of raw pixels by
-- DRM calls, and may move a red bar over it. libdrm, the kernel, `malloc` and `atoi` are
-- parameters. Memory is bytes; an access out of range gives `none`. The numbers on the command line
-- are assumed not to be negative. The text of the messages and the frame rate are left out.
pub mod Choose
pub mod Copy
pub mod Start
pub mod Picture
pub mod Bar
pub mod Flips
mod Tests
use mathlib.Core.Option
use kmm_yocto.Base.{
  ℕ, zero, suc, ◌+◌, ◌-◌, ◌*◌, ◌%◌, Bool, true, false, not, ◌&&◌, ◌||◌, Option, none, some, List,
  [], ◌∷◌, ◌++◌, ltb, leb, ◌==◌, if◌then◌else◌, length, get_or, drop, replicate, u32, le32, blit,
  codes, min,
}
use kmm_yocto.Bus.{test_bit}
use kmm_yocto.WlImageView.{load_loop}

pub record Mode : Type 0 where
  pub hdisplay : ℕ
  pub vdisplay : ℕ

-- `connection` is 1 for DRM_MODE_CONNECTED.
pub record Connector : Type 0 where
  pub connector_id : ℕ
  pub connection : ℕ
  pub modes : List Mode
  pub encoder_id : ℕ
  pub encoders : List ℕ

pub record Encoder : Type 0 where
  pub crtc_id : ℕ
  pub possible_crtcs : ℕ

pub record Resources : Type 0 where
  pub connectors : List ℕ
  pub crtcs : List ℕ

-- What DRM_IOCTL_MODE_CREATE_DUMB fills in.
pub record Dumb : Type 0 where
  pub pitch : ℕ
  pub size : ℕ
  pub handle : ℕ

-- What the calls of the kernel give, with `none` for a failure; `create_dumb k` is the k-th call.
pub record Card : Type 0 where
  pub opened : Bool
  pub resources : Option Resources
  pub get_connector : ℕ → Option Connector
  pub get_encoder : ℕ → Option Encoder
  pub create_dumb : (k w h : ℕ) → Option Dumb
  pub add_fb : Dumb → Option ℕ
  pub map_dumb : Dumb → Bool
  pub mmap : Dumb → Option (List ℕ)
  pub set_crtc : (crtc fb connector : ℕ) → Bool

-- `c && c->connection == DRM_MODE_CONNECTED && c->count_modes > 0`, with the first mode
unfoldable pub usable : Option Connector → Option (Connector × Mode)
usable none = none
usable (some c) = elim c.modes [
  | [] ↦ none
  | m ∷ ms ↦ if c.connection == 1 then some (c, m) else none
]

abbrev pub or_else : {A : Type 0} → Option A → Option A → Option A
or_else none b = b
or_else (some a) b = some a

-- `for (i = 0; i < res->count_connectors; i++)`
unfoldable pub find_connector : (get : ℕ → Option Connector) → List ℕ → Option (Connector × Mode)
find_connector get [] = none
find_connector get (id ∷ ids) = or_else (usable (get id)) (find_connector get ids)

-- `for (i = 0; i < res->count_crtcs; i++)`, from `i` on
unfoldable pub first_possible : (mask i : ℕ) → List ℕ → ℕ
first_possible mask i [] = 0
first_possible mask i (id ∷ ids) =
    let rest = first_possible mask (i + 1) ids in if test_bit mask i then id else rest

-- The encoder that is asked for.
abbrev pub encoder_of : Connector → ℕ
encoder_of c = if not (c.encoder_id == 0) then c.encoder_id else get_or c.encoders 0 0

-- `crtc_id`, 0 if there is none.
unfoldable pub pick_crtc : (enc : Option Encoder) (crtcs : List ℕ) → ℕ
pick_crtc enc crtcs =
    let current : ℕ = elim enc [ none ↦ 0 | some e ↦ e.crtc_id ] in
    let possible : ℕ = elim enc [ none ↦ 0 | some e ↦ first_possible e.possible_crtcs 0 crtcs ] in
    let chosen = if current == 0 then possible else current in
    if chosen == 0 then get_or crtcs 0 0 else chosen

-- Row after row of the image is copied to the top left.
module _ (img : List ℕ) (w hdisplay vdisplay pitch : ℕ) where
  unfoldable pub copy_rows : (left y : ℕ) → List ℕ → Option (List ℕ)
  unfolding Option.bind
  copy_rows zero y map = some map
  copy_rows (suc left) y map =
      if ltb y vdisplay
      then Option.bind (blit map (u32 (y * pitch)) img (y * w * 4) (min w hdisplay * 4))
          (copy_rows left (y + 1))
      else some map

-- The buffer `img` after the loading loop: behind what the file brought stands what `malloc` found.
unfoldable pub load_image :
    (read : (k off n : ℕ) → List ℕ) (junk : Option (List ℕ)) (want : ℕ) → Option (List ℕ)
unfolding Option.bind
load_image read junk want =
    Option.bind junk (λ old.
      Option.map (λ got. got ++ drop (length got) old) (load_loop read want (want + 1) 0 []))

-- 0xffff0000
abbrev pub red : List ℕ
red = le32 0xffff0000

module _ (hdisplay : ℕ) where
  -- `for (x = col; x < col + 20 && x < mode.hdisplay; x++)`, in the row at `off`
  unfoldable pub bar_cols : (left x off : ℕ) → List ℕ → Option (List ℕ)
  unfolding Option.bind
  bar_cols zero x off map = some map
  bar_cols (suc left) x off map =
      if ltb x hdisplay
      then Option.bind (blit map (off + 4 * x) red 0 4) (bar_cols left (x + 1) off)
      else some map

  unfoldable pub bar_rows : (pitch col left y : ℕ) → List ℕ → Option (List ℕ)
  unfolding Option.bind
  bar_rows pitch col zero y map = some map
  bar_rows pitch col (suc left) y map =
      Option.bind (bar_cols 20 col (u32 (y * pitch)) map) (bar_rows pitch col left (y + 1))

  -- The picture of one frame.
  unfoldable pub draw_frame :
      (vdisplay : ℕ) (d : Dumb) (base : List ℕ) (col : ℕ) → List ℕ → Option (List ℕ)
  unfolding Option.bind
  draw_frame vdisplay d base col map =
      Option.bind (blit map 0 base 0 d.size) (bar_rows d.pitch col vdisplay 0)

-- What becomes of a page flip: it is done within the second that the program waits, or not yet, or
-- the kernel refuses it.
pub data Outcome : Type 0 where
  flipped late busy : Outcome

-- The variables of the animation, and which of the two buffers the screen shows.
pub record Anim : Type 0 where
  pub front : List ℕ
  pub other : List ℕ
  pub back : ℕ
  pub flips : ℕ
  pub col : ℕ
  pub shown : ℕ

-- `maps[back]`
abbrev pub back_map : Anim → List ℕ
back_map a = if a.back == 0 then a.front else a.other

abbrev pub put_back : List ℕ → Anim → Anim
put_back map a = if a.back == 0 then record a { front = map } else record a { other = map }

-- `flips++; back ^= 1`
abbrev pub swap : Anim → Anim
swap a = record a { flips = a.flips + 1; back = 1 - a.back }

abbrev pub after_flip : Outcome → Anim → Anim
after_flip flipped a = swap (record a { shown = a.back })
after_flip late a = swap a
after_flip busy a = a

-- One round of `while (1)`.
unfoldable pub frame : (mode : Mode) (d : Dumb) (base : List ℕ) → Outcome → Anim → Option Anim
frame mode d base o a =
    Option.map (λ map. after_flip o (record (put_back map a) { col = (a.col + 8) % mode.hdisplay }))
      (draw_frame mode.hdisplay mode.vdisplay d base a.col (back_map a))

unfoldable pub frames : (mode : Mode) (d : Dumb) (base : List ℕ) → List Outcome → Anim → Option Anim
unfolding Option.bind
frames mode d base [] a = some a
frames mode d base (o ∷ os) a = Option.bind (frame mode d base o a) (frames mode d base os)
