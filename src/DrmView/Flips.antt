-- ===== src/DrmView/Flips.antt =====
-- The animation: which buffer is drawn, and what the screen shows.
use mathlib.Core.Option
use mathlib.Core.Path.{subst}
use kmm_yocto.Base.{
  ℕ, suc, ◌+◌, ◌*◌, ◌%◌, ◌^◌, ◌≤◌, ◌<◌, ◌≡◌, ◌⊎◌, refl, sym, ap, ◌∙◌, none, some, Option, List, [],
  ◌∷◌, arith, ◌==◌, if◌then◌else◌, length, get_or, All,
}
use kmm_yocto.DrmView.{
  Mode, Dumb, Outcome, flipped, late, busy, Anim, back_map, put_back, after_flip, frame, frames,
}
use kmm_yocto.DrmView.Bar.{in_bar, red_byte, draw_frame_lem}

-- The kernel does not leave a flip undone for a whole second.
abbrev pub InTime : Outcome → Type 0
InTime flipped = Unit
InTime late = ⊥
InTime busy = Unit

-- How many of the flips were done.
abbrev pub done : List Outcome → ℕ
done [] = 0
done (flipped ∷ os) = suc (done os)
done (late ∷ os) = done os
done (busy ∷ os) = done os

-- The buffer that the screen shows.
abbrev pub shown_map : Anim → List ℕ
shown_map a = if a.shown == 0 then a.front else a.other

-- The buffer that is drawn is the one that the screen does not show.
abbrev pub IsApart : Anim → Type 0
IsApart a = ((a.back ≡ 0) × (a.shown ≡ 1)) ⊎ ((a.back ≡ 1) × (a.shown ≡ 0))

-- The column of the bar in the last frame that was flipped to the screen, if any was.
abbrev pub shown_col : (hdisplay col : ℕ) → List Outcome → Option ℕ → Option ℕ
shown_col hdisplay col [] c = c
shown_col hdisplay col (flipped ∷ os) c = shown_col hdisplay ((col + 8) % hdisplay) os (some col)
shown_col hdisplay col (late ∷ os) c = shown_col hdisplay ((col + 8) % hdisplay) os c
shown_col hdisplay col (busy ∷ os) c = shown_col hdisplay ((col + 8) % hdisplay) os c

-- A mode with room for its rows in both buffers.
pub record Fits (mode : Mode) (d : Dumb) (base : List ℕ) : Type 0 where
  pub wide : 4 * mode.hdisplay ≤ d.pitch
  pub high : mode.vdisplay * d.pitch ≤ d.size
  pub small : d.size < 2 ^ 32
  pub whole : length base ≡ d.size
  pub some_columns : 0 < mode.hdisplay

module _ (mode : Mode) (d : Dumb) (base : List ℕ) (fits : Fits mode d base) where
  abbrev pub IsSized : Anim → Type 0
  IsSized a = (length a.front ≡ d.size) × (length a.other ≡ d.size)

  -- Byte `i` of row `y` of a frame with the bar at column `col`.
  abbrev pub frame_byte : (col i y : ℕ) → ℕ
  frame_byte col i y =
      if in_bar mode.hdisplay 20 col i then red_byte i else get_or base (y * d.pitch + i) 0

  -- `map` is the picture with the bar at column `col`.
  abbrev pub IsFrame : (col : ℕ) → List ℕ → Type 0
  IsFrame col map =
      (i y : ℕ)
      → i < d.pitch
      → y < mode.vdisplay
      → get_or map (y * d.pitch + i) 0 ≡ frame_byte col i y

  frame_lem :
      (o : Outcome) (a : Anim)
      → IsSized a
      → (map : List ℕ) × (frame mode d base o a
          ≡ some (after_flip o (record (put_back map a) { col = (a.col + 8) % mode.hdisplay })))
        × (length map ≡ d.size)
        × IsFrame a.col map
  unfolding frame
  frame_lem o a (sf, so) =
      let size : length (back_map a) ≡ d.size = ground arith in
      let (map, ran, same, bytes) =
        draw_frame_lem mode.hdisplay mode.vdisplay a.col d base (back_map a) fits.wide fits.whole
          size fits.high fits.small in
      (map, rw ran refl, same, bytes)

  -- One frame in time: the shown buffer is not drawn on, and a flip shows what was drawn.
  step_lem :
      (o : Outcome) (a : Anim)
      → InTime o
      → IsSized a
      → IsApart a
      → (a' : Anim) × (frame mode d base o a ≡ some a')
        × IsSized a'
        × IsApart a'
        × (a'.flips ≡ a.flips + done (o ∷ []))
        × (a'.col ≡ (a.col + 8) % mode.hdisplay)
        × (o ≡ busy → shown_map a' ≡ shown_map a)
        × (o ≡ flipped → IsFrame a.col (shown_map a'))
  step_lem flipped a t s p =
      let (map, ran, size, pixels) = frame_lem flipped a s in
      let a' = after_flip flipped (record (put_back map a) { col = (a.col + 8) % mode.hdisplay }) in
      let at : shown_map a' ≡ map = ground arith in
      (
        a',
        ran,
        ground arith,
        ground arith,
        ground arith,
        ground arith,
        λ e. absurd (cc),
        λ e i y h k. ap (λ m. get_or m (y * d.pitch + i) 0) at ∙ pixels i y h k,
      )
  step_lem late a t s p = absurd t
  step_lem busy a t s p =
      let (map, ran, size, pixels) = frame_lem busy a s in
      (
        after_flip busy (record (put_back map a) { col = (a.col + 8) % mode.hdisplay }),
        ran,
        ground arith,
        ground arith,
        ground arith,
        ground arith,
        λ e. ground arith,
        λ e. absurd (cc),
      )

  -- The screen shows the frame with the bar at that column, or the buffer from before.
  abbrev pub Shows : (old : List ℕ) → Option ℕ → List ℕ → Type 0
  Shows old none map = map ≡ old
  Shows old (some col) map = IsFrame col map

  frames_from :
      (os : List Outcome) (a : Anim) (old : List ℕ) (c : Option ℕ)
      → All InTime os
      → IsSized a
      → IsApart a
      → Shows old c (shown_map a)
      → (a' : Anim) × (frames mode d base os a ≡ some a')
        × IsApart a'
        × (a'.flips ≡ a.flips + done os)
        × Shows old (shown_col mode.hdisplay a.col os c) (shown_map a')
  unfolding frames Option.bind
  frames_from [] a old c t s p q = (a, refl, p, omega arith, q)
  frames_from (flipped ∷ os) a old c (t, ts) s p q =
      let (b, ran, s', p', count, col, _, new) = step_lem flipped a t s p in
      let (a', rest, apart, total, seen) = frames_from os b old (some a.col) ts s' p' (new refl) in
      (
        a',
        rw ran rest,
        apart,
        omega arith,
        subst (λ k. Shows old (shown_col mode.hdisplay k os (some a.col)) (shown_map a')) col seen,
      )
  frames_from (late ∷ os) a old c (t, ts) s p q = absurd t
  frames_from (busy ∷ os) a old c (t, ts) s p q =
      let (b, ran, s', p', count, col, same, _) = step_lem busy a t s p in
      let (a', rest, apart, total, seen) =
        frames_from os b old c ts s' p' (subst (Shows old c) (sym (same refl)) q) in
      (
        a',
        rw ran rest,
        apart,
        omega arith,
        subst (λ k. Shows old (shown_col mode.hdisplay k os c) (shown_map a')) col seen,
      )

  -- As long as no flip takes longer than the second that the program waits, however many frames are
  -- drawn and whichever flips the kernel refuses: nothing is accessed out of range, the buffer that
  -- is drawn next is not the one on the screen, `flips` has grown by the flips that were done, and
  -- the screen shows the picture of the last one, with its bar at the right column; or what it
  -- showed before, if none was done.
  pub frames-Shows :
      (os : List Outcome) (a : Anim)
      → All InTime os
      → IsSized a
      → IsApart a
      → (a' : Anim) × (frames mode d base os a ≡ some a')
        × IsApart a'
        × (a'.flips ≡ a.flips + done os)
        × Shows (shown_map a) (shown_col mode.hdisplay a.col os none) (shown_map a')
  frames-Shows os a t s p = frames_from os a (shown_map a) none t s p refl

  -- A flip that takes longer than that second: the program goes on as if it were done, so that the
  -- buffer that it draws next is the one on the screen.
  pub late-tears :
      (a : Anim)
      → IsSized a
      → IsApart a
      → (a' : Anim) × (frame mode d base late a ≡ some a')
        × (a'.back ≡ a'.shown)
        × (a'.flips ≡ a.flips + 1)
  late-tears a s p =
      let (map, ran, size, pixels) = frame_lem late a s in
      (
        after_flip late (record (put_back map a) { col = (a.col + 8) % mode.hdisplay }),
        ran,
        ground arith,
        ground arith,
      )
