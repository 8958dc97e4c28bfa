-- ===== src/WlImageView/Args.antt =====
-- The command line of wl-image-view.c, and `main` from its first line. `atoi`, `malloc`, `open` and
-- `read` are parameters; a command line is the list of its words, the program's name first.
use kmm_yocto.Base.{
  ℕ, ◌*◌, ◌≡◌, refl, ◌∙◌, ap, Bool, true, false, not, ◌&&◌, Option, none, some, List, [], ◌∷◌, ◌++◌,
  leb, ◌||◌, if◌then◌else◌, length, get_or, ℤ, pos, codes, same_text, has_arg, u32, arith,
}
use kmm_yocto.Wayland.{Interface, Event}
use kmm_yocto.WlImageView.{Shown, exits, blocked, shows, main, is_positive, magnitude}

-- The result of the program, and the microseconds that it waits before it shows the window.
pub record Ended : Type 0 where
  pub shown : Option Shown
  pub waited : ℕ

abbrev pub delay_option : List ℕ
delay_option = codes "--delay-ms"

-- `if (delay_ms > 0) usleep((useconds_t)delay_ms * 1000)`, which only a program with a window comes
-- to.
abbrev pub pause : Option Shown → (delay_ms : ℤ) → ℕ
pause none d = 0
pause (some (exits code)) d = 0
pause (some blocked) d = 0
pause (some (shows w h px)) d = if is_positive d then u32 (magnitude d * 1000) else 0

module _ (atoi : List ℕ → ℤ) where
  -- The loop over the arguments `a ∷ rest`: the last argument names no delay.
  unfoldable pub delay_from : (a : List ℕ) (rest : List (List ℕ)) → ℤ → ℤ
  delay_from a [] d = d
  delay_from a (b ∷ rest) d = delay_from b rest (if same_text a delay_option then atoi b else d)

  unfoldable pub delay_of : (args : List (List ℕ)) → ℤ
  delay_of [] = pos 0
  delay_of (name ∷ []) = pos 0
  delay_of (name ∷ a ∷ rest) = delay_from a rest (pos 0)

  abbrev pub image_w : (args : List (List ℕ)) → ℤ
  image_w args = if leb 4 (length args) then atoi (get_or args 2 []) else pos 800

  abbrev pub image_h : (args : List (List ℕ)) → ℤ
  image_h args = if leb 4 (length args) then atoi (get_or args 3 []) else pos 480

  module _ (malloc : ℕ → Bool) (open_file : List ℕ → Bool) (maps : Bool)
      (read : List ℕ → (k off n : ℕ) → List ℕ) (answers : ℕ → Bool) (globals : List Interface)
      (ds : List (Option (List Event))) where
    -- `main` once the size is known: a size that is not positive comes before the memory and the
    -- file.
    abbrev pub open_and_show : (name : List ℕ) (w h : ℤ) → Option Shown
    open_and_show name w h =
        let ready = malloc (magnitude w * magnitude h * 4) && open_file name in
        let run = main maps (read name) answers globals ds w h in
        if is_positive w && is_positive h && not ready then some (exits 1) else run

    unfoldable pub command : (args : List (List ℕ)) → Ended
    command args =
        let run = open_and_show (get_or args 1 []) (image_w args) (image_h args) in
        let wait = pause run (delay_of args) in
        if leb 2 (length args)
        then record { shown = run; waited = wait }
        else record { shown = some (exits 2); waited = 0 }

module _ (atoi : List ℕ → ℤ) where
  delay_from-none :
      (a : List ℕ) (rest : List (List ℕ)) (d : ℤ)
      → has_arg delay_option (a ∷ rest) ≡ false
      → delay_from atoi a rest d ≡ d
  unfolding delay_from has_arg
  delay_from-none a [] d h = refl
  delay_from-none a (b ∷ rest) d h =
      let other : same_text a delay_option ≡ false = ground arith in
      let more : same_text b delay_option || has_arg delay_option rest ≡ false = ground arith in
      ap (λ c. delay_from atoi b rest (if c then atoi b else d)) other
      ∙ delay_from-none b rest d more

  itself : same_text delay_option delay_option ≡ true
  unfolding same_text
  itself = refl

  -- The last delay on the command line counts.
  pub delay_from-last :
      (a : List ℕ) (before : List (List ℕ)) (n : List ℕ) (after : List (List ℕ)) (d : ℤ)
      → has_arg delay_option (n ∷ after) ≡ false
      → delay_from atoi a (before ++ delay_option ∷ n ∷ after) d ≡ atoi n
  unfolding delay_from
  delay_from-last a [] n after d h =
      let d' = if same_text a delay_option then atoi delay_option else d in
      ap (λ c. delay_from atoi n after (if c then atoi n else d')) itself
      ∙ delay_from-none n after (atoi n) h
  delay_from-last a (b ∷ before) n after d h =
      delay_from-last b before n after (if same_text a delay_option then atoi b else d) h
