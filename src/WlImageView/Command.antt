-- ===== src/WlImageView/Command.antt =====
-- What wl-image-view.c does with a whole command line.
use kmm_yocto.Base.{
  ℕ, ◌+◌, ◌*◌, ◌≡◌, refl, ◌%◌, ◌^◌, true, false, Bool, Option, some, List, [], ◌∷◌, ◌++◌, arith,
  leb, ◌≤◌, ◌<◌, if◌then◌else◌, length, get_or, take, ℤ, pos, has_arg,
}
use kmm_yocto.Wayland.{Interface, Event, Client, draws, set_up}
use kmm_yocto.WlImageView.{exits, shows, main, is_positive, magnitude}
use kmm_yocto.WlImageView.Load.{ReadsFile}
use kmm_yocto.WlImageView.Place.{picture, main-picture}
use kmm_yocto.WlImageView.Args.{delay_option, command, delay_of, delay_from, delay_from-last}

module _ (atoi : List ℕ → ℤ) (malloc : ℕ → Bool) (open_file : List ℕ → Bool) (maps : Bool)
    (read : List ℕ → (k off n : ℕ) → List ℕ) (answers : ℕ → Bool) (globals : List Interface)
    (ds : List (Option (List Event))) where
  -- `prog file --delay-ms n` without a size, where `atoi` gives 0 for a word that is no number: the
  -- option itself is read as the width, and the program exits with code 2 without a window.
  pub delay_needs_size :
      (prog name n : List ℕ)
      → atoi delay_option ≡ pos 0
      → command atoi malloc open_file maps read answers globals ds
          (prog ∷ name ∷ delay_option ∷ n ∷ [])
        ≡ record { shown = some (exits 2); waited = 0 }
  unfolding command main
  delay_needs_size prog name n width = rw width refl

  -- A command line `prog name w h ... --delay-ms n ...` whose last `--delay-ms` is the one before
  -- `n`; memory, a buffer, and a file that opens and holds at least the pixels of the image; sizes
  -- above 0, and a compositor that gets the client to draw. Then the program waits `n` milliseconds,
  -- counted in microseconds modulo 2^32 and not at all for an `n` below 1, and shows a window of the
  -- size the compositor asked for. Each of its pixels is the one of the file at the same place of the
  -- image, and black right of the image and below it. Nothing is accessed out of range, however short
  -- the reads are.
  pub command-picture :
      (prog name w h : List ℕ) (before : List (List ℕ)) (n : List ℕ) (after : List (List ℕ))
      (file : List ℕ) (c : Client) (x y : ℕ)
      → has_arg delay_option (n ∷ after) ≡ false
      → malloc (magnitude (atoi w) * magnitude (atoi h) * 4) ≡ true
      → open_file name ≡ true
      → maps ≡ true
      → ReadsFile (read name) file
      → is_positive (atoi w) ≡ true
      → is_positive (atoi h) ≡ true
      → magnitude (atoi w) * magnitude (atoi h) * 4 ≤ length file
      → set_up answers globals ds ≡ draws c
      → x < c.win_w
      → y < c.win_h
      → (px : List ℕ) × (command atoi malloc open_file maps read answers globals ds
            (prog ∷ name ∷ w ∷ h ∷ (before ++ delay_option ∷ n ∷ after))
          ≡ record {
            shown = some (shows c.win_w c.win_h px);
            waited = if is_positive (atoi n) then magnitude (atoi n) * 1000 % 2 ^ 32 else 0;
          })
        × (length px ≡ c.win_w * c.win_h)
        × (get_or px (y * c.win_w + x) 0
            ≡ picture
                (take (magnitude (atoi w) * magnitude (atoi h) * 4) file)
                (magnitude (atoi w))
                (magnitude (atoi h))
                x
                y)
  unfolding command delay_of delay_from
  command-picture prog name w h before n after file c x y last room opens mapped reads pw ph enough
        set a b =
      let words = before ++ delay_option ∷ n ∷ after in
      let two : leb 2 (length (prog ∷ name ∷ w ∷ h ∷ words)) ≡ true = ground arith in
      let four : leb 4 (length (prog ∷ name ∷ w ∷ h ∷ words)) ≡ true = ground arith in
      let (px, ran, size, pixel) =
        main-picture (read name) answers globals ds file (atoi w) (atoi h) c x y reads pw ph enough
          set a b in
      let delay = delay_from-last atoi name (w ∷ h ∷ before) n after (pos 0) last in
      (px, rw (two, four, pw, ph, room, opens, mapped, ran, delay) refl, size, pixel)
