-- ===== src/WlImageView/Tests.antt =====
-- An image of 2 by 1 pixels in a window of 3 by 2, read three bytes at a time, and two command
-- lines.
use kmm_yocto.Base.{
  ℕ, ◌+◌, ◌-◌, ◌*◌, ◌&&◌, leb, if◌then◌else◌, codes, has_arg, same_text, ℤ, ◌≡◌, refl, true, Option,
  some, List, [], ◌∷◌, arith, length, take, drop, min, get_or, pos,
}
use kmm_yocto.Wayland.{
  Interface, wl_compositor, wl_shm, xdg_wm_base, Event, configure, toplevel, Client, ack, draws,
  set_up, connects, bind_all, registry_global, await, dispatch, handle,
}
use kmm_yocto.WlImageView.{shows}
use kmm_yocto.WlImageView.Load.{ReadsFile}
use kmm_yocto.WlImageView.Place.{picture}
use kmm_yocto.WlImageView.Args.{delay_option, command}
use kmm_yocto.WlImageView.Command.{command-picture}

abbrev file : List ℕ
file = 1 ∷ 2 ∷ 3 ∷ 255 ∷ 4 ∷ 5 ∷ 6 ∷ 255 ∷ []

abbrev three_at_most : (k off n : ℕ) → List ℕ
three_at_most k off n = take (min n 3) (drop off file)

three_at_most-ReadsFile : ReadsFile three_at_most file
three_at_most-ReadsFile k off n h = (min n 3, omega arith, omega arith, refl)

abbrev globals : List Interface
globals = wl_shm ∷ wl_compositor ∷ xdg_wm_base ∷ []

abbrev events : List (Option (List Event))
events = some (toplevel (pos 3) (pos 2) ∷ configure 7 ∷ []) ∷ []

abbrev client : Client
client = record {
  compositor = true;
  shm = true;
  wm_base = true;
  win_w = 3;
  win_h = 2;
  configured = true;
  sent = ack 7 ∷ [];
}

set_up-client : set_up (λ n. true) globals events ≡ draws client
unfolding set_up connects bind_all registry_global await dispatch handle
set_up-client = refl

abbrev digits : ℕ → List ℕ → ℕ
digits n [] = n
digits n (c ∷ more) =
    let rest = digits (n * 10 + (c - 48)) more in if leb 48 c && leb c 57 then rest else n

-- `atoi` on words without a sign.
abbrev number : List ℕ → ℤ
number s = pos (digits 0 s)

command-picture_example :
    (px : List ℕ) × (command number
        (λ n. true)
        (λ name. true)
        true
        (λ name. three_at_most)
        (λ n. true)
        globals
        events
        (codes "wl-image-view"
          ∷ codes "f"
          ∷ codes "2"
          ∷ codes "1"
          ∷ delay_option
          ∷ codes "7"
          ∷ delay_option
          ∷ codes "50"
          ∷ [])
      ≡ record { shown = some (shows 3 2 px); waited = 50000 })
    × (length px ≡ 3 * 2)
    × (get_or px (0 * 3 + 1) 0 ≡ picture (take (2 * 1 * 4) file) 2 1 1 0)
unfolding has_arg same_text
command-picture_example =
    command-picture number (λ n. true) (λ name. true) true (λ name. three_at_most) (λ n. true)
      globals events (codes "wl-image-view") (codes "f") (codes "2") (codes "1")
      (delay_option ∷ codes "7" ∷ []) (codes "50") [] file client 1 0 refl refl refl refl
      three_at_most-ReadsFile refl refl (omega arith) set_up-client (omega arith) (omega arith)
