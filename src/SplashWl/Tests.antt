-- ===== src/SplashWl/Tests.antt =====
-- The splash on a window that shows the corner of the logo.
use kmm_yocto.Base.{
  ℕ, ◌+◌, ◌*◌, ◌≡◌, refl, true, Option, some, List, [], ◌∷◌, arith, length, replicate,
  length-replicate, get_or, if◌then◌else◌, pos,
}
use kmm_yocto.Wayland.{
  Interface, wl_compositor, wl_shm, xdg_wm_base, Event, configure, toplevel, Client, ack, draws,
  set_up, connects, bind_all, registry_global, await, dispatch, handle,
}
use kmm_yocto.SplashWl.{white, bg_xrgb, logo_h}
use kmm_yocto.SplashWl.Draw.{in_logo}
use kmm_yocto.SplashWl.Main.{main, shows, main-pixel}

-- Every other column is set.
abbrev stripes : List ℕ
stripes = replicate 6510 0xAA

length-stripes : length stripes ≡ 6510
length-stripes = length-replicate {A = ℕ} 6510 0xAA

abbrev globals : List Interface
globals = wl_compositor ∷ wl_shm ∷ xdg_wm_base ∷ []

abbrev events : List (Option (List Event))
events = some (toplevel (pos 122) (pos 194) ∷ configure 7 ∷ []) ∷ []

abbrev client : Client
client = record {
  compositor = true;
  shm = true;
  wm_base = true;
  win_w = 122;
  win_h = 194;
  configured = true;
  sent = ack 7 ∷ [];
}

set_up-client : set_up (λ n. true) globals events ≡ draws client
unfolding set_up connects bind_all registry_global await dispatch handle
set_up-client = refl

main-pixel_example :
    (px : List ℕ) × (main true stripes (λ n. true) globals events ≡ some (shows 122 194 px))
    × (length px ≡ 122 * 194)
    × (get_or px (193 * 122 + 120) 0
        ≡ (if in_logo stripes length-stripes 0 logo_h 120 193 then white else bg_xrgb))
main-pixel_example =
    main-pixel stripes length-stripes (λ n. true) globals events client 120 193 set_up-client
      (omega arith) (omega arith)
