-- ===== src/Wayland/Tests.antt =====
-- The set-up with a compositor that comes up late and sends its size before the first configure.
use kmm_yocto.Base.{
  ℕ, ◌≡◌, inl, inr, refl, Bool, false, some, List, [], ◌∷◌, ◌++◌, map, onto, arith, ltb, pos,
  negsuc,
}
use kmm_yocto.Wayland.{
  Interface, wl_compositor, wl_shm, xdg_wm_base, unrelated, Event, ping, configure, toplevel, close,
  Client, pong, ack, life, seen, exited, set_up, connects, bind_all, registry_global, await,
  dispatch, handle,
}
use kmm_yocto.Wayland.Globals.{Announced}
use kmm_yocto.Wayland.Setup.{joined, width_after, height_after, has_configure, replies}
use kmm_yocto.Wayland.Resident.{life-answers}

abbrev pub late : ℕ → Bool
late n = ltb 2 n

abbrev pub globals : List Interface
globals = wl_shm ∷ unrelated ∷ wl_compositor ∷ xdg_wm_base ∷ []

abbrev before : List (List Event)
before = (ping 5 ∷ []) ∷ []

abbrev first : List Event
first = toplevel (pos 4) (negsuc 0) ∷ toplevel (pos 3) (pos 2) ∷ configure 7 ∷ []

abbrev afterwards : List (List Event)
afterwards = (ping 8 ∷ toplevel (pos 9) (pos 9) ∷ []) ∷ (configure 9 ∷ ping 10 ∷ []) ∷ []

life-answers_example :
    (c : Client) × (c' : Client) × (life late globals
        (map some before ++ (some first ∷ []))
        (map some afterwards)
      ≡ seen c c')
    × (c.win_w ≡ width_after 800 (joined before ++ first))
    × (c.win_h ≡ height_after 480 (joined before ++ first))
    × (c'.sent ≡ onto (replies ((joined before ++ first) ++ joined afterwards)) [])
unfolding Announced has_configure
life-answers_example =
    life-answers 3 late globals before first afterwards (omega arith) refl (inr (inr (inl refl)))
      (inl refl) (inr (inr (inr (inl refl)))) (ground arith) (ground arith) (ground arith) refl
      (ground arith)

in_order :
    replies ((joined before ++ first) ++ joined afterwards)
    ≡ pong 5 ∷ ack 7 ∷ pong 8 ∷ ack 9 ∷ pong 10 ∷ []
in_order = refl

closed_early : set_up late globals (some (close ∷ []) ∷ []) ≡ exited 0
unfolding set_up connects bind_all registry_global await dispatch handle
closed_early = refl

no_compositor : set_up (λ n. false) globals [] ≡ exited 1
unfolding set_up connects
no_compositor = refl
