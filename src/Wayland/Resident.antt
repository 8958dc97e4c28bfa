-- ===== src/Wayland/Resident.antt =====
-- The client from its first attempt to connect to the last event that it is sent.
use kmm_yocto.Base.{
  ℕ, ◌<◌, ◌≡◌, refl, sym, ap, ◌∙◌, Bool, true, false, some, List, [], ◌∷◌, ◌++◌, map, onto, All,
}
use kmm_yocto.Wayland.{
  Interface, wl_compositor, wl_shm, xdg_wm_base, Event, Client, resident, seen, life,
}
use kmm_yocto.Wayland.Globals.{Announced}
use kmm_yocto.Wayland.Setup.{
  width_after, height_after, has_configure, IsOpen, joined, replies, replies-append, dispatch_lem,
  set_up-said,
}

resident_said :
    (ess : List (List Event)) (c : Client)
    → All (All IsOpen) ess
    → (c' : Client) × (resident (map some ess) c ≡ some c')
      × (c'.sent ≡ onto (replies (joined ess)) c.sent)
unfolding resident
resident_said [] c opens = (c, refl, refl)
resident_said (es ∷ ess) c (open_es, opens) =
    let (c₁, ran, _, _, _, said) = dispatch_lem es c open_es in
    let (c₂, stays, said') = resident_said ess c₁ opens in
    (
      c₂,
      rw (ran, resident) stays,
      said' ∙ ap (onto (replies (joined ess))) said ∙ sym (replies-append es (joined ess) c.sent),
    )

-- If one of the first 1000 attempts to connect succeeds, the three globals are announced, and after
-- any number of dispatches without a configure there is one with a configure, then the client comes
-- to draw. The size is on each axis the last positive one that the compositor has sent by then, and
-- 800 by 480 if it has sent none. As long as no event closes the window and no dispatch fails, the
-- client stays, and it has answered every ping and every configure, before it drew and after, each
-- once, with its serial, in their order, and has sent no other answer.
pub life-answers :
    (n : ℕ) (answers : ℕ → Bool) (globals : List Interface) (bs : List (List Event))
    (b : List Event) (later : List (List Event))
    → n < 1000
    → answers n ≡ true
    → Announced wl_compositor globals
    → Announced wl_shm globals
    → Announced xdg_wm_base globals
    → All (All IsOpen) bs
    → All (λ es. has_configure es ≡ false) bs
    → All IsOpen b
    → has_configure b ≡ true
    → All (All IsOpen) later
    → (c : Client) × (c' : Client) × (life answers globals
          (map some bs ++ (some b ∷ []))
          (map some later)
        ≡ seen c c')
      × (c.win_w ≡ width_after 800 (joined bs ++ b))
      × (c.win_h ≡ height_after 480 (joined bs ++ b))
      × (c'.sent ≡ onto (replies ((joined bs ++ b) ++ joined later)) [])
unfolding life
life-answers n answers globals bs b later lt yes_n one two three opens quiet open_b conf after =
    let (c, shown, w, h, said) =
      set_up-said n answers globals bs b [] lt yes_n one two three opens quiet open_b conf in
    let (c', stays, said') = resident_said later c after in
    (
      c,
      c',
      rw (shown, stays, life) refl,
      w,
      h,
      said'
          ∙ ap (onto (replies (joined later))) said
          ∙ sym (replies-append (joined bs ++ b) (joined later) []),
    )
