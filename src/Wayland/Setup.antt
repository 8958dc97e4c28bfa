-- ===== src/Wayland/Setup.antt =====
-- When a client gets to draw, and at what size.
use kmm_yocto.Base.{
  ℕ, ◌<◌, ◌≡◌, refl, ap, ◌∙◌, inr, Bool, true, false, ◌||◌, Option, none, some, List, [], ◌∷◌, ◌++◌,
  map, onto, arith, All, sym,
}
use mathlib.Core.List.{append_assoc}
use kmm_yocto.Wayland.Globals.{connects-some, Announced, bind_all-bound}
use kmm_yocto.Wayland.{
  Interface, wl_compositor, wl_shm, xdg_wm_base, Event, ping, configure, toplevel, close, bounds,
  Client, Answer, pong, ack, fresh, positive_or, handle, dispatch, draws, await, connects, bind_all,
  set_up,
}

-- The size after the events: the last positive one, each axis by itself.
unfoldable pub width_after : ℕ → List Event → ℕ
width_after w [] = w
width_after w (toplevel x y ∷ es) = width_after (positive_or w x) es
width_after w (_ ∷ es) = width_after w es

unfoldable pub height_after : ℕ → List Event → ℕ
height_after h [] = h
height_after h (toplevel x y ∷ es) = height_after (positive_or h y) es
height_after h (_ ∷ es) = height_after h es

unfoldable pub has_configure : List Event → Bool
has_configure [] = false
has_configure (configure s ∷ es) = true
has_configure (_ ∷ es) = has_configure es

-- The answers that the events call for: a pong for each ping and an acknowledgement for each
-- configure, with the same serial.
abbrev pub replies : List Event → List Answer
replies [] = []
replies (ping s ∷ es) = pong s ∷ replies es
replies (configure s ∷ es) = ack s ∷ replies es
replies (_ ∷ es) = replies es

abbrev pub IsOpen : Event → Type 0
IsOpen close = ⊥
IsOpen _ = Unit {0}

-- The events of several dispatches, one after the other.
abbrev pub joined : List (List Event) → List Event
joined [] = []
joined (es ∷ ess) = es ++ joined ess

pub dispatch_lem :
    (es : List Event) (c : Client)
    → All IsOpen es
    → (c' : Client) × (dispatch es c ≡ some c')
      × (c'.win_w ≡ width_after c.win_w es)
      × (c'.win_h ≡ height_after c.win_h es)
      × (c'.configured ≡ (c.configured || has_configure es))
      × (c'.sent ≡ onto (replies es) c.sent)
unfolding dispatch handle width_after height_after has_configure
dispatch_lem [] c h = (c, refl, refl, refl, ground arith, refl)
dispatch_lem (ping s ∷ es) c h = dispatch_lem es _ h.1
dispatch_lem (configure s ∷ es) c h =
    let (c', ran, w, y, on, said) =
      dispatch_lem es (record c { configured = true; sent = ack s ∷ c.sent }) h.1 in
    (c', ran, w, y, ground arith, said)
dispatch_lem (toplevel x y ∷ es) c h = dispatch_lem es _ h.1
dispatch_lem (close ∷ es) c h = absurd h.0
dispatch_lem (bounds ∷ es) c h = dispatch_lem es c h.1

await-configured :
    (ds : List (Option (List Event))) (c : Client) → c.configured ≡ true → await ds c ≡ draws c
unfolding await
await-configured [] c h = rw h refl
await-configured (none ∷ ds) c h = rw h refl
await-configured (some es ∷ ds) c h = rw h refl

width_after-append :
    (w : ℕ) (es fs : List Event) → width_after w (es ++ fs) ≡ width_after (width_after w es) fs
unfolding width_after
width_after-append w [] fs = refl
width_after-append w (ping s ∷ es) fs = width_after-append w es fs
width_after-append w (configure s ∷ es) fs = width_after-append w es fs
width_after-append w (toplevel x y ∷ es) fs = width_after-append (positive_or w x) es fs
width_after-append w (close ∷ es) fs = width_after-append w es fs
width_after-append w (bounds ∷ es) fs = width_after-append w es fs

height_after-append :
    (h : ℕ) (es fs : List Event) → height_after h (es ++ fs) ≡ height_after (height_after h es) fs
unfolding height_after
height_after-append h [] fs = refl
height_after-append h (ping s ∷ es) fs = height_after-append h es fs
height_after-append h (configure s ∷ es) fs = height_after-append h es fs
height_after-append h (toplevel x y ∷ es) fs = height_after-append (positive_or h y) es fs
height_after-append h (close ∷ es) fs = height_after-append h es fs
height_after-append h (bounds ∷ es) fs = height_after-append h es fs

pub replies-append :
    (es fs : List Event) (l : List Answer)
    → onto (replies (es ++ fs)) l ≡ onto (replies fs) (onto (replies es) l)
replies-append [] fs l = refl
replies-append (ping s ∷ es) fs l = replies-append es fs (pong s ∷ l)
replies-append (configure s ∷ es) fs l = replies-append es fs (ack s ∷ l)
replies-append (toplevel x y ∷ es) fs l = replies-append es fs l
replies-append (close ∷ es) fs l = replies-append es fs l
replies-append (bounds ∷ es) fs l = replies-append es fs l

await_next :
    (es : List Event) (ds : List (Option (List Event))) (c c' : Client)
    → c.configured ≡ false
    → dispatch es c ≡ some c'
    → await (some es ∷ ds) c ≡ await ds c'
unfolding await
await_next es ds c c' off ran = ground arith

-- Dispatches with no configure and no close, then one with a configure, then any others.
await_lem :
    (bs : List (List Event)) (b : List Event) (rest : List (Option (List Event))) (c : Client)
    → c.configured ≡ false
    → All (All IsOpen) bs
    → All (λ es. has_configure es ≡ false) bs
    → All IsOpen b
    → has_configure b ≡ true
    → (c' : Client) × (await (map some bs ++ (some b ∷ rest)) c ≡ draws c')
      × (c'.win_w ≡ width_after c.win_w (joined bs ++ b))
      × (c'.win_h ≡ height_after c.win_h (joined bs ++ b))
      × (c'.sent ≡ onto (replies (joined bs ++ b)) c.sent)
unfolding await
await_lem [] b rest c off opens quiet open_b conf =
    let (c', ran, w, h, on, said) = dispatch_lem b c open_b in
    (c', await_next b rest c c' off ran ∙ await-configured rest c' (ground arith), w, h, said)
await_lem (es ∷ bs) b rest c off opens quiet open_b conf =
    let (c₁, ran, w, h, on, said) = dispatch_lem es c opens.0 in
    let (c', shown, w', h', said') =
      await_lem bs b rest c₁ (ground arith) opens.1 quiet.1 open_b conf in
    (
      c',
      await_next es (map some bs ++ (some b ∷ rest)) c c₁ off ran ∙ shown,
      w'
          ∙ ap (λ n. width_after n (joined bs ++ b)) w
          ∙ sym (width_after-append c.win_w es (joined bs ++ b))
          ∙ ap (width_after c.win_w) (sym (append_assoc es (joined bs) b)),
      h'
          ∙ ap (λ n. height_after n (joined bs ++ b)) h
          ∙ sym (height_after-append c.win_h es (joined bs ++ b))
          ∙ ap (height_after c.win_h) (sym (append_assoc es (joined bs) b)),
      said'
          ∙ ap (onto (replies (joined bs ++ b))) said
          ∙ sym (replies-append es (joined bs ++ b) c.sent)
          ∙ ap (λ l. onto (replies l) c.sent) (sym (append_assoc es (joined bs) b)),
    )

set_up_lem :
    (answers : ℕ → Bool) (globals : List Interface) (ds : List (Option (List Event)))
    → connects 1000 0 answers ≡ true
    → (bind_all globals fresh).compositor ≡ true
    → (bind_all globals fresh).shm ≡ true
    → (bind_all globals fresh).wm_base ≡ true
    → set_up answers globals ds ≡ await ds (bind_all globals fresh)
unfolding set_up
set_up_lem answers globals ds on a b w = ground arith

-- The set-up under the conditions of `set_up-draws`, with what the client has answered.
pub set_up-said :
    (n : ℕ) (answers : ℕ → Bool) (globals : List Interface) (bs : List (List Event))
    (b : List Event) (rest : List (Option (List Event)))
    → n < 1000
    → answers n ≡ true
    → Announced wl_compositor globals
    → Announced wl_shm globals
    → Announced xdg_wm_base globals
    → All (All IsOpen) bs
    → All (λ es. has_configure es ≡ false) bs
    → All IsOpen b
    → has_configure b ≡ true
    → (c : Client) × (set_up answers globals (map some bs ++ (some b ∷ rest)) ≡ draws c)
      × (c.win_w ≡ width_after 800 (joined bs ++ b))
      × (c.win_h ≡ height_after 480 (joined bs ++ b))
      × (c.sent ≡ onto (replies (joined bs ++ b)) [])
set_up-said n answers globals bs b rest lt yes_n one two three opens quiet open_b conf =
    let c = bind_all globals fresh in
    let (bound_c, bound_s, bound_w, w, h, off, none_sent) = bind_all-bound globals fresh in
    let (c', shown, w', h', said) = await_lem bs b rest c off opens quiet open_b conf in
    (
      c',
      set_up_lem answers globals (map some bs ++ (some b ∷ rest))
            (connects-some 1000 0 n answers (omega arith) (omega arith) lt yes_n)
            (bound_c (inr one)) (bound_s (inr two)) (bound_w (inr three))
          ∙ shown,
      w' ∙ ap (λ v. width_after v (joined bs ++ b)) w,
      h' ∙ ap (λ v. height_after v (joined bs ++ b)) h,
      said ∙ ap (onto (replies (joined bs ++ b))) none_sent,
    )

-- If one of the first 1000 attempts to connect succeeds, the three globals are announced, and after
-- any number of dispatches without a configure there is one with a configure, none of them closing
-- the window, then the client comes to draw. The size is on each axis the last positive one that
-- the compositor has sent by then, and 800 by 480 if it has sent none.
pub set_up-draws :
    (n : ℕ) (answers : ℕ → Bool) (globals : List Interface) (bs : List (List Event))
    (b : List Event) (rest : List (Option (List Event)))
    → n < 1000
    → answers n ≡ true
    → Announced wl_compositor globals
    → Announced wl_shm globals
    → Announced xdg_wm_base globals
    → All (All IsOpen) bs
    → All (λ es. has_configure es ≡ false) bs
    → All IsOpen b
    → has_configure b ≡ true
    → (c : Client) × (set_up answers globals (map some bs ++ (some b ∷ rest)) ≡ draws c)
      × (c.win_w ≡ width_after 800 (joined bs ++ b))
      × (c.win_h ≡ height_after 480 (joined bs ++ b))
set_up-draws n answers globals bs b rest lt yes_n one two three opens quiet open_b conf =
    let (c, shown, w, h, _) =
      set_up-said n answers globals bs b rest lt yes_n one two three opens quiet open_b conf in
    (c, shown, w, h)
