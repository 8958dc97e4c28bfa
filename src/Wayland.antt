-- ===== src/Wayland.antt =====
-- What meta-kart/recipes-graphics/splash-wl/files/splash-wl.c and
-- meta-kart/recipes-graphics/wl-image-view/files/wl-image-view.c do the same way around the
-- drawing: connect, bind the globals, wait for the first configure, and stay while the window is on
-- the screen. The compositor is a parameter: which
-- attempts to connect succeed, the globals it announces, and the events of each dispatch.
pub mod Globals
pub mod Setup
pub mod Resident
mod Tests
use kmm_yocto.Base.{
  ℕ, zero, suc, ◌+◌, Bool, true, false, not, ◌&&◌, Option, none, some, List, [], ◌∷◌, if◌then◌else◌,
  ℤ, pos, negsuc,
}

-- The name of a global, compared with the three that the clients want.
pub data Interface : Type 0 where
  wl_compositor wl_shm xdg_wm_base unrelated : Interface

-- What the compositor sends. `bounds` stands for the events with an empty handler.
pub data Event : Type 0 where
  ping : (serial : ℕ) → Event
  configure : (serial : ℕ) → Event
  toplevel : (w h : ℤ) → Event
  close bounds : Event

pub data Answer : Type 0 where
  pong ack : (serial : ℕ) → Answer

-- The statics; `sent` is newest first.
pub record Client : Type 0 where
  pub compositor : Bool
  pub shm : Bool
  pub wm_base : Bool
  pub win_w : ℕ
  pub win_h : ℕ
  pub configured : Bool
  pub sent : List Answer

abbrev pub fallback_w : ℕ
fallback_w = 800

abbrev pub fallback_h : ℕ
fallback_h = 480

abbrev pub fresh : Client
fresh = record {
  compositor = false;
  shm = false;
  wm_base = false;
  win_w = fallback_w;
  win_h = fallback_h;
  configured = false;
  sent = [];
}

-- `registry_global`
unfoldable pub registry_global : Interface → Client → Client
registry_global wl_compositor c = record c { compositor = true }
registry_global wl_shm c = record c { shm = true }
registry_global xdg_wm_base c = record c { wm_base = true }
registry_global unrelated c = c

-- `if (w > 0) win_w = w;`
abbrev pub positive_or : ℕ → ℤ → ℕ
positive_or old (pos zero) = old
positive_or old (pos (suc n)) = suc n
positive_or old (negsuc n) = old

-- `wm_ping`, `xdg_configure`, `top_configure` and `top_close`, which exits: `none`.
unfoldable pub handle : Event → Client → Option Client
handle (ping serial) c = some (record c { sent = pong serial ∷ c.sent })
handle (configure serial) c = some (record c { configured = true; sent = ack serial ∷ c.sent })
handle (toplevel w h) c =
    some (record c { win_w = positive_or c.win_w w; win_h = positive_or c.win_h h })
handle close c = none
handle bounds c = some c

-- The events of one dispatch.
unfoldable pub dispatch : List Event → Client → Option Client
dispatch [] c = some c
dispatch (e ∷ es) c = elim (handle e c) [ none ↦ none | some c' ↦ dispatch es c' ]

-- How a client gets on: it has exited with a code, waits for ever, or is about to draw.
pub data Outcome : Type 0 where
  exited : ℕ → Outcome
  waits : Outcome
  draws : Client → Outcome

-- `while (!configured) if (wl_display_dispatch(dpy) < 0) return 1;` with what each dispatch brings;
-- `none` is a failure.
unfoldable pub await : List (Option (List Event)) → Client → Outcome
await [] c = if c.configured then draws c else waits
await (none ∷ ds) c = if c.configured then draws c else exited 1
await (some es ∷ ds) c =
    let next : Outcome = elim (dispatch es c) [ none ↦ exited 0 | some c' ↦ await ds c' ] in
    if c.configured then draws c else next

-- `for (tries = 0; tries < 1000 && !dpy; tries++)`, from attempt `n` on.
unfoldable pub connects : (left n : ℕ) → (ℕ → Bool) → Bool
connects zero n answers = false
connects (suc left) n answers =
    let later = connects left (n + 1) answers in if answers n then true else later

unfoldable pub bind_all : List Interface → Client → Client
bind_all [] c = c
bind_all (i ∷ is) c = bind_all is (registry_global i c)

-- `main` up to the drawing.
unfoldable pub set_up :
    (answers : ℕ → Bool) (globals : List Interface) (ds : List (Option (List Event))) → Outcome
set_up answers globals ds =
    let c = bind_all globals fresh in
    if connects 1000 0 answers
    then (if c.compositor && (c.shm && c.wm_base) then await ds c else exited 1)
    else exited 1

-- `while (wl_display_dispatch(dpy) >= 0) ;` with the window on the screen, after which `main`
-- returns 0. A later size changes the statics, but nothing is drawn again.
unfoldable pub resident : List (Option (List Event)) → Client → Option Client
resident [] c = some c
resident (none ∷ ds) c = none
resident (some es ∷ ds) c = elim (dispatch es c) [ none ↦ none | some c' ↦ resident ds c' ]

-- The client as it was when it drew, and as it is now; or how it has come to its end.
pub data Life : Type 0 where
  over : ℕ → Life
  unseen : Life
  seen : (drawn now : Client) → Life

-- `main` with a buffer that can be made: the dispatches `ds` up to the drawing, and `later` after it.
unfoldable pub life :
    (answers : ℕ → Bool) (globals : List Interface) (ds later : List (Option (List Event))) → Life
life answers globals ds later = elim (set_up answers globals ds) [
  | exited code ↦ over code
  | waits ↦ unseen
  | draws c ↦ elim (resident later c) [ none ↦ over 0 | some c' ↦ seen c c' ]
]
