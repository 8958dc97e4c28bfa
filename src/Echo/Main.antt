-- ===== src/Echo/Main.antt =====
-- main of m4/rpmsg-echo/main.c from the reset on: the start, and then the loop with the receive
-- interrupt. A message may come as soon as there is an endpoint, while the last text of the start is
-- still printed: it finds the state in which the loop is entered.
use mathlib.Core.Option
use kmm_yocto.Base.{ℕ, ◌≡◌, refl, sym, Bool, true, false, Option, none, some, List, [], ℤ}
use kmm_yocto.Bus.{Bus, dbg}
use kmm_yocto.Uart.Setup.{held}
use kmm_yocto.Uart.Text.{Drains}
use kmm_yocto.Echo
use kmm_yocto.Echo.{Echo, waiting, Event}
use kmm_yocto.Echo.Slot.{Server, server_run, view, IsValid, start-IsValid, run-view}
use kmm_yocto.Echo.Start.{Begun, stopped, ready, phase_of, is_ready, main_start, main_start-phase}

-- Where `main` has come to: it has stopped for ever, or is in its loop.
pub data Ran : Type 0 where
  halted : Bus → Ran
  serves : Bus → Echo → Ran

-- The server before anything has come.
abbrev pub empty : Server
empty = record { slot = none; doing = waiting; echoed = [] }

module _ (reg : ℕ → ℕ → ℕ) (rpmsg_lite_send : List (ℕ × List ℕ) → ℕ → List ℕ → ℤ) (fuel : ℕ) where
  -- The loop, if the start comes to it.
  unfoldable pub go_on : List Event → Begun → Option Ran
  go_on es (stopped b) = some (halted b)
  go_on es (ready b) = Option.map (serves b) (Echo.run rpmsg_lite_send es Echo.start)

  unfoldable pub main : (remote_init : Bool) → List Event → Bus → Option Ran
  unfolding Option.bind
  main remote_init es b = Option.bind (main_start reg fuel remote_init b) (go_on es)

  -- What `main` has come to after these events: it has stopped with 1 in DBG[0], or is in its loop
  -- with 3 there, and shows what the one-slot server shows after the events.
  abbrev pub Stands : (remote_init : Bool) → List Event → Ran → Type 0
  Stands remote_init es (halted b) = (remote_init ≡ false) × (held (dbg 0) b.writes ≡ some 1)
  Stands remote_init es (serves b s) =
      (remote_init ≡ true)
      × (held (dbg 0) b.writes ≡ some 3)
      × IsValid s
      × (view s ≡ server_run es empty)

  go_on-Stands :
      (remote_init : Bool) (es : List Event) (r : Begun)
      → is_ready r ≡ remote_init
      → held (dbg 0) (phase_of r).0.writes ≡ some (phase_of r).1
      → (q : Ran) × (go_on es r ≡ some q) × Stands remote_init es q
  unfolding go_on
  go_on-Stands remote_init es (stopped b) up phase = (halted b, refl, (sym up, phase))
  go_on-Stands remote_init es (ready b) up phase =
      let (s, ran, valid, shown) = run-view rpmsg_lite_send es Echo.start start-IsValid in
      (serves b s, rw ran refl, (sym up, phase, valid, shown))

  -- If the transmitter drains, then from the reset on, whatever the reset bit shows and the sends
  -- return, and for any order of interrupts and steps of the loop: if rpmsg-lite does not come up,
  -- `main` stops with 1 in DBG[0]; else it gets to its loop with 3 there, never reaches behind its
  -- buffer, and shows what an empty one-slot server shows after the same events: the message that
  -- waits with its source, the place in the loop, and every message echoed with its address.
  pub main-Stands :
      (remote_init : Bool) (es : List Event) (b : Bus)
      → Drains reg fuel
      → (q : Ran) × (main remote_init es b ≡ some q) × Stands remote_init es q
  unfolding main Option.bind
  main-Stands remote_init es b drains =
      let (r, ran, up, phase) = main_start-phase reg fuel remote_init b drains in
      let (q, on, comes) = go_on-Stands remote_init es r up phase in (q, rw ran on, comes)
