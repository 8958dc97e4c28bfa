-- ===== src/Echo/Tests.antt =====
-- The echo server with an interrupt in the middle of an answer.
use kmm_yocto.Base.{arith, true, ℕ, ◌≡◌, refl, some, List, [], ◌∷◌, ℤ, pos}
use kmm_yocto.Bus.{Bus}
use kmm_yocto.Uart.Text.{Drains}
use kmm_yocto.Echo.Main.{Ran, main, Stands, main-Stands}
use kmm_yocto.Echo.{waiting, Echo, start, Event, interrupt, proceed, run}
use kmm_yocto.Echo.Slot.{IsValid, view, server_run, start-IsValid, run-view}

abbrev send_fine : List (ℕ × List ℕ) → ℕ → List ℕ → ℤ
send_fine out to m = pos 0

abbrev script : List Event
script =
    interrupt 1024 (b'h' ∷ b'i' ∷ [])
    ∷ proceed
    ∷ interrupt 1025 (b'n' ∷ b'o' ∷ [])
    ∷ proceed
    ∷ proceed
    ∷ proceed
    ∷ interrupt 1025 (b'y' ∷ [])
    ∷ []

run-view_example :
    (s' : Echo) × (run send_fine script start ≡ some s')
    × IsValid s'
    × (view s' ≡ server_run script (view start))
run-view_example = run-view send_fine script start start-IsValid

script_served : server_run script (view start) ≡ record {
  slot = some (1025, b'y' ∷ []);
  doing = waiting;
  echoed = (1024, b'h' ∷ b'i' ∷ []) ∷ [];
}
unfolding server_run
script_served = refl

-- UART registers of a transmitter that is never full, and whose reset is done at once.
abbrev ones : ℕ → ℕ → ℕ
ones n a = 1

ones-Drains : Drains ones 1
ones-Drains n = (0, omega arith, refl)

abbrev quiet : Bus
quiet = record { reads = 0; writes = [] }

main-Stands_example :
    (q : Ran) × (main ones send_fine 1 true script quiet ≡ some q)
    × Stands ones send_fine 1 true script q
main-Stands_example = main-Stands ones send_fine 1 true script quiet ones-Drains
