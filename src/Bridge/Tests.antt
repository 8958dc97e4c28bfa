-- ===== src/Bridge/Tests.antt =====
-- Runs of the bridge over queues, and its theorems at them.
use kmm_yocto.Base.{
  ℕ, ◌<◌, ◌≡◌, refl, ap, length, Bool, true, false, Option, none, some, List, [], ◌∷◌, arith,
}
use mathlib.Core.Option
use kmm_yocto.Bridge.{
  Dev, usb_a, uart_a, usb_m, uart_m, usb_diag, Bridge, setup, loop, run, pump, read_into, sync,
  sync_baud, side, discard, finish, diag_report, show_activity,
}
use kmm_yocto.Bridge.Laws.{Carries}
use kmm_yocto.Bridge.Baud.{run_speeds, wanted}
use kmm_yocto.Bridge.Ends.{run_ends}
use kmm_yocto.Bridge.Queues.{Line, queues, queues-Finite, queues-HasSpeed, left}

abbrev brought : Dev → List ℕ
brought usb_a = 104 ∷ 105 ∷ []
brought uart_a = 111 ∷ 107 ∷ []
brought usb_m = 1 ∷ []
brought uart_m = 2 ∷ 3 ∷ 4 ∷ []
brought usb_diag = []

-- A host that has opened both ports, and asks for 921600 on the first.
abbrev opened : Line
opened = record {
  waits = brought;
  written = λ d. [];
  speeds = λ d. 0;
  asked = λ d. elim d [ usb_a ↦ 921600 | _ ↦ 0 ];
  opened = λ d. true;
  time = 100;
}

abbrev closed : Line
closed = record opened { opened = λ d. false }

abbrev begun : Bridge × Line
begun = setup (queues false) opened

-- The bridge after three calls of `loop`.
abbrev after : Line → Option (Bridge × Line)
after w = run (queues false) 9 3 (setup (queues false) w)

abbrev got : Option (Bridge × Line) → Bridge × Line
got none = begun
got (some r) = r

abbrev ended : Bridge × Line
ended = got (after opened)

ran : run (queues false) 9 3 (setup (queues false) opened) ≡ some ended
unfolding run loop sync sync_baud side pump read_into discard finish diag_report show_activity setup
    Option.bind
ran = refl

-- Each UART has been sent what its port brought, and each port what its UART brought.
crossed :
    (ended.1.written uart_a ≡ brought usb_a)
    × (ended.1.written usb_m ≡ brought uart_m)
    × (ended.1.speeds uart_a ≡ 921600)
    × (ended.1.speeds uart_m ≡ 115200)
unfolding run loop sync sync_baud side pump read_into discard finish diag_report show_activity setup
    Option.bind
crossed = (refl, refl, refl, refl)

-- What a UART brings while the port is closed is thrown away.
thrown_away : (got (after closed)).1.waits uart_m ≡ []
unfolding run loop sync sync_baud side pump read_into discard finish diag_report show_activity setup
    Option.bind
thrown_away = refl

few_a : (always : Bool) (w : Line) → w.waits ≡ brought → left (setup (queues always) w).1 uart_a < 9
unfolding setup
few_a always w e = omega (arith, ap (λ f. length (f uart_a)) e)

few_m : (always : Bool) (w : Line) → w.waits ≡ brought → left (setup (queues always) w).1 uart_m < 9
unfolding setup
few_m always w e = omega (arith, ap (λ f. length (f uart_m)) e)

abbrev next : Bridge × Line
next = got (loop (queues false) 9 ended)

ran_next : loop (queues false) 9 ended ≡ some next
unfolding run loop sync sync_baud side pump read_into discard finish diag_report show_activity setup
    Option.bind
ran_next = refl

run_speeds_example :
    (next.1.speeds uart_a ≡ wanted (ended.1.asked usb_a))
    × (next.1.speeds uart_m ≡ wanted (ended.1.asked usb_m))
run_speeds_example =
    run_speeds (queues false) (λ w. w.speeds) (queues-HasSpeed false) 9 3 opened ended next ran
      ran_next

run_ends_example :
    (r : Bridge × Line) × (run (queues false) 9 5 (setup (queues false) closed) ≡ some r)
run_ends_example =
    run_ends (queues false) left (queues-Finite false) 9 5 (setup (queues false) closed)
      (few_a false closed refl) (few_m false closed refl)
