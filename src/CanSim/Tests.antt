-- ===== src/CanSim/Tests.antt =====
-- The simulator at concrete times.
use kmm_yocto.Base.{
  mail, ℕ, ◌+◌, ◌-◌, ◌^◌, ◌≡◌, ◌⊎◌, refl, true, false, leb, if◌then◌else◌, some, List, [], ◌∷◌,
  ◌++◌, map, arith, ℤ, pos, length, onto, replicate, u64,
}
use kmm_yocto.CanSim.{
  Wire, bytes_of, batch, put_u16be, fill, clear_pad, start, Event, interrupt, read_clock, send_next,
  run,
}
use kmm_yocto.CanSim.Clock.{sctr_now, sctr_now_lem}
use kmm_yocto.CanSim.Batch.{heard, signals, batch-heard}
use kmm_yocto.CanSim.Start.{Begun, stopped, main, Comes, main-Comes}
use kmm_yocto.Bus.{Bus, write, dbg}
use kmm_yocto.CanSim.Chain.{posted, received, signal_of, rounds}
use kmm_yocto.CanSim.Chain.Hears.{stream-heard}
use kmm_yocto.Can.{Dev, Kernel, can_state_stopped}
use kmm_yocto.Can.Sessions
use kmm_yocto.Can.Sessions.{message, bring_up}

-- A local variable that has not been written yet.
abbrev garbage : Wire
garbage = record { id = 9; dlc = 77; pad = 1 ∷ 2 ∷ 3 ∷ []; data_bytes = replicate 8 0xAA }

abbrev no_room : List (ℕ × List ℕ) → ℕ → List ℕ → ℤ
no_room out to m = pos (length out)

-- A frame of time 12345.
first_frame :
    map bytes_of (batch 12345 garbage)
    ≡ (240 ∷ 5 ∷ 0 ∷ 0 ∷ 8 ∷ 0 ∷ 0 ∷ 0 ∷ 9 ∷ 41 ∷ 1 ∷ 89 ∷ 4 ∷ 121 ∷ 4 ∷ 121 ∷ [])
      ∷ (241 ∷ 5 ∷ 0 ∷ 0 ∷ 8 ∷ 0 ∷ 0 ∷ 0 ∷ 1 ∷ 89 ∷ 9 ∷ 41 ∷ 4 ∷ 210 ∷ 4 ∷ 21 ∷ [])
      ∷ (242 ∷ 5 ∷ 0 ∷ 0 ∷ 8 ∷ 0 ∷ 0 ∷ 0 ∷ 0 ∷ 234 ∷ 1 ∷ 89 ∷ 1 ∷ 89 ∷ 22 ∷ 23 ∷ [])
      ∷ (243 ∷ 5 ∷ 0 ∷ 0 ∷ 8 ∷ 0 ∷ 0 ∷ 0 ∷ 0 ∷ 0 ∷ 0 ∷ 2 ∷ 9 ∷ 41 ∷ 13 ∷ 17 ∷ [])
      ∷ (244 ∷ 5 ∷ 0 ∷ 0 ∷ 8 ∷ 0 ∷ 0 ∷ 0 ∷ 1 ∷ 89 ∷ 1 ∷ 89 ∷ 1 ∷ 89 ∷ 0 ∷ 0 ∷ [])
      ∷ []
unfolding batch fill put_u16be clear_pad
first_frame = refl

batch-heard_example : map heard (batch 12345 garbage) ≡ signals 12345
batch-heard_example = batch-heard 12345 garbage refl refl

-- A counter that runs over its low word between the second and the third read.
abbrev ticking : ℕ → ℕ
ticking n = 2 ^ 32 - 2 + n

sctr_now_lem_example :
    (sctr_now ticking 2 0 ≡ some (ticking 1, 3)) ⊎ (sctr_now ticking 2 0 ≡ some (ticking 4, 6))
sctr_now_lem_example = sctr_now_lem ticking 0 (λ i. omega arith) (omega arith)

torn_is_read_again : sctr_now ticking 2 0 ≡ some (2 ^ 32 + 2, 6)
unfolding sctr_now
torn_is_read_again = refl

abbrev steps : List Event
steps =
    read_clock 264000 garbage
    ∷ interrupt 1024
    ∷ read_clock 600000 garbage
    ∷ send_next
    ∷ interrupt 1025
    ∷ send_next
    ∷ []

abbrev reset : Bus
reset = record { reads = 0; writes = [] }

-- Two messages before the loop, and a counter that runs over its low word at once.
main-Comes_example :
    (r : Begun) × (main ticking no_room 2 true (1024 ∷ 1025 ∷ []) steps reset ≡ some r)
    × Comes ticking no_room 0 (interrupt 1024 ∷ interrupt 1025 ∷ steps) true r
main-Comes_example =
    main-Comes ticking no_room true (1024 ∷ 1025 ∷ []) steps reset (λ i. omega arith) (omega arith)

no_link :
    main ticking no_room 2 false [] steps reset
    ≡ some (stopped (write (dbg 0) 0xDEAD (write (dbg 0) 1 reset)))
unfolding main
no_link = refl

-- A kernel whose calls all succeed, and an interface that is down.
abbrev kernel : Kernel
kernel = record {
  opened = λ d. pos 0;
  sent = λ calls m. pos 0;
  skb_left = λ calls. true;
  invalid_skb = λ f. if leb f.len 8 then false else true;
  drop_skb = λ f d. record d { tx_dropped = u64 (d.tx_dropped + 1) };
  candev_left = true;
  registered = λ d. pos 0;
}

abbrev down : Dev
down = record {
  running = false;
  clock_freq = 40000000;
  bitrate_const = 125000 ∷ 250000 ∷ 500000 ∷ 1000000 ∷ [];
  ctrlmode_supported = 3;
  ctrlmode = 0;
  bitrate = 500000;
  state = can_state_stopped;
  tx_packets = 0;
  tx_bytes = 0;
  tx_dropped = 0;
  rx_packets = 0;
  rx_bytes = 0;
  rx_dropped = 0;
  calls = [];
}

abbrev taken : List (ℕ × List ℕ) → ℕ → List ℕ → ℤ
taken out to m = pos 0

-- The second round comes late.
abbrev two_rounds : List (ℕ × Wire)
two_rounds = (264000, garbage) ∷ (700000, garbage) ∷ []

stream-heard_example :
    let d' = bring_up kernel down in
    let s' =
      run taken (map (λ _. interrupt 1024) (posted d'.calls) ++ rounds two_rounds) (start 0) in
    (d'' : Dev) × (Sessions.run kernel (map message (mail taken 1024 s'.out [])) d' ≡ some d'')
    × (map signal_of (received d''.calls)
        ≡ onto (signals 33 ++ (signals 66 ++ [])) (map signal_of (received down.calls)))
stream-heard_example =
    stream-heard kernel taken 1024 0 down two_rounds (λ calls. refl) (λ out to m. refl) refl
      (omega arith)
