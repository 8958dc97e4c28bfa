-- ===== src/CanSim/Start.antt =====
-- main of m4/can-sim/main.c from the reset on. Whether rpmsg-lite comes up is a parameter; the wait
-- for the link, which has no bound, is taken to end, and the endpoint to be created. From then on
-- the receive interrupt may come, so messages may be there before the loop is entered.
use mathlib.Core.Option
use kmm_yocto.Base.{
  ℕ, ◌+◌, ◌^◌, ◌≤◌, ◌<◌, ◌≡◌, refl, sym, ap, ◌∙◌, Bool, true, false, ◌⊎◌, inl, inr, Option, some,
  List, [], ◌∷◌, ◌++◌, map, arith, if◌then◌else◌, u32, ℤ,
}
use kmm_yocto.Bus.{Bus, write, dbg}
use kmm_yocto.Uart.Setup.{held}
use kmm_yocto.CanSim.{Sim, rx_cb, cold, enter, start, Event, interrupt, run}
use kmm_yocto.CanSim.Clock.{sctr_now, sctr_now_lem}
use kmm_yocto.CanSim.Runs.{run-append, step_hello, hellos_of, run_hellos, run_unknown}
use kmm_yocto.CanSim.Pacer.{rest, pace_all, Follows, start-run-Follows}
use kmm_yocto.CanSim.Stream.{start-Inv, run-Inv}

-- Where `main` has come to: it has stopped for ever, or is in its loop.
pub data Begun : Type 0 where
  stopped : Bus → Begun
  looping : Bus → Sim → Begun

-- The messages that come before the loop.
unfoldable pub greet : List ℕ → Sim → Sim
greet [] s = s
greet (src ∷ srcs) s = greet srcs (rx_cb src s)

zero_or_pos : (n : ℕ) → (n ≡ 0) ⊎ (0 < n)
zero_or_pos n = ground arith

module _ (counter : ℕ → ℕ) (rpmsg_lite_send : List (ℕ × List ℕ) → ℕ → List ℕ → ℤ) where
  -- `main` with the messages `srcs` before its loop, and then the events `es`; the fuel is for the
  -- reading of the clock.
  unfoldable pub main :
      (fuel : ℕ) (remote_init : Bool) (srcs : List ℕ) (es : List Event) → Bus → Option Begun
  main fuel remote_init srcs es b =
      let b₁ = write (dbg 0) 1 b in
      let b₂ = write (dbg 0) 3 (write (dbg 0) 2 b₁) in
      if remote_init
      then Option.map
          (λ (now, n).
            looping (record b₂ { reads = n })
              (run rpmsg_lite_send es (enter now (greet srcs cold))))
          (sctr_now counter fuel b₂.reads)
      else some (stopped (write (dbg 0) 0xDEAD b₁))

  -- Messages before the loop do what they do as its first events.
  greet-run :
      (now : ℕ) (srcs : List ℕ) (s : Sim)
      → run rpmsg_lite_send (map interrupt srcs) (enter now s) ≡ enter now (greet srcs s)
  unfolding run greet enter rx_cb
  greet-run now [] s = refl
  greet-run now (src ∷ srcs) s =
      ap (run rpmsg_lite_send (map interrupt srcs)) (step_hello rpmsg_lite_send src (enter now s))
      ∙ greet-run now srcs (rx_cb src s)

  -- The messages before the loop count as its first events.
  abbrev pub all_events : (srcs : List ℕ) (es : List Event) → List Event
  all_events srcs es = map interrupt srcs ++ es

  loop-run :
      (now : ℕ) (srcs : List ℕ) (es : List Event)
      → run rpmsg_lite_send es (enter now (greet srcs cold))
        ≡ run rpmsg_lite_send (all_events srcs es) (start now)
  unfolding start
  loop-run now srcs es =
      ap (run rpmsg_lite_send es) (sym (greet-run now srcs cold))
      ∙ sym (run-append rpmsg_lite_send (map interrupt srcs) es (enter now cold))

  -- What holds of the loop that was entered at time `now`, after these events: it keeps the pace, and
  -- DBG[1] counts the hellos, without which nothing is handed over.
  abbrev pub Paced : (now : ℕ) → List Event → Sim → Type 0
  Paced now es s =
      Follows now (pace_all now es rest) s
      × (u32 s.dbg_hello ≡ u32 (hellos_of es))
      × ((0 < hellos_of es) ⊎ (s.out ≡ []))

  start-Paced : (now : ℕ) (es : List Event) → Paced now es (run rpmsg_lite_send es (start now))
  unfolding start enter
  start-Paced now es =
      let counted = run_hellos rpmsg_lite_send es (start now) in
      let (k, v) = run-Inv rpmsg_lite_send now 0 es (start now) (start-Inv now) in
      (
        start-run-Follows rpmsg_lite_send now es,
        omega (arith, counted),
        elim (zero_or_pos (hellos_of es)) [
          | inl none ↦ inr (v.silent (run_unknown rpmsg_lite_send es (start now) refl none)).0
          | inr more ↦ inl more
        ],
      )

  loop-Paced :
      (now : ℕ) (srcs : List ℕ) (es : List Event)
      → Paced now (all_events srcs es) (run rpmsg_lite_send es (enter now (greet srcs cold)))
  loop-Paced now srcs es = rw (loop-run now srcs es) (start-Paced now (all_events srcs es))

  -- What `main` has come to: it has stopped with 0xDEAD in DBG[0], or is in its loop with 3 there,
  -- which was entered at the time of one of the six reads from the n-th on.
  abbrev pub Comes : (n : ℕ) → List Event → (remote_init : Bool) → Begun → Type 0
  Comes n es remote_init (stopped b) = (remote_init ≡ false) × (held (dbg 0) b.writes ≡ some 0xDEAD)
  Comes n es remote_init (looping b s) =
      (remote_init ≡ true)
      × (held (dbg 0) b.writes ≡ some 3)
      × (i : ℕ) × (n < i)
      × (i < n + 5)
      × Paced (counter i) es s

  main_at :
      (srcs : List ℕ) (es : List Event) (b : Bus) (i m : ℕ)
      → sctr_now counter 2 b.reads ≡ some (counter i, m)
      → b.reads < i
      → i < b.reads + 5
      → (r : Begun) × (main 2 true srcs es b ≡ some r) × Comes b.reads (all_events srcs es) true r
  unfolding main
  main_at srcs es b i m e lo hi =
      let b₂ = record b { writes = (dbg 0, 3) ∷ (dbg 0, 2) ∷ (dbg 0, 1) ∷ b.writes; reads = m } in
      (
        looping b₂ (run rpmsg_lite_send es (enter (counter i) (greet srcs cold))),
        rw e refl,
        (refl, refl, i, lo, hi, loop-Paced (counter i) srcs es),
      )

  -- The simulator from the reset on, after any messages before its loop and any events `es`: readings
  -- of the clock, frames handed over, interrupts. The system counter does not run backwards, and
  -- advances by less than 2^32 over six reads. If rpmsg-lite does not come up, `main` stops with
  -- 0xDEAD in DBG[0]; else it gets to its loop, with 3 there, at the time `now` of one of the reads of
  -- the counter. It then stands exactly where a pacer stands after the same events: the pacer ends a
  -- wait at a reading that is not before `now` plus one period for each round over and one more,
  -- modulo 2^64, so that no delay adds up; with a peer known it then has five frames to hand over, and
  -- the round is over after the fifth; with none it is over at once. So the deadline, the number of
  -- messages handed over and of frames left, and the peer's being known are the pacer's; `t` is 33 for
  -- each round that it has begun, modulo 2^32; the sent and the dropped frames together are those
  -- handed over, and DBG[1] is the number of the hellos, both modulo 2^32; and with no hello nothing
  -- is handed over.
  pub main-Comes :
      (remote_init : Bool) (srcs : List ℕ) (es : List Event) (b : Bus)
      → ((i : ℕ) → counter i ≤ counter (i + 1))
      → counter (b.reads + 5) < counter b.reads + 2 ^ 32
      → (r : Begun) × (main 2 remote_init srcs es b ≡ some r)
        × Comes b.reads (all_events srcs es) remote_init r
  unfolding main
  main-Comes false srcs es b mono slow =
      (stopped (write (dbg 0) 0xDEAD (write (dbg 0) 1 b)), refl, (refl, refl))
  main-Comes true srcs es b mono slow = elim (sctr_now_lem counter b.reads mono slow) [
    | inl early ↦ main_at srcs es b (b.reads + 1) (b.reads + 3) early (omega arith) (omega arith)
    | inr late ↦ main_at srcs es b (b.reads + 4) (b.reads + 6) late (omega arith) (omega arith)
  ]
