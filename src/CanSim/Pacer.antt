-- ===== src/CanSim/Pacer.antt =====
-- The pace of the main loop, seen from its clock: rounds, of five frames each if a peer is known, one
-- for each deadline that the readings of the clock have reached.
use mathlib.Core.Path.{subst}
use kmm_yocto.Base.{
  ℕ, zero, suc, ◌+◌, ◌*◌, ◌≡◌, refl, sym, ap, Bool, true, false, List, [], ◌∷◌, arith, length, ltb,
  if◌then◌else◌, u32, u64, ℤ,
}
use kmm_yocto.CanSim
use kmm_yocto.CanSim.{
  Wire, batch, Place, wait, Sim, rx_cb, start, enter, Event, interrupt, read_clock, send_next,
  send_frame, at, step, run,
}

-- `over` rounds are over; `left` frames of the round under way are still to be handed over.
pub record Pacer : Type 0 where
  pub over : ℕ
  pub left : ℕ
  pub known : Bool
  pub handed : ℕ

-- 33 ms of the 8 MHz counter.
abbrev pub round_ticks : ℕ
round_ticks = 33 * 8000

-- How many frames a round has.
abbrev pub frames : ℕ
frames = 5

abbrev pub rest : Pacer
rest = record { over = 0; left = 0; known = false; handed = 0 }

-- The deadline of the next round, for a loop that was entered at `now`.
abbrev pub deadline : (now over : ℕ) → ℕ
deadline now over = u64 (now + (over + 1) * round_ticks)

-- A reading of the clock between two rounds.
abbrev pub due : Pacer → Pacer
due p = if p.known then record p { left = frames } else record p { over = p.over + 1 }

abbrev pub hand_over : (left : ℕ) → Pacer → Pacer
hand_over zero p = p
hand_over (suc zero) p = record p { over = p.over + 1; left = 0; handed = p.handed + 1 }
hand_over (suc (suc n)) p = record p { left = suc n; handed = p.handed + 1 }

abbrev pub read_at : (now n left : ℕ) → Pacer → Pacer
read_at now n zero p = if ltb n (deadline now p.over) then p else due p
read_at now n (suc left) p = p

abbrev pub pace : (now : ℕ) → Event → Pacer → Pacer
pace now (interrupt src) p = record p { known = true }
pace now (read_clock n w) p = read_at now n p.left p
pace now send_next p = hand_over p.left p

unfoldable pub pace_all : (now : ℕ) → List Event → Pacer → Pacer
pace_all now [] p = p
pace_all now (e ∷ es) p = pace_all now es (pace now e p)

-- How many rounds have begun.
abbrev pub begun_by : Pacer → ℕ
begun_by p = if ltb 0 p.left then p.over + 1 else p.over

abbrev pub left_at : Place → ℕ
left_at wait = 0
left_at (CanSim.send w ws) = suc (length ws)

-- The simulator keeps the pace.
pub record Follows (now : ℕ) (p : Pacer) (s : Sim) : Type 0 where
  pub paced : s.next ≡ deadline now p.over
  pub timed : s.t ≡ u32 (33 * begun_by p)
  pub counted : u32 (s.dbg_sent + s.dbg_dropped) ≡ u32 p.handed
  pub handed_over : length s.out ≡ p.handed
  pub knows : s.peer_known ≡ p.known
  pub stands : left_at s.place ≡ p.left

start-Follows : (now : ℕ) → Follows now rest (start now)
unfolding start enter
start-Follows now = record {
  paced = ap u64 (omega arith);
  timed = refl;
  counted = refl;
  handed_over = refl;
  knows = refl;
  stands = refl;
}

module _ (send : List (ℕ × List ℕ) → ℕ → List ℕ → ℤ) where
  -- The pacer that stands where the loop does.
  abbrev here : (over : ℕ) (q : Place) (known : Bool) (handed : ℕ) → Pacer
  here o q b m = record { over = o; left = left_at q; known = b; handed = m }

  at-Follows :
      (now : ℕ) (q : Place) (e : Event) (o m : ℕ) (b : Bool) (s : Sim)
      → s.place ≡ q
      → Follows now (here o q b m) s
      → Follows now (pace now e (here o q b m)) (at send q e s)
  unfolding at rx_cb send_frame batch
  at-Follows now wait (interrupt src) o m b s h v = ground arith
  at-Follows now wait (read_clock n w) o m b s h v = ground arith
  at-Follows now wait send_next o m b s h v = v
  at-Follows now (CanSim.send x []) (interrupt src) o m b s h v = ground arith
  at-Follows now (CanSim.send x []) (read_clock n w) o m b s h v = v
  at-Follows now (CanSim.send x []) send_next o m b s h v = ground arith
  at-Follows now (CanSim.send x (y ∷ ys)) (interrupt src) o m b s h v = ground arith
  at-Follows now (CanSim.send x (y ∷ ys)) (read_clock n w) o m b s h v = v
  at-Follows now (CanSim.send x (y ∷ ys)) send_next o m b s h v = ground arith

  step-Follows :
      (now : ℕ) (e : Event) (p : Pacer) (s : Sim)
      → Follows now p s
      → Follows now (pace now e p) (step send e s)
  unfolding step
  step-Follows now e p s v =
      let same : here p.over s.place p.known p.handed ≡ p =
        ap (λ l. record p { left = l }) v.stands in
      subst (λ r. Follows now (pace now e r) (at send s.place e s)) same
        (at-Follows now s.place e p.over p.handed p.known s refl
          (subst (λ r. Follows now r s) (sym same) v))

  pub run-Follows :
      (now : ℕ) (es : List Event) (p : Pacer) (s : Sim)
      → Follows now p s
      → Follows now (pace_all now es p) (run send es s)
  unfolding run pace_all
  run-Follows now [] p s v = v
  run-Follows now (e ∷ es) p s v =
      run-Follows now es (pace now e p) (step send e s) (step-Follows now e p s v)

  pub start-run-Follows :
      (now : ℕ) (es : List Event) → Follows now (pace_all now es rest) (run send es (start now))
  start-run-Follows now es = run-Follows now es rest (start now) (start-Follows now)
