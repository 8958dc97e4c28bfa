-- ===== src/Keepalive/Tests.antt =====
-- The keepalive watch on concrete messages: 250 jiffies a second, a timeout of 3000 ms.
use kmm_yocto.Base.{
  ℕ, ◌+◌, ◌*◌, ◌/◌, ◌≡◌, refl, ◌↔◌, true, false, some, none, List, [], ◌∷◌, arith, ℤ, pos, negsuc,
  length,
}
use kmm_yocto.Keepalive.{
  alive, lost, Priv, zeroed, bound_to, time_after_eq, deadline, well_formed, accept, mcka_cb,
  mcka_probe, show, number, a_last_rx_ms_ago,
}
use kmm_yocto.Keepalive.Wire.{wire, well_formed_iff}
use kmm_yocto.Keepalive.Run.{Event, receive, expire, fire, step, run}
use kmm_yocto.Keepalive.Counters.{beats, rejected, adjacent, reboots, skips, run_counts}
use kmm_yocto.Keepalive.Watch.{lost_iff_overdue, raised_timeout_blinds}
use kmm_yocto.Keepalive.Journal.{
  reports_alive, reports_lost, reports_back, reports_none, log_reports_each_change,
}

abbrev to_jiffies : ℕ → ℕ
to_jiffies ms = ms / 4

abbrev send_fine : List ℕ → ℤ
send_fine m = pos 0

-- The private data of a channel bound at jiffy 1000.
abbrev bound : Priv
bound = record zeroed { bound = 1000; timer = some 1750; log = bound_to 30 ∷ [] }

probe-bound : mcka_probe to_jiffies 3000 1000 true send_fine 30 ≡ (pos 0, some bound)
unfolding mcka_probe
probe-bound = refl

no_memory : mcka_probe to_jiffies 3000 1000 false send_fine 30 ≡ (negsuc 11, none)
unfolding mcka_probe
no_memory = refl

-- Two messages, a junk byte, a gap, and a restart.
abbrev session : List Event
session =
    receive 3000 1100 (wire 1000 7)
    ∷ receive 3000 1350 (wire 2000 8)
    ∷ receive 3000 1400 (0 ∷ [])
    ∷ receive 3000 1600 (wire 3000 10)
    ∷ receive 3000 1900 (wire 20 1)
    ∷ []

session_end :
    let q = run to_jiffies session bound in
    (q.state ≡ alive) × (q.received ≡ 4) × (q.bad ≡ 1) × (q.seq_gaps ≡ 1) × (q.restarts ≡ 1)
unfolding run step mcka_cb well_formed accept
session_end = (refl, refl, refl, refl, refl)

-- Nothing has come in, then a message of jiffy 1100 seen at jiffy 1350.
show_last_rx :
    (show (λ j. j * 4) 1350 a_last_rx_ms_ago bound ≡ number (negsuc 0))
    × (show (λ j. j * 4) 1350 a_last_rx_ms_ago (mcka_cb to_jiffies 3000 1100 (wire 5 1) bound)
        ≡ number (pos 1000))
unfolding show mcka_cb well_formed accept
show_last_rx = (refl, refl)

well_formed_iff_example :
    (well_formed (wire 5 1) ≡ true) ↔ ((up : ℕ) × (seq : ℕ) × (wire 5 1 ≡ wire up seq))
well_formed_iff_example = well_formed_iff (wire 5 1) (ground arith)

run_counts_example :
    let q = run to_jiffies session bound in
    (q.received ≡ length (beats session))
    × (q.bad ≡ rejected session)
    × (q.restarts ≡ adjacent reboots (beats session))
    × (q.seq_gaps ≡ adjacent skips (beats session))
unfolding mcka_probe beats rejected well_formed
run_counts_example = run_counts to_jiffies 3000 1000 send_fine 30 session refl (ground arith)

lost_iff_overdue_example :
    let q = run to_jiffies session bound in
    ((fire to_jiffies 3000 2700 q).state ≡ lost)
    ↔ (time_after_eq 2700 (deadline to_jiffies 3000 q.last_rx) ≡ true)
unfolding mcka_probe run step mcka_cb well_formed accept
lost_iff_overdue_example =
    lost_iff_overdue to_jiffies 3000 1000 send_fine 30 session 2700 refl (ground arith) refl

-- The timeout is raised to 10 s while the timer for 3 s is pending.
abbrev awake : Priv
awake = record bound { state = alive; received = 1; last_rx = 1100; timer = some 1850 }

raised_timeout_blinds_example :
    (run to_jiffies (expire 10000 1850 ∷ expire 10000 90000 ∷ []) awake).state ≡ alive
raised_timeout_blinds_example =
    raised_timeout_blinds to_jiffies 10000 1850 awake (expire 10000 90000 ∷ []) refl refl refl refl
      (ground arith)

log_reports_each_change_example :
    let q = run to_jiffies session bound in
    (reports_alive q.log ≡ 1)
    × (reports_lost q.log ≡ reports_back q.log + 0)
    × (reports_none q.log ≡ 0)
unfolding mcka_probe run step mcka_cb well_formed accept
log_reports_each_change_example =
    log_reports_each_change to_jiffies 3000 1000 send_fine 30 session refl
