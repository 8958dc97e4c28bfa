-- ===== src/Keepalive/Journal.antt =====
-- What the kernel log says: each change of state is reported once.
use kmm_yocto.Base.{ℕ, suc, ◌+◌, ◌≡◌, true, List, [], ◌∷◌, some, arith, ℤ, if◌then◌else◌}
use kmm_yocto.Keepalive.{
  State, waiting, lost, Line, is_lost, none_after_bind, is_alive, is_back, Priv, mcka_timeout,
  accept, mcka_cb, mcka_probe,
}
use kmm_yocto.Keepalive.Run.{Event, receive, expire, fire, step, run}

-- How often each of the four state reports stands in the log.
abbrev pub reports_alive : List Line → ℕ
reports_alive [] = 0
reports_alive (is_alive s u ∷ l) = suc (reports_alive l)
reports_alive (_ ∷ l) = reports_alive l

abbrev pub reports_lost : List Line → ℕ
reports_lost [] = 0
reports_lost (is_lost s ∷ l) = suc (reports_lost l)
reports_lost (_ ∷ l) = reports_lost l

abbrev pub reports_back : List Line → ℕ
reports_back [] = 0
reports_back (is_back s u ∷ l) = suc (reports_back l)
reports_back (_ ∷ l) = reports_back l

abbrev pub reports_none : List Line → ℕ
reports_none [] = 0
reports_none (none_after_bind ∷ l) = suc (reports_none l)
reports_none (_ ∷ l) = reports_none l

abbrev pub if_lost : State → ℕ
if_lost lost = 1
if_lost _ = 0

abbrev pub unless_waiting : State → ℕ
unless_waiting waiting = 0
unless_waiting _ = 1

-- The log and the state agree.
pub record Agrees (p : Priv) : Type 0 where
  pub alive_once : reports_alive p.log ≡ unless_waiting p.state
  pub lost_then_back : reports_lost p.log ≡ reports_back p.log + if_lost p.state
  pub none_once : reports_none p.log ≡ (if p.warned_waiting then 1 else 0)

module _ (msecs_to_jiffies : ℕ → ℕ) where
  step-Agrees : (e : Event) (p : Priv) → Agrees p → Agrees (step msecs_to_jiffies e p)
  unfolding step fire mcka_timeout mcka_cb accept
  step-Agrees (receive t j m) p v = ground arith
  step-Agrees (expire t j) p v = ground arith

  run-Agrees : (es : List Event) (p : Priv) → Agrees p → Agrees (run msecs_to_jiffies es p)
  unfolding run
  run-Agrees [] p v = v
  run-Agrees (e ∷ es) p v = run-Agrees es (step msecs_to_jiffies e p) (step-Agrees e p v)

  -- After a successful bind and any events, also under changes of `timeout_ms`: the log has one
  -- "alive" line if the state has left waiting and none before, one "lost" line for each "back"
  -- line and one more exactly while the state is lost, and at most one "no keepalive" line.
  pub log_reports_each_change :
      (t j : ℕ) (send : List ℕ → ℤ) (dst : ℕ) {p : Priv} (es : List Event)
      → (mcka_probe msecs_to_jiffies t j true send dst).1 ≡ some p
      → let q = run msecs_to_jiffies es p in
        (reports_alive q.log ≡ unless_waiting q.state)
        × (reports_lost q.log ≡ reports_back q.log + if_lost q.state)
        × (reports_none q.log ≡ (if q.warned_waiting then 1 else 0))
  unfolding mcka_probe
  log_reports_each_change t j send dst {p} es e = ground (arith, run-Agrees es p (ground arith))
