-- ===== src/Keepalive/Run.antt =====
-- Any sequence of what the kernel does to a bound mcore-keepalive channel: it delivers a message,
-- or it runs the timer callback once the pending timer has expired. The module parameter may be
-- rewritten at any time, so every event carries the value of `timeout_ms` that it sees.
use kmm_yocto.Base.{ℕ, none, some, List, [], ◌∷◌, if◌then◌else◌}
use kmm_yocto.Keepalive.{Priv, time_after_eq, mcka_timeout, mcka_cb}

pub data Event : Type 0 where
  receive : (timeout_ms jiffies : ℕ) (m : List ℕ) → Event
  expire : (timeout_ms jiffies : ℕ) → Event

module _ (msecs_to_jiffies : ℕ → ℕ) where
  -- A timer that is not pending, or not yet due, does not fire; one that fires is pending no more.
  unfoldable pub fire : ℕ → ℕ → Priv → Priv
  fire timeout_ms jiffies p = elim p.timer [
    | none ↦ p
    | some due ↦
        if time_after_eq jiffies due
        then mcka_timeout msecs_to_jiffies timeout_ms jiffies (record p { timer = none })
        else p
  ]

  unfoldable pub step : Event → Priv → Priv
  step (receive timeout_ms jiffies m) p = mcka_cb msecs_to_jiffies timeout_ms jiffies m p
  step (expire timeout_ms jiffies) p = fire timeout_ms jiffies p

  unfoldable pub run : List Event → Priv → Priv
  run [] p = p
  run (e ∷ es) p = run es (step e p)
