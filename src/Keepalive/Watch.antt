-- ===== src/Keepalive/Watch.antt =====
-- When the module calls the M-core lost.
use kmm_yocto.Base.{
  ℕ, ◌≡◌, refl, ◌↔◌, true, false, none, some, List, [], ◌∷◌, arith, All, ℤ, if◌then◌else◌,
}
use kmm_yocto.Keepalive.{
  waiting, alive, lost, Priv, time_after_eq, deadline, mcka_timeout, accept, mcka_cb, mcka_probe,
}
use kmm_yocto.Keepalive.Run.{Event, receive, expire, fire, step, run}

-- The event sees this value of the module parameter.
abbrev pub Sees : ℕ → Event → Type 0
Sees t (receive t' j m) = t' ≡ t
Sees t (expire t' j) = t' ≡ t

-- The event is a timer callback: no message comes in.
abbrev pub IsSilent : Event → Type 0
IsSilent (receive t j m) = ⊥
IsSilent (expire t j) = Unit {0}

module _ (msecs_to_jiffies : ℕ → ℕ) where
  -- What holds between events while `timeout_ms` stays as it is.
  pub record Inv (t : ℕ) (p : Priv) : Type 0 where
    pub watched : p.state ≡ alive → p.timer ≡ some (deadline msecs_to_jiffies t p.last_rx)
    pub expected :
        p.state ≡ waiting
        → p.warned_waiting ≡ false
        → p.timer ≡ some (deadline msecs_to_jiffies t p.bound)
    pub quiet : p.state ≡ waiting → p.warned_waiting ≡ true → p.timer ≡ none
    pub given_up : p.state ≡ lost → p.timer ≡ none

  pub step-Inv :
      (t : ℕ) (e : Event) (p : Priv) → Sees t e → Inv t p → Inv t (step msecs_to_jiffies e p)
  unfolding step fire mcka_timeout mcka_cb accept
  step-Inv t (receive t' j m) p s v = ground arith
  step-Inv t (expire t' j) p s v = ground arith

  pub run-Inv :
      (t : ℕ) (es : List Event) (p : Priv)
      → All (Sees t) es
      → Inv t p
      → Inv t (run msecs_to_jiffies es p)
  unfolding run
  run-Inv t [] p s v = v
  run-Inv t (e ∷ es) p s v = run-Inv t es (step msecs_to_jiffies e p) s.1 (step-Inv t e p s.0 v)

  probe-Inv :
      (t j : ℕ) (send : List ℕ → ℤ) (dst : ℕ) {p : Priv}
      → (mcka_probe msecs_to_jiffies t j true send dst).1 ≡ some p
      → Inv t p
  unfolding mcka_probe
  probe-Inv t j send dst e = ground arith

  fire_of_watched :
      (t j : ℕ) (p : Priv)
      → Inv t p
      → p.state ≡ alive
      → (fire msecs_to_jiffies t j p).state
        ≡ (if time_after_eq j (deadline msecs_to_jiffies t p.last_rx) then lost else alive)
  unfolding fire mcka_timeout
  fire_of_watched t j p v a = ground arith

  -- Bind the channel, then let any events pass under one value of `timeout_ms`. If the state is
  -- then alive, running the timer turns it to lost exactly when the time of the last message plus
  -- the timeout has come, by the wrapping comparison of jiffies: neither before, nor never.
  pub lost_iff_overdue :
      (t j₀ : ℕ) (send : List ℕ → ℤ) (dst : ℕ) {p : Priv} (es : List Event) (j : ℕ)
      → (mcka_probe msecs_to_jiffies t j₀ true send dst).1 ≡ some p
      → All (Sees t) es
      → (run msecs_to_jiffies es p).state ≡ alive
      → let q = run msecs_to_jiffies es p in
        ((fire msecs_to_jiffies t j q).state ≡ lost)
        ↔ (time_after_eq j (deadline msecs_to_jiffies t q.last_rx) ≡ true)
  lost_iff_overdue t j₀ send dst {p} es j e s a = ground (
    arith,
    fire_of_watched t j (run msecs_to_jiffies es p) (run-Inv t es p s (probe-Inv t j₀ send dst e))
        a,
  )

  -- With no timer pending and no message, nothing changes any more.
  silent-run :
      (es : List Event) (p : Priv)
      → All IsSilent es
      → p.timer ≡ none
      → run msecs_to_jiffies es p ≡ p
  unfolding run step fire
  silent-run [] p s n = refl
  silent-run (receive t j m ∷ es) p s n = absurd s.0
  silent-run (expire t j ∷ es) p s n = ground (arith, silent-run es p s.1 n)

  -- If `timeout_ms` is raised while a timer is pending, the timer still fires at its old expiry.
  -- The handler then finds the longer limit not yet reached, leaves the state alive, and sets no
  -- new timer: from there on no timer callback ever turns the state to lost.
  pub raised_timeout_blinds :
      (t j : ℕ) (p : Priv) {due : ℕ} (es : List Event)
      → p.state ≡ alive
      → p.timer ≡ some due
      → time_after_eq j due ≡ true
      → time_after_eq j (deadline msecs_to_jiffies t p.last_rx) ≡ false
      → All IsSilent es
      → (run msecs_to_jiffies (expire t j ∷ es) p).state ≡ alive
  unfolding run step fire mcka_timeout
  raised_timeout_blinds t j p es a w d l s =
      ground (arith, silent-run es (record p { timer = none }) s refl)
