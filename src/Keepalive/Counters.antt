-- ===== src/Keepalive/Counters.antt =====
-- What the counters under /sys say of the messages that have come in.
use kmm_yocto.Base.{
  le32_at, ℕ, suc, ◌+◌, ◌^◌, ◌<◌, ◌≡◌, Bool, true, false, not, ◌&&◌, List, [], ◌∷◌, arith, ltb,
  ◌==◌, if◌then◌else◌, u32, Bool-cases, inl, inr, length, ℤ, some,
}
use kmm_yocto.Keepalive.{Priv, well_formed, accept, mcka_timeout, mcka_cb, mcka_probe, bad_message}
use kmm_yocto.Keepalive.Run.{Event, receive, expire, fire, step, run}

-- The well-formed messages of a sequence of events, as (uptime, seq), oldest first.
abbrev pub Beat : Type 0
Beat = ℕ × ℕ

unfoldable pub beats : List Event → List Beat
beats [] = []
beats (receive t j m ∷ es) =
    if well_formed m then ((le32_at m 8, le32_at m 12) ∷ beats es) else beats es
beats (expire t j ∷ es) = beats es

-- How many of the events are messages that are not well-formed.
unfoldable pub rejected : List Event → ℕ
rejected [] = 0
rejected (receive t j m ∷ es) = if well_formed m then rejected es else suc (rejected es)
rejected (expire t j ∷ es) = rejected es

abbrev pub reboots : Beat → Beat → Bool
reboots (up, seq) (up', seq') = ltb up' up

abbrev pub skips : Beat → Beat → Bool
skips (up, seq) (up', seq') = not (ltb up' up) && not (seq' == u32 (seq + 1))

-- How many neighbours in a list are related.
unfoldable pub count_pairs : (Beat → Beat → Bool) → Beat → List Beat → ℕ
count_pairs r b [] = 0
count_pairs r b (c ∷ cs) = if r b c then suc (count_pairs r c cs) else count_pairs r c cs

-- The last of a list, or a default.
abbrev pub last_or : Beat → List Beat → Beat
last_or b [] = b
last_or b (c ∷ cs) = last_or c cs

-- How many neighbours of a whole sequence are related.
abbrev pub adjacent : (Beat → Beat → Bool) → List Beat → ℕ
adjacent r [] = 0
adjacent r (b ∷ bs) = count_pairs r b bs

-- What the counters of `q` show after the messages `bs`, from counters `p` that have started.
record Tally (p q : Priv) (bs : List Beat) (junk : ℕ) : Type 0 where
  received : q.received ≡ p.received + length bs
  bad : q.bad ≡ p.bad + junk
  restarts : q.restarts ≡ p.restarts + count_pairs reboots (p.uptime_ms, p.seq) bs
  seq_gaps : q.seq_gaps ≡ p.seq_gaps + count_pairs skips (p.uptime_ms, p.seq) bs

module _ (msecs_to_jiffies : ℕ → ℕ) where
  fire_keeps :
      (t j : ℕ) (p : Priv)
      → let q = fire msecs_to_jiffies t j p in
        (q.received ≡ p.received)
        × (q.bad ≡ p.bad)
        × (q.restarts ≡ p.restarts)
        × (q.seq_gaps ≡ p.seq_gaps)
        × (q.uptime_ms ≡ p.uptime_ms)
        × (q.seq ≡ p.seq)
  unfolding fire mcka_timeout
  fire_keeps t j p = ground arith

  -- The counters have started, and have room for what is to come.
  abbrev Ready : Priv → ℕ → ℕ → Type 0
  Ready p good junk =
      (0 < p.received)
      × (p.received + good < 2 ^ 64)
      × (p.restarts < p.received)
      × (p.seq_gaps < p.received)
      × (p.bad + junk < 2 ^ 64)

  accept_counts :
      (t j : ℕ) (m : List ℕ) (p : Priv)
      → well_formed m ≡ true
      → p.received + 1 < 2 ^ 64
      → p.restarts < p.received
      → p.seq_gaps < p.received
      → let q = mcka_cb msecs_to_jiffies t j m p in
        let b : Beat = (le32_at m 8, le32_at m 12) in
        (q.received ≡ p.received + 1)
        × (q.bad ≡ p.bad)
        × (q.restarts ≡ (if reboots (p.uptime_ms, p.seq) b then p.restarts + 1 else p.restarts))
        × (q.seq_gaps ≡ (if skips (p.uptime_ms, p.seq) b then p.seq_gaps + 1 else p.seq_gaps))
        × (q.uptime_ms ≡ le32_at m 8)
        × (q.seq ≡ le32_at m 12)
  unfolding mcka_cb accept
  accept_counts t j m p good h r g = ground arith

  reject_counts :
      (t j : ℕ) (m : List ℕ) (p : Priv)
      → well_formed m ≡ false
      → p.bad + 1 < 2 ^ 64
      → mcka_cb msecs_to_jiffies t j m p
        ≡ record p { bad = p.bad + 1; log = bad_message (length m) ∷ p.log }
  unfolding mcka_cb
  reject_counts t j m p junk h = ground arith

  run-Tally :
      (es : List Event) (p : Priv)
      → Ready p (length (beats es)) (rejected es)
      → Tally p (run msecs_to_jiffies es p) (beats es) (rejected es)
  unfolding run step beats rejected count_pairs
  run-Tally [] p h = omega arith
  run-Tally (receive t j m ∷ es) p h = elim (Bool-cases (well_formed m)) [
    | inl good ↦
        ground (arith, accept_counts t j m p good, run-Tally es (mcka_cb msecs_to_jiffies t j m p))
    | inr junk ↦
        ground (arith, reject_counts t j m p junk, run-Tally es (mcka_cb msecs_to_jiffies t j m p))
  ]
  run-Tally (expire t j ∷ es) p h =
      ground (arith, fire_keeps t j p, run-Tally es (fire msecs_to_jiffies t j p))

  -- No message has come in yet.
  abbrev Fresh : Priv → Type 0
  Fresh p = (p.received ≡ 0) × (p.restarts ≡ 0) × (p.seq_gaps ≡ 0) × (p.bad < 2 ^ 64)

  first_counts :
      (t j : ℕ) (m : List ℕ) (p : Priv)
      → well_formed m ≡ true
      → Fresh p
      → let q = mcka_cb msecs_to_jiffies t j m p in
        (q.received ≡ 1)
        × (q.bad ≡ p.bad)
        × (q.restarts ≡ 0)
        × (q.seq_gaps ≡ 0)
        × (q.uptime_ms ≡ le32_at m 8)
        × (q.seq ≡ le32_at m 12)
  unfolding mcka_cb accept
  first_counts t j m p good h = ground arith

  run-Fresh :
      (es : List Event) (p : Priv)
      → Fresh p
      → length (beats es) < 2 ^ 64
      → p.bad + rejected es < 2 ^ 64
      → let q = run msecs_to_jiffies es p in
        (q.received ≡ length (beats es))
        × (q.bad ≡ p.bad + rejected es)
        × (q.restarts ≡ adjacent reboots (beats es))
        × (q.seq_gaps ≡ adjacent skips (beats es))
  unfolding run step beats rejected
  run-Fresh [] p f h k = omega arith
  run-Fresh (expire t j ∷ es) p f h k =
      ground (arith, fire_keeps t j p, run-Fresh es (fire msecs_to_jiffies t j p))
  run-Fresh (receive t j m ∷ es) p f h k = elim (Bool-cases (well_formed m)) [
    | inl good ↦
        ground (arith, first_counts t j m p good f, run-Tally es (mcka_cb msecs_to_jiffies t j m p))
    | inr junk ↦
        ground (arith, reject_counts t j m p junk, run-Fresh es (mcka_cb msecs_to_jiffies t j m p))
  ]

  probe-Fresh :
      (t j : ℕ) (send : List ℕ → ℤ) (dst : ℕ) {p : Priv}
      → (mcka_probe msecs_to_jiffies t j true send dst).1 ≡ some p
      → Fresh p × (p.bad ≡ 0)
  unfolding mcka_probe
  probe-Fresh t j send dst e = ground arith

  -- After a successful bind and any sequence of messages and timer callbacks with fewer than 2^64
  -- messages: `received` is the number of well-formed messages and `bad` that of all others;
  -- `restarts` is the number of neighbouring well-formed messages whose uptime falls, and
  -- `seq_gaps` that of neighbours whose uptime does not fall and whose second sequence number is
  -- not the first plus 1 modulo 2^32.
  pub run_counts :
      (t j : ℕ) (send : List ℕ → ℤ) (dst : ℕ) {p : Priv} (es : List Event)
      → (mcka_probe msecs_to_jiffies t j true send dst).1 ≡ some p
      → length (beats es) + rejected es < 2 ^ 64
      → let q = run msecs_to_jiffies es p in
        (q.received ≡ length (beats es))
        × (q.bad ≡ rejected es)
        × (q.restarts ≡ adjacent reboots (beats es))
        × (q.seq_gaps ≡ adjacent skips (beats es))
  run_counts t j send dst {p} es e h = ground (arith, probe-Fresh t j send dst e, run-Fresh es p)
