-- ===== src/Keepalive.antt =====
-- meta-kart/recipes-kernel-imx/mcore-keepalive/files/mcore-keepalive.c: the kernel module that
-- watches the M-core's keepalive messages. Every handler takes the private data and returns it
-- anew. `jiffies`, the module parameter `timeout_ms` and `msecs_to_jiffies` are arguments. The
-- spinlock makes each handler one step.
pub mod Wire
pub mod Run
pub mod Counters
pub mod Watch
pub mod Journal
mod Tests
use Prim.Native.String.{String}
use kmm_yocto.Base.{
  le16_at, le32_at, ℕ, ◌+◌, ◌-◌, ◌%◌, ◌^◌, Bool, true, false, not, ◌&&◌, Option, none, some, List,
  [], ◌∷◌, ltb, ◌==◌, if◌then◌else◌, u32, u64, length, get_or, of_le16, of_le32, ℤ, pos, negsuc,
  is_zero,
}

-- `enum mcka_state`
pub data State : Type 0 where
  waiting alive lost : State

-- The lines that the handlers write to the kernel log.
pub data Line : Type 0 where
  is_lost : ℕ → Line
  none_after_bind : Line
  bad_message : ℕ → Line
  is_alive : ℕ → ℕ → Line
  is_back : ℕ → ℕ → Line
  restarted : ℕ → ℕ → Line
  hello_failed : ℤ → Line
  bound_to : ℕ → Line
  removed : Line

-- `struct mcka_priv`. `timer` is the expiry of the pending timer, and `log` is newest first.
pub record Priv : Type 0 where
  pub state : State
  pub warned_waiting : Bool
  pub seq : ℕ
  pub uptime_ms : ℕ
  pub received : ℕ
  pub seq_gaps : ℕ
  pub restarts : ℕ
  pub bad : ℕ
  pub last_rx : ℕ
  pub bound : ℕ
  pub timer : Option ℕ
  pub log : List Line

abbrev pub mcka_magic : ℕ
mcka_magic = 0x414B434D

abbrev pub mcka_proto : ℕ
mcka_proto = 1

-- `sizeof(struct mcka_msg)`
abbrev pub msg_size : ℕ
msg_size = 16

-- `time_after_eq(a, b)`: the difference, as a signed long, is not negative.
abbrev pub time_after_eq : ℕ → ℕ → Bool
time_after_eq a b = ltb ((a + 2 ^ 64 - b) % 2 ^ 64) (2 ^ 63)

-- The test of `mcka_cb` that a message has the right form.
unfoldable pub well_formed : List ℕ → Bool
well_formed m =
    (length m == msg_size)
    && ((le32_at m 0 == mcka_magic) && ((le16_at m 4 == mcka_proto) && (le16_at m 6 == msg_size)))

-- The private data just after `devm_kzalloc`.
abbrev pub zeroed : Priv
zeroed = record {
  state = waiting;
  warned_waiting = false;
  seq = 0;
  uptime_ms = 0;
  received = 0;
  seq_gaps = 0;
  restarts = 0;
  bad = 0;
  last_rx = 0;
  bound = 0;
  timer = none;
  log = [];
}

abbrev pub hello : List ℕ
hello = b'h' ∷ b'i' ∷ []

abbrev pub enomem : ℤ
enomem = negsuc 11

-- `limit` and the timer's expiry are `unsigned long` sums.
abbrev pub deadline : (ℕ → ℕ) → ℕ → ℕ → ℕ
deadline msecs_to_jiffies timeout_ms from = u64 (from + msecs_to_jiffies timeout_ms)

-- The log lines of a good message: the state before it, then a restart.
abbrev pub note_state : State → ℕ → ℕ → List Line → List Line
note_state waiting seq up log = is_alive seq up ∷ log
note_state alive seq up log = log
note_state lost seq up log = is_back seq up ∷ log

module _ (msecs_to_jiffies : ℕ → ℕ) (timeout_ms : ℕ) (jiffies : ℕ) where
  -- `mcka_timeout`
  unfoldable pub mcka_timeout : Priv → Priv
  mcka_timeout p = elim p.state [
    | alive ↦
        if time_after_eq jiffies (deadline msecs_to_jiffies timeout_ms p.last_rx)
        then record p { state = lost; log = is_lost p.seq ∷ p.log }
        else p
    | waiting ↦
        if not p.warned_waiting
        then record p { warned_waiting = true; log = none_after_bind ∷ p.log }
        else p
    | lost ↦ p
  ]

  -- The part of `mcka_cb` under the lock, for a well-formed message, and its log lines.
  unfoldable pub accept : ℕ → ℕ → Priv → Priv
  accept seq up p =
      let counted = not (p.received == 0) in
      let again = counted && ltb up p.uptime_ms in
      let gap = counted && (not (ltb up p.uptime_ms) && not (seq == u32 (p.seq + 1))) in
      record p {
        state = alive;
        seq = seq;
        uptime_ms = up;
        received = u64 (p.received + 1);
        seq_gaps = if gap then u64 (p.seq_gaps + 1) else p.seq_gaps;
        restarts = if again then u64 (p.restarts + 1) else p.restarts;
        last_rx = jiffies;
        timer = some (deadline msecs_to_jiffies timeout_ms jiffies);
        log =
            let noted = note_state p.state seq up p.log in
            if again then restarted p.uptime_ms up ∷ noted else noted;
      }

  -- `mcka_cb`
  unfoldable pub mcka_cb : List ℕ → Priv → Priv
  mcka_cb m p =
      if well_formed m
      then accept (le32_at m 12) (le32_at m 8) p
      else record p { bad = u64 (p.bad + 1); log = bad_message (length m) ∷ p.log }

  -- `mcka_probe`: `memory` says whether the allocation succeeds, `rpmsg_send`
  -- gives the result of a send: the hello is "hi".
  unfoldable pub mcka_probe : Bool → (List ℕ → ℤ) → ℕ → ℤ × Option Priv
  mcka_probe memory rpmsg_send dst =
      if memory
      then (
        pos 0,
        some (record zeroed {
          bound = jiffies;
          timer = some (deadline msecs_to_jiffies timeout_ms jiffies);
          log =
              bound_to dst
              ∷ (if is_zero (rpmsg_send hello) then [] else (hello_failed (rpmsg_send hello) ∷ []));
        }),
      )
      else (enomem, none)

-- `mcka_remove`: `timer_delete_sync` leaves no timer pending.
unfoldable pub mcka_remove : Priv → Priv
mcka_remove p = record p { timer = none; log = removed ∷ p.log }

-- The attributes under /sys, and what reading one prints.
pub data Attr : Type 0 where
  a_state a_seq a_uptime_ms a_received a_seq_gaps a_restarts a_bad a_last_rx_ms_ago : Attr

pub data Shown : Type 0 where
  text : String → Shown
  number : ℤ → Shown

abbrev pub mcka_state_names : State → String
mcka_state_names waiting = "waiting"
mcka_state_names alive = "alive"
mcka_state_names lost = "lost"

-- `MCKA_SHOW`; `jiffies - p->last_rx` wraps as an unsigned long.
unfoldable pub show : (jiffies_to_msecs : ℕ → ℕ) (jiffies : ℕ) → Attr → Priv → Shown
show to_ms jiffies a_state p = text (mcka_state_names p.state)
show to_ms jiffies a_seq p = number (pos p.seq)
show to_ms jiffies a_uptime_ms p = number (pos p.uptime_ms)
show to_ms jiffies a_received p = number (pos p.received)
show to_ms jiffies a_seq_gaps p = number (pos p.seq_gaps)
show to_ms jiffies a_restarts p = number (pos p.restarts)
show to_ms jiffies a_bad p = number (pos p.bad)
show to_ms jiffies a_last_rx_ms_ago p =
    if p.received == 0
    then number (negsuc 0)
    else number (pos (to_ms ((jiffies + 2 ^ 64 - p.last_rx) % 2 ^ 64)))
