-- ===== src/Can/Sessions.antt =====
-- Any sequence of what the network core, the configuration tools and the M-core do to a device.
pub mod Totals
pub mod Link
use mathlib.Core.Option
use kmm_yocto.Base.{
  ℕ, Bool, true, false, Option, none, some, List, [], ◌∷◌, is_zero, u64, length, ◌+◌, ◌^◌, ◌≤◌, ◌<◌,
  ◌≡◌, if◌then◌else◌,
}
use kmm_yocto.Can.{CanFrame, Dev, Kernel, open_dev, stop, set_mode, xmit, cb, can_max_dlen}

pub data Event : Type 0 where
  up down : Event
  configure : (bitrate ctrlmode : ℕ) → Event
  restart : Event
  transmit : CanFrame → Event
  message : List ℕ → Event

module _ (k : Kernel) where
  -- The core marks the interface as running before the open, and takes the mark back if it fails.
  unfoldable pub bring_up : Dev → Dev
  bring_up d =
      let (rc, d') = open_dev k (record d { running = true }) in
      if is_zero rc then d' else record d' { running = false }

  -- The core opens a device that is down, stops and transmits on one that is up, and lets the bit
  -- rate and the mode change only while it is down. Messages and restarts come at any time.
  unfoldable pub step : Event → Dev → Option Dev
  unfolding bring_up
  step up d = some (if d.running then d else bring_up d)
  step down d = some (if d.running then (stop (record d { running = false })).1 else d)
  step (configure bitrate ctrlmode) d =
      some (if d.running then d else record d { bitrate = bitrate; ctrlmode = ctrlmode })
  step restart d = some (set_mode true d).1
  step (transmit f) d = if d.running then xmit k f d else some d
  step (message m) d = cb k m d

  unfoldable pub run : List Event → Dev → Option Dev
  unfolding Option.bind
  run [] d = some d
  run (e ∷ es) d = Option.bind (step e d) (run es)

  -- What the kernel documents of `can_dropped_invalid_skb`: a frame that it lets through has a
  -- length of at most 8, and one that it drops is counted in `tx_dropped`.
  pub record SkbCheck : Type 0 where
    pub lets_through : (f : CanFrame) → k.invalid_skb f ≡ false → f.len ≤ can_max_dlen
    pub counts :
        (f : CanFrame) (d : Dev) → k.drop_skb f d ≡ record d { tx_dropped = u64 (d.tx_dropped + 1) }

-- The frames of an event are values of the C type.
abbrev pub IsTyped : Event → Type 0
IsTyped (transmit f) = (f.can_id < 2 ^ 32) × (length f.data_bytes ≡ 8)
IsTyped _ = Unit {0}
