-- ===== src/CanSim/Chain.antt =====
-- The simulator and the Linux driver together: meta-kart/recipes-kernel-imx/rpmsg-can/files/
-- rpmsg-can.c opens its interface, m4/can-sim/main.c takes the messages of the open for the hello
-- that it waits for, and streams to the driver. The channel between them, which is rpmsg, carries
-- the messages that a send accepts in order.
pub mod Sends
pub mod Hears
use mathlib.Core.Option
use mathlib.Core.List.{map-append, append-nil}
use kmm_yocto.Base.{
  ℕ, suc, ◌+◌, ◌≤◌, ◌≡◌, refl, sym, ap, ap₂, ◌∙◌, Bool, true, false, ◌&&◌, Option, some, List, [],
  ◌∷◌, ◌++◌, map, arith, onto, onto-append, All-append, All-map, map-onto, length, replicate, All,
  ◌==◌, if◌then◌else◌, u32, u64, ℤ, pos, is_zero,
}
use kmm_yocto.Can
use kmm_yocto.Can.{
  CanFrame, Call, rpmsg_trysend, netif_rx, Dev, Kernel, open_dev, ctrl_send, mode_of, ctrl_bytes,
  cmd_start, cmd_set_mode, cmd_set_bitrate, netif_start_queue, open_candev, can_state_error_active,
  cb, wire_size,
}
use kmm_yocto.Can.Frames.{frame_of, after_frame, cb_of_frame}
use kmm_yocto.Can.Sessions
use kmm_yocto.Can.Sessions.{message, bring_up}
use kmm_yocto.CanSim
use kmm_yocto.CanSim.{
  Wire, bytes_of, batch, period, Place, wait, Sim, rx_cb, start, Event, interrupt, read_clock,
  send_next, step, at, run,
}
use kmm_yocto.CanSim.Batch.{slots, none_set, signals, heard, batch-heard, batch_well_formed}
use kmm_yocto.CanSim.Stream.{addressed, round_lem}

-- What the driver has sent, and what it has delivered, newest first.
abbrev pub posted : List Call → List (List ℕ)
posted [] = []
posted (rpmsg_trysend m ∷ cs) = m ∷ posted cs
posted (_ ∷ cs) = posted cs

abbrev pub received : List Call → List CanFrame
received [] = []
received (netif_rx f ∷ cs) = f ∷ received cs
received (_ ∷ cs) = received cs

-- A frame read as a signal: the identifier and its four values.
abbrev pub signal_of : CanFrame → ℕ × List ℕ
signal_of f = (f.can_id, slots f.data_bytes)

-- A round: the clock is read when the deadline is over, and five frames are sent.
abbrev pub round_events : ℕ × Wire → List Event
round_events (now, w) = read_clock now w ∷ replicate 5 send_next

abbrev pub rounds : List (ℕ × Wire) → List Event
rounds [] = []
rounds (r ∷ rs) = round_events r ++ rounds rs

-- Each reading of the clock is past the deadline of its round, and the local variable has its size.
abbrev pub Due : (next : ℕ) → List (ℕ × Wire) → Type 0
Due next [] = Unit {0}
Due next ((now, w) ∷ rs) =
    (next ≤ now) × (length w.pad ≡ 3) × (length w.data_bytes ≡ 8) × Due (u64 (next + period)) rs

-- The signals of so many rounds after time `t`.
abbrev pub signals_after : (t : ℕ) → List (ℕ × Wire) → List (ℕ × List ℕ)
signals_after t [] = []
signals_after t (r ∷ rs) = signals (u32 (t + 33)) ++ signals_after (u32 (t + 33)) rs

abbrev pub sent_wires : (t : ℕ) → List (ℕ × Wire) → List Wire
sent_wires t [] = []
sent_wires t ((now, w) ∷ rs) = batch (u32 (t + 33)) w ++ sent_wires (u32 (t + 33)) rs
