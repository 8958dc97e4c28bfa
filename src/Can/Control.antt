-- ===== src/Can/Control.antt =====
-- Control messages: what bringing the interface up and down tells the M-core, and what the
-- M-core's state reports do to the device.
use kmm_yocto.Base.{
  ℕ, ◌/◌, ◌%◌, ◌^◌, ◌≤◌, ◌<◌, ◌≡◌, ◌≢◌, refl, not, ◌&&◌, some, List, ◌∷◌, arith, length, get_or,
  of_le32-le32, leb, ◌==◌, is_zero, pos, if◌then◌else◌,
}
use kmm_yocto.Can.{
  open_candev, can_bus_off, netif_start_queue, rpmsg_trysend, Dev, Kernel, ctrl_bytes, ctrl_size,
  wire_size, ctrl_magic, cmd_set_bitrate, cmd_set_mode, cmd_start, evt_state, can_state_bus_off,
  can_state_error_active, can_state_stopped, loopback, listen_only, mode_of, ctrl_send, open_dev,
  stop, rx_ctrl, cb,
}

-- Bit 0 of the mode byte is the listen-only mode, bit 1 the loopback mode, and no other bit is set.
pub mode_of_bits :
    (ctrlmode : ℕ)
    → ((mode_of ctrlmode % 2 == 1) ≡ listen_only ctrlmode)
      × ((mode_of ctrlmode / 2 % 2 == 1) ≡ loopback ctrlmode)
      × (mode_of ctrlmode < 4)
unfolding mode_of
mode_of_bits ctrlmode = ground arith

-- If `open_candev` accepts, opening hands the channel the bit rate, the mode and the start command,
-- in this order, before it starts the queue, and returns 0 with the device error-active, whatever
-- becomes of the three messages. If it refuses, its error is returned and nothing else happens.
pub open_dev_lem :
    (k : Kernel) (d : Dev)
    → open_dev k d ≡ (
        if is_zero (k.opened d)
        then (
          pos 0,
          record d {
            state = can_state_error_active;
            calls =
                netif_start_queue
                ∷ rpmsg_trysend (ctrl_bytes cmd_start 0 0)
                ∷ rpmsg_trysend (ctrl_bytes cmd_set_mode (mode_of d.ctrlmode) 0)
                ∷ rpmsg_trysend (ctrl_bytes cmd_set_bitrate 0 d.bitrate)
                ∷ open_candev
                ∷ d.calls;
          },
        )
        else (k.opened d, record d { calls = open_candev ∷ d.calls }))
unfolding open_dev ctrl_send
open_dev_lem k d = refl

-- The device after a report of state `arg`.
abbrev pub after_report : ℕ → Dev → Dev
after_report arg d = record d {
  state = arg;
  calls =
      if (arg == can_state_bus_off) && not (d.state == can_state_bus_off)
      then can_bus_off ∷ d.calls
      else d.calls;
}

-- A report of a state up to bus-off sets the state, and calls `can_bus_off` exactly when the device
-- was not bus-off and now is. A report of any other state changes nothing.
pub cb-report :
    (k : Kernel) (flags arg : ℕ) (d : Dev)
    → arg < 2 ^ 32
    → cb k (ctrl_bytes evt_state flags arg) d
      ≡ some (if leb arg can_state_bus_off then after_report arg d else d)
unfolding cb rx_ctrl
cb-report k flags arg d h = ground (arith, of_le32-le32 arg h)

-- A message that is neither 16 nor 8 bytes long, one of 8 bytes without the magic byte, and one
-- with another command than a state report all leave the device as it is.
pub cb_ignores :
    (k : Kernel) (m : List ℕ) (d : Dev)
    → length m ≢ wire_size
    → ((length m ≡ ctrl_size) → (get_or m 0 0 ≡ ctrl_magic) → (get_or m 1 0 ≢ evt_state))
    → cb k m d ≡ some d
unfolding cb rx_ctrl
cb_ignores k m d h c = ground arith

-- The state reports are taken whether the interface is up or not: on a device that has been
-- stopped, a report of a state below stopped overwrites the stopped state and, for bus-off, calls
-- `can_bus_off`.
pub report_after_stop :
    (k : Kernel) (flags arg : ℕ) (d : Dev)
    → arg ≤ can_state_bus_off
    → cb k (ctrl_bytes evt_state flags arg) (stop d).1 ≡ some (after_report arg (stop d).1)
      × (after_report arg (stop d).1).state ≢ can_state_stopped
unfolding cb rx_ctrl stop ctrl_send
report_after_stop k flags arg d h = ground arith
