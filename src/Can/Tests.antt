-- ===== src/Can/Tests.antt =====
-- The driver on a small session, with a kernel whose calls all succeed but an open in listen-only
-- mode.
use kmm_yocto.Base.{
  ℕ, ◌+◌, ◌≡◌, ◌≢◌, refl, true, false, some, List, [], ◌∷◌, arith, pos, if◌then◌else◌, u64, leb,
  replicate, copy,
}
use kmm_yocto.Can.{
  CanFrame, Dev, Kernel, ctrl_bytes, evt_state, xmit, cb, rx_ctrl, rx_frame, stop, ctrl_send, probe,
  open_dev, set_mode, consume_skb, alloc_can_skb, rpmsg_trysend, netif_rx, alloc_candev,
  register_candev, can_state_stopped,
}
use kmm_yocto.Can.Frames.{IsFrame, padded, frame_bytes, cb-xmit}
use kmm_yocto.Can.Control.{report_after_stop, after_report}
use kmm_yocto.Can.Sessions.{
  Event, up, down, configure, restart, transmit, message, step, run, SkbCheck,
}
use kmm_yocto.Can.Sessions.Totals.{frames_in, frames_out, run_counts_frames}
use kmm_yocto.Can.Sessions.Link.{told_to_run, Orderly, run-InStep}

abbrev kind_kernel : Kernel
kind_kernel = record {
  opened = λ d. pos 0;
  sent = λ calls m. pos 0;
  skb_left = λ calls. true;
  invalid_skb = λ f. if leb f.len 8 then false else true;
  drop_skb = λ f d. record d { tx_dropped = u64 (d.tx_dropped + 1) };
  candev_left = true;
  registered = λ d. pos 0;
}

kind_kernel-SkbCheck : SkbCheck kind_kernel
kind_kernel-SkbCheck = record { lets_through = λ f h. ground arith; counts = λ f d. refl }

-- A standard frame with identifier 0x5F0 and three bytes; the rest of the buffer is stale.
abbrev frame : CanFrame
frame = record { can_id = 0x5F0; len = 3; data_bytes = 1 ∷ 2 ∷ 3 ∷ 9 ∷ 9 ∷ 9 ∷ 9 ∷ 9 ∷ [] }

abbrev fresh : Dev
fresh = record {
  running = false;
  clock_freq = 40000000;
  bitrate_const = 125000 ∷ 250000 ∷ 500000 ∷ 1000000 ∷ [];
  ctrlmode_supported = 3;
  ctrlmode = 0;
  bitrate = 500000;
  state = can_state_stopped;
  tx_packets = 0;
  tx_bytes = 0;
  tx_dropped = 0;
  rx_packets = 0;
  rx_bytes = 0;
  rx_dropped = 0;
  calls = register_candev ∷ alloc_candev ∷ [];
}

abbrev going : Dev
going = record fresh { running = true }

frame-IsFrame : IsFrame frame
frame-IsFrame = omega arith

probe-fresh : probe kind_kernel ≡ (pos 0, some fresh)
unfolding probe
probe-fresh = refl

frame_on_the_wire :
    frame_bytes frame ≡ 0xF0 ∷ 0x05 ∷ 0 ∷ 0 ∷ 3 ∷ 0 ∷ 0 ∷ 0 ∷ 1 ∷ 2 ∷ 3 ∷ 0 ∷ 0 ∷ 0 ∷ 0 ∷ 0 ∷ []
frame_on_the_wire = refl

-- A message that claims 200 bytes.
abbrev greedy : List ℕ
greedy = 1 ∷ 0 ∷ 0 ∷ 0 ∷ 200 ∷ 0 ∷ 0 ∷ 0 ∷ replicate 8 7

cb-xmit_example :
    (m : List ℕ) × (a' : Dev) × (b' : Dev) × (xmit kind_kernel frame going ≡ some a')
    × (a'.calls ≡ consume_skb ∷ rpmsg_trysend m ∷ going.calls)
    × (cb kind_kernel m going ≡ some b')
    × (b'.calls
        ≡ netif_rx (record frame { data_bytes = padded frame }) ∷ alloc_can_skb ∷ going.calls)
cb-xmit_example = cb-xmit kind_kernel kind_kernel frame going going refl frame-IsFrame refl refl

report_after_stop_example :
    (cb kind_kernel (ctrl_bytes evt_state 0 3) (stop going).1
      ≡ some (after_report 3 (stop going).1))
    × ((after_report 3 (stop going).1).state ≢ can_state_stopped)
report_after_stop_example = report_after_stop kind_kernel 0 3 going (omega arith)

-- Up, a frame each way, a report of bus-off, a restart, down, and a late frame.
abbrev session : List Event
session =
    configure 250000 2
    ∷ up
    ∷ transmit frame
    ∷ message greedy
    ∷ message (ctrl_bytes evt_state 0 3)
    ∷ restart
    ∷ down
    ∷ message greedy
    ∷ []

run_counts_frames_example :
    (q : Dev) × (run kind_kernel session fresh ≡ some q)
    × (u64 (q.tx_packets + q.tx_dropped) ≡ u64 (0 + frames_out kind_kernel session fresh))
    × (u64 (q.rx_packets + q.rx_dropped) ≡ u64 (0 + frames_in session))
run_counts_frames_example =
    run_counts_frames kind_kernel session fresh kind_kernel-SkbCheck (ground arith)

session_totals : (frames_out kind_kernel session fresh ≡ 1) × (frames_in session ≡ 2)
unfolding frames_out frames_in step xmit cb rx_frame rx_ctrl open_dev stop set_mode ctrl_send copy
session_totals = (refl, refl)

-- The restart comes while the interface is up.
abbrev short_session : List Event
short_session = up ∷ restart ∷ down ∷ []

short_session-Orderly : Orderly kind_kernel short_session fresh
unfolding Orderly step open_dev stop set_mode ctrl_send
short_session-Orderly = ground arith

run-InStep_example :
    (q : Dev) × (run kind_kernel short_session fresh ≡ some q) × (told_to_run q.calls ≡ q.running)
unfolding told_to_run
run-InStep_example =
    run-InStep kind_kernel short_session fresh kind_kernel-SkbCheck (ground arith)
      short_session-Orderly refl
