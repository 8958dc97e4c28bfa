-- ===== src/Can.antt =====
-- meta-kart/recipes-kernel-imx/rpmsg-can/files/rpmsg-can.c: the SocketCAN driver whose controller
-- is the M-core behind an rpmsg channel. A device is a record, its handlers return it anew, and
-- it keeps the calls that the driver makes of the kernel, newest first. What these calls return is
-- a parameter. A handler that reads or writes out of range gives `none`.
pub mod Frames
pub mod Control
pub mod Sessions
mod Tests
use Prim.Native.Nat.{bit_or}
use mathlib.Core.Option
use kmm_yocto.Base.{
  ℕ, ◌+◌, ◌/◌, ◌%◌, ◌^◌, Bool, true, false, not, ◌&&◌, Option, none, some, List, [], ◌∷◌, ◌++◌, min,
  leb, ◌==◌, if◌then◌else◌, u64, le32, length, get_or, drop, take, replicate, of_le32, ℤ, pos,
  negsuc, is_zero, copy,
}

-- `struct can_frame`: `data` has 8 bytes.
pub record CanFrame : Type 0 where
  pub can_id : ℕ
  pub len : ℕ
  pub data_bytes : List ℕ

-- The kernel functions that the driver calls.
pub data Call : Type 0 where
  open_candev close_candev alloc_can_skb can_bus_off consume_skb : Call
  netif_start_queue netif_stop_queue netif_wake_queue : Call
  alloc_candev register_candev unregister_candev free_candev : Call
  rpmsg_trysend : List ℕ → Call
  netif_rx : CanFrame → Call

-- The parts of `struct net_device` and `struct can_priv` that the driver sets or reads.
-- `running` is `netif_running`, which the network core sets before an open and clears before a stop.
pub record Dev : Type 0 where
  pub running : Bool
  pub clock_freq : ℕ
  pub bitrate_const : List ℕ
  pub ctrlmode_supported : ℕ
  pub ctrlmode : ℕ
  pub bitrate : ℕ
  pub state : ℕ
  pub tx_packets : ℕ
  pub tx_bytes : ℕ
  pub tx_dropped : ℕ
  pub rx_packets : ℕ
  pub rx_bytes : ℕ
  pub rx_dropped : ℕ
  pub calls : List Call

-- What the calls return, given the calls before them. `invalid_skb` is the test of
-- `can_dropped_invalid_skb`, and `drop_skb` what that function does to a device when it drops.
pub record Kernel : Type 0 where
  pub opened : Dev → ℤ
  pub sent : List Call → List ℕ → ℤ
  pub skb_left : List Call → Bool
  pub invalid_skb : CanFrame → Bool
  pub drop_skb : CanFrame → Dev → Dev
  pub candev_left : Bool
  pub registered : Dev → ℤ

-- `enum can_state` and the control modes of linux/can/netlink.h.
abbrev pub can_state_error_active : ℕ
can_state_error_active = 0

abbrev pub can_state_bus_off : ℕ
can_state_bus_off = 3

abbrev pub can_state_stopped : ℕ
can_state_stopped = 4

abbrev pub can_max_dlen : ℕ
can_max_dlen = 8

-- `CAN_CTRLMODE_LOOPBACK` is bit 0, `CAN_CTRLMODE_LISTENONLY` is bit 1.
abbrev pub loopback : ℕ → Bool
loopback ctrlmode = ctrlmode % 2 == 1

abbrev pub listen_only : ℕ → Bool
listen_only ctrlmode = ctrlmode / 2 % 2 == 1

abbrev pub ctrl_magic : ℕ
ctrl_magic = 0xC7

abbrev pub cmd_set_bitrate : ℕ
cmd_set_bitrate = 1

abbrev pub cmd_set_mode : ℕ
cmd_set_mode = 2

abbrev pub cmd_start : ℕ
cmd_start = 3

abbrev pub cmd_stop : ℕ
cmd_stop = 4

abbrev pub evt_state : ℕ
evt_state = 5

abbrev pub mode_listenonly : ℕ
mode_listenonly = 1

abbrev pub mode_loopback : ℕ
mode_loopback = 2

abbrev pub rpmsg_can_bitrates : List ℕ
rpmsg_can_bitrates = 125000 ∷ 250000 ∷ 500000 ∷ 1000000 ∷ []

-- `struct rpmsg_can_wire` and `struct rpmsg_can_ctrl` as the bytes in memory.
abbrev pub wire_bytes : (id dlc : ℕ) (data_bytes : List ℕ) → List ℕ
wire_bytes id dlc data_bytes = le32 id ++ (dlc ∷ 0 ∷ 0 ∷ 0 ∷ data_bytes)

abbrev pub wire_size : ℕ
wire_size = 16

abbrev pub ctrl_bytes : (cmd flags arg : ℕ) → List ℕ
ctrl_bytes cmd flags arg = ctrl_magic ∷ cmd ∷ flags ∷ 0 ∷ le32 arg

abbrev pub ctrl_size : ℕ
ctrl_size = 8

abbrev pub zeros : List ℕ
zeros = replicate 8 0

-- Adds a call.
abbrev pub call : Call → Dev → Dev
call c d = record d { calls = c ∷ d.calls }

-- `rpmsg_can_ctrl_send`; its result is never read.
unfoldable pub ctrl_send : (cmd flags arg : ℕ) → Dev → Dev
ctrl_send cmd flags arg d = call (rpmsg_trysend (ctrl_bytes cmd flags arg)) d

-- The mode byte that `rpmsg_can_open` puts together with `|=`.
unfoldable pub mode_of : ℕ → ℕ
mode_of ctrlmode =
    let mode = if listen_only ctrlmode then mode_listenonly else 0 in
    if loopback ctrlmode then bit_or mode mode_loopback else mode

-- `rpmsg_can_set_mode`; `start` says whether the mode is CAN_MODE_START.
unfoldable pub set_mode : Bool → Dev → ℤ × Dev
unfolding ctrl_send
set_mode start d =
    if start
    then (
      pos 0,
      call netif_wake_queue (record (ctrl_send cmd_start 0 0 d) { state = can_state_error_active }),
    )
    else (negsuc 94, d)

-- `rpmsg_can_stop`
unfoldable pub stop : Dev → ℤ × Dev
unfolding ctrl_send
stop d = (
  pos 0,
  call close_candev
      (record (ctrl_send cmd_stop 0 0 (call netif_stop_queue d)) { state = can_state_stopped }),
)

-- `rpmsg_can_rx_ctrl`: a state change that the M-core reports.
unfoldable pub rx_ctrl : List ℕ → Dev → Dev
rx_ctrl m d =
    let arg = of_le32 (get_or m 4 0) (get_or m 5 0) (get_or m 6 0) (get_or m 7 0) in
    if not (get_or m 0 0 == ctrl_magic)
    then d
    else (if (get_or m 1 0 == evt_state) && leb arg can_state_bus_off
        then (if not (arg == d.state)
            then (if arg == can_state_bus_off
                then call can_bus_off (record d { state = arg })
                else record d { state = arg })
            else d)
        else d)

module _ (k : Kernel) where
  -- `rpmsg_can_open`
  unfoldable pub open_dev : Dev → ℤ × Dev
  unfolding ctrl_send
  open_dev d =
      let err = k.opened d in
      let d₁ = call open_candev d in
      if is_zero err
      then (let d₂ = ctrl_send cmd_set_bitrate 0 d₁.bitrate d₁ in
          let d₃ = ctrl_send cmd_set_mode (mode_of d₁.ctrlmode) 0 d₂ in
          let d₄ = ctrl_send cmd_start 0 0 d₃ in
          (pos 0, call netif_start_queue (record d₄ { state = can_state_error_active })))
      else (err, d₁)

  -- `rpmsg_can_xmit`, which always returns NETDEV_TX_OK. `memcpy` reads `cf->data` and writes
  -- `w.data`, 8 bytes each.
  unfoldable pub xmit : CanFrame → Dev → Option Dev
  xmit cf d =
      if k.invalid_skb cf
      then some (k.drop_skb cf d)
      else Option.map
          (λ bytes.
            let w = wire_bytes cf.can_id cf.len bytes in
            let ret = k.sent d.calls w in
            let d₁ = call (rpmsg_trysend w) d in
            call consume_skb (
              if is_zero ret
              then record d₁ {
                tx_packets = u64 (d.tx_packets + 1);
                tx_bytes = u64 (d.tx_bytes + cf.len);
              }
              else record d₁ { tx_dropped = u64 (d.tx_dropped + 1) }))
          (copy zeros cf.data_bytes cf.len)

  -- `rpmsg_can_rx_frame` on a message of 16 bytes. A new skb holds a zeroed frame.
  unfoldable pub rx_frame : List ℕ → Dev → Option Dev
  rx_frame m d =
      if not d.running
      then some (record d { rx_dropped = u64 (d.rx_dropped + 1) })
      else (let d₁ = call alloc_can_skb d in
          if not (k.skb_left d.calls)
          then some (record d₁ { rx_dropped = u64 (d.rx_dropped + 1) })
          else (let len = min (get_or m 4 0) can_max_dlen in
              Option.map
                (λ bytes.
                  call
                    (netif_rx (record {
                      can_id = of_le32 (get_or m 0 0) (get_or m 1 0) (get_or m 2 0) (get_or m 3 0);
                      len = len;
                      data_bytes = bytes;
                    }))
                    (record d₁ {
                      rx_packets = u64 (d.rx_packets + 1);
                      rx_bytes = u64 (d.rx_bytes + len);
                    }))
                (copy zeros (drop 8 m) len)))

  -- `rpmsg_can_cb`
  unfoldable pub cb : List ℕ → Dev → Option Dev
  cb m d =
      if length m == wire_size
      then rx_frame m d
      else (if length m == ctrl_size then some (rx_ctrl m d) else some d)

  -- `rpmsg_can_probe`; `free_candev` takes a device that is refused back. The device that
  -- `alloc_candev` gives is stopped and otherwise zero. The name and the back pointers are left out.
  unfoldable pub probe : ℤ × Option Dev
  probe =
      if k.candev_left
      then (let d : Dev = record {
        running = false;
        clock_freq = 40000000;
        bitrate_const = rpmsg_can_bitrates;
        ctrlmode_supported = bit_or 2 1;
        ctrlmode = 0;
        bitrate = 500000;
        state = can_state_stopped;
        tx_packets = 0;
        tx_bytes = 0;
        tx_dropped = 0;
        rx_packets = 0;
        rx_bytes = 0;
        rx_dropped = 0;
        calls = alloc_candev ∷ [];
      } in
          let ret = k.registered d in
          if is_zero ret then (pos 0, some (call register_candev d)) else (ret, none))
      else (negsuc 11, none)

-- `rpmsg_can_remove`
unfoldable pub remove : Dev → Dev
remove d = call free_candev (call unregister_candev d)
