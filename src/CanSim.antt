-- ===== src/CanSim.antt =====
-- m4/can-sim/main.c: the M-core firmware that streams synthetic CAN frames over rpmsg. The main
-- loop is cut into steps, between which the receive interrupt may come. The breadcrumbs
-- DBG[1] to DBG[4] are fields.
pub mod Clock
pub mod Batch
pub mod Chain
pub mod Stream
pub mod Runs
pub mod Pacer
pub mod Start
mod Tests
use kmm_yocto.Base.{
  ℕ, ◌+◌, ◌-◌, ◌*◌, ◌/◌, ◌%◌, ◌^◌, Bool, true, false, List, [], ◌∷◌, ◌++◌, ltb, ◌==◌, if◌then◌else◌,
  u32, u64, le32, set, ℤ, is_zero,
}

-- `struct wire`
pub record Wire : Type 0 where
  pub id : ℕ
  pub dlc : ℕ
  pub pad : List ℕ
  pub data_bytes : List ℕ

-- The 16 bytes that `rpmsg_lite_send` is given; the M-core is little-endian.
abbrev pub bytes_of : Wire → List ℕ
bytes_of w = le32 w.id ++ (w.dlc ∷ (w.pad ++ w.data_bytes))

-- `put_u16be`
unfoldable pub put_u16be : (slot v : ℕ) → Wire → Wire
put_u16be slot v w = record w {
  data_bytes = set (set w.data_bytes (slot * 2) (v / 2 ^ 8 % 256)) (slot * 2 + 1) (v % 256);
}

-- The identifier, the length and the four slots of one frame.
unfoldable pub fill : (id v₀ v₁ v₂ v₃ : ℕ) → Wire → Wire
unfolding put_u16be
fill id v₀ v₁ v₂ v₃ w =
    put_u16be 3 v₃
      (put_u16be 2 v₂ (put_u16be 1 v₁ (put_u16be 0 v₀ (record w { id = id; dlc = 8 }))))

-- `for (i = 0; i < 8; i++) w.pad[i % 3] = 0;`
unfoldable pub clear_pad : Wire → Wire
clear_pad w = record w {
  pad = set (set (set (set (set (set (set (set w.pad 0 0) 1 0) 2 0) 0 0) 1 0) 2 0) 0 0) 1 0;
}

-- The five frames of a round, each written over the one before it. `6000 - t % 6000` is at least 1.
unfoldable pub batch : ℕ → Wire → List Wire
batch t w =
    let w₀ = fill 0x5F0 (t % 10000) (t % 1000) (t % 1400) (t % 1600) (clear_pad w) in
    let w₁ = fill 0x5F1 (t % 1200) (t % 5000) (t % 13000 / 10) (700 + t % 600) w₀ in
    let w₂ = fill 0x5F2 (t % 10000 / 10) (t % 3000) (t % 6000) (6000 - t % 6000) w₁ in
    let fan : ℕ = if t % 10000 / 5000 == 0 then 0 else 1 in
    let ist : ℕ = if t % 8000 / 4000 == 0 then 1 else 2 in
    let w₃ = fill 0x5F3 fan ist (t % 5000) (t % 4500) w₂ in
    let w₄ = fill 0x5F4 (t % 1200) (t % 1200) (t % 1200) 0 w₃ in w₀ ∷ w₁ ∷ w₂ ∷ w₃ ∷ w₄ ∷ []

abbrev pub sctr_hz : ℕ
sctr_hz = 8000000

-- `SCTR_HZ * 33 / 1000`: the product fits 32 bits.
abbrev pub period : ℕ
period = sctr_hz * 33 / 1000

-- Where the main loop stands: it waits for `next`, or has these frames of the round left to send.
pub data Place : Type 0 where
  wait : Place
  send : Wire → List Wire → Place

-- `out` holds the messages handed to `rpmsg_lite_send` with their address, newest first.
pub record Sim : Type 0 where
  pub peer_addr : ℕ
  pub peer_known : Bool
  pub next : ℕ
  pub t : ℕ
  pub dbg_hello : ℕ
  pub dbg_sent : ℕ
  pub dbg_dropped : ℕ
  pub dbg_t : ℕ
  pub place : Place
  pub out : List (ℕ × List ℕ)

-- `rx_cb`
unfoldable pub rx_cb : ℕ → Sim → Sim
rx_cb src s = record s { peer_addr = src; peer_known = true; dbg_hello = u32 (s.dbg_hello + 1) }

-- The top of the loop: the next deadline, and the wait for it.
abbrev pub again : Sim → Sim
again s = record s { next = u64 (s.next + period); place = wait }

-- The statics as the ELF loader leaves them, before anything has come or gone.
abbrev pub cold : Sim
cold = record {
  peer_addr = 0;
  peer_known = false;
  next = 0;
  t = 0;
  dbg_hello = 0;
  dbg_sent = 0;
  dbg_dropped = 0;
  dbg_t = 0;
  place = wait;
  out = [];
}

-- The loop is entered at the time that `sctr_now` gives.
unfoldable pub enter : ℕ → Sim → Sim
enter now s = again (record s { next = now })

-- The same when nothing has come before.
unfoldable pub start : ℕ → Sim
unfolding enter
start now = enter now cold

abbrev pub to_send : List Wire → Place
to_send [] = wait
to_send (w ∷ ws) = send w ws

-- After the wait; `w` is what the uninitialised local holds.
abbrev pub round : Wire → Sim → Sim
round w s =
    let s' = record s { t = u32 (s.t + 33); dbg_t = u32 (s.t + 33) } in
    if s'.peer_known then record s' { place = to_send (batch s'.t w) } else again s'

-- One reading of the counter by the waiting loop, or one frame sent.
pub data Event : Type 0 where
  interrupt : (src : ℕ) → Event
  read_clock : (now : ℕ) (w : Wire) → Event
  send_next : Event

module _ (rpmsg_lite_send : List (ℕ × List ℕ) → ℕ → List ℕ → ℤ) where
  -- `send_frame`
  unfoldable pub send_frame : Wire → Sim → Sim
  send_frame w s =
      let s' = record s { out = (s.peer_addr, bytes_of w) ∷ s.out } in
      if is_zero (rpmsg_lite_send s.out s.peer_addr (bytes_of w))
      then record s' { dbg_sent = u32 (s.dbg_sent + 1) }
      else record s' { dbg_dropped = u32 (s.dbg_dropped + 1) }

  -- The loop at a place; an event that does not belong there changes nothing.
  unfoldable pub at : Place → Event → Sim → Sim
  unfolding rx_cb send_frame
  at _ (interrupt src) s = rx_cb src s
  at wait (read_clock now w) s = if ltb now s.next then s else round w s
  at wait send_next s = s
  at (send w ws) (read_clock now w') s = s
  at (send w []) send_next s = again (send_frame w s)
  at (send w (w' ∷ ws)) send_next s = record (send_frame w s) { place = send w' ws }

  unfoldable pub step : Event → Sim → Sim
  unfolding at
  step e s = at s.place e s

  unfoldable pub run : List Event → Sim → Sim
  run [] s = s
  run (e ∷ es) s = run es (step e s)
