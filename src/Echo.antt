-- ===== src/Echo.antt =====
-- m4/rpmsg-echo/main.c: the M-core firmware that echoes rpmsg messages. The receive interrupt fills
-- a buffer and raises a flag; the main loop prints the message, sends it back and lowers the flag.
-- The loop is cut into steps, between which the interrupt may come. An access behind the end of the
-- buffer gives `none`.
pub mod Slot
pub mod Rounds
pub mod Start
pub mod Main
mod Tests
use mathlib.Core.Option
use kmm_yocto.Base.{
  ℕ, zero, suc, ◌+◌, ◌-◌, ◌%◌, ◌^◌, Bool, true, false, not, Option, none, some, List, [], ◌∷◌, ltb,
  leb, ◌==◌, if◌then◌else◌, u32, length, set, take, replicate, copy, ℤ, pos, negsuc, is_zero, codes,
  c_string,
}

-- `sizeof(msg_buf)`
abbrev pub buf_size : ℕ
buf_size = 512

-- Where the main loop stands.
pub data Place : Type 0 where
  waiting printing sending clearing : Place

-- `said` holds the texts handed to `uart4_puts`, `out` the messages handed to `rpmsg_lite_send`
-- with their address, both newest first.
pub record Echo : Type 0 where
  pub msg_buf : List ℕ
  pub msg_len : ℕ
  pub msg_src : ℕ
  pub msg_ready : Bool
  pub dbg_rx : ℕ
  pub dbg_rc : ℕ
  pub dbg_echoed : ℕ
  pub place : Place
  pub said : List (List ℕ)
  pub out : List (ℕ × List ℕ)

-- `(uint32_t)(-rc)`
abbrev pub negated : ℤ → ℕ
negated (pos n) = (2 ^ 32 - n % 2 ^ 32) % 2 ^ 32
negated (negsuc n) = u32 (n + 1)

-- The length that `rx_cb` keeps of a payload.
abbrev pub kept : ℕ → ℕ
kept n = if leb buf_size n then buf_size - 1 else n

-- `rx_cb`
unfoldable pub rx_cb : (src : ℕ) (payload : List ℕ) → Echo → Option Echo
rx_cb src payload s =
    let n = kept (length payload) in
    if not s.msg_ready
    then Option.map
        (λ buf. record s {
          msg_buf = buf;
          msg_len = n;
          msg_src = src;
          msg_ready = true;
          dbg_rx = u32 (s.dbg_rx + 1);
        })
        (copy s.msg_buf payload n)
    else some s

-- The state when the loop is entered: the statics are zero.
abbrev pub start : Echo
start = record {
  msg_buf = replicate buf_size 0;
  msg_len = 0;
  msg_src = 0;
  msg_ready = false;
  dbg_rx = 0;
  dbg_rc = 0;
  dbg_echoed = 0;
  place = waiting;
  said = [];
  out = [];
}

module _ (rpmsg_lite_send : List (ℕ × List ℕ) → ℕ → List ℕ → ℤ) where
  -- One step of the loop: the wait and the terminating zero, the print, the send, the flag.
  unfoldable pub loop : Place → Echo → Option Echo
  loop waiting s =
      if not s.msg_ready
      then some s
      else (if ltb s.msg_len (length s.msg_buf)
          then some (record s { msg_buf = set s.msg_buf s.msg_len 0; place = printing })
          else none)
  loop printing s =
      Option.map
        (λ text. record s { place = sending; said = codes "\n" ∷ text ∷ codes "rx: " ∷ s.said })
        (c_string s.msg_buf)
  loop sending s =
      let message = take s.msg_len s.msg_buf in
      let rc = rpmsg_lite_send s.out s.msg_src message in
      some (record s {
        dbg_rc = u32 (0x1000 + negated rc);
        dbg_echoed = u32 (s.dbg_echoed + 1);
        place = clearing;
        said = (if is_zero rc then codes "echoed\n" else codes "send FAILED\n") ∷ s.said;
        out = (s.msg_src, message) ∷ s.out;
      })
  loop clearing s = some (record s { msg_ready = false; place = waiting })

pub data Event : Type 0 where
  interrupt : (src : ℕ) (payload : List ℕ) → Event
  proceed : Event

module _ (rpmsg_lite_send : List (ℕ × List ℕ) → ℕ → List ℕ → ℤ) where
  unfoldable pub step : Event → Echo → Option Echo
  step (interrupt src payload) s = rx_cb src payload s
  step proceed s = loop rpmsg_lite_send s.place s

  unfoldable pub run : List Event → Echo → Option Echo
  unfolding Option.bind
  run [] s = some s
  run (e ∷ es) s = Option.bind (step e s) (run es)
