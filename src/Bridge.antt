-- ===== src/Bridge.antt =====
-- tools/teensy-uart-bridge/src/main.cpp, built with USB_TRIPLE_SERIAL: two UARTs bridged to two
-- USB serial ports, and a port for diagnosis. The Teensy core is the parameter `Ports`: a world and
-- the calls that the sketch makes of it, in which time passes and bytes arrive.
pub mod Laws
pub mod Buffer
mod Pump
mod Sides
pub mod Ops
pub mod Ends
pub mod Carries
pub mod Baud
mod Queues
mod Tests
use mathlib.Core.Option
use kmm_yocto.Base.{
  ℕ, zero, suc, ◌+◌, ◌-◌, ◌^◌, Bool, true, false, not, ◌||◌, Option, none, some, List, ◌==◌, ltb,
  leb, min, u32, if◌then◌else◌, length, ℤ, pos, negsuc,
}

-- The serial ports: `Serial`, `Serial1`, `SerialUSB1`, `Serial2` and `SerialUSB2`.
pub data Dev : Type 0 where
  usb_a uart_a usb_m uart_m usb_diag : Dev

pub record Ports : Type 1 where
  pub World : Type 0
  pub available : World → Dev → ℤ
  pub available_for_write : World → Dev → ℤ
  pub is_open : World → Dev → Bool
  pub baud : World → Dev → ℕ
  pub millis : World → ℕ
  pub read : World → Dev → World
  pub read_bytes : World → Dev → ℕ → List ℕ × World
  pub write : World → Dev → List ℕ → World
  pub begin : World → Dev → ℕ → World
  pub add_memory_for_read : World → Dev → ℕ → World
  pub pin_mode_led : World → World
  pub digital_write_led : World → Bool → World
  pub print_diag : World → ℕ → World

-- `DEFAULT_BAUD`
abbrev pub default_baud : ℕ
default_baud = 115200

-- The variables of the sketch. An `elapsedMillis` is the time at which it was set to 0.
pub record Bridge : Type 0 where
  pub baud_a : ℕ
  pub baud_m : ℕ
  pub since_activity : ℕ
  pub since_diag : ℕ

-- A count that C reads from an `int` after `if (n <= 0) return`, or 0.
abbrev pub positive : ℤ → ℕ
positive (pos n) = n
positive (negsuc n) = 0

-- `sizeof(buf)` in `pump`
abbrev pub buf_size : ℕ
buf_size = 512

module _ (P : Ports) where
  -- What an `elapsedMillis` set at time `t` reads.
  abbrev pub elapsed : P.World → ℕ → ℕ
  elapsed w t = u32 (P.millis w + 2 ^ 32 - u32 t)

  -- `syncBaud`: the new `current`, and the world.
  unfoldable pub sync_baud : (usb uart : Dev) (current : ℕ) → P.World → ℕ × P.World
  sync_baud usb uart current w =
      let b = if P.baud w usb == 0 then default_baud else P.baud w usb in
      if not (b == current) then (b, P.begin w uart b) else (current, w)

  -- `dst.write(buf, n)`, for what was read.
  abbrev pub write_some : (dst : Dev) → List ℕ × P.World → ℕ × P.World
  write_some dst (bytes, w) =
      (length bytes, if ltb 0 (length bytes) then P.write w dst bytes else w)

  -- `src.readBytes(buf, n)`, which fills `buf` and no more.
  unfoldable pub read_into : (src : Dev) (n : ℕ) → P.World → Option (List ℕ × P.World)
  read_into src n w = if leb n buf_size then some (P.read_bytes w src n) else none

  unfoldable pub pump : (src dst : Dev) → P.World → Option (ℕ × P.World)
  pump src dst w =
      let n = positive (P.available w src) in
      let space = positive (P.available_for_write w dst) in
      if n == 0 || space == 0
      then some (0, w)
      else Option.map (write_some dst) (read_into src (min (min n space) buf_size) w)

  -- `while (uart.available() > 0) uart.read();` with fuel
  unfoldable pub discard : (fuel : ℕ) (uart : Dev) → P.World → Option P.World
  discard zero uart w = none
  discard (suc fuel) uart w =
      let rest = discard fuel uart (P.read w uart) in
      if positive (P.available w uart) == 0 then some w else rest

  -- Both directions of one side, or the discarding while the host has not opened its port.
  unfoldable pub side : (fuel : ℕ) (usb uart : Dev) → P.World → Option (ℕ × P.World)
  unfolding Option.bind
  side fuel usb uart w =
      if P.is_open w usb
      then Option.bind (pump usb uart w)
          (λ there. Option.map (λ back. (there.0 + back.0, back.1)) (pump uart usb there.1))
      else Option.map (λ v. (0, v)) (discard fuel uart w)

  -- `diagReport`
  unfoldable pub diag_report : Bridge × P.World → Bridge × P.World
  diag_report (s, w) =
      let t = record s { since_diag = P.millis w } in
      if ltb (elapsed w s.since_diag) 1000
      then (s, w)
      else (if not (P.is_open w usb_diag) || ltb (positive (P.available_for_write w usb_diag)) 96
          then (t, w)
          else (t, P.print_diag w s.baud_m))

  unfoldable pub setup : P.World → Bridge × P.World
  setup w =
      let w1 = P.add_memory_for_read (P.pin_mode_led w) uart_a 4096 in
      let w2 = P.add_memory_for_read w1 uart_m 4096 in
      let w3 = P.begin (P.begin w2 uart_a default_baud) uart_m default_baud in
      let s : Bridge = record {
        baud_a = default_baud;
        baud_m = default_baud;
        since_activity = 0;
        since_diag = 0;
      } in
      (s, w3)

  -- The end of `loop`: the light is on for 50 ms after bytes have moved.
  unfoldable pub show_activity : (moved : ℕ) → Bridge × P.World → Bridge × P.World
  show_activity moved (s, w) =
      let t = if ltb 0 moved then record s { since_activity = P.millis w } else s in
      (t, P.digital_write_led w (ltb (elapsed w t.since_activity) 50))

  unfoldable pub finish : (moved : ℕ) → Bridge × P.World → Bridge × P.World
  finish moved sw = show_activity moved (diag_report sw)

  -- The two calls of `syncBaud` that begin `loop`.
  unfoldable pub sync : Bridge × P.World → Bridge × P.World
  sync (s, w) =
      let a = sync_baud usb_a uart_a s.baud_a w in
      let m = sync_baud usb_m uart_m s.baud_m a.1 in (record s { baud_a = a.0; baud_m = m.0 }, m.1)

  unfoldable pub loop : (fuel : ℕ) → Bridge × P.World → Option (Bridge × P.World)
  unfolding Option.bind
  loop fuel sw =
      let begun = sync sw in
      Option.bind (side fuel usb_a uart_a begun.1)
        (λ a. Option.map (λ m. finish (a.0 + m.0) (begun.0, m.1)) (side fuel usb_m uart_m a.1))

  -- `loop`, called again and again
  unfoldable pub run : (fuel k : ℕ) → Bridge × P.World → Option (Bridge × P.World)
  unfolding Option.bind
  run fuel zero sw = some sw
  run fuel (suc k) sw = Option.bind (loop fuel sw) (run fuel k)
