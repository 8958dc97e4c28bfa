-- ===== src/Uart.antt =====
-- m4/hello-world/hello.c: UART4 driven through its registers. m4/uart-test/main.c holds the same
-- functions, and prints a counter in hexadecimal.
pub mod Setup
pub mod Text
pub mod Digits
mod Tests
use mathlib.Core.Option
use kmm_yocto.Base.{
  ℕ, zero, suc, ◌+◌, ◌*◌, ◌/◌, ◌%◌, ◌^◌, Bool, true, false, not, ◌&&◌, Option, none, some, List, [],
  ◌∷◌, ltb, ◌==◌, if◌then◌else◌, u32, codes, set, get_elem?, replicate, take,
}
use kmm_yocto.Bus.{Bus, write, dbg, test_bit, peek, did_read, poll_clear}

abbrev pub ccm_uart4_root : ℕ
ccm_uart4_root = 0x3038B080

abbrev pub ccm_ccgr_uart4 : ℕ
ccm_ccgr_uart4 = 0x303844C0

abbrev pub ccm_ccgr_uart4_set : ℕ
ccm_ccgr_uart4_set = 0x303844C4

abbrev pub mux_uart4_rxd : ℕ
mux_uart4_rxd = 0x3033024C

abbrev pub mux_uart4_txd : ℕ
mux_uart4_txd = 0x30330250

abbrev pub conf_uart4_rxd : ℕ
conf_uart4_rxd = 0x303304B4

abbrev pub conf_uart4_txd : ℕ
conf_uart4_txd = 0x303304B8

abbrev pub sel_uart4_rxd : ℕ
sel_uart4_rxd = 0x3033050C

abbrev pub uart4_base : ℕ
uart4_base = 0x30A60000

abbrev pub utxd : ℕ
utxd = uart4_base + 0x40

abbrev pub ucr1 : ℕ
ucr1 = uart4_base + 0x80

abbrev pub ucr2 : ℕ
ucr2 = uart4_base + 0x84

abbrev pub ucr3 : ℕ
ucr3 = uart4_base + 0x88

abbrev pub ufcr : ℕ
ufcr = uart4_base + 0x90

abbrev pub ubir : ℕ
ubir = uart4_base + 0xA4

abbrev pub ubmr : ℕ
ubmr = uart4_base + 0xA8

abbrev pub uts : ℕ
uts = uart4_base + 0xB4

-- UTS_TXFULL is bit 4.
abbrev pub txfull : ℕ
txfull = 4

abbrev pub reset_limit : ℕ
reset_limit = 100000

-- `do { buf[i++] = '0' + v % 10; v /= 10; } while (v);` with fuel. The buffer has 10 bytes; a
-- write behind it, like a lack of fuel, gives `none`.
unfoldable pub dec_loop : (fuel v i : ℕ) (buf : List ℕ) → Option (ℕ × List ℕ)
dec_loop zero v i buf = none
dec_loop (suc fuel) v i buf =
    let buf' = set buf i (b'0' + v % 10) in
    let again = dec_loop fuel (v / 10) (i + 1) buf' in
    if not (ltb i 10) then none else (if v / 10 == 0 then some (i + 1, buf') else again)

module _ (reg : ℕ → ℕ → ℕ) where
  -- `while (!(UCR2 & 1) && ++t < 100000) ;` from the count `t`, with `left` rounds of fuel.
  unfoldable pub reset_wait : (left t : ℕ) → Bus → Option (ℕ × Bus)
  reset_wait zero t b = none
  reset_wait (suc left) t b =
      let again = reset_wait left (t + 1) (did_read b) in
      if test_bit (peek reg ucr2 b) 0
      then some (t, did_read b)
      else (if ltb (t + 1) reset_limit then again else some (t + 1, did_read b))

  -- `DBG[i] = REG32(a);`
  abbrev pub trace : (i a : ℕ) → Bus → Bus
  trace i a b = write (dbg i) (peek reg a b) (did_read b)

  -- The clock and the pins, up to the reset request.
  abbrev pub clock_and_pins : Bus → Bus
  clock_and_pins b =
      let b₁ = write ccm_ccgr_uart4_set 0x30 (write ccm_uart4_root (2 ^ 28 + 2 ^ 24) b) in
      let b₂ = trace 2 ccm_ccgr_uart4 (trace 1 ccm_uart4_root b₁) in
      let b₃ = write sel_uart4_rxd 2 (write mux_uart4_txd 0 (write mux_uart4_rxd 0 b₂)) in
      write ucr2 0 (write conf_uart4_txd 0x16 (write conf_uart4_rxd 0x16 b₃))

  -- The settings after the reset: 8N1 and the baud rate.
  abbrev pub settings : Bus → Bus
  settings b =
      let b₁ = write ucr3 0x0704 (write ucr2 0x4027 (write ucr1 0x0001 b)) in
      let b₂ = write ubmr 0xC34 (write ubir 0x47 (write ufcr 0x0A81 b₁)) in
      trace 4 ucr2 (trace 3 uts b₂)

  -- `uart4_init`
  unfoldable pub uart4_init : Bus → Option Bus
  uart4_init b =
      Option.map (λ (t, b'). settings (write (dbg 6) t b'))
        (reset_wait reset_limit 0 (clock_and_pins b))

  module _ (fuel : ℕ) where
    -- `uart4_putc`; `fuel` bounds each wait for the transmitter.
    unfoldable pub uart4_putc : ℕ → Bus → Option Bus
    uart4_putc c b = Option.map (write utxd (c % 256)) (poll_clear reg fuel uts txfull b)

    -- `uart4_puts` on the characters before the terminating zero.
    unfoldable pub uart4_puts : List ℕ → Bus → Option Bus
    uart4_puts [] b = some b
    uart4_puts (c ∷ s) b =
        Option.bind
          (if c == b'\n' then Option.bind (uart4_putc b'\r' b) (uart4_putc c) else uart4_putc c b)
          (uart4_puts s)

    -- `while (i) uart4_putc(buf[--i]);`
    unfoldable pub put_back : (i : ℕ) (buf : List ℕ) → Bus → Option Bus
    put_back zero buf b = some b
    put_back (suc i) buf b =
        Option.bind (get_elem? buf i) (λ c. Option.bind (uart4_putc c b) (put_back i buf))

    -- `uart4_put_dec`; ten rounds are enough for 32 bits.
    unfoldable pub uart4_put_dec : ℕ → Bus → Option Bus
    uart4_put_dec v b =
        Option.bind (dec_loop 10 v 0 (replicate 10 0)) (λ (i, buf). put_back i buf b)

    -- One round of `main_loop` after its delay.
    unfoldable pub tick : ℕ → Bus → Option (ℕ × Bus)
    tick n b =
        let n' = u32 (n + 1) in
        Option.map (λ b'. (n', b'))
          (Option.bind (uart4_puts (codes "tick ") (write (dbg 5) n' b))
            (λ b₁. Option.bind (uart4_put_dec n' b₁) (uart4_puts (codes "\n"))))

    -- `main_loop` up to its first round.
    unfoldable pub main_start : Bus → Option Bus
    main_start b = Option.bind (uart4_init (write (dbg 0) 0x11111111 b)) (λ b₁.
        Option.map (write (dbg 0) 0x33333333) (
          uart4_puts (codes "\nM4: hello from hand-written bare metal!\n")
            (write (dbg 0) 0x22222222 b₁)))
