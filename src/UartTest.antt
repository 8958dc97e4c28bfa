-- ===== src/UartTest.antt =====
-- m4/uart-test/main.c: prints a counter in hexadecimal on UART4. Its UART functions are, line for
-- line, those of m4/hello-world/hello.c. The delay loop is left out.
pub mod Hex
mod Tests
use mathlib.Core.Option
use kmm_yocto.Base.{
  ℕ, zero, suc, ◌+◌, ◌/◌, ◌%◌, Option, none, some, List, [], ◌∷◌, ◌==◌, if◌then◌else◌, u32, codes,
  c_string, set, get_or, replicate,
}
use kmm_yocto.Bus.{Bus, write, dbg}
use kmm_yocto.Uart

-- `"0123456789ABCDEF"[d]`
abbrev pub hex_digit : ℕ → ℕ
hex_digit d = get_or (codes "0123456789ABCDEF") d 0

-- `for (i = 7; i >= 0; i--) { b[i] = ...[v & 0xF]; v >>= 4; }`, from `i - 1` on
unfoldable pub hex_loop : (i v : ℕ) (b : List ℕ) → List ℕ
hex_loop zero v b = b
hex_loop (suc i) v b = hex_loop i (v / 16) (set b i (hex_digit (v % 16)))

-- `b`, for the counter `n`: nine bytes, the last of which is 0.
unfoldable pub hex_text : ℕ → Option (List ℕ)
hex_text n = c_string (set (hex_loop 8 n (replicate 9 0)) 8 0)

module _ (reg : ℕ → ℕ → ℕ) where
  unfoldable pub uart4_init : Bus → Option Bus
  uart4_init = Uart.uart4_init reg

  -- `main` before its loop
  unfoldable pub start : Bus → Option Bus
  start b = Option.map (write (dbg 0) 0xA2) (uart4_init (write (dbg 0) 0xA1 b))

  module _ (fuel : ℕ) where
    unfoldable pub uart4_putc : ℕ → Bus → Option Bus
    uart4_putc = Uart.uart4_putc reg fuel

    unfoldable pub uart4_puts : List ℕ → Bus → Option Bus
    uart4_puts = Uart.uart4_puts reg fuel

    -- The line that one round prints.
    unfoldable pub print_line : ℕ → Bus → Option Bus
    unfolding Option.bind
    print_line n b = Option.bind (uart4_puts (codes "uart-test: hello from M4 (") b) (λ b₁.
        Option.bind (hex_text n) (λ s. Option.bind (uart4_puts s b₁) (uart4_puts (codes ")\n"))))

    -- One round of the loop: the counter and the bus.
    unfoldable pub round : ℕ → Bus → Option (ℕ × Bus)
    round n b = Option.map (λ b'. (u32 (n + 1), write (dbg 5) (u32 (n + 1)) b')) (print_line n b)
