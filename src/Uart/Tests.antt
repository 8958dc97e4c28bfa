-- ===== src/Uart/Tests.antt =====
-- The console on registers that answer in a fixed pattern.
use mathlib.Core.Option
use kmm_yocto.Base.{
  ℕ, ◌-◌, ◌%◌, ◌≤◌, ◌≡◌, ◌⊎◌, refl, true, some, List, [], ◌∷◌, arith, ◌==◌, if◌then◌else◌,
}
use kmm_yocto.Bus.{Bus, dbg, test_bit, poll_clear}
use kmm_yocto.Uart.{
  uts, ucr2, utxd, reset_limit, dec_loop, uart4_init, uart4_putc, uart4_puts, uart4_put_dec,
  put_back,
}
use kmm_yocto.Uart.Text.{Drains, Puts}
use kmm_yocto.Uart.Digits.{IsDecimal, uart4_put_dec-Puts}
use kmm_yocto.Uart.Setup.{held, IsConsole, uart4_init-held}

-- The transmitter is full at every even read; the reset bit is up.
abbrev answers : ℕ → ℕ → ℕ
answers n a = if a == uts then (if n % 2 == 0 then 16 else 0) else 1

answers-Drains : Drains answers 2
answers-Drains n = (if n % 2 == 0 then 1 else 0, ground arith, ground arith)

abbrev reset : Bus
reset = record { reads = 0; writes = [] }

puts_ok :
    uart4_puts answers 2 (b'o' ∷ b'\n' ∷ []) reset
    ≡ some (record { reads = 6; writes = (utxd, 10) ∷ (utxd, 13) ∷ (utxd, 111) ∷ [] })
unfolding uart4_puts uart4_putc poll_clear Option.bind
puts_ok = refl

put_dec_ok :
    uart4_put_dec answers 2 4009 reset
    ≡ some (record { reads = 8; writes = (utxd, 57) ∷ (utxd, 48) ∷ (utxd, 48) ∷ (utxd, 52) ∷ [] })
unfolding uart4_put_dec put_back dec_loop uart4_putc poll_clear Option.bind
put_dec_ok = refl

uart4_put_dec-Puts_example :
    (cs : List ℕ) × IsDecimal 4294967295 cs
    × Puts cs reset (uart4_put_dec answers 2 4294967295 reset)
uart4_put_dec-Puts_example =
    uart4_put_dec-Puts answers 2 answers-Drains 4294967295 reset (omega arith)

-- The reference divider of the i.MX UART.
abbrev divider : ℕ → ℕ
divider code = if code == 6 then 7 else 6 - code

uart4_init-held_example :
    (t : ℕ) × (n : ℕ) × (b' : Bus) × (uart4_init answers reset ≡ some b')
    × (held (dbg 6) b'.writes ≡ some t)
    × (t ≤ reset_limit)
    × ((t ≡ reset_limit) ⊎ (test_bit (answers n ucr2) 0 ≡ true))
    × IsConsole divider b'.writes
uart4_init-held_example = uart4_init-held answers divider refl reset
