-- ===== src/UartTest/Tests.antt =====
-- One line of the counter.
use kmm_yocto.Base.{c_string, ℕ, ◌≡◌, refl, some, List, [], arith, length, codes, All}
use kmm_yocto.Bus.{Bus}
use kmm_yocto.Uart.Text.{Drains, Puts}
use kmm_yocto.UartTest.{hex_loop, hex_text, print_line}
use kmm_yocto.UartTest.Hex.{IsHexDigit, hex_value, line, print_line-Puts}

hex_ok : hex_text 0xBEEF ≡ some (codes "0000BEEF")
unfolding hex_text hex_loop c_string
hex_ok = refl

-- A transmitter that is never full.
abbrev idle : ℕ → ℕ → ℕ
idle n a = 0

idle-Drains : Drains idle 1
idle-Drains n = (0, omega arith, refl)

abbrev reset : Bus
reset = record { reads = 0; writes = [] }

print_line-Puts_example :
    (ds : List ℕ) × (length ds ≡ 8)
    × All IsHexDigit ds
    × (hex_value 0 ds ≡ 48879)
    × Puts (line ds) reset (print_line idle 1 48879 reset)
print_line-Puts_example = print_line-Puts idle 1 48879 reset idle-Drains (omega arith)
