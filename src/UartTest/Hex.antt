-- ===== src/UartTest/Hex.antt =====
-- The hexadecimal text of the counter, and the line around it.
use mathlib.Core.Option
use mathlib.Core.Path.{subst}
use kmm_yocto.Base.{
  c_string, ℕ, zero, suc, ◌+◌, ◌-◌, ◌*◌, ◌/◌, ◌%◌, ◌^◌, ◌≤◌, ◌<◌, ◌≡◌, ◌⊎◌, refl, sym, ap, ◌∙◌,
  some, List, [], ◌∷◌, ◌++◌, arith, length, length-append, length-set, drop, set, replicate, ltb,
  ◌==◌, if◌then◌else◌, Bool-cases, inl, inr, codes, All, true, false, ==_iff,
}
use mathlib.Core.List.{append_assoc}
use kmm_yocto.Base.Tables.{passes, passes_at}
use kmm_yocto.Bus.{Bus}
use kmm_yocto.Uart
use kmm_yocto.Uart.Text.{Drains, crlf, Puts, Puts-append, uart4_puts-Puts}
use kmm_yocto.UartTest.{hex_digit, hex_loop, hex_text, uart4_puts, print_line}

-- The last `n` hexadecimal digits of `v`, the highest first.
abbrev pub hex_of : (n v : ℕ) → List ℕ
hex_of zero v = []
hex_of (suc n) v = hex_of n (v / 16) ++ (hex_digit (v % 16) ∷ [])

-- What a hexadecimal digit stands for.
abbrev pub digit_value : ℕ → ℕ
digit_value c = if ltb c b'A' then c - b'0' else c - 55

-- The number that a text of digits stands for.
abbrev pub hex_value : (acc : ℕ) → List ℕ → ℕ
hex_value acc [] = acc
hex_value acc (c ∷ cs) = hex_value (16 * acc + digit_value c) cs

-- A digit of a hexadecimal number: 0 to 9 or A to F.
abbrev pub IsHexDigit : ℕ → Type 0
IsHexDigit c = ((b'0' ≤ c) × (c ≤ b'9')) ⊎ ((b'A' ≤ c) × (c ≤ b'F'))

hex_table : passes 16 (λ d. hex_digit d == (if ltb d 10 then 48 + d else 55 + d)) ≡ true
unfolding passes
hex_table = refl

hex_digit_lem : (d : ℕ) → d < 16 → hex_digit d ≡ (if ltb d 10 then 48 + d else 55 + d)
hex_digit_lem d h =
    (==_iff _ _).0
      (passes_at (λ d. hex_digit d == (if ltb d 10 then 48 + d else 55 + d)) 16 d h hex_table)

hex_digit-IsHexDigit : (d : ℕ) → d < 16 → IsHexDigit (hex_digit d)
hex_digit-IsHexDigit d h = subst IsHexDigit (sym (hex_digit_lem d h)) (hex_code d h)
  where
    hex_code : (d : ℕ) → d < 16 → IsHexDigit (if ltb d 10 then 48 + d else 55 + d)
    hex_code d h = elim (Bool-cases (ltb d 10)) [
      | inl low ↦ rw low (inl (omega arith, ground arith))
      | inr high ↦ rw high (inr (ground arith, omega arith))
    ]

digit_value-hex_digit : (d : ℕ) → d < 16 → digit_value (hex_digit d) ≡ d
digit_value-hex_digit d h = ap digit_value (hex_digit_lem d h) ∙ ground arith

drop-set : (i : ℕ) (b : List ℕ) (c : ℕ) → i < length b → drop i (set b i c) ≡ c ∷ drop (suc i) b
drop-set zero [] c h = absurd (omega arith)
drop-set zero (x ∷ b) c h = refl
drop-set (suc i) [] c h = absurd (omega arith)
drop-set (suc i) (x ∷ b) c h = drop-set i b c (omega arith)

hex_loop_lem : (i v : ℕ) (b : List ℕ) → i ≤ length b → hex_loop i v b ≡ hex_of i v ++ drop i b
unfolding hex_loop
hex_loop_lem zero v b h = refl
hex_loop_lem (suc i) v b h =
    let c = hex_digit (v % 16) in
    hex_loop_lem i (v / 16) (set b i c) (omega (arith, length-set b i c))
    ∙ ap (λ l. hex_of i (v / 16) ++ l) (drop-set i b c (omega arith))
    ∙ sym (append_assoc (hex_of i (v / 16)) (c ∷ []) (drop (suc i) b))

-- How many numbers have `n` hexadecimal digits.
abbrev pub pow16 : ℕ → ℕ
pow16 zero = 1
pow16 (suc n) = 16 * pow16 n

hex_value-append :
    (acc : ℕ) (xs : List ℕ) (c : ℕ)
    → hex_value acc (xs ++ (c ∷ [])) ≡ 16 * hex_value acc xs + digit_value c
hex_value-append acc [] c = refl
hex_value-append acc (x ∷ xs) c = hex_value-append (16 * acc + digit_value x) xs c

-- The digits stand for the number.
hex_value-hex_of : (n v : ℕ) → v < pow16 n → hex_value 0 (hex_of n v) ≡ v
hex_value-hex_of zero v h = omega arith
hex_value-hex_of (suc n) v h =
    let d = hex_digit (v % 16) in
    let high : hex_value 0 (hex_of n (v / 16)) ≡ v / 16 =
      hex_value-hex_of n (v / 16) (omega arith) in
    hex_value-append 0 (hex_of n (v / 16)) d
    ∙ omega (arith, high, digit_value-hex_digit (v % 16) (omega arith))

length-hex_of : (n v : ℕ) → length (hex_of n v) ≡ n
length-hex_of zero v = refl
length-hex_of (suc n) v =
    omega
      (arith, length-append (hex_of n (v / 16)) (hex_digit (v % 16) ∷ []), length-hex_of n (v / 16))

All-append : (P : ℕ → Type 0) (xs ys : List ℕ) → All P xs → All P ys → All P (xs ++ ys)
All-append P [] ys h k = k
All-append P (x ∷ xs) ys h k = (h.0, All-append P xs ys h.1 k)

hex_of-digits : (n v : ℕ) → All IsHexDigit (hex_of n v)
hex_of-digits zero v = tt
hex_of-digits (suc n) v =
    All-append IsHexDigit (hex_of n (v / 16)) (hex_digit (v % 16) ∷ []) (hex_of-digits n (v / 16))
      (hex_digit-IsHexDigit (v % 16) (omega arith), tt)

-- A text of digits is neither cut short nor changed on its way out.
c_string-digits : (cs : List ℕ) → All IsHexDigit cs → c_string (cs ++ (0 ∷ [])) ≡ some cs
unfolding c_string
c_string-digits [] h = refl
c_string-digits (c ∷ cs) h =
    let not_zero : c == 0 ≡ false = ground arith in rw (not_zero, c_string-digits cs h.1) refl

crlf-digits : (cs : List ℕ) → All IsHexDigit cs → crlf cs ≡ cs
unfolding crlf
crlf-digits [] h = refl
crlf-digits (c ∷ cs) h =
    let not_feed : c == b'\n' ≡ false = ground arith in rw (not_feed, crlf-digits cs h.1) refl

hex_text_lem : (n : ℕ) → hex_text n ≡ some (hex_of 8 n)
unfolding hex_text
hex_text_lem n =
    ap (λ l. c_string (set l 8 0)) (hex_loop_lem 8 n (replicate 9 0) (omega arith))
    ∙ c_string-digits (hex_of 8 n) (hex_of-digits 8 n)

-- The line that is printed for a text of digits.
abbrev pub line : List ℕ → List ℕ
line ds = crlf (codes "uart-test: hello from M4 (") ++ (ds ++ crlf (codes ")\n"))

-- If the transmitter drains, one round prints its line: eight hexadecimal digits between the
-- brackets, which stand for the counter.
pub print_line-Puts :
    (reg : ℕ → ℕ → ℕ) (fuel n : ℕ) (b : Bus)
    → Drains reg fuel
    → n < 2 ^ 32
    → (ds : List ℕ) × (length ds ≡ 8)
      × All IsHexDigit ds
      × (hex_value 0 ds ≡ n)
      × Puts (line ds) b (print_line reg fuel n b)
unfolding print_line uart4_puts Option.bind
print_line-Puts reg fuel n b drains h =
    let ds = hex_of 8 n in
    let close = codes ")\n" in
    let puts = Uart.uart4_puts reg fuel in
    let opening = codes "uart-test: hello from M4 (" in
    let digits_out = λ (b' : Bus).
      subst (λ cs. Puts cs b' (puts ds b')) (crlf-digits ds (hex_of-digits 8 n))
        (uart4_puts-Puts reg fuel ds b' drains) in
    (
      ds,
      length-hex_of 8 n,
      hex_of-digits 8 n,
      hex_value-hex_of 8 n (omega arith),
      subst (Puts (line ds) b)
          (sym (
            ap
              (λ o.
                Option.bind (puts opening b)
                  (λ b₁. Option.bind o (λ s. Option.bind (puts s b₁) (puts close))))
              (hex_text_lem n)))
          (Puts-append (crlf opening) (ds ++ crlf close) b
            (λ b₁. Option.bind (puts ds b₁) (puts close))
            (uart4_puts-Puts reg fuel opening b drains)
            (λ b₁.
              Puts-append ds (crlf close) b₁ (puts close) (digits_out b₁)
                (λ b₂. uart4_puts-Puts reg fuel close b₂ drains))),
    )
