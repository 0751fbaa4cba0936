-- ===== src/Actuators/Hex/RoundTrip.antt =====
-- What "%x" reads of what "%02x" wrote.
use hyperagents.Base.{ℕ, ◌+◌, ◌*◌, ◌/◌, ◌%◌, ◌<◌, ◌≡◌, ◌++◌, refl, ap, none, some, [], ◌∷◌, arith}
use hyperagents.Base.Text.{Bytes}
use hyperagents.Actuators.Hex.{hex_digit, hex_byte, digit_value, scan_digits, scan_hex}

digit_value-hex_digit : (n : ℕ) → n < 16 → digit_value (hex_digit n) ≡ some n
unfolding digit_value hex_digit
digit_value-hex_digit n h = ground arith

-- No digit follows.
abbrev pub Ends : Bytes → Type 0
Ends [] = Unit {0}
Ends (c ∷ cs) = digit_value c ≡ none

scan_digits-Ends : (acc : ℕ) (rest : Bytes) → Ends rest → scan_digits acc rest ≡ (acc, rest)
unfolding scan_digits
scan_digits-Ends acc [] h = refl
scan_digits-Ends acc (c ∷ cs) h = rw (h, scan_digits) refl

pub scan_hex-hex_byte :
    (a : ℕ) (rest : Bytes) → a < 256 → Ends rest → scan_hex (hex_byte a ++ rest) ≡ some (a, rest)
unfolding scan_hex hex_byte scan_digits
scan_hex-hex_byte a rest h stop =
    let high : a / 16 < 16 = omega arith in
    let low : a % 16 < 16 = omega arith in
    let back : a / 16 * 16 + a % 16 ≡ a = omega arith in
    rw (digit_value-hex_digit (a / 16) high, scan_hex)
      (rw (digit_value-hex_digit (a % 16) low, scan_digits)
        (rw (scan_digits-Ends (a / 16 * 16 + a % 16) rest stop)
          (ap (λ (v : ℕ). some (v, rest)) back)))
