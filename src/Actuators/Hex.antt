-- ===== src/Actuators/Hex.antt =====
-- The hexadecimal texts of actuators/13.c and actuators/15.c: printf's "%02x" and sscanf's "%x".
pub mod RoundTrip
use hyperagents.Base.{
  ℕ, zero, suc, ◌+◌, ◌-◌, ◌*◌, ◌/◌, ◌%◌, ◌++◌, Option, none, some, List, [], ◌∷◌, ltb, ◌==◌, ◌&&◌,
  if◌then◌else◌,
}
use hyperagents.Base.Text.{Bytes}

-- A digit below 16.
unfoldable pub hex_digit : ℕ → ℕ
hex_digit n = if ltb n 10 then b'0' + n else b'a' + (n - 10)

-- "%02x" of a uint8_t.
unfoldable pub hex_byte : ℕ → Bytes
unfolding hex_digit
hex_byte a = hex_digit (a / 16) ∷ hex_digit (a % 16) ∷ []

-- The value of a hexadecimal digit in small letters, which is all that "%02x" writes.
unfoldable pub digit_value : ℕ → Option ℕ
digit_value c =
    if ltb c b'0'
    then none
    else if ltb c (b'9' + 1)
    then some (c - b'0')
    else if ltb c b'a'
    then none
    else if ltb c (b'f' + 1)
    then some (c - b'a' + 10)
    else none

-- The digits from here on, behind those read into `acc`, and what follows them.
unfoldable pub scan_digits : ℕ → Bytes → ℕ × Bytes
scan_digits acc [] = (acc, [])
scan_digits acc (c ∷ cs) = elim (digit_value c) [
  | none ↦ (acc, c ∷ cs)
  | some v ↦ scan_digits (acc * 16 + v) cs
]

-- One "%x": at least one digit.
unfoldable pub scan_hex : Bytes → Option (ℕ × Bytes)
unfolding scan_digits
scan_hex [] = none
scan_hex (c ∷ cs) = elim (digit_value c) [ none ↦ none | some v ↦ some (scan_digits v cs) ]
