-- ===== src/Base/Text.antt =====
-- C strings and std::string as lists of bytes, and the decimal digits that sprintf and
-- std::to_string write for a number that is not negative.
use Prim.Native.Char.{code}
use Prim.Native.String.{String}
use Prim.Native.Nat.{ℕ, zero, suc, ◌+◌, ◌-◌, ◌*◌, ◌/◌, ◌%◌, ◌^◌, ◌≤◌, ◌<◌}
use mathlib.Core.Path.{◌≡◌, refl, sym, ap, ◌∙◌}
use mathlib.Core.Logic.{inl, inr}
use mathlib.Core.List.{List, [], ◌∷◌, ◌++◌}
use native.Mathlib.Nat.{pow-suc}
use native.Mathlib.Omega.{arith}
use hyperagents.Base.Tests.{ltb, if◌then◌else◌, Bool-cases}
use hyperagents.Base.Lists.{length, length-append}

abbrev pub Bytes : Type 0
Bytes = List ℕ

-- The bytes of a text in ASCII. `String` has its own `[]` and `∷`.
abbrev pub codes : String → Bytes
codes String.[] = []
codes (String.◌∷◌ c s) = code c ∷ codes s

-- The digits of a number below the fuel, which is one more than the number.
unfoldable pub digits : ℕ → ℕ → Bytes
digits zero n = []
digits (suc fuel) n =
    let rest = digits fuel (n / 10) in
    if ltb n 10 then (b'0' + n) ∷ [] else rest ++ (b'0' + n % 10) ∷ []

unfoldable pub to_string : ℕ → Bytes
unfolding digits
to_string n = digits (suc n) n

-- The number that a row of digits stands for, after the digits read so far.
read_from : ℕ → Bytes → ℕ
read_from acc [] = acc
read_from acc (d ∷ ds) = read_from (acc * 10 + (d - b'0')) ds

read_from-append :
    (acc : ℕ) (ds : Bytes) (d : ℕ)
    → read_from acc (ds ++ d ∷ []) ≡ read_from acc ds * 10 + (d - b'0')
unfolding read_from
read_from-append acc [] d = refl
read_from-append acc (e ∷ ds) d = read_from-append (acc * 10 + (e - b'0')) ds d

read_from-digits : (fuel n : ℕ) → n < fuel → read_from 0 (digits fuel n) ≡ n
unfolding digits
read_from-digits zero n h = elim h [ ]
read_from-digits (suc fuel) n h = elim (Bool-cases (ltb n 10)) [
  | inl small ↦ rw small (unfold read_from in omega arith)
  | inr large ↦
      rw (large, read_from-append 0 (digits fuel (n / 10)) (b'0' + n % 10))
        (ground (arith, read_from-digits fuel (n / 10)))
]

-- Different numbers have different texts.
pub to_string-injective : (m n : ℕ) → to_string m ≡ to_string n → m ≡ n
unfolding to_string
to_string-injective m n e =
    sym (read_from-digits (suc m) m (omega arith))
    ∙ ap (read_from 0) e
    ∙ read_from-digits (suc n) n (omega arith)

length-digits : (k fuel n : ℕ) → n < 10 ^ suc k → length (digits fuel n) ≤ suc k
unfolding digits
length-digits k zero n h = omega arith
length-digits zero (suc fuel) n h = ground arith
length-digits (suc k) (suc fuel) n h =
    let h' : n / 10 < 10 ^ suc k = omega (arith, pow-suc 10 (suc k)) in
    ground (
      arith,
      length-append (digits fuel (n / 10)) ((b'0' + n % 10) ∷ []),
      length-digits k fuel (n / 10) h',
    )

-- A number of at most `suc k` digits takes at most that many bytes.
pub length-to_string : (k n : ℕ) → n < 10 ^ suc k → length (to_string n) ≤ suc k
unfolding to_string
length-to_string k n h = length-digits k (suc n) n h
