-- ===== src/Actuators/Nics/Mac.antt =====
-- The hardware address of actuators/13.c: the number that is read from its text, and the writing of
-- the text.
use hyperagents.Base.{
  ℕ, ◌+◌, ◌*◌, ◌^◌, ◌<◌, ◌≡◌, ◌++◌, refl, sym, ap, ◌∙◌, List, [], ◌∷◌, length, eq→==, arith,
}
use hyperagents.Base.Text.{Bytes}
use hyperagents.Effect.{done, fault, buffer_overflow}
use hyperagents.Actuators.Hex.{hex_byte, digit_value}
use hyperagents.Actuators.Hex.RoundTrip.{scan_hex-hex_byte}
use hyperagents.Actuators.Nics.{scan_fields, join, format_mac, mac_int}

-- Two digits for each byte, with colons between.
abbrev mac_text : Bytes → Bytes
mac_text [] = []
mac_text (b ∷ []) = hex_byte b
mac_text (b ∷ c ∷ rest) = hex_byte b ++ b':' ∷ mac_text (c ∷ rest)

abbrev AreBytes : Bytes → Type 0
AreBytes [] = Unit {0}
AreBytes (b ∷ bs) = (b < 256) × AreBytes bs

-- The number with these bytes, the lowest first.
abbrev le_value : Bytes → ℕ
le_value [] = 0
le_value (b ∷ bs) = b + 256 * le_value bs

scan_fields-mac_text : (bs : Bytes) → AreBytes bs → scan_fields (length bs) (mac_text bs) ≡ bs
unfolding scan_fields digit_value
scan_fields-mac_text [] h = refl
scan_fields-mac_text (b ∷ []) h =
    unfold hex_byte in rw (scan_hex-hex_byte b [] h.0 tt, scan_fields) refl
scan_fields-mac_text (b ∷ c ∷ rest) h =
    rw (scan_hex-hex_byte b (b':' ∷ mac_text (c ∷ rest)) h.0 refl, scan_fields)
      (ap (λ (l : List ℕ). b ∷ l) (scan_fields-mac_text (c ∷ rest) h.1))

join-le_value : (bs : Bytes) → le_value bs < 2 ^ 64 → join bs ≡ le_value bs
unfolding join
join-le_value [] h = refl
join-le_value (b ∷ bs) h = let same = join-le_value bs (omega arith) in omega (arith, same)

le_value_small : (bs : Bytes) → length bs ≡ 6 → AreBytes bs → le_value bs < 2 ^ 64
le_value_small (a ∷ b ∷ c ∷ d ∷ e ∷ f ∷ []) six h = omega arith
le_value_small bs six h = absurd (omega arith)

module _ {Guest : Type 0} (g : Guest) where
  -- The number that is read from the text of six bytes is the one that they spell, the lowest first.
  mac_int-mac_text :
      (bs : Bytes) → length bs ≡ 6 → AreBytes bs → mac_int (mac_text bs) g ≡ done (le_value bs) g
  unfolding mac_int
  mac_int-mac_text bs six h =
      let six_fields : scan_fields 6 (mac_text bs) ≡ bs =
        ap (λ (n : ℕ). scan_fields n (mac_text bs)) (sym six) ∙ scan_fields-mac_text bs h in
      rw (six_fields, eq→== _ _ six)
        (ap (λ (v : ℕ). done v g) (join-le_value bs (le_value_small bs six h)))

  pub format_mac_overflows : (b : ℕ) (bs : Bytes) → format_mac (b ∷ bs) g ≡ fault buffer_overflow
  unfolding format_mac
  format_mac_overflows b [] = refl
  format_mac_overflows b (c ∷ rest) = refl
