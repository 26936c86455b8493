-- ===== src/Infra/Percent/RoundTrip.antt =====
-- Decoding undoes percent-encoding.
use mylobsterpp.Prelude.{
  ℕ, ◌+◌, ◌-◌, ◌/◌, ◌%◌, ◌<◌, ◌≡◌, refl, ap, some, [], ◌∷◌, arith, if◌then◌else◌, ltb, All, Text,
}
use mylobsterpp.Infra.Percent.{hex_digit_value, escaped_byte, decode_step, uri_decode_percent}

abbrev pub IsByte : ℕ → Type 0
IsByte c = c < 256

unfoldable pub hex_digit : ℕ → ℕ
hex_digit n = if ltb n 10 then b'0' + n else b'A' + n - 10

-- The encoding that the decoder is measured against: every byte as an escape.
unfoldable pub percent_encode : Text → Text
unfolding hex_digit
percent_encode [] = []
percent_encode (c ∷ s) = b'%' ∷ hex_digit (c / 16) ∷ hex_digit (c % 16) ∷ percent_encode s

hex_digit_value-hex_digit : (n : ℕ) → n < 16 → hex_digit_value (hex_digit n) ≡ some n
unfolding hex_digit_value hex_digit
hex_digit_value-hex_digit n h = ground arith

escaped_byte-hex :
    (c : ℕ) → c < 256 → escaped_byte (hex_digit (c / 16)) (hex_digit (c % 16)) ≡ some c
unfolding escaped_byte
escaped_byte-hex c h =
    ground (arith, hex_digit_value-hex_digit (c / 16), hex_digit_value-hex_digit (c % 16))

-- Decoding an encoded byte string gives it back.
pub decode-encode : (s : Text) → All IsByte s → uri_decode_percent (percent_encode s) ≡ s
unfolding uri_decode_percent decode_step percent_encode
decode-encode [] h = refl
decode-encode (c ∷ s) h = rw (escaped_byte-hex c h.0) (ap (◌∷◌ c) (decode-encode s h.1))
