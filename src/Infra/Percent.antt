-- ===== src/Infra/Percent.antt =====
-- infra/path_alias_guards.cpp, lines 19 to 80 and 148 to 169: percent-decoding of request paths and
-- the screen that a path passes before it reaches the file system. Texts are lists of bytes.
pub mod Laws
pub mod RoundTrip
pub mod NullByte
use mylobsterpp.Prelude.{
  ℕ, zero, suc, ◌+◌, ◌-◌, ◌*◌, Bool, true, false, not, ◌&&◌, ◌||◌, Option, none, some, [], ◌∷◌, leb,
  ◌==◌, if◌then◌else◌, Text, text_eq, has_byte, Result, ok, fail, forbidden,
}

-- `none` stands for the source's -1.
unfoldable pub hex_digit_value : ℕ → Option ℕ
hex_digit_value c =
    if leb b'0' c && leb c b'9'
    then some (c - b'0')
    else if leb b'a' c && leb c b'f'
    then some (c - b'a' + 10)
    else if leb b'A' c && leb c b'F'
    then some (c - b'A' + 10)
    else none

-- The byte of the escape `%ab`, or `none` where `a` and `b` are not both hexadecimal digits.
unfoldable pub escaped_byte : ℕ → ℕ → Option ℕ
escaped_byte a b = elim (hex_digit_value a) [
  | none ↦ none
  | some hi ↦ elim (hex_digit_value b) [ none ↦ none | some lo ↦ some (hi * 16 + lo) ]
]

abbrev pub is_hex_digit : ℕ → Bool
is_hex_digit c = elim (hex_digit_value c) [ none ↦ false | some _ ↦ true ]

-- One round of the loop at `%`, given the two ways to go on.
unfoldable pub decode_step : (c a b : ℕ) → (skipped kept : Text) → Text
decode_step c a b skipped kept =
    if c == b'%'
    then elim (escaped_byte a b) [ none ↦ c ∷ kept | some x ↦ x ∷ skipped ]
    else c ∷ kept

unfoldable pub uri_decode_percent : Text → Text
uri_decode_percent [] = []
uri_decode_percent (c ∷ a ∷ b ∷ rest) =
    let skipped = uri_decode_percent rest in
    let kept = uri_decode_percent (a ∷ b ∷ rest) in decode_step c a b skipped kept
uri_decode_percent (c ∷ rest) = c ∷ uri_decode_percent rest

unfoldable pub iterative_uri_decode : Text → (max_passes : ℕ) → Text
iterative_uri_decode current zero = current
iterative_uri_decode current (suc passes) =
    let decoded = uri_decode_percent current in
    let later = iterative_uri_decode decoded passes in
    if text_eq decoded current then current else later

unfoldable pub malformed_escape : ℕ → ℕ → Bool
malformed_escape a b = not (is_hex_digit a) || not (is_hex_digit b) || a == b'0' && b == b'0'

unfoldable pub has_malformed_percent_encoding : Text → Bool
has_malformed_percent_encoding [] = false
has_malformed_percent_encoding (c ∷ a ∷ b ∷ rest) =
    let skipped = has_malformed_percent_encoding rest in
    let kept = has_malformed_percent_encoding (a ∷ b ∷ rest) in
    if c == b'%' then if malformed_escape a b then true else skipped else kept
has_malformed_percent_encoding (c ∷ rest) =
    if c == b'%' then true else has_malformed_percent_encoding rest

-- The default argument of `iterative_uri_decode`.
abbrev pub default_passes : ℕ
default_passes = 3

-- The first part of `assert_no_path_alias_escape`: the decoded path, or the refusal.
unfoldable pub decode_checked : Text → Result Text
decode_checked path =
    if has_malformed_percent_encoding path
    then fail forbidden "Path contains malformed percent-encoding"
    else let decoded = iterative_uri_decode path default_passes in
      if has_byte b'%' decoded && not (text_eq decoded path)
      then fail forbidden "Path contains unresolvable percent-encoding"
      else ok decoded
