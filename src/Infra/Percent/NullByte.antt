-- ===== src/Infra/Percent/NullByte.antt =====
-- A null byte passes the screen when its escape is itself escaped.
use mylobsterpp.Prelude.{
  ℕ, ◌≡◌, refl, ap, ◌∙◌, ◌≢◌, [], ◌∷◌, ◌++◌, arith, Text, codes, text_eq_iff, has_byte-Lacks, Lacks,
  ok, false, All-append, length-append,
}
use mylobsterpp.Infra.Percent.{
  hex_digit_value, escaped_byte, decode_step, malformed_escape, uri_decode_percent,
  iterative_uri_decode, has_malformed_percent_encoding, decode_checked, default_passes,
}
use mylobsterpp.Infra.Percent.Laws.{decode-Lacks, malformed-Lacks}

decode-cons : (c : ℕ) (s : Text) → c ≢ b'%' → uri_decode_percent (c ∷ s) ≡ c ∷ uri_decode_percent s
unfolding uri_decode_percent decode_step
decode-cons c [] h = refl
decode-cons c (a ∷ []) h = refl
decode-cons c (a ∷ b ∷ s) h = ground arith

decode-append :
    (s t : Text) → Lacks b'%' s → uri_decode_percent (s ++ t) ≡ s ++ uri_decode_percent t
decode-append [] t h = refl
decode-append (c ∷ s) t h = ground (arith, decode-cons c (s ++ t), decode-append s t)

malformed-cons :
    (c : ℕ) (s : Text)
    → c ≢ b'%'
    → has_malformed_percent_encoding (c ∷ s) ≡ has_malformed_percent_encoding s
unfolding has_malformed_percent_encoding
malformed-cons c [] h = ground arith
malformed-cons c (a ∷ []) h = ground arith
malformed-cons c (a ∷ b ∷ s) h = ground arith

malformed-append :
    (s t : Text)
    → Lacks b'%' s
    → has_malformed_percent_encoding (s ++ t) ≡ has_malformed_percent_encoding t
malformed-append [] t h = refl
malformed-append (c ∷ s) t h = malformed-cons c (s ++ t) h.0 ∙ malformed-append s t h.1

-- The escape of `%00`, as it stands after each pass.
abbrev twice : Text
twice = codes "%2500"

abbrev once : Text
once = codes "%00"

twice-decoded : (t : Text) → Lacks b'%' t → uri_decode_percent (twice ++ t) ≡ once ++ t
unfolding uri_decode_percent decode_step escaped_byte hex_digit_value
twice-decoded t h = ap (◌∷◌ b'%') (decode-Lacks (b'0' ∷ b'0' ∷ t) (omega arith, (omega arith, h)))

once-decoded : (t : Text) → Lacks b'%' t → uri_decode_percent (once ++ t) ≡ 0 ∷ t
unfolding uri_decode_percent decode_step escaped_byte hex_digit_value
once-decoded t h = ap (◌∷◌ 0) (decode-Lacks t h)

twice-malformed : (t : Text) → Lacks b'%' t → has_malformed_percent_encoding (twice ++ t) ≡ false
unfolding has_malformed_percent_encoding malformed_escape hex_digit_value
twice-malformed t h = malformed-Lacks (b'0' ∷ b'0' ∷ t) (omega arith, (omega arith, h))

-- The two passes, behind a text without percent signs.
module _ (s t : Text) (hs : Lacks b'%' s) (ht : Lacks b'%' t) where
  first_pass : uri_decode_percent (s ++ (twice ++ t)) ≡ s ++ (once ++ t)
  first_pass = decode-append s (twice ++ t) hs ∙ ap (◌++◌ s) (twice-decoded t ht)

  second_pass : uri_decode_percent (s ++ (once ++ t)) ≡ s ++ 0 ∷ t
  second_pass = decode-append s (once ++ t) hs ∙ ap (◌++◌ s) (once-decoded t ht)

  decoded-Lacks : Lacks b'%' (s ++ 0 ∷ t)
  decoded-Lacks = All-append (λ x. x ≢ b'%') s (0 ∷ t) hs (omega arith, ht)

  passes : iterative_uri_decode (s ++ (twice ++ t)) default_passes ≡ s ++ 0 ∷ t
  unfolding iterative_uri_decode
  passes = ground (
    arith,
    first_pass,
    second_pass,
    text_eq_iff (uri_decode_percent (s ++ (twice ++ t))) (s ++ (twice ++ t)),
    text_eq_iff (uri_decode_percent (s ++ (once ++ t))) (s ++ (once ++ t)),
    text_eq_iff (uri_decode_percent (s ++ 0 ∷ t)) (s ++ 0 ∷ t),
    decode-Lacks (s ++ 0 ∷ t) decoded-Lacks,
    length-append {0} s (twice ++ t),
    length-append {0} s (once ++ t),
    length-append {0} s (0 ∷ t),
  )

  -- Between texts without percent signs, `%2500` passes the screen and becomes a null byte.
  pub decode_checked-null : decode_checked (s ++ (codes "%2500" ++ t)) ≡ ok (s ++ 0 ∷ t)
  unfolding decode_checked
  decode_checked-null =
      rw
        (
          malformed-append s (twice ++ t) hs,
          twice-malformed t ht,
          passes,
          (has_byte-Lacks b'%' _).1 decoded-Lacks,
        )
        refl
