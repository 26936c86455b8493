-- ===== src/Infra/Dotenv/RoundTrip.antt =====
-- A value in double quotes is read back.
use mylobsterpp.Prelude.{
  ℕ, ◌≡◌, refl, ap, sym, ◌∙◌, arith, inl, inr, true, false, ◌||◌, ◌==◌, Bool-cases, [], ◌∷◌, ◌++◌,
  if◌then◌else◌, Text,
}
use mylobsterpp.Infra.Dotenv.{unescaped, parse_quoted_value}

-- A byte as it is written between double quotes.
abbrev escape : ℕ → Text
escape c = if c == b'"' || c == 92 then 92 ∷ c ∷ [] else c ∷ []

abbrev pub quoted : Text → Text
quoted [] = b'"' ∷ []
quoted (c ∷ s) = escape c ++ quoted s

nonempty : (s t : Text) → (d : ℕ) × (line : Text) × (quoted s ++ t ≡ d ∷ line)
nonempty [] t = (b'"', t, refl)
nonempty (c ∷ s) t = elim (Bool-cases (c == b'"' || c == 92)) [
  | inl e ↦ rw e (92, c ∷ (quoted s ++ t), refl)
  | inr e ↦ rw e (c, quoted s ++ t, refl)
]

escaped-back :
    (c : ℕ) (line : Text)
    → ((c == b'"' || c == 92) ≡ true)
    → parse_quoted_value (92 ∷ c ∷ line) b'"' ≡ c ∷ parse_quoted_value line b'"'
unfolding parse_quoted_value unescaped
escaped-back c line e = ground arith

plain-back :
    (c d : ℕ) (line : Text)
    → ((c == b'"' || c == 92) ≡ false)
    → parse_quoted_value (c ∷ d ∷ line) b'"' ≡ c ∷ parse_quoted_value (d ∷ line) b'"'
unfolding parse_quoted_value
plain-back c d line e = ground arith

-- A value that is written in double quotes, with a backslash before each quote and each backslash, is
-- read back as it was, whatever follows the closing quote.
pub parse_quoted_value-quoted : (s t : Text) → parse_quoted_value (quoted s ++ t) b'"' ≡ s
unfolding parse_quoted_value
parse_quoted_value-quoted [] [] = refl
parse_quoted_value-quoted [] (c ∷ t) = refl
parse_quoted_value-quoted (c ∷ s) t = elim (Bool-cases (c == b'"' || c == 92)) [
  | inl e ↦ rw e (escaped-back c (quoted s ++ t) e ∙ ap (◌∷◌ c) (parse_quoted_value-quoted s t))
  | inr e ↦
      let (d, line, same) = nonempty s t in
      rw e (
        ap (λ l. parse_quoted_value (c ∷ l) b'"') same
        ∙ plain-back c d line e
        ∙ ap (◌∷◌ c)
            (ap (λ l. parse_quoted_value l b'"') (sym same) ∙ parse_quoted_value-quoted s t))
]
