-- ===== src/Cron/Field/RoundTrip.antt =====
-- A list of values, written with commas, parses to itself.
use mathlib.Core.List.{append_assoc, append-nil}
use mylobsterpp.Prelude.{
  pos, ℕ, ◌+◌, ◌/◌, ◌%◌, ◌<◌, ◌≡◌, ◌≢◌, refl, ap, sym, ◌∙◌, false, none, some, List, [], ◌∷◌, ◌++◌,
  map, arith, ltb, if◌then◌else◌, All, All-map, Text, codes, text_eq, Lacks, break_byte-Lacks, ok,
}
use mylobsterpp.Cron.Field.{
  Names, from_chars, named_value, resolve_value, split_step, parse_single, parse_unstepped,
  parse_element, pieces_from, parse_elements, parse_field,
}
use mylobsterpp.Cron.Field.Sorted.{Ascends, sorted_unique-of_Ascends}
use mylobsterpp.Cron.Field.Bounds.{InRange}

-- A number below 100 in decimal.
unfoldable pub print : ℕ → Text
print v = if ltb v 10 then (b'0' + v) ∷ [] else (b'0' + v / 10) ∷ (b'0' + v % 10) ∷ []

unfoldable pub render : List ℕ → Text
unfolding print
render [] = []
render (v ∷ []) = print v
render (v ∷ w ∷ values) = print v ++ b',' ∷ render (w ∷ values)

print-Lacks : (c v : ℕ) → v < 100 → c < b'0' → Lacks c (print v)
unfolding print
print-Lacks c v h k = ground arith

print-ne-nil : (v : ℕ) → print v ≢ []
unfolding print
print-ne-nil v = ground arith

print-not-star : (v : ℕ) → v < 100 → text_eq (print v) (codes "*") ≡ false
unfolding print text_eq
print-not-star v h = ground arith

from_chars-print : (v : ℕ) → v < 100 → from_chars (print v) ≡ some (pos v)
unfolding print from_chars
from_chars-print v h = ground arith

named_value-print : (v : ℕ) (names : Names) → named_value (print v) names ≡ none
unfolding print named_value
named_value-print v names = ground arith

-- The text up to a comma is one piece.
pieces-append :
    (part p rest : Text)
    → Lacks b',' p
    → rest ≢ []
    → pieces_from part (p ++ b',' ∷ rest) ≡ (part ++ p) ∷ pieces_from [] rest
unfolding pieces_from
pieces-append part [] [] h ne = absurd (ne refl)
pieces-append part [] (r ∷ rest) h ne =
    ap (λ x. x ∷ pieces_from [] (r ∷ rest)) (sym (append-nil part))
pieces-append part (c ∷ []) rest h ne =
    ground (arith, pieces-append (part ++ c ∷ []) [] rest tt ne, append-nil (part ++ c ∷ []))
pieces-append part (c ∷ d ∷ p) rest h ne =
    ground (
      arith,
      pieces-append (part ++ c ∷ []) (d ∷ p) rest h.1 ne,
      append_assoc part (c ∷ []) (d ∷ p),
    )

pieces-whole : (part p : Text) → Lacks b',' p → p ≢ [] → pieces_from part p ≡ (part ++ p) ∷ []
unfolding pieces_from
pieces-whole part [] h ne = absurd (ne refl)
pieces-whole part (c ∷ []) h ne = ground arith
pieces-whole part (c ∷ d ∷ p) h ne =
    ground (arith, pieces-whole (part ++ c ∷ []) (d ∷ p) h.1, append_assoc part (c ∷ []) (d ∷ p))

render-ne-nil : (v : ℕ) (values : List ℕ) → render (v ∷ values) ≢ []
unfolding render
render-ne-nil v [] = print-ne-nil v
render-ne-nil v (w ∷ values) = append-ne-nil (print v) (print-ne-nil v)
  where
    append-ne-nil : (p : Text) → p ≢ [] → p ++ b',' ∷ render (w ∷ values) ≢ []
    append-ne-nil [] h = absurd (h refl)
    append-ne-nil (c ∷ p) h = cc

pieces-render :
    (values : List ℕ)
    → All (λ v. v < 100) values
    → pieces_from [] (render values) ≡ map print values
unfolding render pieces_from
pieces-render [] h = refl
pieces-render (v ∷ []) h =
    pieces-whole [] (print v) (print-Lacks b',' v h.0 (omega arith)) (print-ne-nil v)
pieces-render (v ∷ w ∷ values) h =
    pieces-append [] (print v) (render (w ∷ values)) (print-Lacks b',' v h.0 (omega arith))
      (render-ne-nil w values)
    ∙ ap (λ x. print v ∷ x) (pieces-render (w ∷ values) h.1)

module _ (lo hi : ℕ) (small : hi < 100) (names : Names) where
  resolve_value-print : (v : ℕ) → InRange lo hi v → resolve_value (print v) lo hi names ≡ ok v
  unfolding resolve_value
  resolve_value-print v h = ground (arith, named_value-print v names, from_chars-print v)

  split_step-print : (v : ℕ) → v < 100 → split_step (print v) ≡ ok (print v, 1)
  unfolding split_step
  split_step-print v h =
      ground (arith, break_byte-Lacks b'/' (print v) (print-Lacks b'/' v h (omega arith)))

  parse_unstepped-print :
      (v : ℕ) → InRange lo hi v → parse_unstepped (print v) 1 lo hi names ≡ ok (v ∷ [])
  unfolding parse_unstepped parse_single
  parse_unstepped-print v h =
      let below : v < 100 = omega arith in
      ground (
        arith,
        print-not-star v below,
        break_byte-Lacks b'-' (print v) (print-Lacks b'-' v below (omega arith)),
        resolve_value-print v h,
      )

  parse_element-print :
      (v : ℕ) → InRange lo hi v → parse_element (print v) lo hi names ≡ ok (v ∷ [])
  unfolding parse_element
  parse_element-print v h = rw (split_step-print v (omega arith)) (parse_unstepped-print v h)

  parse_elements-print :
      (values : List ℕ)
      → All (InRange lo hi) values
      → parse_elements (map print values) lo hi names ≡ ok values
  unfolding parse_elements
  parse_elements-print [] h = refl
  parse_elements-print (v ∷ values) h =
      rw (parse_element-print v h.0, parse_elements-print values h.1)

  -- Ascending values of a range below 100, printed in decimal and joined by commas, parse to
  -- themselves.
  pub parse_field-render :
      (values : List ℕ)
      → Ascends values
      → All (InRange lo hi) values
      → parse_field (render values) lo hi names ≡ ok values
  unfolding parse_field
  parse_field-render values sorted h = rw (
    pieces-render values (All-map values (λ v k. omega (arith, small, k)) h),
    parse_elements-print values h,
    sorted_unique-of_Ascends values sorted,
  )
