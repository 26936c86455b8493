-- ===== src/Cron/Expression/Valid.antt =====
-- A parsed expression has valid fields, and matching looks each field up.
use mylobsterpp.Prelude.{
  ℕ, ◌+◌, ◌<◌, ◌≡◌, ◌≢◌, refl, subst, ◌↔◌, inl, inr, true, List, [], ◌∷◌, ◌++◌, arith, Bool-cases,
  ltb, All, Text, ok, >>=-eq-ok,
}
use mylobsterpp.Cron.Field.{parse_field, month_names, day_names}
use mylobsterpp.Cron.Field.Range.{Occurs}
use mylobsterpp.Cron.Field.Sorted.{Ascends}
use mylobsterpp.Cron.Field.Bounds.{IsGood, NamesInRange, parse_field-IsField}
use mylobsterpp.Cron.Calendar.{to_tm}
use mylobsterpp.Cron.Expression.{
  CronExpression, split_from, split_whitespace, parse_fields, parse_cron, binary_search, matches,
}

abbrev pub IsField : (lo hi : ℕ) → List ℕ → Type 0
IsField lo hi values = Ascends values × IsGood lo hi values

pub record IsValid (expr : CronExpression) : Type 0 where
  pub minutes : IsField 0 59 expr.minutes
  pub hours : IsField 0 23 expr.hours
  pub days : IsField 1 31 expr.days
  pub months : IsField 1 12 expr.months
  pub weekdays : IsField 0 6 expr.weekdays

split_from-ne-nil : (token s : Text) → All (λ t. t ≢ []) (split_from token s)
unfolding split_from
split_from-ne-nil [] [] = tt
split_from-ne-nil (c ∷ token) [] = (λ e. cc, tt)
split_from-ne-nil [] (c ∷ s) = ground (arith, split_from-ne-nil [] s, split_from-ne-nil (c ∷ []) s)
split_from-ne-nil (d ∷ token) (c ∷ s) =
    ground (arith, split_from-ne-nil [] s, split_from-ne-nil ((d ∷ token) ++ c ∷ []) s)

month_names-InRange : NamesInRange 1 12 month_names
month_names-InRange = omega arith

day_names-InRange : NamesInRange 0 6 day_names
day_names-InRange = omega arith

parse_fields-IsValid :
    (fields : List Text) (expr : CronExpression)
    → All (λ t. t ≢ []) fields
    → parse_fields fields ≡ ok expr
    → IsValid expr
unfolding parse_fields
parse_fields-IsValid (f0 ∷ f1 ∷ f2 ∷ f3 ∷ f4 ∷ []) expr ne h =
    let (minutes, e0, h0) = >>=-eq-ok (parse_field f0 0 59 []) _ h in
    let (hours, e1, h1) = >>=-eq-ok (parse_field f1 0 23 []) _ h0 in
    let (days, e2, h2) = >>=-eq-ok (parse_field f2 1 31 []) _ h1 in
    let (months, e3, h3) = >>=-eq-ok (parse_field f3 1 12 month_names) _ h2 in
    let (weekdays, e4, h4) = >>=-eq-ok (parse_field f4 0 6 day_names) _ h3 in
    let parsed : CronExpression = record {
      minutes = minutes;
      hours = hours;
      days = days;
      months = months;
      weekdays = weekdays;
    } in
    let same : parsed ≡ expr = cc in
    subst IsValid same (record {
      minutes = parse_field-IsField 0 59 [] tt (omega arith) f0 minutes ne.0 e0;
      hours = parse_field-IsField 0 23 [] tt (omega arith) f1 hours ne.1.0 e1;
      days = parse_field-IsField 1 31 [] tt (omega arith) f2 days ne.1.1.0 e2;
      months =
          parse_field-IsField 1 12 month_names month_names-InRange (omega arith) f3 months
            ne.1.1.1.0 e3;
      weekdays =
          parse_field-IsField 0 6 day_names day_names-InRange (omega arith) f4 weekdays ne.1.1.1.1.0
            e4;
    })
parse_fields-IsValid fields expr ne h = cc

-- An expression that parses has five valid fields: ascending values in the field's range, not none.
pub parse_cron-IsValid :
    (text : Text) (expr : CronExpression) → parse_cron text ≡ ok expr → IsValid expr
unfolding parse_cron
parse_cron-IsValid text expr h =
    parse_fields-IsValid (split_whitespace text) expr (split_from-ne-nil [] text) h

above-absent : (x v : ℕ) (xs : List ℕ) → v < x → All (λ y. x < y) xs → ¬ Occurs v (x ∷ xs)
above-absent x v xs lt h (inl e) = omega arith
above-absent x v [] lt h (inr m) = elim m [ ]
above-absent x v (y ∷ xs) lt h (inr (inl e)) = omega arith
above-absent x v (y ∷ xs) lt h (inr (inr m)) = above-absent x v xs lt h.1 (inr m)

binary_search_iff : (xs : List ℕ) (v : ℕ) → Ascends xs → (binary_search xs v ≡ true) ↔ Occurs v xs
unfolding binary_search
binary_search_iff [] v h = (λ e. cc, λ m. absurd m)
binary_search_iff (x ∷ xs) v h = elim (Bool-cases (ltb x v)) [
  | inl below ↦
      let ih = binary_search_iff xs v h.1 in
      rw below
        (λ e. inr (ih.0 e), λ m. elim m [ inl e ↦ absurd (ground arith) | inr later ↦ ih.1 later ])
  | inr not_below ↦ rw not_below (elim (Bool-cases (ltb v x)) [
    | inl above ↦ rw above (λ e. cc, λ m. absurd (above-absent x v xs (ground arith) h.0 m))
    | inr here ↦ rw here (λ _. inl (ground arith), λ _. refl)
  ])
]

-- A valid expression matches a time exactly when each of its fields holds the time's component.
pub matches_iff :
    (expr : CronExpression) (t : ℕ)
    → IsValid expr
    → (matches expr t ≡ true) ↔ (
        Occurs (to_tm t).min expr.minutes
        × Occurs (to_tm t).hour expr.hours
        × Occurs (to_tm t).mday expr.days
        × Occurs ((to_tm t).mon + 1) expr.months
        × Occurs (to_tm t).wday expr.weekdays)
unfolding matches
matches_iff expr t v =
    let a = binary_search_iff expr.minutes (to_tm t).min v.minutes.0 in
    let b = binary_search_iff expr.hours (to_tm t).hour v.hours.0 in
    let c = binary_search_iff expr.days (to_tm t).mday v.days.0 in
    let d = binary_search_iff expr.months ((to_tm t).mon + 1) v.months.0 in
    let e = binary_search_iff expr.weekdays (to_tm t).wday v.weekdays.0 in
    (
      λ h. (
        a.0 (ground arith),
        b.0 (ground arith),
        c.0 (ground arith),
        d.0 (ground arith),
        e.0 (ground arith),
      ),
      λ m. rw (a.1 m.0, b.1 m.1, c.1 m.2, d.1 m.3, e.1 m.4),
    )
