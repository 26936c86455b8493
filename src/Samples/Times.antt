-- ===== src/Samples/Times.antt =====
-- Samples for cron fields, expressions and times.
use mylobsterpp.Prelude.{
  int_max, ℕ, ◌+◌, ◌*◌, ◌/◌, ◌<◌, ◌≤◌, ◌≡◌, refl, ◌↔◌, inl, inr, true, false, List, [], ◌∷◌, arith,
  All, Text, codes, Result, ok, undefined,
}
use mylobsterpp.Cron.Field.{range_values, parse_field}
use mylobsterpp.Cron.Field.Range.{Occurs}
use mylobsterpp.Cron.Field.Sorted.{Ascends}
use mylobsterpp.Cron.Field.Bounds.{InRange}
use mylobsterpp.Cron.Field.RoundTrip.{render, parse_field-render}
use mylobsterpp.Cron.Calendar.{to_tm}
use mylobsterpp.Cron.Expression.{
  CronExpression, parse_cron, matches, max_iterations, next_occurrence,
}
use mylobsterpp.Cron.Expression.Valid.{IsValid, parse_cron-IsValid, matches_iff}
use mylobsterpp.Cron.Expression.Next.{IsFirst, next_occurrence-IsFirst}

ascending : Ascends (3 ∷ 17 ∷ [])
ascending = omega arith

inside : All (InRange 0 59) (3 ∷ 17 ∷ [])
inside = omega arith

parse_field-render_example : parse_field (render (3 ∷ 17 ∷ [])) 0 59 [] ≡ ok (3 ∷ 17 ∷ [])
parse_field-render_example = parse_field-render 0 59 (omega arith) [] (3 ∷ 17 ∷ []) ascending inside

-- `0 0 1 1 0`: midnight of January the first, on Sundays.
abbrev new_year : CronExpression
new_year = record {
  minutes = 0 ∷ [];
  hours = 0 ∷ [];
  days = 1 ∷ [];
  months = 1 ∷ [];
  weekdays = 0 ∷ [];
}

new_year_parsed : parse_cron (codes "0 0 1 JAN sun") ≡ ok new_year
unfolding parse_cron parse_field mylobsterpp.Cron.Field.parse_element mylobsterpp.Prelude.break_byte
    mylobsterpp.Prelude.text_eq mylobsterpp.Cron.Field.resolve_value mylobsterpp.Prelude.sort_by
new_year_parsed = refl

parse_cron-IsValid_example : IsValid new_year
parse_cron-IsValid_example = parse_cron-IsValid (codes "0 0 1 JAN sun") new_year new_year_parsed

new_year-IsValid : IsValid new_year
new_year-IsValid = parse_cron-IsValid (codes "0 0 1 JAN sun") new_year new_year_parsed

matches_iff_example : (matches new_year 1000000000 ≡ true) ↔ (
    Occurs (to_tm 1000000000).min new_year.minutes
    × Occurs (to_tm 1000000000).hour new_year.hours
    × Occurs (to_tm 1000000000).mday new_year.days
    × Occurs ((to_tm 1000000000).mon + 1) new_year.months
    × Occurs (to_tm 1000000000).wday new_year.weekdays)
matches_iff_example = matches_iff new_year 1000000000 new_year-IsValid

next_occurrence-IsFirst_example :
    IsFirst new_year
      ((1000000000 / 60 + 1) * 60)
      max_iterations
      (next_occurrence new_year 1000000000)
next_occurrence-IsFirst_example = next_occurrence-IsFirst new_year 1000000000
