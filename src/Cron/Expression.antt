-- ===== src/Cron/Expression.antt =====
-- cron/parser.cpp, lines 181 to 310, and parser.hpp: whole cron expressions, matching and the next
-- occurrence.
pub mod Valid
pub mod Next
use mylobsterpp.Prelude.{
  ℕ, zero, suc, ◌+◌, ◌*◌, Bool, true, false, not, ◌&&◌, ◌||◌, List, [], ◌∷◌, ◌++◌, ltb, ◌==◌,
  if◌then◌else◌, Text, Result, ok, fail, ◌>>=◌, invalid_argument,
}
use mylobsterpp.Cron.Field.{parse_field, month_names, day_names}
use mylobsterpp.Cron.Calendar.{Tm, to_tm, from_tm}

pub record CronExpression : Type 0 where
  pub minutes : List ℕ
  pub hours : List ℕ
  pub days : List ℕ
  pub months : List ℕ
  pub weekdays : List ℕ

abbrev is_blank : ℕ → Bool
is_blank c = c == b' ' || c == 9

abbrev emit : Text → List Text → List Text
emit [] tokens = tokens
emit (c ∷ token) tokens = (c ∷ token) ∷ tokens

-- `token` is what stands between the last blank and here.
unfoldable pub split_from : (token s : Text) → List Text
split_from token [] = emit token []
split_from token (c ∷ s) =
    let closed = split_from [] s in
    let longer = split_from (token ++ c ∷ []) s in if is_blank c then emit token closed else longer

unfoldable pub split_whitespace : Text → List Text
unfolding split_from
split_whitespace s = split_from [] s

abbrev wrong_count : Result CronExpression
wrong_count = fail invalid_argument "Cron expression must have exactly 5 fields"

unfoldable pub parse_fields : List Text → Result CronExpression
parse_fields (f0 ∷ f1 ∷ f2 ∷ f3 ∷ f4 ∷ []) = do
  minutes ← parse_field f0 0 59 []
  hours ← parse_field f1 0 23 []
  days ← parse_field f2 1 31 []
  months ← parse_field f3 1 12 month_names
  weekdays ← parse_field f4 0 6 day_names
  ok (record {
    minutes = minutes;
    hours = hours;
    days = days;
    months = months;
    weekdays = weekdays;
  })
parse_fields _ = wrong_count

unfoldable pub parse_cron : Text → Result CronExpression
unfolding split_whitespace parse_fields
parse_cron expr = parse_fields (split_whitespace expr)

-- `std::binary_search`: is the first item that is not below the value equal to it?
unfoldable pub binary_search : List ℕ → ℕ → Bool
binary_search [] val = false
binary_search (x ∷ v) val = if ltb x val then binary_search v val else not (ltb val x)

unfoldable pub matches : CronExpression → (t : ℕ) → Bool
matches expr t =
    let tm = to_tm t in
    binary_search expr.minutes tm.min
    && binary_search expr.hours tm.hour
    && binary_search expr.days tm.mday
    && binary_search expr.months (tm.mon + 1)
    && binary_search expr.weekdays tm.wday

abbrev pub max_iterations : ℕ
max_iterations = 4 * 366 * 24 * 60

-- The loop over the minutes, with the rounds that are left.
unfoldable pub search_minutes : (rounds : ℕ) → CronExpression → (candidate : ℕ) → ℕ
search_minutes zero expr candidate = candidate
search_minutes (suc rounds) expr candidate =
    let later = search_minutes rounds expr (candidate + 60) in
    if matches expr candidate then candidate else later

-- The start of the next minute.
unfoldable pub first_candidate : (from : ℕ) → ℕ
first_candidate from = let tm = to_tm from in from_tm (record tm { sec = 0; min = tm.min + 1 })

unfoldable pub next_occurrence : CronExpression → (from : ℕ) → ℕ
next_occurrence expr from = search_minutes max_iterations expr (first_candidate from)
