-- ===== src/Cron/Calendar/Laws.antt =====
-- The calendar is a round trip, and its fields lie in their ranges.
use native.Mathlib.Numerals.{add-one}
use mylobsterpp.Prelude.{
  ℕ, zero, suc, ◌+◌, ◌-◌, ◌/◌, ◌≤◌, ◌<◌, ◌≡◌, refl, inl, inr, Bool, true, false, List, [], ◌∷◌,
  arith, Bool-cases, ltb, length, All,
}
use mylobsterpp.Cron.Calendar.{
  Tm, is_leap, year_length, month_lengths, split_year, split_month, to_tm, days_before_year,
  days_before_month, from_tm,
}

days_before_year-next :
    (year : ℕ) → days_before_year (year + 1) ≡ days_before_year year + year_length year
unfolding days_before_year
days_before_year-next year = rw add-one

year_length-pos : (year : ℕ) → 0 < year_length year
unfolding year_length
year_length-pos year = ground arith

split_year-days :
    (fuel year days : ℕ)
    → days_before_year (split_year fuel year days).0 + (split_year fuel year days).1
      ≡ days_before_year year + days
unfolding split_year
split_year-days zero year days = refl
split_year-days (suc fuel) year days =
    ground
      (arith, split_year-days fuel (year + 1) (days - year_length year), days_before_year-next year)

split_year-lt :
    (fuel year days : ℕ)
    → days < fuel
    → (split_year fuel year days).1 < year_length (split_year fuel year days).0
unfolding split_year
split_year-lt zero year days h = absurd (omega arith)
split_year-lt (suc fuel) year days h =
    ground (arith, split_year-lt fuel (year + 1) (days - year_length year), year_length-pos year)

split_month-shift :
    (lengths : List ℕ) (mon days : ℕ)
    → ((split_month lengths mon days).0 ≡ mon + (split_month lengths 0 days).0)
      × ((split_month lengths mon days).1 ≡ (split_month lengths 0 days).1)
unfolding split_month
split_month-shift [] mon days = (omega arith, refl)
split_month-shift (len ∷ lengths) mon days = ground (
  arith,
  split_month-shift lengths (mon + 1) (days - len),
  split_month-shift lengths (0 + 1) (days - len),
)

days_before_month-next :
    (len mon : ℕ) (lengths : List ℕ)
    → days_before_month (len ∷ lengths) (1 + mon) ≡ len + days_before_month lengths mon
unfolding days_before_month
days_before_month-next len mon lengths = let e : 1 + mon ≡ suc mon = omega arith in rw e

split_month-sum :
    (lengths : List ℕ) (days : ℕ)
    → days_before_month lengths (split_month lengths 0 days).0 + (split_month lengths 0 days).1
      ≡ days
unfolding split_month days_before_month
split_month-sum [] days = omega arith
split_month-sum (len ∷ lengths) days = elim (Bool-cases (ltb days len)) [
  | inl here ↦ rw here (omega arith)
  | inr later ↦
      let m = split_month lengths 0 (days - len) in
      let shift = split_month-shift lengths 1 (days - len) in
      rw (later, shift.0, shift.1, days_before_month-next len m.0 lengths)
        (ground (arith, split_month-sum lengths (days - len)))
]

abbrev total : List ℕ → ℕ
total [] = 0
total (len ∷ lengths) = len + total lengths

split_month-lt :
    (lengths : List ℕ) (days : ℕ)
    → All (λ len. len ≤ 31) lengths
    → days < total lengths
    → ((split_month lengths 0 days).0 < length lengths) × ((split_month lengths 0 days).1 < 31)
unfolding split_month
split_month-lt [] days h k = absurd (omega arith)
split_month-lt (len ∷ lengths) days h k = elim (Bool-cases (ltb days len)) [
  | inl here ↦ rw here (omega arith, ground arith)
  | inr later ↦
      let shift = split_month-shift lengths 1 (days - len) in
      let ih = split_month-lt lengths (days - len) h.1 (ground arith) in
      rw (later, shift.0, shift.1) (omega arith, ih.1)
]

total-month_lengths : (year : ℕ) → total (month_lengths (is_leap year)) ≡ year_length year
unfolding year_length
total-month_lengths year = ground arith

month_lengths-le : (leap : Bool) → All (λ len. len ≤ 31) (month_lengths leap)
month_lengths-le true = omega arith
month_lengths-le false = omega arith

-- The fields of a broken-down time are in their ranges.
pub record IsTm (tm : Tm) : Type 0 where
  pub sec : tm.sec < 60
  pub min : tm.min < 60
  pub hour : tm.hour < 24
  pub mday_pos : 1 ≤ tm.mday
  pub mday : tm.mday ≤ 31
  pub mon : tm.mon < 12
  pub wday : tm.wday < 7

start : days_before_year 0 ≡ 0
unfolding days_before_year
start = refl

-- `gmtime_r` gives fields in their ranges, and `timegm` takes them back to the time.
pub from_tm-to_tm : (t : ℕ) → (from_tm (to_tm t) ≡ t) × IsTm (to_tm t)
unfolding from_tm to_tm
from_tm-to_tm t =
    let y = split_year (t / 86400 + 1) 0 (t / 86400) in
    let lengths = month_lengths (is_leap y.0) in
    let year_sum = split_year-days (t / 86400 + 1) 0 (t / 86400) in
    let month_sum = split_month-sum lengths y.1 in
    let in_year = split_year-lt (t / 86400 + 1) 0 (t / 86400) (omega arith) in
    let in_month =
      split_month-lt lengths y.1 (month_lengths-le (is_leap y.0))
        (omega (arith, in_year, total-month_lengths y.0)) in
    (
      omega (arith, year_sum, month_sum, start),
      record {
        sec = omega arith;
        min = omega arith;
        hour = omega arith;
        mday_pos = omega arith;
        mday = omega (arith, in_month.1);
        mon = omega (arith, in_month.0);
        wday = omega arith;
      },
    )
