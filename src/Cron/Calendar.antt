-- ===== src/Cron/Calendar.antt =====
-- cron/parser.cpp, lines 197 to 217: `to_tm` and `from_tm`, the UTC calendar of `gmtime_r` and
-- `timegm`. The two C functions are written out here; the lines themselves only call them. A time is a number of seconds since 1970; earlier times, leap seconds and the conversion of parts of a second are left out.
pub mod Laws
use mylobsterpp.Prelude.{
  ℕ, zero, suc, ◌+◌, ◌-◌, ◌*◌, ◌/◌, ◌%◌, ◌≤◌, ◌<◌, ◌≡◌, refl, ap, sym, ◌∙◌, Bool, true, false, not,
  ◌&&◌, ◌||◌, List, [], ◌∷◌, arith, Bool-cases, ltb, ◌==◌, if◌then◌else◌, length, All,
}

-- `struct tm`; `year` counts from 1970, `mon` from 0.
pub record Tm : Type 0 where
  pub sec : ℕ
  pub min : ℕ
  pub hour : ℕ
  pub mday : ℕ
  pub mon : ℕ
  pub year : ℕ
  pub wday : ℕ

unfoldable pub is_leap : ℕ → Bool
is_leap year = let y = 1970 + year in y % 4 == 0 && (not (y % 100 == 0) || y % 400 == 0)

unfoldable pub year_length : ℕ → ℕ
year_length year = if is_leap year then 366 else 365

abbrev february : Bool → ℕ
february leap = if leap then 29 else 28

abbrev pub month_lengths : Bool → List ℕ
month_lengths leap = 31 ∷ february leap ∷ 31 ∷ 30 ∷ 31 ∷ 30 ∷ 31 ∷ 31 ∷ 30 ∷ 31 ∷ 30 ∷ 31 ∷ []

-- The year and the day in it, from the days since the start of year `year`.
unfoldable pub split_year : (fuel year days : ℕ) → ℕ × ℕ
split_year zero year days = (year, days)
split_year (suc fuel) year days =
    let later = split_year fuel (year + 1) (days - year_length year) in
    if ltb days (year_length year) then (year, days) else later

-- The month and the day in it, both from 0.
unfoldable pub split_month : (lengths : List ℕ) → (mon days : ℕ) → ℕ × ℕ
split_month [] mon days = (mon, days)
split_month (len ∷ lengths) mon days =
    let later = split_month lengths (mon + 1) (days - len) in
    if ltb days len then (mon, days) else later

unfoldable pub to_tm : (t : ℕ) → Tm
to_tm t =
    let days = t / 86400 in
    let secs = t % 86400 in
    let y = split_year (days + 1) 0 days in
    let m = split_month (month_lengths (is_leap y.0)) 0 y.1 in
    record {
      sec = secs % 60;
      min = secs / 60 % 60;
      hour = secs / 3600;
      mday = m.1 + 1;
      mon = m.0;
      year = y.0;
      wday = (days + 4) % 7;
    }

unfoldable pub days_before_year : ℕ → ℕ
unfolding year_length is_leap
days_before_year zero = 0
days_before_year (suc year) = days_before_year year + year_length year

unfoldable pub days_before_month : (lengths : List ℕ) → (mon : ℕ) → ℕ
days_before_month lengths zero = 0
days_before_month [] (suc mon) = 0
days_before_month (len ∷ lengths) (suc mon) = len + days_before_month lengths mon

-- `timegm` brings fields out of range back into it, which the linear sum does.
unfoldable pub from_tm : Tm → ℕ
from_tm tm =
    let days =
      days_before_year tm.year
      + days_before_month (month_lengths (is_leap tm.year)) tm.mon
      + tm.mday
      - 1 in
    ((days * 24 + tm.hour) * 60 + tm.min) * 60 + tm.sec
