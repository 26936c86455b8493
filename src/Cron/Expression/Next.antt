-- ===== src/Cron/Expression/Next.antt =====
-- The next occurrence is the first matching minute after the given time.
use mylobsterpp.Prelude.{
  ℕ, zero, suc, ◌+◌, ◌*◌, ◌/◌, ◌%◌, ◌≤◌, ◌<◌, ◌≡◌, inl, inr, true, false, arith, Bool-cases,
}
use mylobsterpp.Cron.Calendar.{to_tm, from_tm}
use mylobsterpp.Cron.Calendar.Laws.{from_tm-to_tm}
use mylobsterpp.Cron.Expression.{
  CronExpression, matches, max_iterations, search_minutes, first_candidate, next_occurrence,
}

sec-to_tm : (t : ℕ) → (to_tm t).sec ≡ t % 60
unfolding to_tm
sec-to_tm t = omega arith

first_candidate_lem : (from : ℕ) → first_candidate from ≡ (from / 60 + 1) * 60
unfolding first_candidate from_tm
first_candidate_lem from = omega (arith, (from_tm-to_tm from).0, sec-to_tm from)

-- What the search over `rounds` minutes from `start` finds.
pub record IsFirst (expr : CronExpression) (start rounds : ℕ) (found : ℕ) : Type 0 where
  pub index : ℕ
  pub bound : index ≤ rounds
  pub time : found ≡ start + index * 60
  pub before : (i : ℕ) → i < index → matches expr (start + i * 60) ≡ false
  pub here : index < rounds → matches expr found ≡ true

IsFirst-suc :
    (expr : CronExpression) (start rounds found : ℕ)
    → matches expr start ≡ false
    → IsFirst expr (start + 60) rounds found
    → IsFirst expr start (suc rounds) found
IsFirst-suc expr start rounds found not_now r = record {
  index = r.index + 1;
  bound = omega (arith, r.bound);
  time = omega (arith, r.time);
  before = earlier;
  here = λ h. r.here (omega arith);
}
  where
    earlier : (i : ℕ) → i < r.index + 1 → matches expr (start + i * 60) ≡ false
    earlier zero h = let same : start + 0 * 60 ≡ start = omega arith in rw same not_now
    earlier (suc i) h =
        let same : start + suc i * 60 ≡ start + 60 + i * 60 = omega arith in
        rw same (r.before i (omega arith))

search_minutes-IsFirst :
    (rounds : ℕ) (expr : CronExpression) (start : ℕ)
    → IsFirst expr start rounds (search_minutes rounds expr start)
unfolding search_minutes
search_minutes-IsFirst zero expr start = record {
  index = 0;
  bound = omega arith;
  time = omega arith;
  before = λ i h. absurd (omega arith);
  here = λ h. absurd (omega arith);
}
search_minutes-IsFirst (suc rounds) expr start = elim (Bool-cases (matches expr start)) [
  | inl now ↦ rw now (record {
    index = 0;
    bound = omega arith;
    time = omega arith;
    before = λ i h. absurd (omega arith);
    here = λ h. now;
  })
  | inr not_now ↦ rw not_now (
      IsFirst-suc expr start rounds (search_minutes rounds expr (start + 60)) not_now
        (search_minutes-IsFirst rounds expr (start + 60)))
]

-- The next occurrence is the first matching minute start after `from`, if there is one among the
-- first `max_iterations`; no earlier minute start after `from` matches. Past that horizon it is the
-- minute that follows it.
pub next_occurrence-IsFirst :
    (expr : CronExpression) (from : ℕ)
    → IsFirst expr ((from / 60 + 1) * 60) max_iterations (next_occurrence expr from)
unfolding next_occurrence
next_occurrence-IsFirst expr from =
    rw (first_candidate_lem from)
      (search_minutes-IsFirst max_iterations expr ((from / 60 + 1) * 60))

-- The next occurrence is always later than `from`, also where `from` itself matches.
pub next_occurrence-lt : (expr : CronExpression) (from : ℕ) → from < next_occurrence expr from
next_occurrence-lt expr from =
    let first = next_occurrence-IsFirst expr from in omega (arith, first.time)
