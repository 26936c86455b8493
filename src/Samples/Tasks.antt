-- ===== src/Samples/Tasks.antt =====
-- Samples for the scheduler: one task that runs once, in a running scheduler.
use mylobsterpp.Prelude.{
  int_max, pos, ℕ, ◌+◌, ◌≤◌, ◌≡◌, ◌≢◌, refl, ◌↔◌, true, false, Bool, ◌&&◌, Option, none, some, List,
  [], ◌∷◌, ◌++◌, arith, if◌then◌else◌, length, All, Has, Text, codes, lookup, break_at, Result, ok,
  fail_with, not_found,
}
use mylobsterpp.Cron.Expression.{CronExpression, matches}
use mylobsterpp.Cron.Scheduler.{Scheduler, sanitize, schedule, cancel, begin, elapsed, finish_round}
use mylobsterpp.Cron.Scheduler.Names.{IsSafe}
use mylobsterpp.Cron.Scheduler.Invariant.{
  Reach, start, step, scheduled, begun, initial, IsSound, Reach-IsSound, cancel-IsSafe,
}
use mylobsterpp.Cron.Scheduler.Firing.{finish_round-lookup}
use mylobsterpp.Cron.Scheduler.Listing.{CronListParams, list}
use mylobsterpp.Cron.Scheduler.Pages.{list-append}

abbrev filled : Scheduler
filled = (schedule (begin initial) (codes "a/b") (codes "* * * * *") (some 4) true).0

filled-Reach : Reach filled
filled-Reach = step (step start begun) (scheduled (codes "a/b") (codes "* * * * *") (some 4) true)

Reach-IsSound_example : IsSound filled
Reach-IsSound_example = Reach-IsSound filled-Reach

unsafe_name : ¬ IsSafe (codes "a/b")
unsafe_name safe = safe.no_slash.1.0 refl

cancel-IsSafe_example :
    cancel filled (codes "a/b")
    ≡ (filled, fail_with not_found (codes "No cron task with this name") (codes "a/b"))
cancel-IsSafe_example = cancel-IsSafe (codes "a/b") filled-Reach unsafe_name

filled-running : filled.running ≡ true
unfolding schedule begin sanitize mylobsterpp.Prelude.keep break_at
    mylobsterpp.Cron.Expression.parse_cron mylobsterpp.Cron.Field.parse_field
    mylobsterpp.Cron.Field.parse_element mylobsterpp.Prelude.break_byte mylobsterpp.Prelude.text_eq
    mylobsterpp.Cron.Field.range_values
filled-running = refl

finish_round-lookup_example :
    lookup (codes "ab") (finish_round elapsed 1000000000 filled).0.tasks
    ≡ elim (lookup (codes "ab") filled.tasks) [
      | none ↦ none
      | some task ↦
          if matches task.expression 1000000000 && task.delete_after_run then none else some task
    ]
finish_round-lookup_example =
    finish_round-lookup 1000000000 (codes "ab") filled-Reach filled-running

abbrev all_names : CronListParams
all_names = record {
  limit = pos 50;
  offset = pos 0;
  query = none;
  sort_by = codes "name";
  sort_dir = codes "asc";
}

list-append_example :
    (a : List Text) × (b : List Text) × (list filled
        (record all_names { offset = pos 0; limit = pos 1 })
      ≡ ok a)
    × (list filled (record all_names { offset = pos (0 + 1); limit = pos 2 }) ≡ ok b)
    × (list filled (record all_names { offset = pos 0; limit = pos (1 + 2) }) ≡ ok (a ++ b))
list-append_example = list-append filled all_names 0 1 2 (omega arith)
