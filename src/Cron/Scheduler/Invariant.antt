-- ===== src/Cron/Scheduler/Invariant.antt =====
-- The scheduler as a transition system: every operation is a step, and what every reachable state keeps.
use mylobsterpp.Prelude.{
  keep-HasUniqueKeys, keep-Entries, ℕ, ◌≡◌, ◌≢◌, refl, subst, Bool, true, false, not, Option, none,
  some, List, [], ◌∷◌, inl, inr, arith, Bool-cases, Option-cases, if◌then◌else◌, Text, Map, lookup,
  assign, erase, Entries, Entries-assign, Entries-erase, Entries-lookup, HasUniqueKeys,
  HasUniqueKeys-assign, HasUniqueKeys-erase, Result-cases, fail_with, codes, not_found,
}
use mylobsterpp.Cron.Expression.{CronExpression, parse_cron}
use mylobsterpp.Cron.Expression.Valid.{IsValid, parse_cron-IsValid}
use mylobsterpp.Cron.Scheduler.{
  ScheduledTask, RunEntry, Scheduler, sanitize, stored, schedule_as, schedule, cancel, begin,
  begin_round, Wake, elapsed, aborted, failed, matching, erase_once, finish_round, stop,
  abort_current, manual_run, finish_manual, clean_run_log,
}
use mylobsterpp.Cron.Scheduler.Names.{IsSafe, sanitize-IsSafe}

-- What one operation, or one part of a round, makes of a state.
pub data Step : Scheduler → Scheduler → Type 0 where
  scheduled :
      {s : Scheduler} (name cron_expr : Text) (task : Option ℕ) (once : Bool)
      → Step s (schedule s name cron_expr task once).0
  cancelled : {s : Scheduler} (name : Text) → Step s (cancel s name).0
  begun : {s : Scheduler} → Step s (begin s)
  round_begun : {s t : Scheduler} → begin_round s ≡ some t → Step s t
  round_finished : {s : Scheduler} (w : Wake) (tick : ℕ) → Step s (finish_round w tick s).0
  stopped : {s : Scheduler} → Step s (stop s)
  abort_set : {s : Scheduler} → Step s (abort_current s)
  run_begun : {s : Scheduler} (name : Text) (now : ℕ) → Step s (manual_run s name now).0
  run_finished : {s : Scheduler} (name : Text) → Step s (finish_manual s name)
  log_cleaned : {s : Scheduler} → Step s (clean_run_log s)

abbrev pub initial : Scheduler
initial = record { tasks = []; running = false; abort_requested = false; run_log = [] }

pub data Reach : Scheduler → Type 0 where
  start : Reach initial
  step : {s t : Scheduler} → Reach s → Step s t → Reach t

abbrev pub IsTask : Text → ScheduledTask → Type 0
IsTask key task = IsSafe key × (task.name ≡ key) × IsValid task.expression

abbrev IsRun : Text → RunEntry → Type 0
IsRun key run = run.name ≡ key

pub record IsSound (s : Scheduler) : Type 0 where
  pub unique : HasUniqueKeys s.tasks
  pub tasks : Entries IsTask s.tasks
  pub unique_runs : HasUniqueKeys s.run_log
  pub runs : Entries IsRun s.run_log

erase_once_sound :
    (entries : List ScheduledTask) (tasks : Map ScheduledTask)
    → HasUniqueKeys tasks
    → Entries IsTask tasks
    → HasUniqueKeys (erase_once entries tasks) × Entries IsTask (erase_once entries tasks)
unfolding erase_once
erase_once_sound [] tasks u h = (u, h)
erase_once_sound (entry ∷ entries) tasks u h = elim (Bool-cases entry.delete_after_run) [
  | inl once ↦ rw once (
      erase_once_sound entries (erase entry.name tasks) (HasUniqueKeys-erase entry.name tasks u)
        (Entries-erase IsTask entry.name tasks h))
  | inr again ↦ rw again (erase_once_sound entries tasks u h)
]

stored-IsSound :
    (s : Scheduler) (key : Text) (expr : CronExpression) (task : ℕ) (once : Bool)
    → IsSound s
    → IsSafe key
    → IsValid expr
    → IsSound (stored s key expr task once)
stored-IsSound s key expr task once h safe valid = record {
  unique = HasUniqueKeys-assign key _ s.tasks h.unique;
  tasks = Entries-assign IsTask key _ s.tasks (safe, refl, valid) h.tasks;
  unique_runs = h.unique_runs;
  runs = h.runs;
}

schedule_as-IsSound :
    (s : Scheduler) (key cron_expr : Text) (task : Option ℕ) (once : Bool)
    → IsSound s
    → (key ≢ [] → IsSafe key)
    → IsSound (schedule_as s key cron_expr task once).0
unfolding schedule_as
schedule_as-IsSound s [] cron_expr task once h safe = h
schedule_as-IsSound s (c ∷ key) cron_expr none once h safe = h
schedule_as-IsSound s (c ∷ key) cron_expr (some task) once h safe =
    elim (Result-cases (parse_cron cron_expr)) [
      | inl (parsed, e) ↦
          rw (e, schedule_as)
            (stored-IsSound s (c ∷ key) parsed task once h (safe (λ e. cc))
              (parse_cron-IsValid cron_expr parsed e))
      | inr (inl (f, e)) ↦ rw (e, schedule_as) h
      | inr (inr e) ↦ rw (e, schedule_as) h
    ]

schedule-IsSound :
    (s : Scheduler) (name cron_expr : Text) (task : Option ℕ) (once : Bool)
    → IsSound s
    → IsSound (schedule s name cron_expr task once).0
unfolding schedule
schedule-IsSound s [] cron_expr task once h = h
schedule-IsSound s (c ∷ name) cron_expr task once h =
    schedule_as-IsSound s (sanitize (c ∷ name)) cron_expr task once h (sanitize-IsSafe (c ∷ name))

cancel-IsSound : (s : Scheduler) (name : Text) → IsSound s → IsSound (cancel s name).0
unfolding cancel
cancel-IsSound s name h = elim (Option-cases (lookup name s.tasks)) [
  | inl e ↦ rw (e, cancel) h
  | inr (task, e) ↦
      rw (e, cancel)
        (record {
          unique = HasUniqueKeys-erase name s.tasks h.unique;
          tasks = Entries-erase IsTask name s.tasks h.tasks;
          unique_runs = h.unique_runs;
          runs = h.runs;
        })
]

if-either : {A : Type 0} (P : A → Type 0) (b : Bool) {x y : A} → P x → P y → P (if b then x else y)
if-either P true p q = p
if-either P false p q = q

finish_round-IsSound :
    (w : Wake) (tick : ℕ) (s : Scheduler) → IsSound s → IsSound (finish_round w tick s).0
unfolding finish_round
finish_round-IsSound aborted tick s h = h
finish_round-IsSound failed tick s h = h
finish_round-IsSound elapsed tick s h =
    let swept = erase_once_sound (matching tick s.tasks) s.tasks h.unique h.tasks in
    if-either (λ (r : Scheduler × List ScheduledTask × Bool). IsSound r.0) (not s.running) h
      (record { unique = swept.0; tasks = swept.1; unique_runs = h.unique_runs; runs = h.runs })

-- A log entry under its own name.
logged-IsSound :
    (s : Scheduler) (name : Text) (run : RunEntry)
    → IsSound s
    → run.name ≡ name
    → IsSound (record s { run_log = assign name run s.run_log })
logged-IsSound s name run h same = record {
  unique = h.unique;
  tasks = h.tasks;
  unique_runs = HasUniqueKeys-assign name run s.run_log h.unique_runs;
  runs = Entries-assign IsRun name run s.run_log same h.runs;
}

manual_run-IsSound :
    (s : Scheduler) (name : Text) (now : ℕ) → IsSound s → IsSound (manual_run s name now).0
unfolding manual_run
manual_run-IsSound s name now h = elim (Option-cases (lookup name s.tasks)) [
  | inl e ↦ rw (e, manual_run) h
  | inr (task, e) ↦ rw (e, manual_run) (logged-IsSound s name _ h refl)
]

finish_manual-IsSound : (s : Scheduler) (name : Text) → IsSound s → IsSound (finish_manual s name)
unfolding finish_manual
finish_manual-IsSound s name h = elim (Option-cases (lookup name s.run_log)) [
  | inl none_there ↦ rw (none_there, finish_manual) h
  | inr (run, there) ↦
      rw (there, finish_manual)
        (logged-IsSound s name _ h (Entries-lookup IsRun name s.run_log run h.runs there))
]

pub Step-IsSound : {s t : Scheduler} → Step s t → IsSound s → IsSound t
unfolding begin begin_round stop abort_current clean_run_log
Step-IsSound (scheduled {s} name cron_expr task once) h =
    schedule-IsSound s name cron_expr task once h
Step-IsSound (cancelled {s} name) h = cancel-IsSound s name h
Step-IsSound begun h = record {
  unique = h.unique;
  tasks = h.tasks;
  unique_runs = h.unique_runs;
  runs = h.runs;
}
Step-IsSound (round_begun {s} {t} e) h =
    let awake : record s { abort_requested = false } ≡ t = ground arith in
    subst IsSound awake
      (record { unique = h.unique; tasks = h.tasks; unique_runs = h.unique_runs; runs = h.runs })
Step-IsSound (round_finished {s} w tick) h = finish_round-IsSound w tick s h
Step-IsSound stopped h = record {
  unique = h.unique;
  tasks = h.tasks;
  unique_runs = h.unique_runs;
  runs = h.runs;
}
Step-IsSound abort_set h = record {
  unique = h.unique;
  tasks = h.tasks;
  unique_runs = h.unique_runs;
  runs = h.runs;
}
Step-IsSound (run_begun {s} name now) h = manual_run-IsSound s name now h
Step-IsSound (run_finished {s} name) h = finish_manual-IsSound s name h
Step-IsSound (log_cleaned {s}) h = record {
  unique = h.unique;
  tasks = h.tasks;
  unique_runs = keep-HasUniqueKeys _ s.run_log h.unique_runs;
  runs = keep-Entries IsRun _ s.run_log h.runs;
}

-- In every state that the operations reach, the keys are unique, every task stands under its own safe
-- name and has a valid expression, and every log entry stands under its own name.
pub Reach-IsSound : {s : Scheduler} → Reach s → IsSound s
Reach-IsSound start = record { unique = tt; tasks = tt; unique_runs = tt; runs = tt }
Reach-IsSound (step r st) = Step-IsSound st (Reach-IsSound r)

-- In a reachable state a name that is not safe is never found, whatever was scheduled under it:
-- `cancel` reports `not_found` and changes nothing.
pub cancel-IsSafe :
    {s : Scheduler} (name : Text)
    → Reach s
    → ¬ IsSafe name
    → cancel s name ≡ (s, fail_with not_found (codes "No cron task with this name") name)
unfolding cancel
cancel-IsSafe {s} name r bad = elim (Option-cases (lookup name s.tasks)) [
  | inl e ↦ rw (e, cancel) refl
  | inr (task, e) ↦
      absurd (bad (Entries-lookup IsTask name s.tasks task (Reach-IsSound r).tasks e).0)
]
