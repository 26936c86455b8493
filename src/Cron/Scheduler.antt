-- ===== src/Cron/Scheduler.antt =====
-- cron/scheduler.cpp and scheduler.hpp: the task table, the run loop by its rounds, manual runs. The
-- coroutine of a task is a number; what it does is outside the model. The session key of a task, which
-- nothing sets or reads, is left out. The listings are in `Listing`.
pub mod Names
pub mod Invariant
pub mod Firing
pub mod Listing
pub mod Pages
use mylobsterpp.Prelude.{
  ℕ, zero, suc, ◌+◌, Bool, true, false, not, ◌&&◌, ◌||◌, Option, none, some, List, [], ◌∷◌, ◌++◌,
  map, ltb, ◌==◌, if◌then◌else◌, length, keep, Text, codes, break_at, Map, lookup, assign, erase,
  Result, VoidResult, ok, err, undefined, fail, fail_with, invalid_argument, not_found,
}
use mylobsterpp.Cron.Expression.{CronExpression, parse_cron, matches}

pub record ScheduledTask : Type 0 where
  pub name : Text
  pub expression : CronExpression
  pub task : ℕ
  pub delete_after_run : Bool
  pub stagger_ms : ℕ

pub record RunEntry : Type 0 where
  pub name : Text
  pub started_at : ℕ
  pub completed : Bool

pub record Scheduler : Type 0 where
  pub tasks : Map ScheduledTask
  pub running : Bool
  pub abort_requested : Bool
  pub run_log : Map RunEntry

-- `std::erase_if` of the separators.
abbrev is_separator : ℕ → Bool
is_separator c = c == b'/' || c == 92

abbrev dots : Text
dots = codes ".."

-- `while (name.find("..") != npos) name.erase(pos, 2);`, with fuel for the rounds.
unfoldable pub remove_dots : (fuel : ℕ) → Text → Text
remove_dots zero name = name
remove_dots (suc fuel) name = elim (break_at dots name) [
  | none ↦ name
  | some (a, b) ↦ remove_dots fuel (a ++ b)
]

unfoldable pub sanitize : Text → Text
unfolding remove_dots
sanitize name =
    let cleaned = keep (λ c. not (is_separator c)) name in remove_dots (length cleaned) cleaned

abbrev stored : Scheduler → Text → CronExpression → ℕ → Bool → Scheduler
stored s key expression task once = record s {
  tasks =
      assign key
        (record {
          name = key;
          expression = expression;
          task = task;
          delete_after_run = once;
          stagger_ms = 0;
        })
        s.tasks;
}

-- The checks behind the sanitized name. `none` is a null callback.
unfoldable pub schedule_as :
    Scheduler → (key cron_expr : Text) → (task : Option ℕ) → Bool → Scheduler × VoidResult
schedule_as s [] cron_expr task once =
    (s, fail invalid_argument "Task name contains only path traversal characters")
schedule_as s (c ∷ key) cron_expr none once =
    (s, fail_with invalid_argument (codes "Task callback must not be null") (c ∷ key))
schedule_as s (c ∷ key) cron_expr (some task) once = elim (parse_cron cron_expr) [
  | ok parsed ↦ (stored s (c ∷ key) parsed task once, ok tt)
  | err e ↦ (s, err e)
  | undefined ↦ (s, undefined)
]

unfoldable pub schedule :
    Scheduler
    → (name cron_expr : Text) → (task : Option ℕ) → (delete_after_run : Bool)
    → Scheduler × VoidResult
unfolding schedule_as
schedule s [] cron_expr task once = (s, fail invalid_argument "Task name must not be empty")
schedule s (c ∷ name) cron_expr task once = schedule_as s (sanitize (c ∷ name)) cron_expr task once

unfoldable pub cancel : Scheduler → (name : Text) → Scheduler × VoidResult
cancel s name = elim (lookup name s.tasks) [
  | none ↦ (s, fail_with not_found (codes "No cron task with this name") name)
  | some _ ↦ (record s { tasks = erase name s.tasks }, ok tt)
]

-- `start`, its first line.
unfoldable pub begin : Scheduler → Scheduler
begin s = record s { running = true }

-- The head of a round of the loop, up to the wait: the loop goes on only while running.
unfoldable pub begin_round : Scheduler → Option Scheduler
begin_round s = if s.running then some (record s { abort_requested = false }) else none

-- What the timer reports. Other operations may run between the head of the round and this.
pub data Wake : Type 0 where
  elapsed aborted failed : Wake

unfoldable pub matching : (tick_time : ℕ) → Map ScheduledTask → List ScheduledTask
matching t [] = []
matching t ((_, task) ∷ tasks) =
    if matches task.expression t then task ∷ matching t tasks else matching t tasks

unfoldable pub erase_once : List ScheduledTask → Map ScheduledTask → Map ScheduledTask
erase_once [] tasks = tasks
erase_once (entry ∷ entries) tasks =
    erase_once entries (if entry.delete_after_run then erase entry.name tasks else tasks)

-- The rest of the round: the state, the tasks that are spawned, and whether the loop goes on.
unfoldable pub finish_round :
    Wake → (tick_time : ℕ) → Scheduler → Scheduler × List ScheduledTask × Bool
finish_round aborted t s = (s, [], false)
finish_round failed t s = (s, [], true)
finish_round elapsed t s =
    if not s.running
    then (s, [], false)
    else (record s { tasks = erase_once (matching t s.tasks) s.tasks }, matching t s.tasks, true)

-- A spawned coroutine, of a round or of a manual run, once its delay is over: does it run the task?
unfoldable pub runs_task : Scheduler → Bool
runs_task s = not s.abort_requested

unfoldable pub stop : Scheduler → Scheduler
stop s = record s { running = false }

unfoldable pub abort_current : Scheduler → Scheduler
abort_current s = record s { abort_requested = true }

unfoldable pub task_names : Scheduler → List Text
task_names s = map (λ (e : Text × ScheduledTask). e.0) s.tasks

unfoldable pub size : Scheduler → ℕ
size s = length s.tasks

-- The log entry is written at once; the task that is spawned is the second part.
unfoldable pub manual_run :
    Scheduler → (name : Text) → (now : ℕ) → Scheduler × Option ℕ × VoidResult
manual_run s name now = elim (lookup name s.tasks) [
  | none ↦ (s, none, fail_with not_found (codes "No cron task with this name") name)
  | some entry ↦ (
    record s {
      run_log = assign name (record { name = name; started_at = now; completed = false }) s.run_log;
    },
    some entry.task,
    ok tt,
  )
]

-- The coroutine of a manual run, once the task it ran has returned without an exception. Whether it
-- runs the task at all is `runs_task`.
unfoldable pub finish_manual : Scheduler → (name : Text) → Scheduler
finish_manual s name = elim (lookup name s.run_log) [
  | none ↦ s
  | some entry ↦ record s { run_log = assign name (record entry { completed = true }) s.run_log }
]

unfoldable pub clean_run_log : Scheduler → Scheduler
clean_run_log s = record s {
  run_log = keep (λ (e : Text × RunEntry). let (_, r) = e in not r.completed) s.run_log;
}
