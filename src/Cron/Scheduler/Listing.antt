-- ===== src/Cron/Scheduler/Listing.antt =====
-- cron/scheduler.cpp, lines 281 to 374, and the parameters of scheduler.hpp: the listings of tasks and
-- of runs with query, order and pages. A listing has fewer than 2 ^ 31 items, so that the cast of
-- its size is left out. `std::sort` may leave runs of one time in any order; here they keep theirs.
-- Parameters that the code does not read are left out.
use mylobsterpp.Prelude.{
  ℤ, pos, negsuc, int_max, ℕ, ◌+◌, Bool, true, false, ◌&&◌, Option, none, some, List, [], ◌∷◌,
  if◌then◌else◌, ltb, leb, length, take, drop, keep, sort_by, map, Map, Text, codes, text_eq,
  has_text, text_lt, break_at, Result, ok, undefined,
}
use mylobsterpp.Cron.Scheduler.{Scheduler, RunEntry, task_names}

pub record CronListParams : Type 0 where
  pub limit : ℤ
  pub offset : ℤ
  pub query : Option Text
  pub sort_by : Text
  pub sort_dir : Text

pub record CronRunsParams : Type 0 where
  pub limit : ℤ
  pub offset : ℤ
  pub query : Option Text
  pub statuses : Option (List Text)
  pub sort_dir : Text

-- `std::max(0, n)`
unfoldable pub clamp : ℤ → ℕ
clamp (pos n) = n
clamp (negsuc n) = 0

-- The items from `offset`, at most `limit`: undefined where `offset + limit` overflows.
unfoldable pub page {ℓ} : {A : Type ℓ} → (offset limit : ℕ) → List A → Result (List A)
page offset limit items =
    if leb (length items) offset
    then ok []
    else if ltb int_max (offset + limit)
    then undefined
    else if ltb (offset + limit) (length items)
    then ok (take limit (drop offset items))
    else ok (drop offset items)

-- Does the name pass the filter?
unfoldable pub passes_query : Option Text → Text → Bool
passes_query none name = true
passes_query (some []) name = true
passes_query (some (c ∷ query)) name = elim (break_at (c ∷ query) name) [
  | none ↦ false
  | some _ ↦ true
]

unfoldable pub sort_names : CronListParams → List Text → List Text
sort_names params names =
    if text_eq params.sort_by (codes "name")
    then (if text_eq params.sort_dir (codes "desc")
        then sort_by (λ a b. text_lt b a) names
        else sort_by text_lt names)
    else names

unfoldable pub list : Scheduler → CronListParams → Result (List Text)
unfolding clamp page passes_query sort_names
list s params =
    page (clamp params.offset) (clamp params.limit)
      (sort_names params (keep (passes_query params.query) (task_names s)))

abbrev status_of : RunEntry → Text
status_of entry = if entry.completed then codes "completed" else codes "running"

unfoldable pub passes_status : Option (List Text) → RunEntry → Bool
passes_status none entry = true
passes_status (some statuses) entry = has_text (status_of entry) statuses

unfoldable pub sort_runs : CronRunsParams → List RunEntry → List RunEntry
sort_runs params entries =
    if text_eq params.sort_dir (codes "asc")
    then sort_by (λ a b. ltb a.started_at b.started_at) entries
    else sort_by (λ a b. ltb b.started_at a.started_at) entries

abbrev run_entries : Map RunEntry → List RunEntry
run_entries log = map (λ (e : Text × RunEntry). e.1) log

unfoldable pub list_runs : Scheduler → CronRunsParams → Result (List RunEntry)
unfolding clamp page passes_query passes_status sort_runs
list_runs s params = page (clamp params.offset) (clamp params.limit) (
    sort_runs params (
      keep (λ (r : RunEntry). passes_query params.query r.name && passes_status params.statuses r)
        (run_entries s.run_log)))
