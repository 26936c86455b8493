-- ===== src/Gateway/CronHandler.antt =====
-- gateway/cron_handler.cpp: the requests for the cron scheduler, and core/utils.cpp,
-- normalize_session_key. The coroutine that a new task runs is a number that an argument gives by the
-- name and the session key; it only logs. The text of an error in an expression is without its detail,
-- and where the expression overflows, which the source leaves undefined, there is no reply.
pub mod Soundness
use mylobsterpp.Prelude.{
  ℕ, Bool, true, false, ◌||◌, Option, none, some, List, [], ◌∷◌, ◌++◌, if◌then◌else◌, length, drop,
  Text, codes, starts_with, pos, Json, Items, Members, text, number, boolean, array, object,
  no_items, item, no_members, member, VoidResult, ok, err, undefined, what,
}
use mylobsterpp.Prelude.Partial.{◌>>=◌}
use mylobsterpp.Cron.Scheduler.{Scheduler, schedule, cancel, manual_run, task_names, size}
use mylobsterpp.Gateway.Params.{value_text, value_bool, refused, accepted, is_empty}
use mylobsterpp.Gateway.Protocol.{MethodHandler, Protocol, register_method}

unfoldable pub normalize_session_key : (key agent_id : Text) → Text
unfolding starts_with
normalize_session_key [] agent_id = []
normalize_session_key (c ∷ key) agent_id =
    let prefix = agent_id ++ b':' ∷ [] in
    prefix ++ (if starts_with (c ∷ key) prefix then drop (length prefix) (c ∷ key) else c ∷ key)

-- The scheduler, the clock, and the coroutines that manual runs spawned.
pub record CronWorld : Type 0 where
  pub scheduler : Scheduler
  pub now : ℕ
  pub spawned : List ℕ

unfoldable pub name_items : List Text → Items
name_items [] = no_items
name_items (name ∷ names) =
    item (object (member (codes "name") (text name) no_members)) (name_items names)

unfoldable pub cron_list : MethodHandler CronWorld
unfolding task_names name_items
cron_list w params =
    let names = task_names w.scheduler in
    (
      w,
      some (
          object (
            member (codes "tasks") (array (name_items names)) (
              member (codes "count") (number (pos (length names)))
                (member (codes "running") (boolean w.scheduler.running) no_members)))),
    )

-- `ok`, or the error's text.
unfoldable pub reply_to : VoidResult → (more : Members) → Option Json
unfolding refused accepted what
reply_to (ok _) more = some (accepted more)
reply_to (err e) more = some (refused (what e))
reply_to undefined more = none

-- The session key that is asked for, under its agent.
unfoldable pub session_key_of : (raw : Text) → Json → Option (Option Text)
unfolding value_text normalize_session_key
session_key_of raw params = do
  agent_id ← value_text (codes "agentId") [] params
  some (some (if is_empty agent_id then raw else normalize_session_key raw agent_id))

-- Without a session key the identifier of the agent is not read.
unfoldable pub session_key : Json → Option (Option Text)
unfolding value_text session_key_of
session_key params = do
  raw ← value_text (codes "sessionKey") [] params
  elim raw [ [] ↦ some none | ◌∷◌ c key ↦ session_key_of (c ∷ key) params ]

abbrev pub key_member : Option Text → Members
key_member none = no_members
key_member (some key) = member (codes "sessionKey") (text key) no_members

module _ (placeholder : (name : Text) → (session_key : Option Text) → ℕ) where
  unfoldable pub created :
      CronWorld → (name expression : Text) → (once : Bool) → Option Text → CronWorld × Option Json
  unfolding schedule reply_to
  created w name expression once key =
      let (s, result) = schedule w.scheduler name expression (some (placeholder name key)) once in
      (
        record w { scheduler = s },
        reply_to result (member (codes "name") (text name) (key_member key)),
      )

  abbrev pub create_as :
      CronWorld → (name expression : Text) → Option (Bool × Option Text) → CronWorld × Option Json
  create_as w name expression none = (w, none)
  create_as w name expression (some (once, key)) = created w name expression once key

  unfoldable pub create_options : Json → Option (Bool × Option Text)
  unfolding value_bool session_key
  create_options params = do
    once ← value_bool (codes "deleteAfterRun") false params
    key ← session_key params
    some (once, key)

  unfoldable pub create_named : Json → Option (Text × Text)
  unfolding value_text
  create_named params = do
    name ← value_text (codes "name") [] params
    expression ← value_text (codes "expression") [] params
    some (name, expression)

  unfoldable pub cron_create : MethodHandler CronWorld
  unfolding created create_options create_named refused
  cron_create w params = elim (create_named params) [
    | none ↦ (w, none)
    | some n ↦
        if is_empty n.0 || is_empty n.1
        then (w, some (refused (codes "name and expression are required")))
        else create_as w n.0 n.1 (create_options params)
  ]

-- A handler that wants a name.
unfoldable pub with_name :
    (CronWorld → Text → CronWorld × Option Json) → CronWorld → Option Text → CronWorld × Option Json
unfolding refused
with_name run w none = (w, none)
with_name run w (some []) = (w, some (refused (codes "name is required")))
with_name run w (some (c ∷ name)) = run w (c ∷ name)

unfoldable pub deleted : CronWorld → (name : Text) → CronWorld × Option Json
unfolding cancel reply_to
deleted w name =
    let (s, result) = cancel w.scheduler name in
    (record w { scheduler = s }, reply_to result no_members)

unfoldable pub cron_delete : MethodHandler CronWorld
unfolding value_text with_name deleted
cron_delete w params = with_name deleted w (value_text (codes "name") [] params)

-- cron.enable and cron.disable
unfoldable pub cron_enable : MethodHandler CronWorld
unfolding accepted
cron_enable w params = (w, some (accepted no_members))

abbrev pub spawned_with : Option ℕ → List ℕ → List ℕ
spawned_with none tasks = tasks
spawned_with (some task) tasks = task ∷ tasks

unfoldable pub triggered : CronWorld → (name : Text) → CronWorld × Option Json
unfolding manual_run reply_to
triggered w name =
    let (s, task, result) = manual_run w.scheduler name w.now in
    (record w { scheduler = s; spawned = spawned_with task w.spawned }, reply_to result no_members)

unfoldable pub cron_trigger : MethodHandler CronWorld
unfolding value_text with_name triggered
cron_trigger w params = with_name triggered w (value_text (codes "name") [] params)

unfoldable pub cron_status : MethodHandler CronWorld
unfolding size
cron_status w params = (
  w,
  some (
      object (
        member (codes "running") (boolean w.scheduler.running)
          (member (codes "taskCount") (number (pos (size w.scheduler))) no_members))),
)

unfoldable pub register_cron_handlers :
    (placeholder : (name : Text) → (session_key : Option Text) → ℕ)
    → Protocol CronWorld
    → Protocol CronWorld
unfolding register_method cron_list cron_create cron_delete cron_enable cron_trigger cron_status
register_cron_handlers placeholder p =
    let group = codes "cron" in
    let listed =
      register_method p (codes "cron.list") cron_list (codes "List scheduled tasks") group in
    let create =
      register_method listed (codes "cron.create") (cron_create placeholder)
        (codes "Create a scheduled task") group in
    let delete =
      register_method create (codes "cron.delete") cron_delete (codes "Delete a scheduled task")
        group in
    let enable =
      register_method delete (codes "cron.enable") cron_enable (codes "Enable a scheduled task")
        group in
    let disable =
      register_method enable (codes "cron.disable") cron_enable (codes "Disable a scheduled task")
        group in
    let trigger =
      register_method disable (codes "cron.trigger") cron_trigger
        (codes "Manually trigger a scheduled task") group in
    register_method trigger (codes "cron.status") cron_status (codes "Get cron scheduler status")
      group
