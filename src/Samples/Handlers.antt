-- ===== src/Samples/Handlers.antt =====
-- Samples for the handlers and the files of the gateway: a client that schedules a task and removes a
-- tool, and a workspace with one file.
use mylobsterpp.Prelude.{
  ◌≡◌, ◌⊎◌, ℕ, Bool, true, false, Option, none, some, List, [], ◌∷◌, if◌then◌else◌, Text, codes,
  text_eq, Json, text, object, member, no_members, ok,
}
use mylobsterpp.Cron.Scheduler.Invariant.{IsSound, initial, start}
use mylobsterpp.Agent.ToolRegistry.{Tool, ToolRegistry}
use mylobsterpp.Infra.FsPath.{Fs}
use mylobsterpp.Gateway.WorkspaceFile.{invalid, resolve_agent_workspace_file_path}
use mylobsterpp.Gateway.WorkspaceFile.Containment.{
  IsResolved, resolve_agent_workspace_file_path-IsResolved,
}
use mylobsterpp.Gateway.Hooks.{HookRegistry}
use mylobsterpp.Gateway.Protocol.Builtins.{register_builtins}
use mylobsterpp.Gateway.Connection.{Wire, Connection, read_loop}
use mylobsterpp.Gateway.CronHandler.{CronWorld, register_cron_handlers}
use mylobsterpp.Gateway.CronHandler.Soundness.{read_loop-IsSound}
use mylobsterpp.Gateway.ToolHandler.{texts, register_tool_handlers}
use mylobsterpp.Gateway.ToolHandler.Registered.{IsPart, read_loop-IsPart}

abbrev no_hooks : HookRegistry
no_hooks = record { before_hooks = []; after_hooks = [] }

-- Every frame is written as one letter.
abbrev plain : Wire
plain = record { dump = λ j. some (codes "f"); sanitize = λ t. t }

abbrev opened : Connection
opened = record { is_open = true; thrown = false; sent = [] }

abbrev request_for : (method : Text) → List (Text × Text) → Json
request_for method params = object (
    member (codes "id") (text (codes "1")) (
      member (codes "method") (text method)
        (member (codes "params") (object (texts params)) no_members)))

-- A parser of two messages.
abbrev parse : Text → Option Json
parse s =
    if text_eq s (codes "create")
    then some (
        request_for (codes "cron.create")
          ((codes "name", codes "a/b") ∷ (codes "expression", codes "0 9 * * *") ∷ []))
    else if text_eq s (codes "remove")
    then some (request_for (codes "tool.unregister") ((codes "name", codes "echo") ∷ []))
    else none

abbrev messages : List (Text × Bool)
messages = (codes "create", false) ∷ (codes "remove", true) ∷ (codes "?", false) ∷ []

abbrev idle : CronWorld
idle = record { scheduler = initial; now = 0; spawned = [] }

abbrev placeholder : (name : Text) → (session_key : Option Text) → ℕ
placeholder name session_key = 0

read_loop-IsSound_example :
    let gateway =
      register_cron_handlers placeholder (register_builtins (record { entries = [] })) in
    IsSound
      (read_loop plain (λ hooks. hooks) no_hooks gateway parse (idle, opened) messages).0.scheduler
read_loop-IsSound_example =
    read_loop-IsSound placeholder plain (λ hooks. hooks) no_hooks parse messages idle opened start

abbrev echo : Tool Unit
echo = record {
  definition = record { name = codes "echo"; description = []; parameters = [] };
  execute = λ w params. (w, ok params);
}

abbrev one_tool : ToolRegistry Unit
one_tool = record { tools = (codes "echo", echo) ∷ [] }

read_loop-IsPart_example :
    let gateway = register_tool_handlers (register_builtins (record { entries = [] })) in
    IsPart one_tool
      (read_loop plain (λ hooks. hooks) no_hooks gateway parse ((one_tool, tt), opened) messages).0
read_loop-IsPart_example =
    read_loop-IsPart one_tool plain (λ hooks. hooks) no_hooks parse messages tt opened

-- A file system with one file, whose paths are all canonical.
abbrev one_file : Fs
one_file = record {
  canonical = λ p. some p;
  weakly_canonical = λ p. some p;
  exists = λ p. text_eq p (codes "/w/a");
  symlink_status = λ p. some false;
  read_symlink = λ p. none;
  is_regular_file = λ p. true;
  is_directory = λ p. false;
  hard_link_count = λ p. some 1;
  lstat = λ p. none;
  stat = λ p. none;
  unlink = λ p. true;
}

resolve_agent_workspace_file_path-IsResolved_example :
    let r = resolve_agent_workspace_file_path one_file (λ p. p) (codes "a") (codes "/w") in
    (r.status ≡ invalid)
    ⊎ ((root : Text) × (one_file.canonical (codes "/w") ≡ some root) × IsResolved one_file root r)
resolve_agent_workspace_file_path-IsResolved_example =
    resolve_agent_workspace_file_path-IsResolved one_file (λ p. p) (codes "a") (codes "/w")
