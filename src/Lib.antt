-- ===== src/Lib.antt =====
-- A verification library for the assistant's gateway in C++: how a client connects and is answered, the
-- loop between a model and its tools, the guards against hostile paths, command lines and URLs, the
-- delivery queue, the cron scheduler, message routing, sessions and the pool of browsers.
--
-- The parts of the program and their files (paths from the repository's root):
--   src/infra/path_alias_guards.cpp: Infra/Percent (decoding and its screen), Infra/PathGuard
--     (assert_no_path_alias_escape, assert_no_hardlinked_final_path_strict, assert_path_safe).
--   src/infra/sandbox_paths.cpp: Infra/SandboxPaths.
--   src/infra/exec_safety.cpp: Infra/ExecSafety.
--   src/infra/fetch_guard.cpp: Infra/Url (extract_hostname, extract_origin,
--     strip_cross_origin_headers) and Infra/FetchGuard (addresses, validate_url, safe_fetch).
--   src/infra/delivery_queue.cpp: Infra/DeliveryQueue (fail is called fail_delivery).
--   src/cron/parser.cpp: Cron/Field (parse_field), Cron/Calendar (to_tm, from_tm), Cron/Expression
--     (parse_cron, matches, next_occurrence).
--   src/cron/scheduler.cpp: Cron/Scheduler, with the listings in Cron/Scheduler/Listing. It parses by
--     parse_cron and fires by matches.
--   src/gateway/frame.cpp, auth.cpp, hooks.cpp, protocol.cpp, tool_policy.cpp: Gateway/Frame,
--     Gateway/Auth (with Gateway/Auth/Credentials), Gateway/Hooks (with validate_webhook_url in
--     Gateway/Hooks/Webhook), Gateway/Protocol (with the table of methods in
--     Gateway/Protocol/Builtins), Gateway/ToolPolicy.
--   src/gateway/server.cpp: Gateway/Handshake (handle_connection up to the scopes; it authenticates by
--     Gateway/Auth and checks what Infra/DeviceAuth builds) and Gateway/Connection (the class
--     Connection: it parses frames, runs hooks around dispatch and answers), Gateway/WorkspaceFile
--     (validate_avatar_path, resolve_agent_workspace_file_path).
--   src/gateway/cron_handler.cpp, tool_handler.cpp: Gateway/CronHandler (requests for Cron/Scheduler, with
--     normalize_session_key of src/core/utils.cpp), Gateway/ToolHandler (requests for
--     Agent/ToolRegistry); what both read from parameters is in Gateway/Params. They are registered in
--     Gateway/Protocol over its stubs, and a connection dispatches to them.
--   include/openclaw/gateway/server.hpp: Gateway/RateLimiter (AuthRateLimiter).
--   src/infra/dotenv.cpp: Infra/Dotenv.
--   src/infra/sandbox_network.cpp, exec_trust.cpp, heartbeat.cpp, device.cpp: Infra/NetworkMode,
--     Infra/ExecTrust, Infra/Heartbeat, Infra/DeviceAuth (the payloads only).
--   src/agent/tool.cpp, tool_registry.cpp, thinking.cpp: Agent/Tool, Agent/ToolRegistry,
--     Agent/Thinking.
--   src/agent/runtime.cpp, include/openclaw/core/types.hpp: Agent/Runtime (it executes by
--     Agent/ToolRegistry), Agent/Runtime/Messages and Agent/StopPhrase.
--   src/routing/rules.cpp, router.cpp, turn_source.cpp: Routing/Rules, Routing/Router,
--     Routing/TurnSource.
--   include/openclaw/channels/auth_policy.hpp, typing_guard.hpp: Channels/AuthPolicy,
--     Channels/TypingGuard.
--   src/channels/registry.cpp, delivered_channel.cpp: Channels/Registry, Channels/DeliveredChannel (it
--     sends what is in Channels/Message, stores by Infra/DeliveryQueue and asks Gateway/Hooks).
--   src/browser/browser_pool.cpp: Browser/Pool.
--   src/sessions/store.cpp, manager.cpp, session.cpp: Sessions/Store, Sessions/Manager,
--     Sessions/ModelRef (resolve_session_model_identity_ref).
--   src/core/types.cpp: Agent/Runtime/Blocks (content blocks).
--   include/openclaw/core/error.hpp: Prelude/Errors.
-- A definition keeps the name of its C++ function; a class is the record of its members, and a method
-- that changes it returns the new record. What proves something about a file stands in its children,
-- and Samples holds concrete inputs.
--
-- Conventions. A text is the list of its bytes. Result is std::expected, with a third outcome for the
-- overflow of a signed int. std::filesystem is a record of answers (Infra/FsPath). assert_path_safe
-- and assert_no_hardlinked_final_path_strict have one for each moment where the code may see it change,
-- assert_no_path_alias_escape and the other checks see a single one. gmtime_r and timegm are written
-- out as the UTC calendar (Cron/Calendar), and the times of the cron parser are whole seconds. Name resolution, the HTTP client, Boost's address functions, regular
-- expressions, handlers, OpenSSL, the JSON parser and printer and the clock are arguments. Where the
-- code calls providers, tools, channels or handlers, these act on a world W of any type. A std::map is
-- its list of entries. A JSON value (Prelude/Documents) has integers for numbers and its members in the
-- order of insertion; where nlohmann::json throws, the definitions say what becomes of the exception.
--
-- Loops. Most are recursions on their list. The walk up of canonicalize_bind_mount_source has the
-- length of the path as fuel, and the search for `..` the length of the name: each round shortens it.
-- A cron range has a round for each number of the range. safe_fetch, unwrap_shell_wrapper_argv and
-- next_occurrence carry the bound that the code itself sets.
-- decimal prints at most nineteen digits, as many as a 64-bit integer has. tool_loop has a round for
-- each of max_iterations, and a connection's loop one for each message that arrives.
--
-- Not modelled: the clients of messengers and model providers, the DevTools client, memory search,
-- plugins and the command line, which are input and output; the handlers of the other methods; the
-- acceptor, the HTTP routes and the writing of files; threads and locks, since every operation is taken
-- whole; the cleaning of HTML by regular expressions, while that of outbound text is an argument of
-- Gateway/Connection; the JSON form of queued deliveries and of messages; the hooks behind a message;
-- log lines.
pub mod Prelude
pub mod Infra
pub mod Cron
pub mod Agent
pub mod Browser
pub mod Channels
pub mod Gateway
pub mod Sessions
pub mod Samples
pub mod Routing
