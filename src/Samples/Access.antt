-- ===== src/Samples/Access.antt =====
-- Samples for tool policies, routes, chats and sessions.
use mylobsterpp.Prelude.{
  length, pos, negsuc, ℕ, ◌+◌, ◌≤◌, ◌≡◌, ◌≢◌, refl, ◌↔◌, ◌⊎◌, inl, inr, true, false, Bool, Option,
  none, some, List, [], ◌∷◌, ◌++◌, arith, if◌then◌else◌, Text, codes, text_eq, starts_with, lookup,
  Result, ok, fail, session_error,
}
use mylobsterpp.Gateway.ToolPolicy.{ToolPolicy, minimal, is_allowed}
use mylobsterpp.Gateway.ToolPolicy.Laws.{Grants, is_allowed_iff}
use mylobsterpp.Routing.Rules.{IncomingMessage, prefix_rule, channel_rule, RegexSearch}
use mylobsterpp.Routing.Router.{Router, add_route, Run, route}
use mylobsterpp.Routing.Router.Choice.{Built, empty, added, Chosen, route-Chosen}
use mylobsterpp.Sessions.Store.{is_expired, active, closed, SessionData, Table, create, get}
use mylobsterpp.Sessions.Manager.{
  create_session, cleanup_expired, SessionManager, new_session, touch_session, end_session,
}
use mylobsterpp.Sessions.Manager.Closing.{
  IsClosed, created, touched_once, get-create, Steps-IsClosed,
}
use mylobsterpp.Sessions.Manager.Closing
use mylobsterpp.Sessions.Manager.Cleanup.{Cleaned, Reach, start, step, cleanup_expired-lookup}
use mylobsterpp.Sessions.Manager.Effects.{end_session-IsClosed}

abbrev owned : ToolPolicy
owned = record {
  owner_identity = codes "me";
  profile = minimal;
  allow_list = codes "cron" ∷ [];
  deny_list = codes "git" ∷ [];
}

is_allowed_iff_example :
    (is_allowed owned (codes "whatsapp_login") (codes "me") ≡ true)
    ↔ Grants owned (codes "whatsapp_login") (codes "me")
is_allowed_iff_example = is_allowed_iff owned (codes "whatsapp_login") (codes "me")

abbrev no_regex : RegexSearch
no_regex _ _ = none

abbrev all_work : Run
all_work _ _ = none

abbrev hello : IncomingMessage
hello = record {
  channel = codes "slack";
  sender_id = codes "u";
  text = codes "!hi";
  binding = none;
}

abbrev two_routes : Router
two_routes =
    add_route (add_route (record { routes = [] }) (channel_rule (codes "slack") (negsuc 0)) 1)
      (prefix_rule (codes "!") (pos 5)) 2

two_routes-Built : Built two_routes
two_routes-Built =
    added (added empty (channel_rule (codes "slack") (negsuc 0)) 1)
      (prefix_rule (codes "!") (pos 5)) 2

route-Chosen_example :
    Chosen no_regex all_work two_routes.routes hello (route no_regex all_work two_routes hello)
route-Chosen_example = route-Chosen no_regex all_work hello two_routes-Built

abbrev one_session : SessionData
one_session = new_session (codes "s") (codes "u") (codes "d") [] 5

abbrev opened : SessionManager
opened = record { store = (create false [] one_session).0; bootstrap_cache = [] }

abbrev shut : SessionManager
shut = (end_session false false opened (codes "s") 6).0

ended_ok : (end_session false false opened (codes "s") 6).1 ≡ ok tt
unfolding end_session create get lookup mylobsterpp.Prelude.assign text_eq
    mylobsterpp.Sessions.Store.update
ended_ok = refl

shut-IsClosed : IsClosed (codes "s") shut.store
shut-IsClosed = end_session-IsClosed opened (codes "s") 6 false false ended_ok

Steps-IsClosed_example : IsClosed (codes "s") (touch_session false false shut (codes "s") 9).0.store
Steps-IsClosed_example =
    Steps-IsClosed (codes "s") (Closing.next Closing.done (touched_once false false (codes "s") 9))
      shut-IsClosed

opened_by_manager :
    Reach
      (create_session false
        (record { store = []; bootstrap_cache = [] })
        (codes "s")
        (codes "u")
        (codes "d")
        []
        5).0
opened_by_manager = step start (created false (codes "s") (codes "u") (codes "d") [] 5)

abbrev one_open : SessionManager
one_open =
    (create_session false (record { store = []; bootstrap_cache = [] }) (codes "s") (codes "u")
      (codes "d") [] 5).0

cleanup_expired-lookup_example :
    Cleaned 9000
      (pos 2)
      (lookup (codes "s") one_open.store)
      (lookup (codes "s") (cleanup_expired false one_open 9000 (pos 2)).0.store)
    × ((n : ℕ) × ((cleanup_expired false one_open 9000 (pos 2)).1 ≡ ok n)
        × (length one_open.store
            ≡ n + length (cleanup_expired false one_open 9000 (pos 2)).0.store))
cleanup_expired-lookup_example = cleanup_expired-lookup (codes "s") 9000 (pos 2) opened_by_manager
