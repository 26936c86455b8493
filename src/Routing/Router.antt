-- ===== src/Routing/Router.antt =====
-- routing/router.cpp and router.hpp. A handler is a number; what running it throws is an argument. The
-- sort may leave rules of one priority in any order; here a new one goes behind its equals.
pub mod Choice
use mylobsterpp.Prelude.{
  ℤ, pos, negsuc, ℕ, Bool, true, false, Option, none, some, String, if◌then◌else◌, List, [], ◌∷◌,
  ◌++◌, ltb, length, sort_by, Result, VoidResult, ok, fail, not_found, internal_error,
}
use mylobsterpp.Routing.Rules.{RoutingRule, IncomingMessage, RegexSearch, priority, matches}

pub record Route : Type 0 where
  pub rule : RoutingRule
  pub handler : ℕ

pub record Router : Type 0 where
  pub routes : List Route

-- `a < b` of `int`; `negsuc n` is `-1 - n`.
unfoldable pub int_lt : ℤ → ℤ → Bool
int_lt (pos a) (pos b) = ltb a b
int_lt (pos a) (negsuc b) = false
int_lt (negsuc a) (pos b) = true
int_lt (negsuc a) (negsuc b) = ltb b a

unfoldable pub comes_before : Route → Route → Bool
unfolding int_lt
comes_before a b = int_lt (priority b.rule) (priority a.rule)

unfoldable pub sort_routes : List Route → List Route
unfolding comes_before
sort_routes routes = sort_by comes_before routes

unfoldable pub add_route : Router → RoutingRule → (handler : ℕ) → Router
unfolding sort_routes
add_route r rule handler = record r {
  routes = sort_routes (r.routes ++ (record { rule = rule; handler = handler }) ∷ []);
}

unfoldable pub clear : Router → Router
clear r = record r { routes = [] }

unfoldable pub route_count : Router → ℕ
route_count r = length r.routes

-- What a handler does with a message: `some what` if it throws.
abbrev pub Run : Type 0
Run = (handler : ℕ) → IncomingMessage → Option String

unfoldable pub handled : Option String → VoidResult
handled none = ok tt
handled (some what) = fail internal_error "Route handler failed"

-- The route whose handler runs, and the result.
unfoldable pub route_from :
    RegexSearch → Run → List Route → IncomingMessage → Option Route × VoidResult
unfolding handled
route_from find run [] msg = (none, fail not_found "No matching route found")
route_from find run (r ∷ routes) msg =
    if matches find r.rule msg
    then (some r, handled (run r.handler msg))
    else route_from find run routes msg

unfoldable pub route : RegexSearch → Run → Router → IncomingMessage → Option Route × VoidResult
unfolding route_from
route find run r msg = route_from find run r.routes msg
