-- ===== src/Routing/Router/Choice.antt =====
-- Which rule a router chooses, after any sequence of additions.
use mylobsterpp.Prelude.{
  ℤ, pos, negsuc, ℕ, ◌≤◌, ◌≡◌, refl, inl, inr, true, false, Option, none, some, List, [], ◌∷◌, ◌++◌,
  arith, Bool-cases, All, Has, insert_by, sort_by, All-insert_by, VoidResult, fail, not_found,
}
use mylobsterpp.Routing.Rules.{RoutingRule, IncomingMessage, RegexSearch, priority, matches}
use mylobsterpp.Routing.Router.{
  Route, Router, int_lt, comes_before, sort_routes, add_route, clear, Run, handled, route_from,
  route,
}

-- No item outranks one in front of it.
abbrev pub IsRanked : List Route → Type 0
IsRanked [] = Unit
IsRanked (r ∷ routes) = All (λ q. comes_before q r ≡ false) routes × IsRanked routes

int_lt_asym : (a b : ℤ) → int_lt a b ≡ true → int_lt b a ≡ false
unfolding int_lt
int_lt_asym (pos a) (pos b) h = ground arith
int_lt_asym (pos a) (negsuc b) h = cc
int_lt_asym (negsuc a) (pos b) h = refl
int_lt_asym (negsuc a) (negsuc b) h = ground arith

-- `b ≤ a` and `c ≤ b` give `c ≤ a`.
int_lt_trans : (a b c : ℤ) → int_lt a b ≡ false → int_lt b c ≡ false → int_lt a c ≡ false
unfolding int_lt
int_lt_trans (pos a) (pos b) (pos c) h k = ground arith
int_lt_trans (pos a) (pos b) (negsuc c) h k = refl
int_lt_trans (pos a) (negsuc b) (pos c) h k = cc
int_lt_trans (pos a) (negsuc b) (negsuc c) h k = refl
int_lt_trans (negsuc a) (pos b) c h k = cc
int_lt_trans (negsuc a) (negsuc b) (pos c) h k = cc
int_lt_trans (negsuc a) (negsuc b) (negsuc c) h k = ground arith

above-All :
    (x y : Route) (routes : List Route)
    → comes_before y x ≡ false
    → All (λ q. comes_before q y ≡ false) routes
    → All (λ q. comes_before q x ≡ false) routes
unfolding comes_before
above-All x y [] h k = tt
above-All x y (q ∷ routes) h k = (
  int_lt_trans (priority x.rule) (priority y.rule) (priority q.rule) h k.0,
  above-All x y routes h k.1,
)

comes_before_asym : (a b : Route) → comes_before a b ≡ true → comes_before b a ≡ false
unfolding comes_before
comes_before_asym a b h = int_lt_asym (priority b.rule) (priority a.rule) h

insert_by-IsRanked :
    (x : Route) (routes : List Route) → IsRanked routes → IsRanked (insert_by comes_before x routes)
unfolding insert_by
insert_by-IsRanked x [] h = (tt, tt)
insert_by-IsRanked x (y ∷ routes) h = elim (Bool-cases (comes_before y x)) [
  | inl before ↦ rw before (
    All-insert_by comes_before (λ q. comes_before q y ≡ false) x routes
        (comes_before_asym y x before) h.0,
    insert_by-IsRanked x routes h.1,
  )
  | inr behind ↦ rw behind ((behind, above-All x y routes behind h.0), h)
]

sort_by-IsRanked : (routes : List Route) → IsRanked (sort_by comes_before routes)
unfolding sort_by
sort_by-IsRanked [] = tt
sort_by-IsRanked (r ∷ routes) =
    insert_by-IsRanked r (sort_by comes_before routes) (sort_by-IsRanked routes)

-- A router as its operations build it.
pub data Built : Router → Type 0 where
  empty : Built (record { routes = [] })
  added :
      {r : Router} → Built r → (rule : RoutingRule) (handler : ℕ) → Built (add_route r rule handler)
  cleared : {r : Router} → Built r → Built (clear r)

Built-IsRanked : {r : Router} → Built r → IsRanked r.routes
unfolding add_route clear sort_routes
Built-IsRanked empty = tt
Built-IsRanked (added {r} b rule handler) =
    sort_by-IsRanked (r.routes ++ (record { rule = rule; handler = handler }) ∷ [])
Built-IsRanked (cleared b) = tt

-- `a ≤ b` of integers.
abbrev pub AtMost : ℤ → ℤ → Type 0
AtMost (pos a) (pos b) = a ≤ b
AtMost (pos a) (negsuc b) = ⊥
AtMost (negsuc a) (pos b) = Unit
AtMost (negsuc a) (negsuc b) = b ≤ a

int_lt-AtMost : (a b : ℤ) → int_lt a b ≡ false → AtMost b a
unfolding int_lt
int_lt-AtMost (pos a) (pos b) h = ground arith
int_lt-AtMost (pos a) (negsuc b) h = tt
int_lt-AtMost (negsuc a) (pos b) h = cc
int_lt-AtMost (negsuc a) (negsuc b) h = ground arith

comes_before-AtMost :
    (q r : Route) → comes_before q r ≡ false → AtMost (priority q.rule) (priority r.rule)
unfolding comes_before
comes_before-AtMost q r h = int_lt-AtMost (priority r.rule) (priority q.rule) h

-- What a run of `route` promises on a list of routes.
abbrev pub Chosen :
    RegexSearch → Run → List Route → IncomingMessage → Option Route × VoidResult → Type 0
Chosen find run routes msg (none, result) =
    All (λ q. matches find q.rule msg ≡ false) routes
    × (result ≡ fail not_found "No matching route found")
Chosen find run routes msg (some r, result) =
    Has (λ q. q ≡ r) routes
    × (matches find r.rule msg ≡ true)
    × All (λ q. matches find q.rule msg ≡ true → AtMost (priority q.rule) (priority r.rule)) routes
    × (result ≡ handled (run r.handler msg))

All-weaken :
    (P Q : Route → Type 0) (routes : List Route)
    → ((q : Route) → P q → Q q)
    → All P routes
    → All Q routes
All-weaken P Q [] f h = tt
All-weaken P Q (q ∷ routes) f h = (f q h.0, All-weaken P Q routes f h.1)

-- Behind a route that does not match, a choice stays a choice.
Chosen-cons :
    (find : RegexSearch) (run : Run) (q : Route) (routes : List Route) (msg : IncomingMessage)
    (c : Option Route × VoidResult)
    → matches find q.rule msg ≡ false
    → Chosen find run routes msg c
    → Chosen find run (q ∷ routes) msg c
Chosen-cons find run q routes msg (none, result) miss h = ((miss, h.0), h.1)
Chosen-cons find run q routes msg (some r, result) miss h = (inr h.0, h.1, (λ hit. cc, h.2), h.3)

comes_before_self : (r : Route) → comes_before r r ≡ false
comes_before_self r = elim (Bool-cases (comes_before r r)) [
  | inl e ↦ comes_before_asym r r e
  | inr e ↦ e
]

route_from-Chosen :
    (find : RegexSearch) (run : Run) (routes : List Route) (msg : IncomingMessage)
    → IsRanked routes
    → Chosen find run routes msg (route_from find run routes msg)
unfolding route_from
route_from-Chosen find run [] msg h = (tt, refl)
route_from-Chosen find run (r ∷ routes) msg h = elim (Bool-cases (matches find r.rule msg)) [
  | inl hit ↦ rw hit (
    inl refl,
    hit,
    (
      λ _. comes_before-AtMost r r (comes_before_self r),
      All-weaken (λ q. comes_before q r ≡ false) _ routes (λ q e _. comes_before-AtMost q r e) h.0,
    ),
    refl,
  )
  | inr miss ↦ rw miss (
      Chosen-cons find run r routes msg (route_from find run routes msg) miss
        (route_from-Chosen find run routes msg h.1))
]

-- However a router was built, `route` runs the handler of a matching rule whose priority is at least
-- that of every matching rule and reports what it did, or, if no rule matches, runs none and reports
-- `not_found`.
pub route-Chosen :
    (find : RegexSearch) (run : Run) {r : Router} (msg : IncomingMessage)
    → Built r
    → Chosen find run r.routes msg (route find run r msg)
unfolding route
route-Chosen find run {r} msg b = route_from-Chosen find run r.routes msg (Built-IsRanked b)
