-- ===== src/Browser/Pool/Bounded.antt =====
-- The pool never outgrows its bound.
use mylobsterpp.Prelude.{
  ℕ, ◌⊎◌, Has, text_eq_iff, ok, err, undefined, ◌≤◌, ◌≡◌, inl, inr, Bool-cases, List, [], ◌∷◌,
  arith, Text, text_eq, VoidResult,
}
use mylobsterpp.Browser.Pool.{
  BrowserPool, Launch, no_chrome, started, acquire, release, close, close_all, total_count,
  max_size,
}
use mylobsterpp.Browser.Pool.Reuse.{ids, Absent, IsUnique}
use mylobsterpp.Browser.Pool.Lending.{Fresh, IsBounded, acquire-Acquired}
use mylobsterpp.Browser.Pool.Within.{
  IsWithin, release-IsWithin, release-IsBounded, close-IsWithin, close-IsBounded, acquire-IsWithin,
}

-- The identifier of a browser that starts is that of a browser of the pool.
abbrev pub Clash : Launch → List Text → Type 0
Clash (started (ok id)) names = Has (λ name. name ≡ id) names
Clash _ names = ⊥

Absent-or-Has : (id : Text) (names : List Text) → Absent id names ⊎ Has (λ name. name ≡ id) names
Absent-or-Has id [] = inl tt
Absent-or-Has id (name ∷ names) = elim (Bool-cases (text_eq name id)) [
  | inl same ↦ inr (inl ((text_eq_iff name id).0 same))
  | inr other ↦ elim (Absent-or-Has id names) [
    | inl absent ↦ inl ((λ same. let yes = (text_eq_iff name id).1 same in cc), absent)
    | inr has ↦ inr (inr has)
  ]
]

Fresh-or-Clash : (launch : Launch) (names : List Text) → Fresh launch names ⊎ Clash launch names
Fresh-or-Clash no_chrome names = inl tt
Fresh-or-Clash (started (ok id)) names = Absent-or-Has id names
Fresh-or-Clash (started (err e)) names = inl tt
Fresh-or-Clash (started undefined) names = inl tt

-- The pools that the operations make of an empty one.
pub data Reach : BrowserPool → Type 0 where
  empty :
      (pool_size port : ℕ)
      → Reach (record { pool_size = pool_size; instances = []; next_debug_port = port })
  acquired :
      {p : BrowserPool}
      → Reach p
      → (now : ℕ) (launch : Launch) (connected : VoidResult)
      → Reach (acquire p now launch connected).0
  released : {p : BrowserPool} → Reach p → (id : Text) (now : ℕ) → Reach (release p id now)
  closed : {p : BrowserPool} → Reach p → (id : Text) → Reach (close p id).0
  all_closed : {p : BrowserPool} → Reach p → Reach (close_all p)

-- At some time a browser has started with the identifier of a browser of the pool.
pub Clashes : {p : BrowserPool} → Reach p → Type 0
Clashes (empty pool_size port) = ⊥
Clashes (acquired {p} h now launch connected) = Clashes h ⊎ Clash launch (ids p.instances)
Clashes (released h id now) = Clashes h
Clashes (closed h id) = Clashes h
Clashes (all_closed h) = Clashes h

-- Within the bound, and with unique identifiers but for a clash.
abbrev Outcome : (p : BrowserPool) → (clashes : Type 0) → Type 0
Outcome p clashes = IsWithin p × (IsUnique (ids p.instances) ⊎ clashes)

kept :
    (p q : BrowserPool) (clashes : Type 0)
    → (IsBounded p → IsBounded q)
    → IsWithin q
    → Outcome p clashes
    → Outcome q clashes
kept p q clashes f w (within, inl unique) = (w, inl (f (unique, within)).0)
kept p q clashes f w (within, inr clash) = (w, inr clash)

acquired-Outcome :
    (p : BrowserPool) (now : ℕ) (launch : Launch) (connected : VoidResult) (clashes : Type 0)
    → Outcome p clashes
    → Fresh launch (ids p.instances) ⊎ Clash launch (ids p.instances)
    → Outcome (acquire p now launch connected).0 (clashes ⊎ Clash launch (ids p.instances))
acquired-Outcome p now launch connected clashes (within, inr clash) fresh =
    (acquire-IsWithin p now launch connected within, inr (inl clash))
acquired-Outcome p now launch connected clashes (within, inl unique) (inr clash) =
    (acquire-IsWithin p now launch connected within, inr (inr clash))
acquired-Outcome p now launch connected clashes (within, inl unique) (inl fresh) =
    let bounded = (acquire-Acquired p now launch connected fresh (unique, within)).0 in
    (bounded.1, inl bounded.0)

Reach-Outcome : {p : BrowserPool} (h : Reach p) → Outcome p (Clashes h)
unfolding close_all Clashes
Reach-Outcome (empty pool_size port) = (omega arith, inl tt)
Reach-Outcome (acquired {p} h now launch connected) =
    acquired-Outcome p now launch connected (Clashes h) (Reach-Outcome h)
      (Fresh-or-Clash launch (ids p.instances))
Reach-Outcome (released {p} h id now) =
    kept p (release p id now) (Clashes h) (release-IsBounded p id now)
      (release-IsWithin p id now (Reach-Outcome h).0) (Reach-Outcome h)
Reach-Outcome (closed {p} h id) =
    kept p (close p id).0 (Clashes h) (close-IsBounded p id)
      (close-IsWithin p id (Reach-Outcome h).0) (Reach-Outcome h)
Reach-Outcome (all_closed {p} h) =
    kept p (close_all p) (Clashes h) (λ b. (tt, omega arith)) (omega arith) (Reach-Outcome h)

-- Whatever is acquired, released and closed, there are never more browsers than `max_size`, and no two
-- have one identifier, unless a browser has started with the identifier of a browser that the pool had
-- at that time.
pub total_count-le-max_size :
    {p : BrowserPool} (h : Reach p)
    → (total_count p ≤ max_size p) × (IsUnique (ids p.instances) ⊎ Clashes h)
unfolding total_count max_size
total_count-le-max_size h = Reach-Outcome h
