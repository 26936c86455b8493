-- ===== src/Browser/Pool/Lending.antt =====
-- The pool's bound, and that no browser is lent twice.
use mylobsterpp.Prelude.{
  ℕ, ◌≤◌, ◌<◌, ◌≡◌, ◌≢◌, refl, ap, ◌∙◌, sym, subst, inl, inr, Bool-cases, Option, none, some, List,
  [], ◌∷◌, ◌++◌, arith, leb, length, length-append, All-append, Has-append, Text, Result,
  VoidResult, ok, err, undefined,
}
use mylobsterpp.Browser.Pool.{
  BrowserInstance, BrowserPool, Launch, no_chrome, started, reuse, launch_browser, new_instance,
  adopted, grow, acquire,
}
use mylobsterpp.Browser.Pool.Reuse.{
  Lent, ids, Absent, IsUnique, length-ids, Reused, Absent-Lent, reuse-Reused,
}

ids-append :
    (bs : List BrowserInstance) (b : BrowserInstance) → ids (bs ++ b ∷ []) ≡ ids bs ++ b.id ∷ []
ids-append [] b = refl
ids-append (a ∷ bs) b = ap (◌∷◌ a.id) (ids-append bs b)

IsUnique-append :
    (names : List Text) (id : Text) → IsUnique names → Absent id names → IsUnique (names ++ id ∷ [])
IsUnique-append [] id h fresh = (tt, tt)
IsUnique-append (name ∷ names) id h fresh = (
  All-append (λ k. k ≢ name) names (id ∷ []) h.0 ((λ e. fresh.0 (sym e)), tt),
  IsUnique-append names id h.1 fresh.1,
)

-- The identifier of a browser that starts is no other's.
abbrev pub Fresh : Launch → List Text → Type 0
Fresh (started (ok id)) names = Absent id names
Fresh _ names = Unit

-- What an operation keeps: identifiers are unique, and the pool is within its bound.
abbrev pub IsBounded : BrowserPool → Type 0
IsBounded p = IsUnique (ids p.instances) × (length p.instances ≤ p.pool_size)

-- What a browser that is acquired was and is.
abbrev pub Acquired : (before : BrowserPool) → BrowserPool × Result Text → Type 0
Acquired p (q, ok id) = (Lent id p.instances → ⊥) × Lent id q.instances
Acquired p (q, _) = q.instances ≡ p.instances

adopted-Acquired :
    (p q : BrowserPool) (now : ℕ) (x : Result Text) (connected : VoidResult)
    → q.instances ≡ p.instances
    → q.pool_size ≡ p.pool_size
    → Fresh (started x) (ids p.instances)
    → IsBounded p
    → length p.instances < p.pool_size
    → IsBounded (adopted q now x connected).0 × Acquired p (adopted q now x connected)
unfolding adopted
adopted-Acquired p q now (err e) connected same size fresh h room = (rw (same, size) h, same)
adopted-Acquired p q now undefined connected same size fresh h room = (rw (same, size) h, same)
adopted-Acquired p q now (ok id) (err e) same size fresh h room = (rw (same, size) h, same)
adopted-Acquired p q now (ok id) undefined same size fresh h room = (rw (same, size) h, same)
adopted-Acquired p q now (ok id) (ok _) same size fresh h room =
    rw (same, size)
      (
        (
          rw (ids-append p.instances (new_instance now id))
              (IsUnique-append (ids p.instances) id h.0 fresh),
          rw (length-append p.instances (new_instance now id ∷ [])) (omega arith),
        ),
        (
          Absent-Lent id p.instances fresh,
          (Has-append _ p.instances (new_instance now id ∷ [])).1 (inr (inl (refl, refl))),
        ),
      )

launch_browser-adopted :
    (p : BrowserPool) (now : ℕ) (launch : Launch) (connected : VoidResult)
    → Fresh launch (ids p.instances)
    → IsBounded p
    → length p.instances < p.pool_size
    → let (q, id) = launch_browser p launch in
      IsBounded (adopted q now id connected).0 × Acquired p (adopted q now id connected)
unfolding launch_browser
launch_browser-adopted p now no_chrome connected fresh h room =
    adopted-Acquired p p now _ connected refl refl tt h room
launch_browser-adopted p now (started x) connected fresh h room =
    adopted-Acquired p _ now x connected refl refl fresh h room

grow-Acquired :
    (p : BrowserPool) (now : ℕ) (launch : Launch) (connected : VoidResult)
    → Fresh launch (ids p.instances)
    → IsBounded p
    → IsBounded (grow p now launch connected).0 × Acquired p (grow p now launch connected)
unfolding grow launch_browser
grow-Acquired p now launch connected fresh h =
    elim (Bool-cases (leb p.pool_size (length p.instances))) [
      | inl full ↦ rw (full, grow) (h, refl)
      | inr room ↦
          rw (room, grow) (launch_browser-adopted p now launch connected fresh h (ground arith))
    ]

Reused-Acquired :
    (p : BrowserPool) (bs : List BrowserInstance) (id : Text)
    → Reused p.instances (some (bs, id))
    → IsBounded p
    → IsBounded (record p { instances = bs }) × ((Lent id p.instances → ⊥) × Lent id bs)
Reused-Acquired p bs id h b = (
  (
    subst IsUnique (sym h.0) b.0,
    subst (λ n. n ≤ p.pool_size)
        (sym (length-ids p.instances) ∙ ap length (sym h.0) ∙ length-ids bs) b.1,
  ),
  (h.2 b.0, h.1),
)

acquire-by :
    (p : BrowserPool) (now : ℕ) (launch : Launch) (connected : VoidResult)
    (found : Option (List BrowserInstance × Text))
    → Fresh launch (ids p.instances)
    → IsBounded p
    → reuse now p.instances ≡ found
    → Reused p.instances found
    → IsBounded (acquire p now launch connected).0 × Acquired p (acquire p now launch connected)
unfolding acquire
acquire-by p now launch connected none fresh b e h =
    rw (e, acquire) (grow-Acquired p now launch connected fresh b)
acquire-by p now launch connected (some (bs, id)) fresh b e h =
    rw (e, acquire) (Reused-Acquired p bs id h b)

-- In a pool within its bound and with unique identifiers, if a browser that starts has a new one, then
-- acquiring keeps both, and the browser that it gives was not lent before and is now.
pub acquire-Acquired :
    (p : BrowserPool) (now : ℕ) (launch : Launch) (connected : VoidResult)
    → Fresh launch (ids p.instances)
    → IsBounded p
    → IsBounded (acquire p now launch connected).0 × Acquired p (acquire p now launch connected)
acquire-Acquired p now launch connected fresh b =
    acquire-by p now launch connected (reuse now p.instances) fresh b refl
      (reuse-Reused now p.instances)
