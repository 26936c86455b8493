-- ===== src/Sessions/Manager/Cleanup.antt =====
-- What `cleanup_expired` deletes, in the states that the manager reaches.
use mylobsterpp.Prelude.{
  keep-HasUniqueKeys, lookup-keep, length-keep, ℕ, suc, ◌+◌, ◌*◌, ◌<◌, ◌⊎◌, arith, Option, pos,
  negsuc, ◌≡◌, refl, ◌∙◌, inl, inr, Bool, true, false, not, none, some, [], Bool-cases,
  Option-cases, if◌then◌else◌, length, keep, Text, lookup, HasUniqueKeys, HasUniqueKeys-assign,
  Result, VoidResult, ok, err, undefined,
}
use mylobsterpp.Sessions.Store.{
  SessionData, Row, Table, to_row, updated, create, get, update, is_expired, remove_expired,
}
use mylobsterpp.Prelude.{ℤ}
use mylobsterpp.Sessions.Manager.{
  SessionManager, new_session, create_session, with_session, is_closed, touched, touch_session,
  ended, end_session, cleanup_expired, compacted, record_compaction, cache_bootstrap,
  invalidate_bootstrap_cache,
}
use mylobsterpp.Sessions.Manager.Closing.{
  Step, created, touched_once, closed_once, compacted_once, cached, invalidated,
}

-- The states of a manager that begins with an empty store, cleanups included.
pub data Reach : SessionManager → Type 0 where
  start : Reach (record { store = []; bootstrap_cache = [] })
  step : {m n : SessionManager} → Reach m → Step m n → Reach n
  cleaned :
      {m : SessionManager}
      → Reach m
      → (fault : Bool) (now : ℕ) (ttl : ℤ) → Reach (cleanup_expired fault m now ttl).0

update-HasUniqueKeys :
    (fault : Bool) (t : Table) (d : SessionData)
    → HasUniqueKeys t
    → HasUniqueKeys (update fault t d).0
unfolding update
update-HasUniqueKeys true t d h = h
update-HasUniqueKeys false t d h = elim (Option-cases (lookup d.session.id t)) [
  | inl e ↦ rw (e, update) h
  | inr (row, e) ↦ rw (e, update) (HasUniqueKeys-assign d.session.id (updated d row) t h)
]

create-HasUniqueKeys :
    (fault : Bool) (t : Table) (d : SessionData)
    → HasUniqueKeys t
    → HasUniqueKeys (create fault t d).0
unfolding create
create-HasUniqueKeys true t d h = h
create-HasUniqueKeys false t d h = elim (Option-cases (lookup d.session.id t)) [
  | inr (row, e) ↦ rw (e, create) h
  | inl e ↦ rw (e, create) (HasUniqueKeys-assign d.session.id (to_row d) t h)
]

with_session-HasUniqueKeys :
    (m : SessionManager) (r : Result SessionData) (k : SessionData → SessionManager × VoidResult)
    → HasUniqueKeys m.store
    → ((d : SessionData) → HasUniqueKeys (k d).0.store)
    → HasUniqueKeys (with_session m r k).0.store
unfolding with_session
with_session-HasUniqueKeys m (ok d) k h f = f d
with_session-HasUniqueKeys m (err e) k h f = h
with_session-HasUniqueKeys m undefined k h f = h

guarded-HasUniqueKeys :
    (b : Bool) (x y : SessionManager × VoidResult)
    → HasUniqueKeys x.0.store
    → HasUniqueKeys y.0.store
    → HasUniqueKeys (if b then x else y).0.store
guarded-HasUniqueKeys true x y h k = h
guarded-HasUniqueKeys false x y h k = k

Step-HasUniqueKeys :
    {m n : SessionManager} → Step m n → HasUniqueKeys m.store → HasUniqueKeys n.store
unfolding create_session touch_session end_session record_compaction touched ended compacted
    cache_bootstrap invalidate_bootstrap_cache
Step-HasUniqueKeys (created {m} fault id user_id device_id channel now) h =
    create-HasUniqueKeys fault m.store (new_session id user_id device_id channel now) h
Step-HasUniqueKeys (touched_once {m} get_fault update_fault id now) h =
    with_session-HasUniqueKeys m (get get_fault m.store id) (touched update_fault m now) h (λ d.
      guarded-HasUniqueKeys (is_closed d.state) _ _ h
        (update-HasUniqueKeys update_fault m.store _ h))
Step-HasUniqueKeys (closed_once {m} get_fault update_fault id now) h =
    with_session-HasUniqueKeys m (get get_fault m.store id) (ended update_fault m now) h
      (λ d. update-HasUniqueKeys update_fault m.store _ h)
Step-HasUniqueKeys (compacted_once {m} get_fault update_fault id now) h =
    with_session-HasUniqueKeys m (get get_fault m.store id) (compacted update_fault m now) h (λ d.
      guarded-HasUniqueKeys (is_closed d.state) _ _ h
        (update-HasUniqueKeys update_fault m.store _ h))
Step-HasUniqueKeys (cached key snapshot) h = h
Step-HasUniqueKeys (invalidated key) h = h

cleanup_expired-HasUniqueKeys :
    (fault : Bool) (m : SessionManager) (now : ℕ) (ttl : ℤ)
    → HasUniqueKeys m.store
    → HasUniqueKeys (cleanup_expired fault m now ttl).0.store
unfolding cleanup_expired remove_expired
cleanup_expired-HasUniqueKeys true m now ttl h = h
cleanup_expired-HasUniqueKeys false m now ttl h = keep-HasUniqueKeys _ m.store h

Reach-HasUniqueKeys : {m : SessionManager} → Reach m → HasUniqueKeys m.store
Reach-HasUniqueKeys start = tt
Reach-HasUniqueKeys (step r st) = Step-HasUniqueKeys st (Reach-HasUniqueKeys r)
Reach-HasUniqueKeys (cleaned {m} r fault now ttl) =
    cleanup_expired-HasUniqueKeys fault m now ttl (Reach-HasUniqueKeys r)

-- The session's last activity is more than `ttl` seconds before `now`.
abbrev pub IsOld : (now : ℕ) → (ttl : ℤ) → Row → Type 0
IsOld now (pos seconds) row = row.last_active + seconds * 1000 < now
IsOld now (negsuc n) row = row.last_active < now + suc n * 1000

is_expired-IsOld :
    (now : ℕ) (ttl : ℤ) (row : Row) → is_expired now ttl row ≡ true → IsOld now ttl row
unfolding is_expired
is_expired-IsOld now (pos seconds) row e = ground arith
is_expired-IsOld now (negsuc n) row e = ground arith

is_expired-not_IsOld :
    (now : ℕ) (ttl : ℤ) (row : Row) → is_expired now ttl row ≡ false → IsOld now ttl row → ⊥
unfolding is_expired
is_expired-not_IsOld now (pos seconds) row e old = ground arith
is_expired-not_IsOld now (negsuc n) row e old = ground arith

-- What a cleanup makes of what was found under an identifier.
abbrev pub Cleaned : (now : ℕ) → (ttl : ℤ) → (before after : Option Row) → Type 0
Cleaned now ttl none after = after ≡ none
Cleaned now ttl (some row) after =
    (IsOld now ttl row × (after ≡ none)) ⊎ ((IsOld now ttl row → ⊥) × (after ≡ some row))

row-Cleaned :
    (now : ℕ) (ttl : ℤ) (row : Row) (after : Option Row)
    → after ≡ (if not (is_expired now ttl row) then some row else none)
    → Cleaned now ttl (some row) after
row-Cleaned now ttl row after e = elim (Bool-cases (is_expired now ttl row)) [
  | inl old ↦ inl (is_expired-IsOld now ttl row old, e ∙ rw old refl)
  | inr young ↦ inr (is_expired-not_IsOld now ttl row young, e ∙ rw young refl)
]

found-Cleaned :
    (now : ℕ) (ttl : ℤ) (before after : Option Row)
    → after ≡ (elim before [
      | none ↦ none
      | some row ↦ if not (is_expired now ttl row) then some row else none
    ])
    → Cleaned now ttl before after
found-Cleaned now ttl none after e = e
found-Cleaned now ttl (some row) after e = row-Cleaned now ttl row after e

-- In a state that the manager reaches, a cleanup that does not fault deletes the session of an
-- identifier if its last activity is more than `ttl` seconds (of 1000 ms) before `now`, leaves it as it
-- is otherwise, adds none, and reports by how many sessions the store is smaller.
pub cleanup_expired-lookup :
    {m : SessionManager} (id : Text) (now : ℕ) (ttl : ℤ)
    → Reach m
    → Cleaned now ttl (lookup id m.store) (lookup id (cleanup_expired false m now ttl).0.store)
      × ((n : ℕ) × ((cleanup_expired false m now ttl).1 ≡ ok n)
          × (length m.store ≡ n + length (cleanup_expired false m now ttl).0.store))
unfolding cleanup_expired remove_expired
cleanup_expired-lookup {m} id now ttl r = (
  found-Cleaned now ttl (lookup id m.store) _ (
      lookup-keep id (λ (e : Text × Row). not (is_expired now ttl e.1)) m.store
        (Reach-HasUniqueKeys r)),
  (
    length (keep (λ (e : Text × Row). is_expired now ttl e.1) m.store),
    refl,
    length-keep (λ (e : Text × Row). is_expired now ttl e.1) m.store,
  ),
)
