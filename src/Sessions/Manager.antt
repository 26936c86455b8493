-- ===== src/Sessions/Manager.antt =====
-- sessions/manager.cpp: the manager over the store. Identifiers and times that the code takes from
-- outside are arguments, and so is whether each statement of the store faults. The cleanup that ends a
-- session only logs; its thread and its timeout are left out.
pub mod Closing
pub mod Effects
pub mod Cleanup
use mylobsterpp.Prelude.{
  ℤ, ℕ, ◌+◌, Bool, true, false, Option, none, some, List, [], ◌∷◌, if◌then◌else◌, Text, codes, Map,
  lookup, assign, erase, Result, VoidResult, ok, err, undefined, fail, session_error,
}
use mylobsterpp.Sessions.Store.{
  SessionState, active, idle, closed, Session, SessionData, Table, create, get, update, list,
  remove_expired,
}

pub record SessionManager : Type 0 where
  pub store : Table
  pub bootstrap_cache : Map Text

-- A result of the store, with the table it leaves.
abbrev pub after {ℓ} : {A : Type ℓ} → SessionManager → Table × Result A → SessionManager × Result A
after m (t, result) = (record m { store = t }, result)

abbrev pub channel_of : Text → Option Text
channel_of [] = none
channel_of (c ∷ channel) = some (c ∷ channel)

abbrev pub new_session : (id user_id device_id channel : Text) (now : ℕ) → SessionData
new_session id user_id device_id channel now = record {
  session = record {
    id = id;
    user_id = user_id;
    device_id = device_id;
    channel = channel_of channel;
    agent_id = none;
    created_at = now;
    last_active = now;
  };
  state = active;
  metadata = codes "{}";
  auto_compaction_count = 0;
}

abbrev created : SessionData → VoidResult → Result SessionData
created d (ok _) = ok d
created d (err e) = err e
created d undefined = undefined

unfoldable pub create_session :
    (fault : Bool)
    → SessionManager
    → (id user_id device_id channel : Text) → (now : ℕ) → SessionManager × Result SessionData
create_session fault m id user_id device_id channel now =
    let d = new_session id user_id device_id channel now in
    let (n, result) = after m (create fault m.store d) in (n, created d result)

unfoldable pub get_session : (fault : Bool) → SessionManager → (id : Text) → Result SessionData
get_session fault m id = get fault m.store id

-- Reading a session, then what the operation makes of it.
unfoldable pub with_session :
    SessionManager
    → Result SessionData
    → (SessionData → SessionManager × VoidResult)
    → SessionManager × VoidResult
with_session m (ok d) k = k d
with_session m (err e) k = (m, err e)
with_session m undefined k = (m, undefined)

abbrev pub is_closed : SessionState → Bool
is_closed closed = true
is_closed active = false
is_closed idle = false

unfoldable pub touched :
    (fault : Bool) → SessionManager → (now : ℕ) → SessionData → SessionManager × VoidResult
touched fault m now d =
    if is_closed d.state
    then (m, fail session_error "Cannot touch a closed session")
    else after m (
        update fault m.store
          (record d { state = active; session = record d.session { last_active = now } }))

unfoldable pub touch_session :
    (get_fault update_fault : Bool)
    → SessionManager
    → (id : Text) → (now : ℕ) → SessionManager × VoidResult
unfolding touched with_session
touch_session get_fault update_fault m id now =
    with_session m (get get_fault m.store id) (touched update_fault m now)

unfoldable pub ended :
    (fault : Bool) → SessionManager → (now : ℕ) → SessionData → SessionManager × VoidResult
ended fault m now d = after m (
    update fault m.store
      (record d { state = closed; session = record d.session { last_active = now } }))

unfoldable pub end_session :
    (get_fault update_fault : Bool)
    → SessionManager
    → (id : Text) → (now : ℕ) → SessionManager × VoidResult
unfolding ended with_session
end_session get_fault update_fault m id now =
    with_session m (get get_fault m.store id) (ended update_fault m now)

unfoldable pub list_sessions :
    (fault : Bool) → SessionManager → (user_id : Text) → Result (List SessionData)
list_sessions fault m user_id = list fault m.store user_id

unfoldable pub cleanup_expired :
    (fault : Bool) → SessionManager → (now : ℕ) → (ttl_seconds : ℤ) → SessionManager × Result ℕ
cleanup_expired fault m now ttl = after m (remove_expired fault m.store now ttl)

unfoldable pub compacted :
    (fault : Bool) → SessionManager → (now : ℕ) → SessionData → SessionManager × VoidResult
compacted fault m now d =
    if is_closed d.state
    then (m, fail session_error "Cannot record compaction on a closed session")
    else after m (
        update fault m.store (record d {
          auto_compaction_count = d.auto_compaction_count + 1;
          session = record d.session { last_active = now };
        }))

unfoldable pub record_compaction :
    (get_fault update_fault : Bool)
    → SessionManager
    → (session_id : Text) → (now : ℕ) → SessionManager × VoidResult
unfolding compacted with_session
record_compaction get_fault update_fault m id now =
    with_session m (get get_fault m.store id) (compacted update_fault m now)

unfoldable pub cache_bootstrap : SessionManager → (session_key snapshot : Text) → SessionManager
cache_bootstrap m key snapshot = record m {
  bootstrap_cache = assign key snapshot m.bootstrap_cache;
}

unfoldable pub get_cached_bootstrap : SessionManager → (session_key : Text) → Text
get_cached_bootstrap m key = elim (lookup key m.bootstrap_cache) [
  | none ↦ []
  | some snapshot ↦ snapshot
]

unfoldable pub invalidate_bootstrap_cache : SessionManager → (session_key : Text) → SessionManager
invalidate_bootstrap_cache m key = record m { bootstrap_cache = erase key m.bootstrap_cache }
