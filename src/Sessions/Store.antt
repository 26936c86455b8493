-- ===== src/Sessions/Store.antt =====
-- sessions/store.cpp, sessions/session.hpp and the session of core/types.hpp: the SQLite store as a
-- table of rows by their primary key. A statement's `fault` is whether SQLite throws for a reason of
-- its own. Metadata stand as the text of their JSON, and times as milliseconds from the epoch on.
use mylobsterpp.Prelude.{
  ℤ, pos, negsuc, ℕ, ◌+◌, ◌*◌, Bool, true, false, not, Option, none, some, List, [], ◌∷◌,
  if◌then◌else◌, ltb, length, keep, sort_by, Text, codes, text_eq, Map, lookup, assign, erase,
  Result, VoidResult, ok, fail, database_error, not_found,
}

pub data SessionState : Type 0 where
  active idle closed : SessionState

pub record Session : Type 0 where
  pub id : Text
  pub user_id : Text
  pub device_id : Text
  pub channel : Option Text
  pub agent_id : Option Text
  pub created_at : ℕ
  pub last_active : ℕ

pub record SessionData : Type 0 where
  pub session : Session
  pub state : SessionState
  pub metadata : Text
  pub auto_compaction_count : ℕ

-- The columns besides the key `id`.
pub record Row : Type 0 where
  pub user_id : Text
  pub device_id : Text
  pub channel : Option Text
  pub agent_id : Option Text
  pub state : Text
  pub metadata : Text
  pub created_at : ℕ
  pub last_active : ℕ

abbrev pub Table : Type 0
Table = Map Row

unfoldable pub state_to_string : SessionState → Text
state_to_string active = codes "active"
state_to_string idle = codes "idle"
state_to_string closed = codes "closed"

unfoldable pub string_to_state : Text → SessionState
string_to_state s =
    if text_eq s (codes "idle") then idle else if text_eq s (codes "closed") then closed else active

unfoldable pub to_row : SessionData → Row
unfolding state_to_string
to_row d = record {
  user_id = d.session.user_id;
  device_id = d.session.device_id;
  channel = d.session.channel;
  agent_id = d.session.agent_id;
  state = state_to_string d.state;
  metadata = d.metadata;
  created_at = d.session.created_at;
  last_active = d.session.last_active;
}

unfoldable pub from_row : (id : Text) → Row → SessionData
unfolding string_to_state
from_row id row = record {
  session = record {
    id = id;
    user_id = row.user_id;
    device_id = row.device_id;
    channel = row.channel;
    agent_id = row.agent_id;
    created_at = row.created_at;
    last_active = row.last_active;
  };
  state = string_to_state row.state;
  metadata = row.metadata;
  auto_compaction_count = 0;
}

-- A key that is there already violates the primary key: SQLite throws.
unfoldable pub create : (fault : Bool) → Table → SessionData → Table × VoidResult
unfolding to_row
create true t d = (t, fail database_error "Failed to create session")
create false t d = elim (lookup d.session.id t) [
  | some _ ↦ (t, fail database_error "Failed to create session")
  | none ↦ (assign d.session.id (to_row d) t, ok tt)
]

unfoldable pub get : (fault : Bool) → Table → (id : Text) → Result SessionData
unfolding from_row
get true t id = fail database_error "Failed to get session"
get false t id = elim (lookup id t) [
  | none ↦ fail not_found "Session not found"
  | some row ↦ ok (from_row id row)
]

unfoldable pub updated : SessionData → Row → Row
unfolding state_to_string
updated d row = record row {
  state = state_to_string d.state;
  metadata = d.metadata;
  last_active = d.session.last_active;
  channel = d.session.channel;
}

unfoldable pub update : (fault : Bool) → Table → SessionData → Table × VoidResult
unfolding updated
update true t d = (t, fail database_error "Failed to update session")
update false t d = elim (lookup d.session.id t) [
  | none ↦ (t, fail not_found "Session not found")
  | some row ↦ (assign d.session.id (updated d row) t, ok tt)
]

unfoldable pub remove : (fault : Bool) → Table → (id : Text) → Table × VoidResult
remove true t id = (t, fail database_error "Failed to remove session")
remove false t id = elim (lookup id t) [
  | none ↦ (t, fail not_found "Session not found")
  | some _ ↦ (erase id t, ok tt)
]

abbrev of_user : (user_id : Text) → Table → List SessionData
of_user user_id [] = []
of_user user_id ((id, row) ∷ t) =
    if text_eq row.user_id user_id then from_row id row ∷ of_user user_id t else of_user user_id t

-- `ORDER BY last_active DESC`; sessions of one time keep the table's order here.
unfoldable pub list : (fault : Bool) → Table → (user_id : Text) → Result (List SessionData)
list true t user_id = fail database_error "Failed to list sessions"
list false t user_id = ok (
    sort_by (λ (a b : SessionData). ltb b.session.last_active a.session.last_active)
      (of_user user_id t))

-- `last_active < now - ttl_seconds * 1000`, without the subtraction.
unfoldable pub is_expired : (now : ℕ) → (ttl_seconds : ℤ) → Row → Bool
is_expired now (pos ttl) row = ltb (row.last_active + ttl * 1000) now
is_expired now (negsuc n) row = ltb row.last_active (now + (n + 1) * 1000)

-- The table, and how many rows were deleted.
unfoldable pub remove_expired :
    (fault : Bool) → Table → (now : ℕ) → (ttl_seconds : ℤ) → Table × Result ℕ
unfolding is_expired
remove_expired true t now ttl = (t, fail database_error "Failed to remove expired sessions")
remove_expired false t now ttl = (
  keep (λ (e : Text × Row). not (is_expired now ttl e.1)) t,
  ok (length (keep (λ (e : Text × Row). is_expired now ttl e.1) t)),
)
