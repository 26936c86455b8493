-- ===== src/Sessions/Manager/Closing.antt =====
-- What the manager promises of its sessions: what is stored is read back, a closed session stays
-- closed, and what a recorded compaction leaves behind.
use mylobsterpp.Prelude.{
  ℕ, ◌≡◌, refl, sym, ap, ◌∙◌, inl, inr, Bool, true, false, none, some, arith, Bool-cases,
  Option-cases, Result-cases, if◌then◌else◌, Text, codes, text_eq, text_eq_iff, lookup, assign,
  lookup-assign, VoidResult, ok,
}
use mylobsterpp.Sessions.Store.{
  SessionState, active, idle, closed, SessionData, Row, Table, state_to_string, string_to_state,
  to_row, from_row, create, get, updated, update,
}
use mylobsterpp.Sessions.Manager.{
  SessionManager, new_session, create_session, with_session, is_closed, touched, touch_session,
  ended, end_session, compacted, record_compaction, cache_bootstrap, invalidate_bootstrap_cache,
}

pub string_to_state-state_to_string : (s : SessionState) → string_to_state (state_to_string s) ≡ s
unfolding string_to_state state_to_string text_eq
string_to_state-state_to_string active = refl
string_to_state-state_to_string idle = refl
string_to_state-state_to_string closed = refl

from_row-to_row :
    (d : SessionData) → from_row d.session.id (to_row d) ≡ record d { auto_compaction_count = 0 }
unfolding from_row to_row
from_row-to_row d =
    ap (λ s. record d { state = s; auto_compaction_count = 0 })
      (string_to_state-state_to_string d.state)

pub get-assign :
    (key id : Text) (row : Row) (t : Table)
    → get false (assign key row t) id
      ≡ (if text_eq key id then ok (from_row id row) else get false t id)
unfolding get
get-assign key id row t =
    rw (lookup-assign key id row t, get)
      (elim (Bool-cases (text_eq key id)) [ inl e ↦ rw e refl | inr e ↦ rw e refl ])

-- If no statement faults, a session that is created is read back by its identifier as it was
-- given, except that its count of compactions is 0; every other session is read as before.
pub get-create :
    (t : Table) (d : SessionData) (id : Text)
    → (create false t d).1 ≡ ok tt
    → get false (create false t d).0 id ≡ (
        if text_eq d.session.id id
        then ok (record d { auto_compaction_count = 0 })
        else get false t id)
unfolding create
get-create t d id h = elim (Option-cases (lookup d.session.id t)) [
  | inr (row, e) ↦ absurd (ground arith)
  | inl e ↦
      rw (e, create)
        (elim (Bool-cases (text_eq d.session.id id)) [
          | inl same ↦ rw same (
              get-assign d.session.id id (to_row d) t
              ∙ rw same (rw⁻¹ ((text_eq_iff d.session.id id).0 same) (ap ok (from_row-to_row d))))
          | inr other ↦ get-assign d.session.id id (to_row d) t ∙ rw other refl
        ])
]

-- The row of a session is there and says that it is closed.
abbrev pub IsClosed : Text → Table → Type 0
IsClosed id t = (row : Row) × (lookup id t ≡ some row) × (row.state ≡ codes "closed")

pub closed-text : state_to_string closed ≡ codes "closed"
unfolding state_to_string
closed-text = refl

pub closed-read : string_to_state (codes "closed") ≡ closed
unfolding string_to_state text_eq
closed-read = refl

absent-differs :
    (key id : Text) (t : Table) (row : Row)
    → lookup key t ≡ none
    → lookup id t ≡ some row
    → text_eq key id ≡ false
absent-differs key id t row absent found = elim (Bool-cases (text_eq key id)) [
  | inl same ↦ absurd (ground (arith, text_eq_iff key id))
  | inr other ↦ other
]

update-IsClosed :
    (fault : Bool) (t : Table) (d : SessionData) (id : Text)
    → IsClosed id t
    → (d.session.id ≡ id → d.state ≡ closed)
    → IsClosed id (update fault t d).0
unfolding update updated
update-IsClosed true t d id c keeps = c
update-IsClosed false t d id (row, found, says) keeps =
    elim (Option-cases (lookup d.session.id t)) [
      | inl e ↦ rw (e, update) (row, found, says)
      | inr (old, e) ↦
          rw (e, update)
            (elim (Bool-cases (text_eq d.session.id id)) [
              | inl same ↦ (
                updated d old,
                lookup-assign d.session.id id (updated d old) t ∙ rw same refl,
                ap state_to_string (keeps ((text_eq_iff d.session.id id).0 same)) ∙ closed-text,
              )
              | inr other ↦
                  (row, lookup-assign d.session.id id (updated d old) t ∙ rw other found, says)
            ])
    ]

create-IsClosed :
    (fault : Bool) (t : Table) (d : SessionData) (id : Text)
    → IsClosed id t
    → IsClosed id (create fault t d).0
unfolding create
create-IsClosed true t d id c = c
create-IsClosed false t d id (row, found, says) = elim (Option-cases (lookup d.session.id t)) [
  | inr (old, e) ↦ rw (e, create) (row, found, says)
  | inl e ↦
      rw (e, create)
        (
          row,
          lookup-assign d.session.id id (to_row d) t
              ∙ rw (absent-differs d.session.id id t row e found) found,
          says,
        )
]

get-IsClosed :
    (fault : Bool) (t : Table) (other id : Text) (d : SessionData)
    → get fault t other ≡ ok d
    → IsClosed id t
    → d.session.id ≡ id
    → d.state ≡ closed
unfolding get from_row
get-IsClosed true t other id d h c same = cc
get-IsClosed false t other id d h (row, found, says) same = elim (Option-cases (lookup other t)) [
  | inl e ↦ absurd (ground arith)
  | inr (old, e) ↦
      let is : from_row other old ≡ d = ground arith in
      let here : other ≡ id = ap (λ (x : SessionData). x.session.id) is ∙ same in
      let one : old ≡ row = ground arith in
      let read : string_to_state old.state ≡ d.state = ap (λ (x : SessionData). x.state) is in
      let text : old.state ≡ codes "closed" = ap (λ (x : Row). x.state) one ∙ says in
      sym read ∙ (ap string_to_state text ∙ closed-read)
]

with_session-IsClosed :
    (fault : Bool) (m : SessionManager) (other id : Text)
    (k : SessionData → SessionManager × VoidResult)
    → IsClosed id m.store
    → ((d : SessionData) → (d.session.id ≡ id → d.state ≡ closed) → IsClosed id (k d).0.store)
    → IsClosed id (with_session m (get fault m.store other) k).0.store
unfolding with_session
with_session-IsClosed fault m other id k c f = elim (Result-cases (get fault m.store other)) [
  | inl (d, e) ↦ rw (e, with_session) (f d (get-IsClosed fault m.store other id d e c))
  | inr (inl (x, e)) ↦ rw (e, with_session) c
  | inr (inr e) ↦ rw (e, with_session) c
]

touched-IsClosed :
    (fault : Bool) (m : SessionManager) (now : ℕ) (id : Text) (d : SessionData)
    → IsClosed id m.store
    → (d.session.id ≡ id → d.state ≡ closed)
    → IsClosed id (touched fault m now d).0.store
unfolding touched
touched-IsClosed fault m now id d c keeps = elim (Bool-cases (is_closed d.state)) [
  | inl e ↦ rw e c
  | inr e ↦
      rw e
        (update-IsClosed fault m.store _ id c (λ same. let shut = ap is_closed (keeps same) in cc))
]

compacted-IsClosed :
    (fault : Bool) (m : SessionManager) (now : ℕ) (id : Text) (d : SessionData)
    → IsClosed id m.store
    → (d.session.id ≡ id → d.state ≡ closed)
    → IsClosed id (compacted fault m now d).0.store
unfolding compacted
compacted-IsClosed fault m now id d c keeps = elim (Bool-cases (is_closed d.state)) [
  | inl e ↦ rw e c
  | inr e ↦ rw e (update-IsClosed fault m.store _ id c keeps)
]

-- The operations of the manager that do not delete; each statement may fault.
pub data Step : SessionManager → SessionManager → Type 0 where
  created :
      {m : SessionManager} (fault : Bool) (id user_id device_id channel : Text) (now : ℕ)
      → Step m (create_session fault m id user_id device_id channel now).0
  touched_once :
      {m : SessionManager} (get_fault update_fault : Bool) (id : Text) (now : ℕ)
      → Step m (touch_session get_fault update_fault m id now).0
  closed_once :
      {m : SessionManager} (get_fault update_fault : Bool) (id : Text) (now : ℕ)
      → Step m (end_session get_fault update_fault m id now).0
  compacted_once :
      {m : SessionManager} (get_fault update_fault : Bool) (id : Text) (now : ℕ)
      → Step m (record_compaction get_fault update_fault m id now).0
  cached : {m : SessionManager} (key snapshot : Text) → Step m (cache_bootstrap m key snapshot)
  invalidated : {m : SessionManager} (key : Text) → Step m (invalidate_bootstrap_cache m key)

pub data Steps : SessionManager → SessionManager → Type 0 where
  done : {m : SessionManager} → Steps m m
  next : {m n o : SessionManager} → Steps m n → Step n o → Steps m o

Step-IsClosed :
    {m n : SessionManager} (id : Text) → Step m n → IsClosed id m.store → IsClosed id n.store
unfolding create_session touch_session end_session record_compaction ended cache_bootstrap
    invalidate_bootstrap_cache
Step-IsClosed id (created {m} fault new user_id device_id channel now) c =
    create-IsClosed fault m.store (new_session new user_id device_id channel now) id c
Step-IsClosed id (touched_once {m} get_fault update_fault other now) c =
    with_session-IsClosed get_fault m other id (touched update_fault m now) c
      (λ d keeps. touched-IsClosed update_fault m now id d c keeps)
Step-IsClosed id (closed_once {m} get_fault update_fault other now) c =
    with_session-IsClosed get_fault m other id (ended update_fault m now) c
      (λ d keeps. update-IsClosed update_fault m.store _ id c (λ _. refl))
Step-IsClosed id (compacted_once {m} get_fault update_fault other now) c =
    with_session-IsClosed get_fault m other id (compacted update_fault m now) c
      (λ d keeps. compacted-IsClosed update_fault m now id d c keeps)
Step-IsClosed id (cached key snapshot) c = c
Step-IsClosed id (invalidated key) c = c

-- Unless expired sessions are deleted, a closed session stays closed, whatever the manager is asked to
-- do and whichever statements fault.
pub Steps-IsClosed :
    {m n : SessionManager} (id : Text) → Steps m n → IsClosed id m.store → IsClosed id n.store
Steps-IsClosed id done c = c
Steps-IsClosed id (next before st) c = Step-IsClosed id st (Steps-IsClosed id before c)
