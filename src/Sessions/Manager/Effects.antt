-- ===== src/Sessions/Manager/Effects.antt =====
-- What one successful operation of the manager leaves in the store.
use mylobsterpp.Prelude.{
  ℕ, ◌+◌, ◌≡◌, refl, sym, ap, subst, ◌∙◌, inl, inr, Bool, true, false, some, arith, Bool-cases,
  Option-cases, Text, codes, text_eq_self, lookup, assign, lookup-assign, ok, fail, session_error,
  not_found,
}
use mylobsterpp.Sessions.Store.{
  SessionState, closed, SessionData, Row, Table, state_to_string, string_to_state, from_row, get,
  updated, update,
}
use mylobsterpp.Sessions.Manager.{
  SessionManager, after, get_session, with_session, is_closed, touched, touch_session, ended,
  end_session, compacted, record_compaction,
}
use mylobsterpp.Sessions.Manager.Closing.{
  IsClosed, closed-text, closed-read, get-assign, string_to_state-state_to_string,
}

get-found :
    (t : Table) (id : Text) (row : Row)
    → lookup id t ≡ some row
    → get false t id ≡ ok (from_row id row)
unfolding get
get-found t id row e = rw (e, get) refl

get-ok :
    (t : Table) (id : Text) (d : SessionData)
    → get false t id ≡ ok d
    → (row : Row) × (lookup id t ≡ some row) × (from_row id row ≡ d)
unfolding get
get-ok t id d h = elim (Option-cases (lookup id t)) [
  | inl e ↦ absurd (ground arith)
  | inr (row, e) ↦ (row, e, ground arith)
]

update-found :
    (t : Table) (d : SessionData) (row : Row)
    → lookup d.session.id t ≡ some row
    → update false t d ≡ (assign d.session.id (updated d row) t, ok tt)
unfolding update
update-found t d row e = rw (e, update) refl

-- Writing a session back over the row it was read from, and reading it again.
get-update :
    (t : Table) (id : Text) (row : Row) (state : SessionState) (now : ℕ)
    → lookup id t ≡ some row
    → get false
        (assign id
          (updated
            (record (from_row id row) {
              state = state;
              session = record (from_row id row).session { last_active = now };
            })
            row)
          t)
        id
      ≡ ok (record (from_row id row) {
        state = state;
        session = record (from_row id row).session { last_active = now };
      })
unfolding from_row updated
get-update t id row state now e =
    get-assign id id _ t
    ∙ rw (text_eq_self id) (
        ap
          (λ s. ok (record (from_row id row) {
            state = s;
            session = record (from_row id row).session { last_active = now };
          }))
          (string_to_state-state_to_string state))

record_compaction-found :
    (m : SessionManager) (id : Text) (now : ℕ) (row : Row)
    → lookup id m.store ≡ some row
    → (record_compaction false false m id now).1 ≡ ok tt
    → get_session false (record_compaction false false m id now).0 id
      ≡ ok (record (from_row id row) {
        session = record (from_row id row).session { last_active = now };
      })
unfolding record_compaction get_session with_session compacted from_row updated
record_compaction-found m id now row e h =
    let read = get-found m.store id row e in
    let d = record (from_row id row) {
      auto_compaction_count = (from_row id row).auto_compaction_count + 1;
      session = record (from_row id row).session { last_active = now };
    } in
    elim (Bool-cases (is_closed (from_row id row).state)) [
      | inl shut ↦
          let refused : record_compaction false false m id now
              ≡ (m, fail session_error "Cannot record compaction on a closed session") =
            rw (read, record_compaction) (rw shut refl) in
          absurd (cc)
      | inr opened ↦
          let written : record_compaction false false m id now
              ≡ (record m { store = assign id (updated d row) m.store }, ok tt) =
            rw (read, record_compaction)
              (rw opened (ap (after m) (update-found m.store d row e))) in
          subst
            (λ r.
              get_session false r.0 id
              ≡ ok (record (from_row id row) {
                session = record (from_row id row).session { last_active = now };
              }))
            (sym written) (get-update m.store id row (from_row id row).state now e)
    ]

-- If no statement faults, a compaction that is recorded leaves its session as it was read, but for
-- `last_active`: the count of compactions that is read is the one from before.
pub get_session-record_compaction :
    (m : SessionManager) (id : Text) (now : ℕ) (d : SessionData)
    → get_session false m id ≡ ok d
    → (record_compaction false false m id now).1 ≡ ok tt
    → get_session false (record_compaction false false m id now).0 id
      ≡ ok (record d { session = record d.session { last_active = now } })
unfolding get_session
get_session-record_compaction m id now d read h =
    let (row, e, same) = get-ok m.store id d read in
    subst
      (λ (x : SessionData).
        get_session false (record_compaction false false m id now).0 id
        ≡ ok (record x { session = record x.session { last_active = now } }))
      same (record_compaction-found m id now row e h)

written-IsClosed :
    (fault : Bool) (t : Table) (d : SessionData) (row : Row)
    → lookup d.session.id t ≡ some row
    → d.state ≡ closed
    → (update fault t d).1 ≡ ok tt
    → IsClosed d.session.id (update fault t d).0
unfolding update updated
written-IsClosed true t d row e shut h = cc
written-IsClosed false t d row e shut h =
    rw (e, update)
      (
        updated d row,
        lookup-assign d.session.id d.session.id (updated d row) t
            ∙ rw (text_eq_self d.session.id) refl,
        ap state_to_string shut ∙ closed-text,
      )

-- Whichever statements fault, a session that the manager reports as ended is closed in the store.
pub end_session-IsClosed :
    (m : SessionManager) (id : Text) (now : ℕ) (get_fault update_fault : Bool)
    → (end_session get_fault update_fault m id now).1 ≡ ok tt
    → IsClosed id (end_session get_fault update_fault m id now).0.store
unfolding end_session with_session ended get update from_row updated
end_session-IsClosed m id now true update_fault h = cc
end_session-IsClosed m id now false update_fault h = elim (Option-cases (lookup id m.store)) [
  | inl e ↦
      let missing : get false m.store id ≡ fail not_found "Session not found" = rw (e, get) refl in
      let refused : end_session false update_fault m id now
          ≡ (m, fail not_found "Session not found") =
        rw (missing, end_session) refl in
      absurd (cc)
  | inr (row, e) ↦
      let read = get-found m.store id row e in
      let d = record (from_row id row) {
        state = closed;
        session = record (from_row id row).session { last_active = now };
      } in
      let written : end_session false update_fault m id now
          ≡ after m (update update_fault m.store d) =
        rw (read, end_session) refl in
      subst (λ r. IsClosed id r.0.store) (sym written)
        (written-IsClosed update_fault m.store d row e refl (subst (λ r. r.1 ≡ ok tt) written h))
]

shut-read :
    (id : Text) (row : Row) → row.state ≡ codes "closed" → is_closed (from_row id row).state ≡ true
unfolding from_row
shut-read id row says = ap is_closed (ap string_to_state says ∙ closed-read)

-- If the read does not fault, a closed session can neither be touched nor have a compaction
-- recorded: both report a session error and change nothing.
pub touch_session-IsClosed :
    (m : SessionManager) (id : Text) (now : ℕ) (fault : Bool)
    → IsClosed id m.store
    → (touch_session false fault m id now ≡ (m, fail session_error "Cannot touch a closed session"))
      × (record_compaction false fault m id now
          ≡ (m, fail session_error "Cannot record compaction on a closed session"))
unfolding touch_session record_compaction with_session touched compacted
touch_session-IsClosed m id now fault (row, found, says) =
    let read = get-found m.store id row found in
    let shut : is_closed (from_row id row).state ≡ true = shut-read id row says in
    (rw (read, touch_session) (rw shut refl), rw (read, record_compaction) (rw shut refl))
