-- ===== src/Cron/Scheduler/Firing.antt =====
-- One elapsed round of the run loop: which tasks fire, and which stay in the table.
use mylobsterpp.Prelude.{
  ℕ, ◌≡◌, ◌≢◌, refl, sym, ap, ◌∙◌, ◌↔◌, ◌⊎◌, inl, inr, Bool, true, false, ◌&&◌, none, some, List,
  [], ◌∷◌, arith, Bool-cases, Option-cases, if◌then◌else◌, Has, Text, text_eq, text_eq_iff, Map,
  lookup, erase, lookup-erase, Entries, Entries-lookup, HasUniqueKeys,
}
use mylobsterpp.Cron.Expression.{matches}
use mylobsterpp.Cron.Scheduler.{
  ScheduledTask, Scheduler, elapsed, matching, erase_once, finish_round,
}
use mylobsterpp.Cron.Scheduler.Invariant.{Reach, IsTask, Reach-IsSound}

abbrev IsOnce : Text → ScheduledTask → Type 0
IsOnce key task = (task.delete_after_run ≡ true) × (task.name ≡ key)

erase_once-none :
    (key : Text) (entries : List ScheduledTask) (m : Map ScheduledTask)
    → lookup key m ≡ none
    → lookup key (erase_once entries m) ≡ none
unfolding erase_once
erase_once-none key [] m h = h
erase_once-none key (e ∷ entries) m h = elim (Bool-cases e.delete_after_run) [
  | inl once ↦
      rw once
        (erase_once-none key entries (erase e.name m) (ground (arith, lookup-erase e.name key m)))
  | inr again ↦ rw again (erase_once-none key entries m h)
]

erase_once-gone :
    (key : Text) (entries : List ScheduledTask) (m : Map ScheduledTask)
    → Has (IsOnce key) entries
    → lookup key (erase_once entries m) ≡ none
unfolding erase_once
erase_once-gone key [] m h = absurd h
erase_once-gone key (e ∷ entries) m (inl (once, same)) = rw once (
    erase_once-none key entries (erase e.name m)
      (ground (arith, lookup-erase e.name key m, text_eq_iff e.name key)))
erase_once-gone key (e ∷ entries) m (inr later) = elim (Bool-cases e.delete_after_run) [
  | inl once ↦ rw once (erase_once-gone key entries (erase e.name m) later)
  | inr again ↦ rw again (erase_once-gone key entries m later)
]

erase_once-kept :
    (key : Text) (entries : List ScheduledTask) (m : Map ScheduledTask)
    → ¬ Has (IsOnce key) entries
    → lookup key (erase_once entries m) ≡ lookup key m
unfolding erase_once
erase_once-kept key [] m h = refl
erase_once-kept key (e ∷ entries) m h = elim (Bool-cases e.delete_after_run) [
  | inl once ↦ rw once (
      erase_once-kept key entries (erase e.name m) (λ later. h (inr later))
      ∙ ground (arith, lookup-erase e.name key m, text_eq_iff e.name key, h))
  | inr again ↦ rw again (erase_once-kept key entries m (λ later. h (inr later)))
]

-- Of tasks under their own, different names, the matching ones are those that are found and match.
matching-Has :
    (tick : ℕ) (key : Text) (task : ScheduledTask) (m : Map ScheduledTask)
    → lookup key m ≡ some task
    → matches task.expression tick ≡ true
    → Has (λ x. x ≡ task) (matching tick m)
unfolding matching lookup
matching-Has tick key task [] h e = cc
matching-Has tick key task ((k, v) ∷ m) h e = elim (Bool-cases (text_eq k key)) [
  | inl here ↦
      let same : v ≡ task = ground arith in
      let fires : matches v.expression tick ≡ true = rw same e in rw fires (inl same)
  | inr elsewhere ↦
      let later = matching-Has tick key task m (ground arith) e in
      elim (Bool-cases (matches v.expression tick)) [
        | inl fires ↦ rw fires (inr later)
        | inr not_now ↦ rw not_now later
      ]
]

if-Has :
    {v task : ScheduledTask} (b : Bool) (rest : List ScheduledTask)
    → Has (λ x. x ≡ task) (if b then v ∷ rest else rest)
    → ((b ≡ true) × (v ≡ task)) ⊎ Has (λ x. x ≡ task) rest
if-Has true rest (inl e) = inl (refl, e)
if-Has true rest (inr m) = inr m
if-Has false rest m = inr m

matching-lookup :
    (tick : ℕ) (task : ScheduledTask) (m : Map ScheduledTask)
    → HasUniqueKeys m
    → Entries IsTask m
    → Has (λ x. x ≡ task) (matching tick m)
    → (lookup task.name m ≡ some task) × (matches task.expression tick ≡ true)
unfolding matching lookup
matching-lookup tick task [] u h m = absurd m
matching-lookup tick task ((k, v) ∷ m) u h fired =
    let split = if-Has (matches v.expression tick) (matching tick m) fired in
    elim split [
      | inl (fires, same) ↦
          let named : v.name ≡ k = h.0.1 in
          let named_too : task.name ≡ k = ap (λ (x : ScheduledTask). x.name) (sym same) ∙ named in
          (rw ((text_eq_iff k task.name).1 (sym named_too)) (ap some same), rw⁻¹ same fires)
      | inr later ↦
          let (found, hit) = matching-lookup tick task m u.1 h.1 later in
          let other = Entries-lookup (λ j _. k ≢ j) task.name m task u.0 found in
          (ground (arith, text_eq_iff k task.name), hit)
    ]

Has-weaken :
    (P Q : ScheduledTask → Type 0) (xs : List ScheduledTask)
    → ((x : ScheduledTask) → P x → Q x)
    → Has P xs
    → Has Q xs
Has-weaken P Q [] f m = m
Has-weaken P Q (x ∷ xs) f (inl p) = inl (f x p)
Has-weaken P Q (x ∷ xs) f (inr m) = inr (Has-weaken P Q xs f m)

Has-item :
    (P : ScheduledTask → Type 0) (xs : List ScheduledTask)
    → Has P xs
    → (x : ScheduledTask) × Has (λ y. y ≡ x) xs × P x
Has-item P [] m = absurd m
Has-item P (x ∷ xs) (inl p) = (x, inl refl, p)
Has-item P (x ∷ xs) (inr m) = let (y, there, p) = Has-item P xs m in (y, inr there, p)

IsOnce-Has :
    (tick : ℕ) (key : Text) (task : ScheduledTask) (m : Map ScheduledTask)
    → Entries IsTask m
    → lookup key m ≡ some task
    → matches task.expression tick ≡ true
    → task.delete_after_run ≡ true
    → Has (IsOnce key) (matching tick m)
IsOnce-Has tick key task m h found fires once =
    let named : task.name ≡ key = (Entries-lookup IsTask key m task h found).1 in
    Has-weaken (λ x. x ≡ task) (IsOnce key) (matching tick m) (λ x same. rw same (once, named))
      (matching-Has tick key task m found fires)

Has-IsOnce :
    (tick : ℕ) (key : Text) (task : ScheduledTask) (m : Map ScheduledTask)
    → HasUniqueKeys m
    → Entries IsTask m
    → lookup key m ≡ some task
    → Has (IsOnce key) (matching tick m)
    → (matches task.expression tick ≡ true) × (task.delete_after_run ≡ true)
Has-IsOnce tick key task m u h found once =
    let (x, there, (flag, named)) = Has-item (IsOnce key) (matching tick m) once in
    let (found_x, fires) = matching-lookup tick x m u h there in
    let same : x ≡ task = ground arith in rw⁻¹ same (fires, flag)

-- In a reachable state, an elapsed round of a running scheduler spawns exactly the tasks of the
-- table whose expression matches the tick, and the loop goes on.
pub finish_round-fires :
    {s : Scheduler} (tick : ℕ) (task : ScheduledTask)
    → Reach s
    → s.running ≡ true
    → (Has (λ x. x ≡ task) (finish_round elapsed tick s).1
        ↔ ((lookup task.name s.tasks ≡ some task) × (matches task.expression tick ≡ true)))
      × ((finish_round elapsed tick s).2 ≡ true)
unfolding finish_round
finish_round-fires {s} tick task r on =
    let h = Reach-IsSound r in
    rw on (
      (
        λ f. matching-lookup tick task s.tasks h.unique h.tasks f,
        λ f. matching-Has tick task.name task s.tasks f.0 f.1,
      ),
      refl,
    )

-- In a reachable state, an elapsed round of a running scheduler removes a task from the table
-- exactly if its expression matches the tick and it is to be deleted after its run; every other
-- task stays as it was, and none appears.
pub finish_round-lookup :
    {s : Scheduler} (tick : ℕ) (key : Text)
    → Reach s
    → s.running ≡ true
    → lookup key (finish_round elapsed tick s).0.tasks ≡ elim (lookup key s.tasks) [
      | none ↦ none
      | some task ↦
          if matches task.expression tick && task.delete_after_run then none else some task
    ]
unfolding finish_round
finish_round-lookup {s} tick key r on =
    let h = Reach-IsSound r in
    rw on (elim (Option-cases (lookup key s.tasks)) [
      | inl absent ↦ rw absent (erase_once-none key (matching tick s.tasks) s.tasks absent)
      | inr (task, found) ↦
          rw found (elim (Bool-cases (matches task.expression tick && task.delete_after_run)) [
            | inl once ↦ rw once (
                erase_once-gone key (matching tick s.tasks) s.tasks
                  (IsOnce-Has tick key task s.tasks h.tasks found (ground arith) (ground arith)))
            | inr stays ↦ rw stays (
                erase_once-kept key (matching tick s.tasks) s.tasks (λ m.
                  let (fires, once) = Has-IsOnce tick key task s.tasks h.unique h.tasks found m in
                  ground arith)
                ∙ found)
          ])
    ])
