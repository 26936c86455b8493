-- ===== src/Gateway/Hooks/Order.antt =====
-- The order of the hooks that are kept, and how many are collected.
use mathlib.Core.Logic.{∥∥₁_elim}
use mathlib.Core.List.{Perm, Permᴰ}
use native.Mathlib.Nat.{ℕ_set}
use mylobsterpp.Prelude.{
  suc, ◌+◌, ◌≤◌, ◌≡◌, refl, ap, ◌∙◌, sym, inl, inr, Bool, not, some, [], ◌∷◌, ◌++◌, arith,
  Bool-cases, ltb, length, length-append, keep, keep-All, All, All-map, Text, text_eq, Map, lookup,
  assign, Entries, Entries-assign, Entries-lookup, Option-cases,
}
use mylobsterpp.Gateway.Hooks.{
  Hook, HookPriority, HookEntry, HookList, HookRegistry, SortHooks, rank, insert_sorted, hooks_of,
  registered, before, after, removed, remove_before, remove_after, clear, collect_hooks,
  before_count, after_count, wildcard,
}

abbrev pub IsFirst : HookEntry → HookList → Type 0
IsFirst e hooks = All (λ (a : HookEntry). rank e.priority ≤ rank a.priority) hooks

-- No hook stands behind one of a higher rank.
abbrev pub Ascending : HookList → Type 0
Ascending [] = Unit
Ascending (e ∷ hooks) = IsFirst e hooks × Ascending hooks

IsFirst-insert_sorted :
    (e a : HookEntry) (hooks : HookList)
    → rank e.priority ≤ rank a.priority
    → IsFirst e hooks
    → IsFirst e (insert_sorted hooks a)
unfolding insert_sorted
IsFirst-insert_sorted e a [] le h = (le, tt)
IsFirst-insert_sorted e a (b ∷ hooks) le h = ground (arith, IsFirst-insert_sorted e a hooks le h.1)

IsFirst-trans :
    (e a : HookEntry) (hooks : HookList)
    → rank e.priority ≤ rank a.priority
    → IsFirst a hooks
    → IsFirst e hooks
IsFirst-trans e a hooks le h = All-map hooks (λ b lt. omega arith) h

insert_sorted-Ascending :
    (hooks : HookList) (e : HookEntry) → Ascending hooks → Ascending (insert_sorted hooks e)
unfolding insert_sorted
insert_sorted-Ascending [] e h = (tt, tt)
insert_sorted-Ascending (a ∷ hooks) e h =
    elim (Bool-cases (ltb (rank a.priority) (rank e.priority))) [
      | inl less ↦
          rw less (
            IsFirst-insert_sorted a e hooks (ground arith) h.0,
            insert_sorted-Ascending hooks e h.1,
          )
      | inr not_less ↦
          let le : rank e.priority ≤ rank a.priority = ground arith in
          rw not_less ((le, IsFirst-trans e a hooks le h.0), h)
    ]

keep-Ascending :
    (p : HookEntry → Bool) (hooks : HookList) → Ascending hooks → Ascending (keep p hooks)
unfolding keep
keep-Ascending p [] h = tt
keep-Ascending p (e ∷ hooks) h = elim (Bool-cases (p e)) [
  | inl kept ↦ rw kept (
    keep-All (λ (a : HookEntry). rank e.priority ≤ rank a.priority) p hooks h.0,
    keep-Ascending p hooks h.1,
  )
  | inr gone ↦ rw gone (keep-Ascending p hooks h.1)
]

abbrev pub IsOrdered : Map HookList → Type 0
IsOrdered m = Entries (λ _ hooks. Ascending hooks) m

hooks_of-Ascending : (key : Text) (m : Map HookList) → IsOrdered m → Ascending (hooks_of key m)
unfolding hooks_of
hooks_of-Ascending key m h = elim (Option-cases (lookup key m)) [
  | inl e ↦ rw (e, hooks_of) tt
  | inr (hooks, e) ↦ rw (e, hooks_of) (Entries-lookup (λ _ l. Ascending l) key m hooks h e)
]

registered-IsOrdered :
    (method : Text) (e : HookEntry) (m : Map HookList)
    → IsOrdered m
    → IsOrdered (registered method e m)
unfolding registered
registered-IsOrdered method e m h =
    Entries-assign (λ _ l. Ascending l) method _ m
      (insert_sorted-Ascending (hooks_of method m) e (hooks_of-Ascending method m h)) h

removed-found :
    (method name : Text) (m : Map HookList) (hooks : HookList)
    → lookup method m ≡ some hooks
    → (removed method name m).0
      ≡ assign method (keep (λ (e : HookEntry). not (text_eq e.name name)) hooks) m
unfolding removed
removed-found method name m hooks e = rw (e, removed) refl

removed-IsOrdered :
    (method name : Text) (m : Map HookList) → IsOrdered m → IsOrdered (removed method name m).0
unfolding removed
removed-IsOrdered method name m h = elim (Option-cases (lookup method m)) [
  | inl e ↦ rw (e, removed) h
  | inr (hooks, e) ↦
      let found = Entries-lookup (λ _ l. Ascending l) method m hooks h e in
      rw (removed-found method name m hooks e)
        (Entries-assign (λ _ l. Ascending l) method _ m (keep-Ascending _ hooks found) h)
]

-- What the operations make of an empty registry.
pub data Reach : HookRegistry → Type 0 where
  start : Reach (record { before_hooks = []; after_hooks = [] })
  put_before :
      {r : HookRegistry}
      → Reach r
      → (method name : Text) (hook : Hook) (priority : HookPriority)
      → Reach (before r method name hook priority)
  put_after :
      {r : HookRegistry}
      → Reach r
      → (method name : Text) (hook : Hook) (priority : HookPriority)
      → Reach (after r method name hook priority)
  took_before :
      {r : HookRegistry} → Reach r → (method name : Text) → Reach (remove_before r method name).0
  took_after :
      {r : HookRegistry} → Reach r → (method name : Text) → Reach (remove_after r method name).0
  cleared : {r : HookRegistry} → Reach r → Reach (clear r)

-- Whatever hooks were registered and removed, every list of the registry is in the order of the
-- priorities.
pub Reach-IsOrdered :
    {r : HookRegistry} → Reach r → IsOrdered r.before_hooks × IsOrdered r.after_hooks
unfolding before after remove_before remove_after clear
Reach-IsOrdered start = (tt, tt)
Reach-IsOrdered (put_before {r} h method name hook priority) =
    let (b, a) = Reach-IsOrdered h in (registered-IsOrdered method _ r.before_hooks b, a)
Reach-IsOrdered (put_after {r} h method name hook priority) =
    let (b, a) = Reach-IsOrdered h in (b, registered-IsOrdered method _ r.after_hooks a)
Reach-IsOrdered (took_before {r} h method name) =
    let (b, a) = Reach-IsOrdered h in (removed-IsOrdered method name r.before_hooks b, a)
Reach-IsOrdered (took_after {r} h method name) =
    let (b, a) = Reach-IsOrdered h in (b, removed-IsOrdered method name r.after_hooks a)
Reach-IsOrdered (cleared h) = (tt, tt)

-- What `std::ranges::sort` promises.
abbrev pub IsSort : SortHooks → Type 0
IsSort sort = (hooks : HookList) → Ascending (sort hooks) × Perm (sort hooks) hooks

length-Perm : {xs ys : HookList} → Permᴰ xs ys → length xs ≡ length ys
length-Perm Permᴰ.nil = refl
length-Perm (Permᴰ.cons e d) = ap suc (length-Perm d)
length-Perm (Permᴰ.swap e d) = refl
length-Perm (Permᴰ.trans d e) = length-Perm d ∙ length-Perm e

counted : {l : HookList} (xs ys : HookList) → Perm l (xs ++ ys) → length xs + length ys ≡ length l
counted {l} xs ys p = ∥∥₁_elim p (ℕ_set _ _) (λ d. sym (length-Perm d ∙ length-append xs ys))

-- The counts are the numbers of hooks that run, for the wildcard's own name too, whose hooks run twice.
pub before_count-collect_hooks :
    (sort : SortHooks) (r : HookRegistry) (method : Text)
    → IsSort sort
    → (before_count r method ≡ length (collect_hooks sort r.before_hooks method))
      × (after_count r method ≡ length (collect_hooks sort r.after_hooks method))
unfolding before_count after_count collect_hooks
before_count-collect_hooks sort r method h = (
  counted _ _ (h (hooks_of wildcard r.before_hooks ++ hooks_of method r.before_hooks)).1,
  counted _ _ (h (hooks_of wildcard r.after_hooks ++ hooks_of method r.after_hooks)).1,
)
