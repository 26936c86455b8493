-- ===== src/Gateway/Hooks.antt =====
-- gateway/hooks.cpp and hooks.hpp: hooks before and after a method, by priority. A hook that throws
-- gives `none`. The lists that are kept are in order (Hooks/Order), so `lower_bound` is the walk to the
-- first entry that is not before the new one. `std::ranges::sort` is an argument: it need not be stable.
pub mod Order
pub mod Webhook
use mylobsterpp.Prelude.{
  ℕ, ◌+◌, Bool, true, false, not, Option, none, some, List, [], ◌∷◌, ◌++◌, if◌then◌else◌, ltb,
  length, keep, Text, codes, text_eq, Map, lookup, assign, Json,
}

abbrev pub Hook : Type 0
Hook = Json → Option Json

pub data HookPriority : Type 0 where
  highest high normal low lowest : HookPriority

abbrev pub rank : HookPriority → ℕ
rank highest = 0
rank high = 100
rank normal = 500
rank low = 900
rank lowest = 1000

pub record HookEntry : Type 0 where
  pub name : Text
  pub hook : Hook
  pub priority : HookPriority

abbrev pub HookList : Type 0
HookList = List HookEntry

pub record HookRegistry : Type 0 where
  pub before_hooks : Map HookList
  pub after_hooks : Map HookList

unfoldable pub insert_sorted : HookList → HookEntry → HookList
insert_sorted [] entry = entry ∷ []
insert_sorted (a ∷ hooks) entry =
    if ltb (rank a.priority) (rank entry.priority)
    then a ∷ insert_sorted hooks entry
    else entry ∷ a ∷ hooks

-- `map[key]`, where a missing key gets an empty list, and `map.find(key)`, where it is skipped.
unfoldable pub hooks_of : Text → Map HookList → HookList
hooks_of key m = elim (lookup key m) [ none ↦ [] | some hooks ↦ hooks ]

unfoldable pub registered : (method : Text) → HookEntry → Map HookList → Map HookList
unfolding insert_sorted hooks_of
registered method entry m = assign method (insert_sorted (hooks_of method m) entry) m

unfoldable pub before : HookRegistry → (method name : Text) → Hook → HookPriority → HookRegistry
unfolding registered
before r method name hook priority = record r {
  before_hooks =
      registered method (record { name = name; hook = hook; priority = priority }) r.before_hooks;
}

unfoldable pub after : HookRegistry → (method name : Text) → Hook → HookPriority → HookRegistry
unfolding registered
after r method name hook priority = record r {
  after_hooks =
      registered method (record { name = name; hook = hook; priority = priority }) r.after_hooks;
}

abbrev pub wildcard : Text
wildcard = codes "*"

unfoldable pub before_all : HookRegistry → (name : Text) → Hook → HookPriority → HookRegistry
unfolding before
before_all r name hook priority = before r wildcard name hook priority

unfoldable pub after_all : HookRegistry → (name : Text) → Hook → HookPriority → HookRegistry
unfolding after
after_all r name hook priority = after r wildcard name hook priority

-- `erase_if` on the list of a method, and whether something was erased.
unfoldable pub removed : (method name : Text) → Map HookList → Map HookList × Bool
removed method name m = elim (lookup method m) [
  | none ↦ (m, false)
  | some hooks ↦
      let left = keep (λ (e : HookEntry). not (text_eq e.name name)) hooks in
      (assign method left m, ltb (length left) (length hooks))
]

unfoldable pub remove_before : HookRegistry → (method name : Text) → HookRegistry × Bool
unfolding removed
remove_before r method name =
    let (m, erased) = removed method name r.before_hooks in (record r { before_hooks = m }, erased)

unfoldable pub remove_after : HookRegistry → (method name : Text) → HookRegistry × Bool
unfolding removed
remove_after r method name =
    let (m, erased) = removed method name r.after_hooks in (record r { after_hooks = m }, erased)

abbrev pub SortHooks : Type 0
SortHooks = HookList → HookList

-- Both lists, merged: the wildcard's first, then sorted.
unfoldable pub collect_hooks : SortHooks → Map HookList → (method : Text) → HookList
unfolding hooks_of
collect_hooks sort m method = sort (hooks_of wildcard m ++ hooks_of method m)

-- A hook that throws leaves the value as it was.
unfoldable pub run_chain : HookList → Json → Json
run_chain [] ctx = ctx
run_chain (entry ∷ hooks) ctx = run_chain hooks (elim (entry.hook ctx) [ none ↦ ctx | some j ↦ j ])

unfoldable pub run_before : SortHooks → HookRegistry → (method : Text) → Json → Json
unfolding collect_hooks run_chain
run_before sort r method ctx = run_chain (collect_hooks sort r.before_hooks method) ctx

unfoldable pub run_after : SortHooks → HookRegistry → (method : Text) → Json → Json
unfolding collect_hooks run_chain
run_after sort r method ctx = run_chain (collect_hooks sort r.after_hooks method) ctx

unfoldable pub before_count : HookRegistry → (method : Text) → ℕ
unfolding hooks_of
before_count r method =
    length (hooks_of wildcard r.before_hooks) + length (hooks_of method r.before_hooks)

unfoldable pub after_count : HookRegistry → (method : Text) → ℕ
unfolding hooks_of
after_count r method =
    length (hooks_of wildcard r.after_hooks) + length (hooks_of method r.after_hooks)

unfoldable pub clear : HookRegistry → HookRegistry
clear r = record { before_hooks = []; after_hooks = [] }
