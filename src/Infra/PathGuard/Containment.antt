-- ===== src/Infra/PathGuard/Containment.antt =====
-- What a path that passes the guard is known to be.
use mylobsterpp.Prelude.{
  ◌≤◌, ◌≡◌, ◌≢◌, ◌⊎◌, inl, inr, ◌&&◌, true, some, List, [], ◌∷◌, ◌++◌, arith, Bool-cases,
  Option-cases, All, Has, Text, text_eq, text_eq_iff, starts_with-append, starts_with→append, Lacks,
  ok, err, VoidResult, >>=-eq-ok,
}
use mylobsterpp.Infra.Percent.{decode_checked}
use mylobsterpp.Infra.Percent.Laws.{decode_checked-Lacks}
use mylobsterpp.Infra.FsPath.{slash, join, components, Stat, Fs, is_symlink}
use mylobsterpp.Infra.PathGuard.{
  with_slash, is_contained_in, is_within_any_root, is_ancestor, link_target, final_check, go_on,
  stop, refuse, check_link, check_component, walk, assert_no_path_alias_escape,
}

-- `c` is `r` or stands below it.
abbrev pub Under : (r c : Text) → Type 0
Under r c = (c ≡ r) ⊎ ((t : Text) × (c ≡ with_slash r ++ t))

pub is_contained_in→Under : (c r : Text) → is_contained_in c r ≡ true → Under r c
unfolding is_contained_in
is_contained_in→Under c r h = elim (Bool-cases (text_eq c r)) [
  | inl same ↦ inl ((text_eq_iff c r).0 same)
  | inr other ↦ inr (starts_with→append c (with_slash r) (ground arith))
]

pub Under→is_contained_in : (c r : Text) → Under r c → is_contained_in c r ≡ true
unfolding is_contained_in
Under→is_contained_in c r (inl e) = ground (arith, text_eq_iff c r)
Under→is_contained_in c r (inr (t, e)) = rw e (ground (arith, starts_with-append (with_slash r) t))

-- Some workspace root, in its canonical form, stands above or at `c`.
abbrev pub Inside : Fs → List Text → Text → Type 0
Inside fs roots c = Has (λ root. (r : Text) × (fs.canonical root ≡ some r) × Under r c) roots

-- Some workspace root stands below or at `c`.
abbrev pub Above : Fs → List Text → Text → Type 0
Above fs roots c = Has (λ root. (r : Text) × (fs.canonical root ≡ some r) × Under c r) roots

within→Inside :
    (fs : Fs) (c : Text) (roots : List Text)
    → is_within_any_root fs c roots ≡ true
    → Inside fs roots c
unfolding is_within_any_root
within→Inside fs c [] h = cc
within→Inside fs c (root ∷ roots) h = elim (Option-cases (fs.canonical root)) [
  | inl gone ↦ inr (within→Inside fs c roots (rw (gone, is_within_any_root) at h))
  | inr (r, here) ↦ elim (Bool-cases (is_contained_in c r)) [
    | inl inside ↦ inl (r, here, is_contained_in→Under c r inside)
    | inr outside ↦ inr (within→Inside fs c roots (ground arith))
  ]
]

ancestor→Above :
    (fs : Fs) (c : Text) (roots : List Text) → is_ancestor fs c roots ≡ true → Above fs roots c
unfolding is_ancestor
ancestor→Above fs c [] h = cc
ancestor→Above fs c (root ∷ roots) h = elim (Option-cases (fs.canonical root)) [
  | inl gone ↦ inr (ancestor→Above fs c roots (ground arith))
  | inr (r, here) ↦ elim (Bool-cases (is_contained_in r c)) [
    | inl below ↦ inl (r, here, is_contained_in→Under r c below)
    | inr other ↦ inr (ancestor→Above fs c roots (unfold is_contained_in in ground arith))
  ]
]

-- What the walk has found about one path: a link leads into a root or above one, and a regular file
-- has one name.
abbrev pub LinkIsTame : Fs → List Text → Text → Type 0
LinkIsTame fs roots p =
    (t r : Text)
    → is_symlink fs p ≡ true
    → fs.read_symlink p ≡ some t
    → fs.canonical (link_target p t) ≡ some r
    → Above fs roots r ⊎ Inside fs roots r

abbrev pub HasOneName : Fs → Text → Type 0
HasOneName fs p = (st : Stat) → fs.is_regular_file p ≡ true → fs.lstat p ≡ some st → st.nlink ≤ 1

-- The paths that the walk builds, each with its last component.
abbrev pub steps : (accumulated : Text) → List Text → List (Text × Text)
steps accumulated [] = []
steps accumulated (component ∷ rest) =
    (join accumulated component, component) ∷ steps (join accumulated component) rest

-- The root component is skipped.
abbrev pub IsTame : Fs → List Text → Text × Text → Type 0
IsTame fs roots (p, component) = (p ≡ slash ∷ []) ⊎ (LinkIsTame fs roots p × HasOneName fs p)

check_link-IsTame :
    (fs : Fs) (roots : List Text) (p t r : Text)
    → check_link fs roots p ≡ go_on
    → fs.read_symlink p ≡ some t
    → fs.canonical (link_target p t) ≡ some r
    → Above fs roots r ⊎ Inside fs roots r
unfolding check_link
check_link-IsTame fs roots p t r h et er = elim (Bool-cases (is_ancestor fs r roots)) [
  | inl above ↦ inl (ancestor→Above fs r roots above)
  | inr not_above ↦ inr (within→Inside fs r roots (ground arith))
]

check_component-IsTame :
    (fs : Fs) (roots : List Text) (p component : Text)
    → fs.exists p ≡ true
    → check_component fs roots p component ≡ go_on
    → IsTame fs roots (p, component)
unfolding check_component
check_component-IsTame fs roots p component e h =
    elim (Bool-cases (text_eq p component && text_eq component (slash ∷ []))) [
      | inl root ↦ inl (ground (arith, text_eq_iff p component, text_eq_iff component (slash ∷ [])))
      | inr other ↦ inr (
        λ t r link et er. check_link-IsTame fs roots p t r (ground arith) et er,
        λ st regular est. ground arith,
      )
    ]

check_component-ne-stop :
    (fs : Fs) (roots : List Text) (p c : Text)
    → fs.exists p ≡ true
    → check_component fs roots p c ≢ stop
unfolding check_component
check_component-ne-stop fs roots p c e = ground arith

walk-go_on :
    (fs : Fs) (roots : List Text) (p c : Text) (rest : Unit {0} → VoidResult)
    → elim (check_component fs roots p c) [ go_on ↦ rest tt | stop ↦ ok tt | refuse e ↦ err e ]
      ≡ ok tt
    → fs.exists p ≡ true
    → (check_component fs roots p c ≡ go_on) × (rest tt ≡ ok tt)
walk-go_on fs roots p c rest h e = ground (arith, check_component-ne-stop fs roots p c e)

walk-IsTame :
    (fs : Fs) (roots : List Text) (accumulated : Text) (cs : List Text)
    → walk fs roots accumulated cs ≡ ok tt
    → All (λ (s : Text × Text). fs.exists s.0 ≡ true) (steps accumulated cs)
    → All (IsTame fs roots) (steps accumulated cs)
unfolding walk
walk-IsTame fs roots accumulated [] h e = tt
walk-IsTame fs roots accumulated (c ∷ cs) h e =
    let p = join accumulated c in
    let on = walk-go_on fs roots p c (λ _. walk fs roots p cs) h e.0 in
    (check_component-IsTame fs roots p c e.0 on.0, walk-IsTame fs roots p cs on.1 e.1)

-- The three stages that an accepted path has passed.
accepted :
    (fs : Fs) (path : Text) (roots : List Text)
    → assert_no_path_alias_escape fs path roots ≡ ok tt
    → (d : Text) × (decode_checked path ≡ ok d)
      × (final_check fs d roots ≡ ok tt)
      × (walk fs roots [] (components d) ≡ ok tt)
unfolding assert_no_path_alias_escape
accepted fs path [] h = cc
accepted fs path (root ∷ roots) h =
    let (d, decoded, rest) = >>=-eq-ok (decode_checked path) _ h in
    let (_, final, walked) = >>=-eq-ok (final_check fs d (root ∷ roots)) _ rest in
    (d, decoded, final, walked)

final_check-Inside :
    (fs : Fs) (d c : Text) (roots : List Text)
    → final_check fs d roots ≡ ok tt
    → fs.canonical d ≡ some c
    → Inside fs roots c
unfolding final_check
final_check-Inside fs d c roots h e = within→Inside fs c roots (ground arith)

-- If the guard accepts a path, the path decodes to one without percent signs, and if that one has
-- a canonical form, this is at or below the canonical form of a workspace root.
pub assert_no_path_alias_escape-Inside :
    (fs : Fs) (path : Text) (roots : List Text)
    → assert_no_path_alias_escape fs path roots ≡ ok tt
    → (d : Text) × (decode_checked path ≡ ok d)
      × Lacks b'%' d
      × ((c : Text) → fs.canonical d ≡ some c → Inside fs roots c)
assert_no_path_alias_escape-Inside fs path roots h =
    let (d, decoded, final, _) = accepted fs path roots h in
    (
      d,
      decoded,
      decode_checked-Lacks path d decoded,
      λ c e. final_check-Inside fs d c roots final e,
    )

-- If the guard accepts a path and every step down the decoded path exists, then at each step but the
-- root a symbolic link leads into a workspace root or above one, and a regular file has one name.
pub assert_no_path_alias_escape-IsTame :
    (fs : Fs) (path d : Text) (roots : List Text)
    → assert_no_path_alias_escape fs path roots ≡ ok tt
    → decode_checked path ≡ ok d
    → All (λ (s : Text × Text). fs.exists s.0 ≡ true) (steps [] (components d))
    → All (IsTame fs roots) (steps [] (components d))
assert_no_path_alias_escape-IsTame fs path d roots h ed e =
    let (d', decoded, _, walked) = accepted fs path roots h in
    let same : d ≡ d' = cc in walk-IsTame fs roots [] (components d) (rw same walked) e
