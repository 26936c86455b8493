-- ===== src/Gateway/ToolPolicy/Laws.antt =====
-- Who may use what: the rules of `is_allowed` against their order, profiles that grow, and denials that stay.
use mylobsterpp.Prelude.{
  ℕ, ◌≤◌, not, ◌&&◌, ◌≡◌, ◌≢◌, refl, ◌↔◌, ◌⊎◌, inl, inr, true, false, Option, none, some, List, [],
  ◌∷◌, ◌++◌, arith, Bool-cases, Option-cases, if◌then◌else◌, Has, Has-append, Text, codes, text_eq,
  text_eq_iff, starts_with, has_text, has_text_iff, Map, lookup,
}
use mylobsterpp.Gateway.ToolPolicy.{
  ToolProfile, minimal, coding, messaging, full, ToolPolicy, Setting, string, array, other,
  owner_only_tools, profile_tools, configured_profile, load_items, load_list, configure, set_owner,
  allow, deny, set_profile, is_allowed, expand_group, insert_all, is_empty, minimal_tools,
  coding_tools, messaging_tools, all_groups, tool_groups,
}

abbrev pub IsIn : Text → List Text → Type 0
IsIn t xs = Has (λ x. x ≡ t) xs

-- The promise of the policy, as one condition.
abbrev pub Grants : ToolPolicy → (name identity : Text) → Type 0
Grants p name identity =
    (¬ IsIn name p.deny_list)
    × ((IsIn name owner_only_tools × (p.owner_identity ≢ []) × (identity ≡ p.owner_identity))
        ⊎ ((¬ IsIn name owner_only_tools)
            × (IsIn name p.allow_list ⊎ IsIn name (profile_tools p.profile))))

owner_iff :
    (owner identity : Text)
    → (not (is_empty owner) && text_eq identity owner ≡ true) ↔ ((owner ≢ []) × (identity ≡ owner))
owner_iff [] identity = (λ e. cc, λ h. absurd (h.0 refl))
owner_iff (c ∷ owner) identity =
    let same = text_eq_iff identity (c ∷ owner) in (λ e. (λ e. cc, same.0 e), λ h. same.1 h.1)

has_text-false : (t : Text) (xs : List Text) → has_text t xs ≡ false → ¬ IsIn t xs
has_text-false t xs e m = let found = (has_text_iff t xs).1 m in cc

if_iff :
    (name : Text) (xs ys : List Text)
    → ((if has_text name xs then true else has_text name ys) ≡ true) ↔ (IsIn name xs ⊎ IsIn name ys)
if_iff name xs ys = elim (Bool-cases (has_text name xs)) [
  | inl e ↦ rw e (λ _. inl ((has_text_iff name xs).0 e), λ _. refl)
  | inr e ↦ rw e (
    λ f. inr ((has_text_iff name ys).0 f),
    λ m. elim m [
      | inl absent ↦ absurd (has_text-false name xs e absent)
      | inr present ↦ (has_text_iff name ys).1 present
    ],
  )
]

-- A tool is allowed exactly if it is not denied and is either one that only owners may use, used by
-- the configured owner, or any other one that is allowed by name or belongs to the profile.
pub is_allowed_iff :
    (p : ToolPolicy) (name identity : Text)
    → (is_allowed p name identity ≡ true) ↔ Grants p name identity
unfolding is_allowed
is_allowed_iff p name identity = elim (Bool-cases (has_text name p.deny_list)) [
  | inl denied ↦ rw denied (λ e. cc, λ g. absurd (g.0 ((has_text_iff name p.deny_list).0 denied)))
  | inr not_denied ↦
      let free = has_text-false name p.deny_list not_denied in
      rw not_denied (elim (Bool-cases (has_text name owner_only_tools)) [
        | inl owners ↦
            let listed = (has_text_iff name owner_only_tools).0 owners in
            let owner = owner_iff p.owner_identity identity in
            rw owners (
              λ e. (free, inl (listed, (owner.0 e).0, (owner.0 e).1)),
              λ g. elim g.1 [ inl o ↦ owner.1 (o.1, o.2) | inr o ↦ absurd (o.0 listed) ],
            )
        | inr anyone ↦
            let unlisted = has_text-false name owner_only_tools anyone in
            let granted = if_iff name p.allow_list (profile_tools p.profile) in
            rw anyone (
              λ e. (free, inr (unlisted, granted.0 e)),
              λ g. elim g.1 [ inl o ↦ absurd (unlisted o.0) | inr o ↦ granted.1 o.1 ],
            )
      ])
]

-- The profiles in the order in which they grow.
abbrev pub rank : ToolProfile → ℕ
rank minimal = 0
rank coding = 1
rank messaging = 2
rank full = 3

left-IsIn : (name : Text) (xs ys : List Text) → IsIn name xs → IsIn name (xs ++ ys)
left-IsIn name xs ys m = (Has-append (λ x. x ≡ name) xs ys).1 (inl m)

profile_tools-coding :
    (name : Text) → IsIn name (profile_tools minimal) → IsIn name (profile_tools coding)
unfolding profile_tools
profile_tools-coding name m = left-IsIn name minimal_tools coding_tools m

profile_tools-messaging :
    (name : Text) → IsIn name (profile_tools coding) → IsIn name (profile_tools messaging)
unfolding profile_tools
profile_tools-messaging name m = left-IsIn name (minimal_tools ++ coding_tools) messaging_tools m

profile_tools-full :
    (name : Text) → IsIn name (profile_tools messaging) → IsIn name (profile_tools full)
unfolding profile_tools
profile_tools-full name m =
    left-IsIn name ((minimal_tools ++ coding_tools) ++ messaging_tools)
      (all_groups tool_groups ++ owner_only_tools) m

profile_tools-grow :
    (small large : ToolProfile) (name : Text)
    → rank small ≤ rank large
    → IsIn name (profile_tools small)
    → IsIn name (profile_tools large)
profile_tools-grow minimal minimal name h m = m
profile_tools-grow minimal coding name h m = profile_tools-coding name m
profile_tools-grow minimal messaging name h m =
    profile_tools-messaging name (profile_tools-coding name m)
profile_tools-grow minimal full name h m =
    profile_tools-full name (profile_tools-messaging name (profile_tools-coding name m))
profile_tools-grow coding coding name h m = m
profile_tools-grow coding messaging name h m = profile_tools-messaging name m
profile_tools-grow coding full name h m = profile_tools-full name (profile_tools-messaging name m)
profile_tools-grow messaging messaging name h m = m
profile_tools-grow messaging full name h m = profile_tools-full name m
profile_tools-grow full full name h m = m
profile_tools-grow coding minimal name h m = absurd (omega arith)
profile_tools-grow messaging minimal name h m = absurd (omega arith)
profile_tools-grow messaging coding name h m = absurd (omega arith)
profile_tools-grow full minimal name h m = absurd (omega arith)
profile_tools-grow full coding name h m = absurd (omega arith)
profile_tools-grow full messaging name h m = absurd (omega arith)

-- A larger profile takes no permission away.
pub is_allowed-grow :
    (p : ToolPolicy) (large : ToolProfile) (name identity : Text)
    → rank p.profile ≤ rank large
    → is_allowed p name identity ≡ true
    → is_allowed (set_profile p large) name identity ≡ true
unfolding set_profile
is_allowed-grow p large name identity h e =
    let (free, why) = (is_allowed_iff p name identity).0 e in
    (is_allowed_iff (set_profile p large) name identity).1 (
      free,
      elim why [
        | inl owner ↦ inl owner
        | inr (anyone, inl allowed) ↦ inr (anyone, inl allowed)
        | inr (anyone, inr inside) ↦
            inr (anyone, inr (profile_tools-grow p.profile large name h inside))
      ],
    )

-- The operations on a policy.
pub data Step : ToolPolicy → ToolPolicy → Type 0 where
  configured : {p : ToolPolicy} (settings : Map Setting) → Step p (configure p settings).0
  owner_set : {p : ToolPolicy} (owner : Text) → Step p (set_owner p owner)
  allowed : {p : ToolPolicy} (name : Text) → Step p (allow p name)
  denied : {p : ToolPolicy} (name : Text) → Step p (deny p name)
  profile_set : {p : ToolPolicy} (profile : ToolProfile) → Step p (set_profile p profile)

pub data Steps : ToolPolicy → ToolPolicy → Type 0 where
  done : {p : ToolPolicy} → Steps p p
  next : {p q r : ToolPolicy} → Steps p q → Step q r → Steps p r

insert_all-IsIn :
    (name : Text) (tools target : List Text)
    → IsIn name target
    → IsIn name (insert_all tools target)
insert_all-IsIn name [] target m = m
insert_all-IsIn name (t ∷ tools) target m = insert_all-IsIn name tools (t ∷ target) (inr m)

load_items-IsIn :
    (name : Text) (items : List (Option Text)) (target : List Text)
    → IsIn name target
    → IsIn name (load_items items target).0
unfolding load_items
load_items-IsIn name [] target m = m
load_items-IsIn name (none ∷ items) target m = m
load_items-IsIn name (some item ∷ items) target m =
    elim (Bool-cases (starts_with item (codes "group:"))) [
      | inl group ↦ rw group (
          load_items-IsIn name items (insert_all (expand_group item) target)
            (insert_all-IsIn name (expand_group item) target m))
      | inr single ↦ rw single (load_items-IsIn name items (item ∷ target) (inr m))
    ]

load_list-IsIn :
    (name : Text) (settings : Map Setting) (key : Text) (target : List Text)
    → IsIn name target
    → IsIn name (load_list settings key target).0
unfolding load_list
load_list-IsIn name settings key target m = elim (Option-cases (lookup key settings)) [
  | inl e ↦ rw (e, load_list) m
  | inr (string t, e) ↦ rw (e, load_list) m
  | inr (array items, e) ↦ rw (e, load_list) (load_items-IsIn name items target m)
  | inr (other, e) ↦ rw (e, load_list) m
]

configure-IsIn :
    (p : ToolPolicy) (settings : Map Setting) (name : Text)
    → IsIn name p.deny_list
    → IsIn name (configure p settings).0.deny_list
unfolding configure
configure-IsIn p settings name m = elim (Option-cases (configured_profile p.profile settings)) [
  | inl e ↦ rw (e, configure) m
  | inr (profile, e) ↦
      rw (e, configure)
        (elim (Bool-cases (load_list settings (codes "tools.allow") p.allow_list).1) [
          | inl threw ↦ rw threw m
          | inr loaded ↦ rw loaded (load_list-IsIn name settings (codes "tools.deny") p.deny_list m)
        ])
]

Step-IsIn :
    {p q : ToolPolicy} (name : Text) → Step p q → IsIn name p.deny_list → IsIn name q.deny_list
unfolding set_owner allow deny set_profile
Step-IsIn name (configured {p} settings) m = configure-IsIn p settings name m
Step-IsIn name (owner_set _) m = m
Step-IsIn name (allowed _) m = m
Step-IsIn name (denied _) m = inr m
Step-IsIn name (profile_set _) m = m

Steps-IsIn :
    {p q : ToolPolicy} (name : Text) → Steps p q → IsIn name p.deny_list → IsIn name q.deny_list
Steps-IsIn name done m = m
Steps-IsIn name (next before st) m = Step-IsIn name st (Steps-IsIn name before m)

-- Once a tool is denied, no later operation, `configure` included, allows it again to anybody.
pub deny-stays :
    (p : ToolPolicy) {q : ToolPolicy} (name identity : Text)
    → Steps (deny p name) q
    → is_allowed q name identity ≡ false
unfolding deny
deny-stays p {q} name identity path = elim (Bool-cases (is_allowed q name identity)) [
  | inl e ↦ absurd (((is_allowed_iff q name identity).0 e).0 (Steps-IsIn name path (inl refl)))
  | inr e ↦ e
]
