-- ===== src/Gateway/ToolPolicy.antt =====
-- gateway/tool_policy.cpp and tool_policy.hpp: which identity may use which tool. A set of names is
-- the list of what was inserted. The settings are the members of a JSON object, each by what the code
-- asks of it: a string, an array (an item that is not a string is `none`), or another value.
pub mod Laws
use mylobsterpp.Prelude.{
  ℕ, Bool, true, false, not, ◌&&◌, ◌||◌, Option, none, some, List, [], ◌∷◌, ◌++◌, if◌then◌else◌,
  Text, codes, text_eq, starts_with, has_text, Map, lookup,
}

pub data ToolProfile : Type 0 where
  minimal coding messaging full : ToolProfile

pub record ToolPolicy : Type 0 where
  pub owner_identity : Text
  pub profile : ToolProfile
  pub allow_list : List Text
  pub deny_list : List Text

pub data Setting : Type 0 where
  string : Text → Setting
  array : List (Option Text) → Setting
  other : Setting

unfoldable pub tool_groups : Map (List Text)
tool_groups =
    (codes "group:sessions", codes "spawn" ∷ codes "send" ∷ codes "list" ∷ [])
    ∷ (codes "group:automation", codes "gateway" ∷ codes "cron" ∷ [])
    ∷ (
      codes "group:memory",
      codes "memory_search" ∷ codes "memory_store" ∷ codes "memory_delete" ∷ [],
    )
    ∷ (
      codes "group:browser",
      codes "browser_open" ∷ codes "browser_navigate" ∷ codes "browser_screenshot" ∷ [],
    )
    ∷ []

unfoldable pub owner_only_tools : List Text
owner_only_tools = (codes "whatsapp_login" ∷ [])

unfoldable pub expand_group : (group_name : Text) → List Text
unfolding tool_groups
expand_group group_name = elim (lookup group_name tool_groups) [ none ↦ [] | some tools ↦ tools ]

unfoldable pub minimal_tools : List Text
minimal_tools = (codes "help" ∷ codes "version" ∷ codes "health" ∷ [])

unfoldable pub coding_tools : List Text
coding_tools =
    (codes "code_search"
      ∷ codes "code_edit"
      ∷ codes "file_read"
      ∷ codes "file_write"
      ∷ codes "shell"
      ∷ codes "git"
      ∷ [])

unfoldable pub messaging_tools : List Text
unfolding expand_group
messaging_tools =
    expand_group (codes "group:sessions") ++ (codes "send_message" ∷ codes "broadcast" ∷ [])

unfoldable pub all_groups : Map (List Text) → List Text
all_groups [] = []
all_groups ((_, tools) ∷ groups) = tools ++ all_groups groups

-- What each profile adds to the one before it, in the order of the insertions.
unfoldable pub profile_tools : ToolProfile → List Text
unfolding owner_only_tools minimal_tools coding_tools messaging_tools all_groups tool_groups
profile_tools minimal = minimal_tools
profile_tools coding = minimal_tools ++ coding_tools
profile_tools messaging = (minimal_tools ++ coding_tools) ++ messaging_tools
profile_tools full =
    ((minimal_tools ++ coding_tools) ++ messaging_tools)
    ++ (all_groups tool_groups ++ owner_only_tools)

unfoldable pub profile_of : Text → ToolProfile
profile_of name =
    if text_eq name (codes "minimal")
    then minimal
    else if text_eq name (codes "coding")
    then coding
    else if text_eq name (codes "messaging")
    then messaging
    else full

-- The profile that the settings name: `none` where `get<std::string>` throws.
unfoldable pub configured_profile : ToolProfile → Map Setting → Option ToolProfile
unfolding profile_of
configured_profile old settings = elim (lookup (codes "tools.profile") settings) [
  | some (string name) ↦ some (profile_of name)
  | some (array _) ↦ none
  | some other ↦ none
  | none ↦ elim (lookup (codes "profile") settings) [
    | some (string name) ↦ some (profile_of name)
    | some (array _) ↦ none
    | some other ↦ none
    | none ↦ some old
  ]
]

abbrev insert_all : List Text → List Text → List Text
insert_all [] target = target
insert_all (t ∷ tools) target = insert_all tools (t ∷ target)

-- The target set, and whether an item threw; what was inserted before stays.
unfoldable pub load_items : List (Option Text) → (target : List Text) → List Text × Bool
unfolding expand_group
load_items [] target = (target, false)
load_items (none ∷ items) target = (target, true)
load_items (some name ∷ items) target =
    let grouped = load_items items (insert_all (expand_group name) target) in
    let single = load_items items (name ∷ target) in
    if starts_with name (codes "group:") then grouped else single

unfoldable pub load_list : Map Setting → (key : Text) → (target : List Text) → List Text × Bool
unfolding load_items
load_list settings key target = elim (lookup key settings) [
  | some (array items) ↦ load_items items target
  | some (string _) ↦ (target, false)
  | some other ↦ (target, false)
  | none ↦ (target, false)
]

-- The policy, and whether `configure` threw on the way.
unfoldable pub configure : ToolPolicy → Map Setting → ToolPolicy × Bool
unfolding configured_profile load_list
configure p settings = elim (configured_profile p.profile settings) [
  | none ↦ (p, true)
  | some profile ↦
      let allowed = load_list settings (codes "tools.allow") p.allow_list in
      let denied = load_list settings (codes "tools.deny") p.deny_list in
      if allowed.1
      then (record p { profile = profile; allow_list = allowed.0 }, true)
      else (record p { profile = profile; allow_list = allowed.0; deny_list = denied.0 }, denied.1)
]

unfoldable pub set_owner : ToolPolicy → Text → ToolPolicy
set_owner p owner = record p { owner_identity = owner }

abbrev pub is_empty : Text → Bool
is_empty [] = true
is_empty (_ ∷ _) = false

unfoldable pub is_owner : ToolPolicy → (identity : Text) → Bool
is_owner p identity = not (is_empty p.owner_identity) && text_eq identity p.owner_identity

unfoldable pub allow : ToolPolicy → Text → ToolPolicy
allow p tool_name = record p { allow_list = tool_name ∷ p.allow_list }

unfoldable pub deny : ToolPolicy → Text → ToolPolicy
deny p tool_name = record p { deny_list = tool_name ∷ p.deny_list }

unfoldable pub set_profile : ToolPolicy → ToolProfile → ToolPolicy
set_profile p profile = record p { profile = profile }

unfoldable pub is_allowed : ToolPolicy → (tool_name identity : Text) → Bool
unfolding owner_only_tools profile_tools is_owner
is_allowed p name identity =
    if has_text name p.deny_list
    then false
    else if has_text name owner_only_tools
    then is_owner p identity
    else if has_text name p.allow_list
    then true
    else has_text name (profile_tools p.profile)
