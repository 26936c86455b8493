-- ===== src/Infra/NetworkMode.antt =====
-- infra/sandbox_network.cpp and sandbox_network.hpp: which network modes a sandbox may have.
pub mod Laws
use mylobsterpp.Prelude.{
  ℕ, Bool, true, false, ◌||◌, ◌==◌, Option, none, some, [], ◌∷◌, if◌then◌else◌, map, Text, codes,
  text_eq, to_lower, starts_with,
}

pub data NetworkModeBlockReason : Type 0 where
  host container_namespace_join : NetworkModeBlockReason

-- ` `, `\t`, `\n`, `\r`
abbrev pub is_blank : ℕ → Bool
is_blank c = c == 32 || c == 9 || c == 10 || c == 13

-- From `find_first_not_of`, and up to `find_last_not_of`; blanks alone give the empty text.
unfoldable pub trim_start : Text → Text
trim_start [] = []
trim_start (c ∷ s) = if is_blank c then trim_start s else c ∷ s

abbrev ended : ℕ → Text → Text
ended c [] = if is_blank c then [] else c ∷ []
ended c (d ∷ s) = c ∷ d ∷ s

unfoldable pub trim_end : Text → Text
trim_end [] = []
trim_end (c ∷ s) = ended c (trim_end s)

unfoldable pub normalize_network_mode : (mode : Text) → Text
unfolding trim_start trim_end to_lower
normalize_network_mode mode = map to_lower (trim_end (trim_start mode))

unfoldable pub get_blocked_network_mode_reason : (mode : Text) → Option NetworkModeBlockReason
unfolding normalize_network_mode
get_blocked_network_mode_reason mode =
    let normalized = normalize_network_mode mode in
    if text_eq normalized (codes "host")
    then some host
    else if starts_with normalized (codes "container:")
    then some container_namespace_join
    else none

unfoldable pub is_dangerous_network_mode : (mode : Text) → Bool
unfolding get_blocked_network_mode_reason
is_dangerous_network_mode mode = elim (get_blocked_network_mode_reason mode) [
  | none ↦ false
  | some _ ↦ true
]

unfoldable pub validate_sandbox_network_mode : (mode : Text) → (break_glass : Bool) → Bool
unfolding get_blocked_network_mode_reason
validate_sandbox_network_mode mode break_glass = elim (get_blocked_network_mode_reason mode) [
  | none ↦ true
  | some host ↦ false
  | some container_namespace_join ↦ break_glass
]
