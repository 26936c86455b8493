-- ===== src/Infra/ExecTrust.antt =====
-- infra/exec_trust.cpp and exec_trust.hpp: how risky a folder of trusted programs is. The call of
-- `stat` and the descriptions are left out.
use mylobsterpp.Prelude.{
  ◌||◌, ◌==◌, not, Bool, Option, none, some, [], ◌∷◌, ◌++◌, if◌then◌else◌, map, Text, codes,
  text_eq, to_lower, starts_with,
}
use mylobsterpp.Gateway.Hooks.Webhook.{has_part}

pub data SafeBinDirRisk : Type 0 where
  relative temporary package_manager home_scoped : SafeBinDirRisk

-- `lower == dir || lower.starts_with(dir + "/")`
unfoldable pub at_or_below : (dir lower : Text) → Bool
at_or_below dir lower = text_eq lower dir || starts_with lower (dir ++ codes "/")

unfoldable pub is_temporary : Text → Bool
unfolding at_or_below
is_temporary lower =
    at_or_below (codes "/tmp") lower
    || at_or_below (codes "/var/tmp") lower
    || at_or_below (codes "/private/tmp") lower

unfoldable pub is_packaged : Text → Bool
unfolding at_or_below has_part
is_packaged lower =
    at_or_below (codes "/usr/local/bin") lower
    || at_or_below (codes "/opt/homebrew/bin") lower
    || at_or_below (codes "/opt/local/bin") lower
    || has_part (codes "linuxbrew") lower

unfoldable pub is_home : Text → Bool
unfolding has_part
is_home lower =
    starts_with lower (codes "/users/")
    || starts_with lower (codes "/home/")
    || has_part (codes "/.local/bin") lower

unfoldable pub classify_risky_safe_bin_dir : (dir : Text) → Option SafeBinDirRisk
unfolding is_temporary is_packaged is_home
classify_risky_safe_bin_dir [] = some relative
classify_risky_safe_bin_dir (c ∷ dir) =
    let lower = map to_lower (c ∷ dir) in
    if not (c == b'/')
    then some relative
    else if is_temporary lower
    then some temporary
    else if is_packaged lower
    then some package_manager
    else if is_home lower
    then some home_scoped
    else none
