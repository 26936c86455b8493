-- ===== src/Gateway/WorkspaceFile.antt =====
-- gateway/server.cpp, validate_avatar_path and resolve_agent_workspace_file_path: which files the server
-- hands out. `lexically_normal` and the size of a file are arguments, the messages of the system and the
-- size are left out of an error's detail, and `none` is an exception of std::filesystem.
pub mod Containment
use mylobsterpp.Prelude.{
  ℕ, ◌*◌, ◌≤◌, ◌≡◌, refl, ◌∙◌, sym, arith, inl, inr, Bool, true, false, Bool-cases, Option-cases,
  not, Option, none, some, [], ◌∷◌, ◌++◌, if◌then◌else◌, ltb, Text, codes, starts_with, VoidResult,
  Result, ok, err, undefined, fail_with, not_found, forbidden, invalid_argument, ok-injective,
}
use mylobsterpp.Prelude.Partial.{◌>>=◌}
use mylobsterpp.Infra.FsPath.{Fs, is_symlink, is_absolute, join, parent_path}

pub data WorkspaceFileStatus : Type 0 where
  ready missing invalid : WorkspaceFileStatus

pub record ResolvedAgentWorkspaceFilePath : Type 0 where
  pub status : WorkspaceFileStatus
  pub resolved_path : Text
  pub error_detail : Text

abbrev pub as_invalid : (path detail : Text) → ResolvedAgentWorkspaceFilePath
as_invalid path detail = record { status = invalid; resolved_path = path; error_detail = detail }

-- A file that is not there yet, by the canonical form of its folder.
abbrev pub if_inside : (root resolved : Text) → Option Text → ResolvedAgentWorkspaceFilePath
if_inside root resolved none =
    as_invalid resolved (codes "Path parent escapes workspace or doesn't exist")
if_inside root resolved (some parent) =
    if starts_with parent root
    then record { status = missing; resolved_path = resolved; error_detail = [] }
    else as_invalid resolved (codes "Path parent escapes workspace or doesn't exist")

-- A file that is there, by its canonical form.
abbrev pub if_contained : (root resolved : Text) → Option Text → ResolvedAgentWorkspaceFilePath
if_contained root resolved none = as_invalid resolved (codes "Cannot canonicalize path: ")
if_contained root resolved (some path) =
    if starts_with path root
    then record { status = ready; resolved_path = path; error_detail = [] }
    else as_invalid path (codes "Path escapes workspace after symlink resolution")

abbrev pub existing : Fs → (path : Text) → Option Text
existing fs path = if fs.exists path then fs.canonical path else none

unfoldable pub resolve_below : Fs → (root resolved : Text) → ResolvedAgentWorkspaceFilePath
unfolding starts_with parent_path
resolve_below fs root resolved =
    if fs.exists resolved
    then if_contained root resolved (fs.canonical resolved)
    else if_inside root resolved (existing fs (parent_path resolved))

unfoldable pub resolve_agent_workspace_file_path :
    Fs
    → (lexically_normal : Text → Text) → (requested_path workspace_root : Text)
    → ResolvedAgentWorkspaceFilePath
unfolding resolve_below is_absolute join
resolve_agent_workspace_file_path fs lexically_normal requested_path workspace_root =
    elim (fs.canonical workspace_root) [
      | none ↦ as_invalid [] (codes "Cannot canonicalize workspace root: ")
      | some root ↦ resolve_below fs root (
          lexically_normal (
            if is_absolute requested_path
            then requested_path
            else join workspace_root requested_path))
    ]

abbrev pub max_avatar_bytes : ℕ
max_avatar_bytes = 2 * 1024 * 1024

-- The canonical form of a link's target.
unfoldable pub link_target : Fs → (path : Text) → Option Text
unfolding is_absolute join parent_path
link_target fs path = do
  target ← fs.read_symlink path
  fs.canonical (if is_absolute target then target else join (parent_path path) target)

abbrev pub size_check : (size : ℕ) → VoidResult
size_check size =
    if ltb max_avatar_bytes size
    then fail_with invalid_argument (codes "Avatar file exceeds 2MB limit") []
    else ok tt

unfoldable pub contained :
    Fs → (file_size : Text → Option ℕ) → (path root : Text) → Option VoidResult
unfolding starts_with
contained fs file_size path root = do
  canonical_path ← fs.canonical path
  canonical_root ← fs.canonical root
  if starts_with canonical_path canonical_root
      then (file_size path >>= λ size. some (size_check size))
      else some (fail_with forbidden (codes "Avatar path traversal detected") canonical_path)

unfoldable pub validate_avatar_path :
    Fs → (file_size : Text → Option ℕ) → (path root : Text) → Option VoidResult
unfolding link_target contained starts_with
validate_avatar_path fs file_size path root =
    let through_link = link_target fs path >>= λ target. fs.canonical root >>= λ canonical_root.
    if starts_with target canonical_root
    then contained fs file_size path root
    else some (
        fail_with forbidden (codes "Avatar symlink points outside allowed root")
          (path ++ codes " -> " ++ target)) in
    if not (fs.exists path)
    then some (fail_with not_found (codes "Avatar file not found") path)
    else if is_symlink fs path
    then through_link
    else contained fs file_size path root
