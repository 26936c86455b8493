-- ===== src/Gateway/WorkspaceFile/Containment.antt =====
-- What a resolved path and an accepted avatar are.
use mylobsterpp.Prelude.{
  ◌≡◌, ◌⊎◌, refl, arith, inl, inr, true, false, Bool-cases, Option, Option-cases, none, some, Text,
  starts_with,
}
use mylobsterpp.Infra.FsPath.{Fs, parent_path}
use mylobsterpp.Gateway.WorkspaceFile.{
  ready, missing, invalid, ResolvedAgentWorkspaceFilePath, if_inside, if_contained, existing,
  resolve_below, resolve_agent_workspace_file_path,
}

-- The canonical form of a file, which begins with the root's.
abbrev pub IsReady : Fs → (root : Text) → ResolvedAgentWorkspaceFilePath → Type 0
IsReady fs root r =
    (r.status ≡ ready)
    × (starts_with r.resolved_path root ≡ true)
    × ((path : Text) × (fs.canonical path ≡ some r.resolved_path))

-- No file, in a folder whose canonical form begins with the root's.
abbrev pub IsMissing : Fs → (root : Text) → ResolvedAgentWorkspaceFilePath → Type 0
IsMissing fs root r =
    (r.status ≡ missing)
    × (fs.exists r.resolved_path ≡ false)
    × ((parent : Text) × (fs.canonical (parent_path r.resolved_path) ≡ some parent)
        × (starts_with parent root ≡ true))

abbrev pub IsResolved : Fs → (root : Text) → ResolvedAgentWorkspaceFilePath → Type 0
IsResolved fs root r = (r.status ≡ invalid) ⊎ (IsReady fs root r ⊎ IsMissing fs root r)

if_contained-IsResolved :
    (fs : Fs) (root resolved : Text) (path : Option Text)
    → fs.canonical resolved ≡ path
    → IsResolved fs root (if_contained root resolved path)
if_contained-IsResolved fs root resolved none e = inl refl
if_contained-IsResolved fs root resolved (some path) e = elim (Bool-cases (starts_with path root)) [
  | inl below ↦ rw below (inr (inl (refl, below, (resolved, e))))
  | inr beside ↦ rw beside (inl refl)
]

existing-some :
    (fs : Fs) (path parent : Text)
    → existing fs path ≡ some parent
    → fs.canonical path ≡ some parent
existing-some fs path parent e = ground arith

if_inside-IsResolved :
    (fs : Fs) (root resolved : Text) (parent : Option Text)
    → fs.exists resolved ≡ false
    → existing fs (parent_path resolved) ≡ parent
    → IsResolved fs root (if_inside root resolved parent)
if_inside-IsResolved fs root resolved none absent e = inl refl
if_inside-IsResolved fs root resolved (some parent) absent e =
    elim (Bool-cases (starts_with parent root)) [
      | inl below ↦ rw below (
          inr
            (inr (refl, absent, (parent, existing-some fs (parent_path resolved) parent e, below))))
      | inr beside ↦ rw beside (inl refl)
    ]

resolve_below-IsResolved :
    (fs : Fs) (root resolved : Text) → IsResolved fs root (resolve_below fs root resolved)
unfolding resolve_below
resolve_below-IsResolved fs root resolved = elim (Bool-cases (fs.exists resolved)) [
  | inl there ↦
      rw (there, resolve_below)
        (if_contained-IsResolved fs root resolved (fs.canonical resolved) refl)
  | inr absent ↦ rw (absent, resolve_below) (if_inside-IsResolved fs root resolved _ absent refl)
]

-- A requested path is invalid, or the workspace has a canonical form, and the path is that of a file
-- whose canonical form begins with it, or names no file in a folder whose canonical form begins with it.
-- The comparison is of texts: a folder beside the workspace whose name begins with the workspace's
-- passes.
pub resolve_agent_workspace_file_path-IsResolved :
    (fs : Fs) (lexically_normal : Text → Text) (requested workspace : Text)
    → let r = resolve_agent_workspace_file_path fs lexically_normal requested workspace in
      (r.status ≡ invalid)
      ⊎ ((root : Text) × (fs.canonical workspace ≡ some root) × IsResolved fs root r)
unfolding resolve_agent_workspace_file_path
resolve_agent_workspace_file_path-IsResolved fs lexically_normal requested workspace =
    elim (Option-cases (fs.canonical workspace)) [
      | inl e ↦ rw (e, resolve_agent_workspace_file_path) (inl refl)
      | inr (root, e) ↦
          rw (e, resolve_agent_workspace_file_path)
            (inr (root, refl, resolve_below-IsResolved fs root _))
    ]
