-- ===== src/Infra/SandboxPaths.antt =====
-- infra/sandbox_paths.cpp: hard links, media paths and bind-mount sources inside the sandbox.
pub mod Laws
use mylobsterpp.Prelude.{
  ℕ, zero, suc, ◌+◌, String, Bool, true, false, not, ◌&&◌, ◌||◌, Option, none, some, List, [], ◌∷◌,
  ◌++◌, ltb, ◌==◌, if◌then◌else◌, length, Text, starts_with, Result, VoidResult, ok, err, undefined,
  fail, ◌>>=◌, ◌>>◌, forbidden, io_error, not_found,
}
use mylobsterpp.Infra.FsPath.{filename, parent_path, join, Fs}

unfoldable pub assert_no_hardlinked_final_path : Fs → (path : Text) → VoidResult
assert_no_hardlinked_final_path fs path =
    if not (fs.exists path)
    then fail not_found "Path does not exist"
    else elim (fs.hard_link_count path) [
      | none ↦ fail io_error "Failed to get hard link count"
      | some links ↦
          if fs.is_regular_file path && ltb 1 links
          then fail forbidden "Hard link detected: file has multiple links"
          else ok tt
    ]

unfoldable pub normalize_at_prefix : Text → Text
normalize_at_prefix [] = []
normalize_at_prefix (c ∷ path) = if c == b'@' then path else c ∷ path

abbrev resolved_or : String → Option Text → Result Text
resolved_or m none = fail io_error m
resolved_or m (some p) = ok p

unfoldable pub resolve_allowed_tmp_media_path : Fs → (base relative : Text) → Result Text
unfolding normalize_at_prefix
resolve_allowed_tmp_media_path fs base relative = do
  let full = join base (normalize_at_prefix relative)
  canonical_base ← resolved_or "Failed to canonicalize base path" (fs.canonical base)
  canonical_full ← resolved_or "Failed to resolve path" (fs.weakly_canonical full)
  if starts_with canonical_full canonical_base
      then ok canonical_full
      else fail forbidden "Path traversal: resolved path escapes sandbox"

-- The loop that walks up to the nearest existing ancestor: the ancestor and the leaf below it.
-- `none` is the model's own: the fuel ran out, so the loop is still running.
unfoldable pub walk_up : ℕ → Fs → (current leaf : Text) → Option (Text × Text)
walk_up zero fs current leaf = none
walk_up (suc fuel) fs [] leaf = some ([], leaf)
walk_up (suc fuel) fs (c ∷ current) leaf =
    let up = walk_up fuel fs (parent_path (c ∷ current)) (join (filename (c ∷ current)) leaf) in
    if fs.exists (c ∷ current) then some (c ∷ current, leaf) else up

-- The ancestor, canonical, with the leaf put back.
unfoldable pub rejoin : Fs → (found : Text × Text) → Result Text
rejoin fs ([], leaf) = fail not_found "No existing ancestor found for bind mount source"
rejoin fs (c ∷ current, leaf) = do
  ancestor ← resolved_or "Failed to canonicalize ancestor" (fs.canonical (c ∷ current))
  ok (join ancestor leaf)

-- `none`: the loop does not end, as when the root itself does not exist.
unfoldable pub canonicalize_bind_mount_source : Fs → (path : Text) → Option (Result Text)
unfolding walk_up rejoin
canonicalize_bind_mount_source fs path =
    if fs.exists path
    then some (resolved_or "Failed to canonicalize path" (fs.canonical path))
    else elim (walk_up (length path + 1) fs path []) [
      | none ↦ none
      | some found ↦ some (rejoin fs found)
    ]
