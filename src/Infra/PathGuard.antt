-- ===== src/Infra/PathGuard.antt =====
-- infra/path_alias_guards.cpp from line 82: a path must stay inside the workspace roots, through
-- every symbolic link, and a file must not have a second name. `decode_checked` is its first part.
-- Canonical paths have one spelling, so comparing two `fs::path` compares their texts.
-- `assert_no_path_alias_escape` sees one file system: that it may change between its calls is left out.
pub mod Containment
pub mod Hardlinks
use mylobsterpp.Prelude.{
  ℕ, String, Bool, true, false, not, ◌&&◌, ◌||◌, Option, none, some, List, [], ◌∷◌, ◌++◌, ltb, ◌==◌,
  if◌then◌else◌, Text, codes, text_eq, starts_with, Error, Result, VoidResult, ok, err, undefined,
  fail, ◌>>=◌, ◌>>◌, ErrorCode, forbidden, io_error, invalid_argument,
}
use mylobsterpp.Infra.Percent.{decode_checked}
use mylobsterpp.Infra.FsPath.{
  slash, is_absolute, ends_with_slash, parent_path, join, components, Stat, Fs, is_symlink,
}

unfoldable pub with_slash : Text → Text
with_slash root = if ends_with_slash root then root else root ++ slash ∷ []

unfoldable pub is_contained_in : (child root : Text) → Bool
is_contained_in child root = starts_with child (with_slash root) || text_eq child root

unfoldable pub is_within_any_root : Fs → Text → List Text → Bool
is_within_any_root fs path [] = false
is_within_any_root fs path (root ∷ roots) = elim (fs.canonical root) [
  | none ↦ is_within_any_root fs path roots
  | some r ↦ if is_contained_in path r then true else is_within_any_root fs path roots
]

-- The loop over `workspace_roots` at a symbolic link: is its target above some root?
unfoldable pub is_ancestor : Fs → Text → List Text → Bool
is_ancestor fs target [] = false
is_ancestor fs target (root ∷ roots) = elim (fs.canonical root) [
  | none ↦ is_ancestor fs target roots
  | some r ↦
      if starts_with r (with_slash target) || text_eq r target
      then true
      else is_ancestor fs target roots
]

-- A link's target, read from the folder that holds the link.
abbrev pub link_target : (link target : Text) → Text
link_target link target = if is_absolute target then target else join (parent_path link) target

-- The check of the whole path, by its canonical form or as a broken link.
unfoldable pub final_check : Fs → (decoded : Text) → List Text → VoidResult
final_check fs d roots = elim (fs.canonical d) [
  | some c ↦
      if is_within_any_root fs c roots
      then ok tt
      else fail forbidden "Path escapes workspace boundary"
  | none ↦
      if is_symlink fs d
      then elim (fs.read_symlink d) [
        | none ↦ ok tt
        | some target ↦ elim (fs.weakly_canonical (link_target d target)) [
          | none ↦ ok tt
          | some weak ↦
              if is_within_any_root fs weak roots
              then ok tt
              else fail forbidden "Broken symlink target escapes workspace boundary"
        ]
      ]
      else ok tt
]

-- What one round of the walk decides.
pub data Verdict : Type 0 where
  go_on stop : Verdict
  refuse : Error → Verdict

abbrev refused : ErrorCode → String → Verdict
refused c m = refuse (record { error_code = c; message = codes m; detail = [] })

unfoldable pub is_hardlinked : Fs → Text → Bool
is_hardlinked fs p =
    fs.is_regular_file p && elim (fs.lstat p) [ none ↦ false | some st ↦ ltb 1 st.nlink ]

unfoldable pub check_link : Fs → List Text → Text → Verdict
check_link fs roots p = elim (fs.read_symlink p) [
  | none ↦ refused io_error "Failed to read symlink"
  | some target ↦ elim (fs.canonical (link_target p target)) [
    | none ↦ refused io_error "Failed to canonicalize symlink target"
    | some r ↦
        if is_ancestor fs r roots
        then go_on
        else if is_within_any_root fs r roots
        then go_on
        else refused forbidden "Symlink escapes workspace boundary"
  ]
]

-- `p` is the path up to the component.
unfoldable pub check_component : Fs → List Text → (p component : Text) → Verdict
unfolding is_hardlinked check_link
check_component fs roots p component =
    if text_eq p component && text_eq component (slash ∷ [])
    then go_on
    else if not (fs.exists p)
    then stop
    else if is_hardlinked fs p
    then refused forbidden "Hardlinked intermediate path component rejected"
    else if is_symlink fs p
    then check_link fs roots p
    else go_on

unfoldable pub walk : Fs → List Text → (accumulated : Text) → List Text → VoidResult
walk fs roots accumulated [] = ok tt
walk fs roots accumulated (component ∷ rest) =
    let p = join accumulated component in
    elim (check_component fs roots p component) [
      | go_on ↦ walk fs roots p rest
      | stop ↦ ok tt
      | refuse e ↦ err e
    ]

unfoldable pub assert_no_path_alias_escape :
    Fs → (path : Text) → (workspace_roots : List Text) → VoidResult
unfolding decode_checked final_check walk
assert_no_path_alias_escape fs path [] =
    fail invalid_argument "No workspace roots provided for path alias check"
assert_no_path_alias_escape fs path (root ∷ roots) = do
  d ← decode_checked path
  final_check fs d (root ∷ roots)
  walk fs (root ∷ roots) [] (components d)

pub data PathAliasPolicy : Type 0 where
  reject unlink_target : PathAliasPolicy

abbrev stat_or : String → Option Stat → Result Stat
stat_or m none = fail io_error m
stat_or m (some st) = ok st

abbrev canonical_or : String → Option Text → Result Text
canonical_or m none = fail io_error m
canonical_or m (some p) = ok p

-- What is done with a file that has other names; the second part is the path that was unlinked.
unfoldable pub hardlink_action : Fs → (path : Text) → PathAliasPolicy → VoidResult × Option Text
hardlink_action fs path unlink_target =
    if fs.unlink path
    then (ok tt, some path)
    else (fail forbidden "Hardlinked file detected and unlink failed", none)
hardlink_action fs path reject = (fail forbidden "Hardlinked file rejected (nlink > 1)", none)

-- The identity behind the path, when it is stable. The file system may change between the calls:
-- `at i` is its state at the i-th.
unfoldable pub stable_identity : (at : ℕ → Fs) → (path : Text) → Result Stat
stable_identity at path = do
  before ← stat_or "lstat failed" ((at 0).lstat path)
  followed ← stat_or "stat failed" ((at 1).stat path)
  real ← canonical_or "Failed to canonicalize path" ((at 2).canonical path)
  again ← stat_or "stat failed" ((at 3).stat real)
  if followed.inode == again.inode && followed.device == again.device
      then ok again
      else fail forbidden "TOCTOU race detected: file identity changed during verification"

-- The check of the link count, and the return of an earlier error.
unfoldable pub settle :
    Fs → (path : Text) → PathAliasPolicy → Result Stat → VoidResult × Option Text
unfolding hardlink_action
settle fs path policy (ok again) =
    if ltb 1 again.nlink then hardlink_action fs path policy else (ok tt, none)
settle fs path policy (err e) = (err e, none)
settle fs path policy undefined = (undefined, none)

unfoldable pub assert_no_hardlinked_final_path_strict :
    (at : ℕ → Fs) (path : Text) → PathAliasPolicy → VoidResult × Option Text
unfolding stable_identity settle
assert_no_hardlinked_final_path_strict at path policy =
    settle (at 4) path policy (stable_identity at path)

-- `fs` answers the escape check, `later` the calls behind it.
unfoldable pub assert_path_safe :
    (fs later : Fs) (at : ℕ → Fs) (path : Text) (workspace_roots : List Text)
    → PathAliasPolicy
    → VoidResult × Option Text
assert_path_safe fs later at path roots policy = elim (assert_no_path_alias_escape fs path roots) [
  | ok _ ↦
      if later.exists path && later.is_regular_file path
      then assert_no_hardlinked_final_path_strict at path policy
      else (ok tt, none)
  | err e ↦ (err e, none)
  | undefined ↦ (undefined, none)
]
