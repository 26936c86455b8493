-- ===== src/Infra/PathGuard/Hardlinks.antt =====
-- What an accepted file is known to be, and what the guard does not look at.
use mylobsterpp.Prelude.{
  ℕ, String, ◌≤◌, ◌≡◌, refl, ap, ◌∙◌, ◌⊎◌, false, Option, none, some, List, [], ◌∷◌, arith, All,
  Text, Lacks, Result, ok, err, undefined, >>=-eq-ok,
}
use mylobsterpp.Infra.Percent.Laws.{decode_checked-of_Lacks}
use mylobsterpp.Infra.FsPath.{components, join, Stat, Fs, is_symlink}
use mylobsterpp.Infra.PathGuard.{
  PathAliasPolicy, reject, unlink_target, stat_or, canonical_or, hardlink_action, stable_identity,
  settle, assert_no_hardlinked_final_path_strict, final_check, check_component, walk,
  assert_no_path_alias_escape,
}
use mylobsterpp.Infra.PathGuard.Containment.{steps}

-- The file behind `path` and behind its canonical form is one and the same.
pub record IsStable (at : ℕ → Fs) (path : Text) (again : Stat) : Type 0 where
  pub followed : Stat
  pub real : Text
  pub by_path : (at 1).stat path ≡ some followed
  pub by_canonical : (at 2).canonical path ≡ some real
  pub by_real : (at 3).stat real ≡ some again
  pub same_inode : followed.inode ≡ again.inode
  pub same_device : followed.device ≡ again.device

stat_or-eq-ok : (m : String) (o : Option Stat) {st : Stat} → stat_or m o ≡ ok st → o ≡ some st
stat_or-eq-ok m none h = cc
stat_or-eq-ok m (some st) h = cc

canonical_or-eq-ok :
    (m : String) (o : Option Text) {p : Text} → canonical_or m o ≡ ok p → o ≡ some p
canonical_or-eq-ok m none h = cc
canonical_or-eq-ok m (some p) h = cc

stable_identity-IsStable :
    (at : ℕ → Fs) (path : Text) (again : Stat)
    → stable_identity at path ≡ ok again
    → IsStable at path again
unfolding stable_identity
stable_identity-IsStable at path again h =
    let (before, _, h₁) = >>=-eq-ok (stat_or "lstat failed" ((at 0).lstat path)) _ h in
    let (followed, e₁, h₂) = >>=-eq-ok (stat_or "stat failed" ((at 1).stat path)) _ h₁ in
    let (real, e₂, h₃) =
      >>=-eq-ok (canonical_or "Failed to canonicalize path" ((at 2).canonical path)) _ h₂ in
    let (last, e₃, h₄) = >>=-eq-ok (stat_or "stat failed" ((at 3).stat real)) _ h₃ in
    let same : last ≡ again = ground arith in
    record {
      followed = followed;
      real = real;
      by_path = stat_or-eq-ok "stat failed" _ e₁;
      by_canonical = canonical_or-eq-ok "Failed to canonicalize path" _ e₂;
      by_real = stat_or-eq-ok "stat failed" _ e₃ ∙ ap some same;
      same_inode = ground arith;
      same_device = ground arith;
    }

settle-eq-ok :
    (fs : Fs) (path : Text) (policy : PathAliasPolicy) (r : Result Stat)
    → (settle fs path policy r).0 ≡ ok tt
    → (again : Stat) × (r ≡ ok again)
      × (((again.nlink ≤ 1) × ((settle fs path policy r).1 ≡ none))
          ⊎ ((policy ≡ unlink_target) × ((settle fs path policy r).1 ≡ some path)))
unfolding settle hardlink_action
settle-eq-ok fs path reject (ok again) h = (again, refl, ground arith)
settle-eq-ok fs path unlink_target (ok again) h = (again, refl, ground arith)
settle-eq-ok fs path policy (err e) h = cc
settle-eq-ok fs path policy undefined h = cc

-- If the strict check succeeds, the identity of the file was stable, and either it has one name and
-- nothing was unlinked, or the policy asks for it and exactly the given path was unlinked.
pub strict-IsStable :
    (at : ℕ → Fs) (path : Text) (policy : PathAliasPolicy)
    → (assert_no_hardlinked_final_path_strict at path policy).0 ≡ ok tt
    → (again : Stat) × IsStable at path again
      × (((again.nlink ≤ 1) × ((assert_no_hardlinked_final_path_strict at path policy).1 ≡ none))
          ⊎ ((policy ≡ unlink_target)
              × ((assert_no_hardlinked_final_path_strict at path policy).1 ≡ some path)))
unfolding assert_no_hardlinked_final_path_strict
strict-IsStable at path policy h =
    let (again, e, found) = settle-eq-ok (at 4) path policy (stable_identity at path) h in
    (again, stable_identity-IsStable at path again e, found)

-- A step that does not exist, or is neither a link nor a regular file.
abbrev pub IsUnremarkable : Fs → Text × Text → Type 0
IsUnremarkable fs (p, _) =
    (fs.exists p ≡ false) ⊎ ((is_symlink fs p ≡ false) × (fs.is_regular_file p ≡ false))

walk_of_unremarkable :
    (fs : Fs) (roots : List Text) (accumulated : Text) (cs : List Text)
    → All (IsUnremarkable fs) (steps accumulated cs)
    → walk fs roots accumulated cs ≡ ok tt
unfolding walk check_component
walk_of_unremarkable fs roots accumulated [] h = refl
walk_of_unremarkable fs roots accumulated (c ∷ cs) h =
    ground (arith, walk_of_unremarkable fs roots (join accumulated c) cs h.1)

final_check_missing :
    (fs : Fs) (path : Text) (roots : List Text)
    → fs.canonical path ≡ none
    → is_symlink fs path ≡ false
    → final_check fs path roots ≡ ok tt
unfolding final_check
final_check_missing fs path roots missing link = ground arith

-- A path without percent signs that has no canonical form (it does not exist yet) and meets no link
-- and no regular file on the way is accepted, whatever the workspace roots are: nothing compares it
-- with them.
pub assert_no_path_alias_escape_missing :
    (fs : Fs) (path root : Text) (roots : List Text)
    → Lacks b'%' path
    → fs.canonical path ≡ none
    → is_symlink fs path ≡ false
    → All (IsUnremarkable fs) (steps [] (components path))
    → assert_no_path_alias_escape fs path (root ∷ roots) ≡ ok tt
unfolding assert_no_path_alias_escape
assert_no_path_alias_escape_missing fs path root roots h missing link steps_ok = rw (
  decode_checked-of_Lacks path h,
  final_check_missing fs path (root ∷ roots) missing link,
  walk_of_unremarkable fs (root ∷ roots) [] (components path) steps_ok,
)
