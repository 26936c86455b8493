-- ===== src/Samples/Paths.antt =====
-- Samples for the path guards: a file system without links, one that answers nothing, and one whose
-- media path resolves beside its folder.
use mylobsterpp.Prelude.{
  ℕ, ◌≤◌, ◌≡◌, ◌≢◌, refl, ◌↔◌, ◌⊎◌, inl, inr, Bool, true, false, Option, none, some, List, [], ◌∷◌,
  ◌++◌, arith, All, Text, codes, Lacks, Result, ok, text_eq, starts_with,
}
use mylobsterpp.Infra.Percent.{decode_checked, uri_decode_percent}
use mylobsterpp.Infra.FsPath.{Stat, Fs, components, join, ends_with_slash}
use mylobsterpp.Infra.PathGuard.{
  assert_no_path_alias_escape, PathAliasPolicy, reject, unlink_target,
  assert_no_hardlinked_final_path_strict, is_contained_in,
}
use mylobsterpp.Infra.PathGuard.Containment.{
  Inside, IsTame, steps, assert_no_path_alias_escape-Inside, assert_no_path_alias_escape-IsTame,
}
use mylobsterpp.Infra.PathGuard.Hardlinks.{IsStable, strict-IsStable}
use mylobsterpp.Infra.SandboxPaths.{canonicalize_bind_mount_source}
use mylobsterpp.Infra.SandboxPaths.Laws.{HasRoot, canonicalize_bind_mount_source_total}

abbrev one_name : Stat
one_name = record { device = 1; inode = 7; nlink = 1 }

-- Every path is its own canonical form, and a folder.
abbrev plain_fs : Fs
plain_fs = record {
  canonical = λ p. some p;
  weakly_canonical = λ p. some p;
  exists = λ p. true;
  symlink_status = λ p. some false;
  read_symlink = λ p. none;
  is_regular_file = λ p. false;
  is_directory = λ p. true;
  hard_link_count = λ p. some 1;
  lstat = λ p. some one_name;
  stat = λ p. some one_name;
  unlink = λ p. true;
}

abbrev inner : Text
inner = codes "/w/a"

abbrev roots : List Text
roots = codes "/w" ∷ []

accepted : assert_no_path_alias_escape plain_fs inner roots ≡ ok tt
unfolding assert_no_path_alias_escape mylobsterpp.Infra.Percent.has_malformed_percent_encoding
    mylobsterpp.Prelude.has_byte mylobsterpp.Infra.Percent.iterative_uri_decode text_eq
    uri_decode_percent mylobsterpp.Infra.Percent.decode_step
    mylobsterpp.Infra.PathGuard.is_within_any_root is_contained_in starts_with
    mylobsterpp.Infra.PathGuard.with_slash ends_with_slash components
    mylobsterpp.Infra.PathGuard.check_component join
accepted = refl

assert_no_path_alias_escape-Inside_example :
    (d : Text) × (decode_checked inner ≡ ok d)
    × Lacks b'%' d
    × ((c : Text) → plain_fs.canonical d ≡ some c → Inside plain_fs roots c)
assert_no_path_alias_escape-Inside_example =
    assert_no_path_alias_escape-Inside plain_fs inner roots accepted

decoded : decode_checked inner ≡ ok inner
unfolding decode_checked mylobsterpp.Infra.Percent.has_malformed_percent_encoding
    mylobsterpp.Prelude.has_byte mylobsterpp.Infra.Percent.iterative_uri_decode text_eq
    uri_decode_percent mylobsterpp.Infra.Percent.decode_step
decoded = refl

existing : All (λ (s : Text × Text). plain_fs.exists s.0 ≡ true) (steps [] (components inner))
unfolding components
existing = (refl, (refl, (refl, tt)))

assert_no_path_alias_escape-IsTame_example :
    All (IsTame plain_fs roots) (steps [] (components inner))
assert_no_path_alias_escape-IsTame_example =
    assert_no_path_alias_escape-IsTame plain_fs inner inner roots accepted decoded existing

checked : (assert_no_hardlinked_final_path_strict (λ _. plain_fs) inner reject).0 ≡ ok tt
unfolding assert_no_hardlinked_final_path_strict
checked = refl

strict-IsStable_example :
    (again : Stat) × IsStable (λ _. plain_fs) inner again
    × (((again.nlink ≤ 1)
          × ((assert_no_hardlinked_final_path_strict (λ _. plain_fs) inner reject).1 ≡ none))
        ⊎ ((reject ≡ unlink_target)
            × ((assert_no_hardlinked_final_path_strict (λ _. plain_fs) inner reject).1
                ≡ some inner)))
strict-IsStable_example = strict-IsStable (λ _. plain_fs) inner reject checked

rooted : HasRoot plain_fs
rooted p nonempty slashes = refl

canonicalize_bind_mount_source_total_example :
    (r : Result Text) × (canonicalize_bind_mount_source plain_fs inner ≡ some r)
canonicalize_bind_mount_source_total_example =
    canonicalize_bind_mount_source_total plain_fs inner rooted
