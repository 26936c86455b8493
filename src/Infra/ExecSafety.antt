-- ===== src/Infra/ExecSafety.antt =====
-- infra/exec_safety.cpp and exec_safety.hpp: finding the command behind shell wrappers, and the check
-- of an approved executable. A command line is a list of byte strings.
pub mod Laws
pub mod Depth
use mylobsterpp.Prelude.{
  ℕ, zero, suc, ◌+◌, Bool, true, false, not, ◌&&◌, ◌||◌, Option, none, some, List, [], ◌∷◌, ltb,
  leb, ◌==◌, if◌then◌else◌, length, get_elem?, drop, Text, codes, text_eq, starts_with,
}
use mylobsterpp.Infra.FsPath.{filename, Stat, Fs}

abbrev pub max_unwrap_depth : ℕ
max_unwrap_depth = 10

abbrev pub wrappers : List Text
wrappers =
    codes "sh"
    ∷ codes "bash"
    ∷ codes "zsh"
    ∷ codes "dash"
    ∷ codes "env"
    ∷ codes "nice"
    ∷ codes "nohup"
    ∷ codes "sudo"
    ∷ codes "doas"
    ∷ codes "timeout"
    ∷ []

unfoldable pub is_one_of : List Text → Text → Bool
is_one_of [] t = false
is_one_of (n ∷ names) t = text_eq t n || is_one_of names t

unfoldable pub is_shell_wrapper : Text → Bool
is_shell_wrapper binary = is_one_of wrappers binary

abbrev pub is_flag : Text → Bool
is_flag arg = starts_with arg (codes "-")

abbrev pub is_inline_flag : Text → Bool
is_inline_flag arg = text_eq arg (codes "-c")

-- The inner loop, from index `idx`: it stops behind the flags, or returns the index behind `-c`.
pub data Skip : Type 0 where
  inline : ℕ → Skip
  skipped : (idx : ℕ) (rest : List Text) → Skip

unfoldable pub skip_flags : (idx : ℕ) → List Text → Skip
skip_flags idx [] = skipped idx []
skip_flags idx (arg ∷ rest) =
    let next = skip_flags (idx + 1) rest in
    if is_flag arg
    then if is_inline_flag arg then inline (idx + 1) else next
    else skipped idx (arg ∷ rest)

-- The outer loop; `left` is `max_unwrap_depth - depth` and `args` is what stands at `idx`.
unfoldable pub unwrap_from : (left idx : ℕ) → (args : List Text) → Option ℕ
unwrap_from zero idx args = none
unwrap_from (suc left) idx [] = some idx
unwrap_from (suc left) idx (arg ∷ rest) =
    if is_shell_wrapper (filename arg)
    then elim (skip_flags (idx + 1) rest) [
      | inline i ↦ some i
      | skipped i args ↦ unwrap_from left i args
    ]
    else some idx

unfoldable pub unwrap_shell_wrapper_argv : List Text → Option ℕ
unfolding unwrap_from skip_flags is_shell_wrapper
unwrap_shell_wrapper_argv argv = unwrap_from max_unwrap_depth 0 argv

unfoldable pub inline_from : (i : ℕ) → List Text → Option ℕ
inline_from i [] = none
inline_from i (arg ∷ []) = none
inline_from i (arg ∷ next ∷ rest) =
    let later = inline_from (i + 1) (next ∷ rest) in
    if is_inline_flag arg then some (i + 1) else later

unfoldable pub resolve_inline_command_token_index : List Text → Option ℕ
unfolding inline_from
resolve_inline_command_token_index argv = inline_from 0 argv

unfoldable pub has_positional : List Text → Bool
has_positional [] = false
has_positional (arg ∷ rest) = if not (is_flag arg) then true else has_positional rest

unfoldable pub has_trailing_positional_argv : List Text → (command_index : ℕ) → Bool
unfolding has_positional
has_trailing_positional_argv argv command_index = has_positional (drop (command_index + 1) argv)

unfoldable pub validate_system_run_consistency : List Text → (declared_command : Text) → Bool
validate_system_run_consistency [] declared = false
validate_system_run_consistency (arg ∷ args) declared =
    elim (unwrap_shell_wrapper_argv (arg ∷ args)) [
      | none ↦ false
      | some idx ↦ elim (get_elem? (arg ∷ args) idx) [
        | none ↦ false
        | some resolved ↦ text_eq (filename resolved) (filename declared)
      ]
    ]

-- `at i` is the file system at the i-th call. The branch for Windows is left out.
unfoldable pub harden_approved_execution_paths : (at : ℕ → Fs) (cwd executable : Text) → Bool
harden_approved_execution_paths at cwd executable = elim ((at 0).symlink_status cwd) [
  | none ↦ false
  | some true ↦ false
  | some false ↦ if not ((at 1).is_directory cwd) then false else elim ((at 2).lstat executable) [
    | none ↦ false
    | some _ ↦ elim ((at 3).stat executable) [
      | none ↦ false
      | some followed ↦ elim ((at 4).canonical executable) [
        | none ↦ false
        | some real ↦ elim ((at 5).stat real) [
          | none ↦ false
          | some again ↦ followed.inode == again.inode && followed.device == again.device
        ]
      ]
    ]
  ]
]
