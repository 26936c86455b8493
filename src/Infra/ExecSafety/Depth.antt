-- ===== src/Infra/ExecSafety/Depth.antt =====
-- The depth cap of the unwrapping, and what the consistency check establishes.
use mylobsterpp.Prelude.{
  ℕ, zero, suc, ◌+◌, ◌<◌, ◌≡◌, refl, inl, inr, true, false, none, some, List, [], ◌∷◌, ◌++◌, arith,
  Option-cases, length, get_elem?, All, Text, text_eq_iff,
}
use mylobsterpp.Infra.FsPath.{filename}
use mylobsterpp.Infra.ExecSafety.{
  max_unwrap_depth, is_shell_wrapper, is_flag, skipped, skip_flags, unwrap_from,
  unwrap_shell_wrapper_argv, validate_system_run_consistency,
}
use mylobsterpp.Infra.ExecSafety.Laws.{Unwrapped, unwrap_shell_wrapper_argv-Unwrapped}

abbrev pub IsWrapper : Text → Type 0
IsWrapper arg = (is_shell_wrapper (filename arg) ≡ true) × (is_flag arg ≡ false)

skip_flags-plain :
    (idx : ℕ) (arg : Text) (args : List Text)
    → is_flag arg ≡ false
    → skip_flags idx (arg ∷ args) ≡ skipped idx (arg ∷ args)
unfolding skip_flags
skip_flags-plain idx arg args h = rw h

unwrap_from-none :
    (left idx : ℕ) (ws rest : List Text)
    → All IsWrapper ws
    → left < length ws
    → unwrap_from left idx (ws ++ rest) ≡ none
unfolding unwrap_from
unwrap_from-none zero idx ws rest h l = refl
unwrap_from-none (suc left) idx [] rest h l = absurd (omega arith)
unwrap_from-none (suc left) idx (w ∷ []) rest h l = absurd (omega arith)
unwrap_from-none (suc left) idx (w ∷ v ∷ ws) rest h l =
    rw (h.0.0, skip_flags-plain (idx + 1) v (ws ++ rest) h.1.0.1)
      (unwrap_from-none left (idx + 1) (v ∷ ws) rest h.1 (omega arith))

-- More than ten shell wrappers in a row are refused, whatever follows them.
pub unwrap_shell_wrapper_argv-none :
    (ws rest : List Text)
    → All IsWrapper ws
    → max_unwrap_depth < length ws
    → unwrap_shell_wrapper_argv (ws ++ rest) ≡ none
unfolding unwrap_shell_wrapper_argv
unwrap_shell_wrapper_argv-none ws rest h l = unwrap_from-none max_unwrap_depth 0 ws rest h l

-- A command line that passes the check has a token behind nothing but wrappers and flags, whose file
-- name is that of the declared command.
pub validate_system_run_consistency-Unwrapped :
    (argv : List Text) (declared : Text)
    → validate_system_run_consistency argv declared ≡ true
    → (i : ℕ) × (arg : Text) × Unwrapped 0 argv i
      × (get_elem? argv i ≡ some arg)
      × (filename arg ≡ filename declared)
unfolding validate_system_run_consistency
validate_system_run_consistency-Unwrapped [] declared h = cc
validate_system_run_consistency-Unwrapped (a ∷ args) declared h =
    elim (Option-cases (unwrap_shell_wrapper_argv (a ∷ args))) [
      | inl gone ↦ ground arith
      | inr (i, found) ↦ elim (Option-cases (get_elem? (a ∷ args) i)) [
        | inl out ↦ ground arith
        | inr (arg, here) ↦ (
          i,
          arg,
          unwrap_shell_wrapper_argv-Unwrapped (a ∷ args) i found,
          here,
          ground (arith, text_eq_iff (filename arg) (filename declared)),
        )
      ]
    ]
