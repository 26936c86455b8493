-- ===== src/Samples/Commands.antt =====
-- Samples for the command lines: a shell that runs a command.
use mylobsterpp.Prelude.{◌≡◌, refl, some, List, [], ◌∷◌, Text, codes, text_eq, starts_with}
use mylobsterpp.Infra.FsPath.{filename}
use mylobsterpp.Infra.ExecSafety.{unwrap_shell_wrapper_argv, validate_system_run_consistency}
use mylobsterpp.Infra.ExecSafety.Laws.{Unwrapped, unwrap_shell_wrapper_argv-Unwrapped}

abbrev bash_ls : List Text
bash_ls = codes "/bin/bash" ∷ codes "-c" ∷ codes "ls" ∷ []

unwrapped : unwrap_shell_wrapper_argv bash_ls ≡ some 2
unfolding unwrap_shell_wrapper_argv mylobsterpp.Infra.ExecSafety.is_one_of text_eq filename
    starts_with
unwrapped = refl

unwrap_shell_wrapper_argv-Unwrapped_example : Unwrapped 0 bash_ls 2
unwrap_shell_wrapper_argv-Unwrapped_example =
    unwrap_shell_wrapper_argv-Unwrapped bash_ls 2 unwrapped
