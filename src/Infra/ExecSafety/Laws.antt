-- ===== src/Infra/ExecSafety/Laws.antt =====
-- What stands before the command that the unwrapping finds, and the depth cap.
use mathlib.Core.List.{append_assoc}
use mylobsterpp.Prelude.{
  ℕ, zero, suc, ◌+◌, ◌≡◌, refl, ap, sym, subst, ◌∙◌, ◌⊎◌, inl, inr, true, false, some, List, [],
  ◌∷◌, ◌++◌, arith, Bool-cases, length, length-append, All, All-append, Text, codes, text_eq_iff,
}
use mylobsterpp.Infra.FsPath.{filename}
use mylobsterpp.Infra.ExecSafety.{
  max_unwrap_depth, is_shell_wrapper, is_flag, is_inline_flag, Skip, inline, skipped, skip_flags,
  unwrap_from, unwrap_shell_wrapper_argv,
}

-- A token that the unwrapping may pass over.
abbrev pub IsSkippable : Text → Type 0
IsSkippable arg = (is_shell_wrapper (filename arg) ≡ true) ⊎ (is_flag arg ≡ true)

-- What `skip_flags` found in `args`.
abbrev SkipIs : (idx : ℕ) → (args : List Text) → Skip → Type 0
SkipIs idx args (inline i) =
    (s r : List Text) × (args ≡ (s ++ codes "-c" ∷ []) ++ r)
    × All IsSkippable (s ++ codes "-c" ∷ [])
    × (i ≡ idx + length (s ++ codes "-c" ∷ []))
SkipIs idx args (skipped i rest) =
    (s : List Text) × (args ≡ s ++ rest) × All IsSkippable s × (i ≡ idx + length s)

SkipIs-cons :
    (idx : ℕ) (arg : Text) (args : List Text) (k : Skip)
    → is_flag arg ≡ true
    → SkipIs (idx + 1) args k
    → SkipIs idx (arg ∷ args) k
SkipIs-cons idx arg args (inline i) f (s, r, e, h, n) =
    (arg ∷ s, r, ap (◌∷◌ arg) e, (inr f, h), omega arith)
SkipIs-cons idx arg args (skipped i rest) f (s, e, h, n) =
    (arg ∷ s, ap (◌∷◌ arg) e, (inr f, h), omega arith)

inline_here :
    (idx : ℕ) (arg : Text) (args : List Text)
    → is_flag arg ≡ true
    → is_inline_flag arg ≡ true
    → SkipIs idx (arg ∷ args) (inline (idx + 1))
inline_here idx arg args flag here =
    let same = (text_eq_iff arg (codes "-c")).0 here in
    (
      [],
      args,
      ap (λ t. t ∷ args) same,
      (inr (subst (λ t. is_flag t ≡ true) same flag), tt),
      omega arith,
    )

skip_flags-SkipIs : (idx : ℕ) (args : List Text) → SkipIs idx args (skip_flags idx args)
unfolding skip_flags
skip_flags-SkipIs idx [] = ([], refl, tt, omega arith)
skip_flags-SkipIs idx (arg ∷ args) = elim (Bool-cases (is_flag arg)) [
  | inl flag ↦ elim (Bool-cases (is_inline_flag arg)) [
    | inl here ↦ rw (flag, here) (inline_here idx arg args flag here)
    | inr there ↦
        rw (flag, there)
          (SkipIs-cons idx arg args (skip_flags (idx + 1) args) flag
            (skip_flags-SkipIs (idx + 1) args))
  ]
  | inr plain ↦ rw plain ([], refl, tt, omega arith)
]

-- Why the unwrapping stopped between `before` and `rest`.
abbrev pub Landing : (before rest : List Text) → Type 0
Landing before rest =
    (rest ≡ [])
    ⊎ ((arg : Text) × (args : List Text) × (rest ≡ arg ∷ args)
        × (is_shell_wrapper (filename arg) ≡ false))
    ⊎ ((s : List Text) × (before ≡ s ++ codes "-c" ∷ []))

Landing-append : (s t rest : List Text) → Landing t rest → Landing (s ++ t) rest
Landing-append s t rest (inl e) = inl e
Landing-append s t rest (inr (inl l)) = inr (inl l)
Landing-append s t rest (inr (inr (u, e))) =
    inr (inr (s ++ u, ap (◌++◌ s) e ∙ sym (append_assoc s u (codes "-c" ∷ []))))

-- `args`, which starts at index `start`, is cut at index `i`: only wrappers and flags stand before
-- the cut, and the cut is where it should be.
pub record Unwrapped (start : ℕ) (args : List Text) (i : ℕ) : Type 0 where
  pub before : List Text
  pub rest : List Text
  pub whole : args ≡ before ++ rest
  pub index : i ≡ start + length before
  pub passed : All IsSkippable before
  pub landing : Landing before rest

Unwrapped-append :
    (start j i : ℕ) (s rest : List Text)
    → All IsSkippable s
    → j ≡ start + length s
    → Unwrapped j rest i
    → Unwrapped start (s ++ rest) i
Unwrapped-append start j i s rest h e u = record {
  before = s ++ u.before;
  rest = u.rest;
  whole = ap (◌++◌ s) u.whole ∙ sym (append_assoc s u.before u.rest);
  index = omega (arith, u.index, e, length-append {0} s u.before);
  passed = All-append IsSkippable s u.before h u.passed;
  landing = Landing-append s u.before u.rest u.landing;
}

Unwrapped-skip :
    (left start i : ℕ) (arg : Text) (args : List Text) (k : Skip)
    → is_shell_wrapper (filename arg) ≡ true
    → SkipIs (start + 1) args k
    → ((j : ℕ) (rest : List Text) → unwrap_from left j rest ≡ some i → Unwrapped j rest i)
    → elim k [ inline j ↦ some j | skipped j rest ↦ unwrap_from left j rest ] ≡ some i
    → Unwrapped start (arg ∷ args) i
Unwrapped-skip left start i arg args (inline j) w (s, r, e, h, n) ih done = record {
  before = arg ∷ (s ++ codes "-c" ∷ []);
  rest = r;
  whole = ap (◌∷◌ arg) e;
  index = ground arith;
  passed = (inl w, h);
  landing = inr (inr (arg ∷ s, refl));
}
Unwrapped-skip left start i arg args (skipped j rest) w (s, e, h, n) ih done =
    subst (λ t. Unwrapped start (arg ∷ t) i) (sym e)
      (Unwrapped-append start j i (arg ∷ s) rest (inl w, h) (omega arith) (ih j rest done))

unwrap_from-Unwrapped :
    (left start : ℕ) (args : List Text) (i : ℕ)
    → unwrap_from left start args ≡ some i
    → Unwrapped start args i
unfolding unwrap_from
unwrap_from-Unwrapped zero start args i h = cc
unwrap_from-Unwrapped (suc left) start [] i h = record {
  before = [];
  rest = [];
  whole = refl;
  index = ground arith;
  passed = tt;
  landing = inl refl;
}
unwrap_from-Unwrapped (suc left) start (arg ∷ args) i h =
    elim (Bool-cases (is_shell_wrapper (filename arg))) [
      | inl wrapper ↦
          Unwrapped-skip left start i arg args (skip_flags (start + 1) args) wrapper
            (skip_flags-SkipIs (start + 1) args) (λ j rest. unwrap_from-Unwrapped left j rest i)
            (rw wrapper at h)
      | inr command ↦ record {
        before = [];
        rest = arg ∷ args;
        whole = refl;
        index = ground arith;
        passed = tt;
        landing = inr (inl (arg, args, refl, command));
      }
    ]

-- The index that the unwrapping finds splits the command line: only shell wrappers and flags stand
-- before it, and at it stands the end, or no wrapper, or what follows `-c`.
pub unwrap_shell_wrapper_argv-Unwrapped :
    (argv : List Text) (i : ℕ) → unwrap_shell_wrapper_argv argv ≡ some i → Unwrapped 0 argv i
unfolding unwrap_shell_wrapper_argv
unwrap_shell_wrapper_argv-Unwrapped argv i h = unwrap_from-Unwrapped max_unwrap_depth 0 argv i h
