-- ===== src/Cron/Scheduler/Names.antt =====
-- The names of tasks: `sanitize` and what `schedule` stores under them.
use mylobsterpp.Prelude.{
  ℕ, zero, suc, ◌≤◌, ◌≡◌, ◌≢◌, refl, subst, ap, inl, inr, Option-cases, Bool, true, not, none, some,
  [], ◌∷◌, ◌++◌, arith, Bool-cases, length, length-append, All, All-append, keep, Text, starts_with,
  starts_with→append, break_at, Lacks, drop,
}
use mylobsterpp.Cron.Scheduler.{is_separator, dots, remove_dots, sanitize}

-- The text can be one component of a path that stays where it is put.
pub record IsSafe (key : Text) : Type 0 where
  pub nonempty : key ≢ []
  pub no_slash : Lacks b'/' key
  pub no_backslash : Lacks 92 key
  pub no_dots : break_at dots key ≡ none

break_dots : (s a b : Text) → break_at dots s ≡ some (a, b) → s ≡ a ++ (dots ++ b)
unfolding break_at
break_dots [] a b h = ground arith
break_dots (c ∷ s) a b h = elim (Bool-cases (starts_with (c ∷ s) dots)) [
  | inl here ↦
      let (t, e) = starts_with→append (c ∷ s) dots here in
      let rest : drop 2 (c ∷ s) ≡ t = ap (drop 2) e in ground arith
  | inr later ↦ elim (Option-cases (break_at dots s)) [
    | inl nothing ↦ ground arith
    | inr ((a', b'), e) ↦ let ih = break_dots s a' b' e in ground arith
  ]
]

All-left : (P : ℕ → Type 0) (s t : Text) → All P (s ++ t) → All P s
All-left P [] t h = tt
All-left P (c ∷ s) t h = (h.0, All-left P s t h.1)

All-right : (P : ℕ → Type 0) (s t : Text) → All P (s ++ t) → All P t
All-right P [] t h = h
All-right P (c ∷ s) t h = All-right P s t h.1

keep-All :
    (P : ℕ → Type 0) (f : ℕ → Bool) (s : Text) → ((c : ℕ) → f c ≡ true → P c) → All P (keep f s)
unfolding keep
keep-All P f [] h = tt
keep-All P f (c ∷ s) h = elim (Bool-cases (f c)) [
  | inl e ↦ rw e (h c e, keep-All P f s h)
  | inr e ↦ rw e (keep-All P f s h)
]

break_dots-nil : break_at dots [] ≡ none
unfolding break_at
break_dots-nil = refl

remove_dots-none :
    (fuel : ℕ) (s : Text) → length s ≤ fuel → break_at dots (remove_dots fuel s) ≡ none
unfolding remove_dots
remove_dots-none zero [] h = break_dots-nil
remove_dots-none zero (c ∷ s) h = absurd (omega arith)
remove_dots-none (suc fuel) s h = elim (Option-cases (break_at dots s)) [
  | inl clean ↦ rw (clean, remove_dots) clean
  | inr ((a, b), e) ↦
      rw (e, remove_dots)
        (remove_dots-none fuel (a ++ b)
          (ground (arith, break_dots s a b e, length-append a b, length-append a (dots ++ b))))
]

remove_dots-All : (P : ℕ → Type 0) (fuel : ℕ) (s : Text) → All P s → All P (remove_dots fuel s)
unfolding remove_dots
remove_dots-All P zero s h = h
remove_dots-All P (suc fuel) s h = elim (Option-cases (break_at dots s)) [
  | inl clean ↦ rw (clean, remove_dots) h
  | inr ((a, b), e) ↦
      let parts = subst (All P) (break_dots s a b e) h in
      rw (e, remove_dots)
        (remove_dots-All P fuel (a ++ b)
          (All-append P a b (All-left P a (dots ++ b) parts) (All-right P a (dots ++ b) parts).1.1))
]

-- A name that is left over after `sanitize` is safe: no separator, no `..`, not empty.
pub sanitize-IsSafe : (name : Text) → sanitize name ≢ [] → IsSafe (sanitize name)
unfolding sanitize
sanitize-IsSafe name h =
    let kept = keep (λ c. not (is_separator c)) name in
    record {
      nonempty = h;
      no_slash =
          remove_dots-All (λ c. c ≢ b'/') (length kept) kept
            (keep-All _ _ name (λ c e f. ground arith));
      no_backslash =
          remove_dots-All (λ c. c ≢ 92) (length kept) kept
            (keep-All _ _ name (λ c e f. ground arith));
      no_dots = remove_dots-none (length kept) kept (omega arith);
    }
