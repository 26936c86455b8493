-- ===== src/Infra/Dotenv/Loading.antt =====
-- Which value a variable has in the end.
use mylobsterpp.Prelude.{
  not, ◌&&◌, ◌≡◌, ◌≢◌, refl, ap, sym, ◌∙◌, arith, inl, inr, Bool, true, false, Bool-cases, Option,
  Option-cases, none, some, List, [], ◌∷◌, if◌then◌else◌, Text, text_eq, text_eq_iff, Map, lookup,
  assign, lookup-assign, Entries, HasUniqueKeys, HasUniqueKeys-assign,
}
use mylobsterpp.Infra.Dotenv.{
  is_set, with_entry, parse_line, parse_lines, lines_of, parse, load_each, load,
}

with_entry-HasUniqueKeys :
    (entry : Option (Text × Text)) (m : Map Text)
    → HasUniqueKeys m
    → HasUniqueKeys (with_entry entry m)
with_entry-HasUniqueKeys none m h = h
with_entry-HasUniqueKeys (some (key, value)) m h = HasUniqueKeys-assign key value m h

parse_lines-HasUniqueKeys :
    (lines : List Text) (m : Map Text) → HasUniqueKeys m → HasUniqueKeys (parse_lines lines m)
unfolding parse_lines
parse_lines-HasUniqueKeys [] m h = h
parse_lines-HasUniqueKeys (line ∷ lines) m h =
    parse_lines-HasUniqueKeys lines _ (with_entry-HasUniqueKeys (parse_line line) m h)

parse-HasUniqueKeys : (file : Option Text) → HasUniqueKeys (parse file)
unfolding parse
parse-HasUniqueKeys none = tt
parse-HasUniqueKeys (some contents) = parse_lines-HasUniqueKeys (lines_of contents) [] tt

-- The first value, or else the second.
abbrev pub first : Option Text → Option Text → Option Text
first (some value) other = some value
first none other = other

abbrev pub preferred : (overwrite : Bool) → (from_file from_environment : Option Text) → Option Text
preferred true from_file from_environment = first from_file from_environment
preferred false from_file from_environment = first from_environment from_file

absent-lookup :
    (k other : Text) (m : Map Text)
    → Entries (λ name _. k ≢ name) m
    → text_eq k other ≡ true
    → lookup other m ≡ none
unfolding lookup
absent-lookup k other [] h e = refl
absent-lookup k other ((name, value) ∷ m) h e =
    ground (arith, text_eq_iff k other, text_eq_iff name other, absent-lookup k other m h.1 e)

pick :
    (b : Bool) (value : Text) (x : Option Text)
    → (if b then some value else x) ≡ first (if b then some value else none) x
pick true value x = refl
pick false value x = refl

keep_first : (x : Option Text) → x ≡ first x none
keep_first none = refl
keep_first (some value) = refl

-- What one entry of the file changes, if the environment may be kept.
missing-lookup :
    (k other value : Text) (env : Map Text)
    → lookup k env ≡ none
    → lookup other (assign k value env)
      ≡ first (lookup other env) (if text_eq k other then some value else none)
missing-lookup k other value env e = elim (Bool-cases (text_eq k other)) [
  | inl same ↦
      lookup-assign k other value env
      ∙ rw (same, ap (λ n. lookup n env) (sym ((text_eq_iff k other).0 same)) ∙ e) refl
  | inr differs ↦ lookup-assign k other value env ∙ rw differs (keep_first (lookup other env))
]

present-lookup :
    (k other value v : Text) (env : Map Text)
    → lookup k env ≡ some v
    → lookup other env ≡ first (lookup other env) (if text_eq k other then some value else none)
present-lookup k other value v env e = elim (Bool-cases (text_eq k other)) [
  | inl same ↦ rw (ap (λ n. lookup n env) (sym ((text_eq_iff k other).0 same)) ∙ e) refl
  | inr differs ↦ rw differs (keep_first (lookup other env))
]

set-lookup :
    (overwrite : Bool) (k other value : Text) (env : Map Text)
    → lookup other (if not overwrite && is_set (lookup k env) then env else assign k value env)
      ≡ preferred overwrite (if text_eq k other then some value else none) (lookup other env)
set-lookup true k other value env =
    lookup-assign k other value env ∙ pick (text_eq k other) value (lookup other env)
set-lookup false k other value env = elim (Option-cases (lookup k env)) [
  | inl e ↦
      ap (λ o. lookup other (if is_set o then env else assign k value env)) e
      ∙ missing-lookup k other value env e
  | inr (v, e) ↦
      ap (λ o. lookup other (if is_set o then env else assign k value env)) e
      ∙ present-lookup k other value v env e
]

-- A value of the file's first entry before those behind it, which do not name it again.
combined :
    (overwrite b : Bool) (value : Text) (behind env : Option Text)
    → (b ≡ true → behind ≡ none)
    → preferred overwrite behind (preferred overwrite (if b then some value else none) env)
      ≡ preferred overwrite (if b then some value else behind) env
combined true true value behind env h = rw (h refl) refl
combined true false value behind env h = refl
combined false true value behind none h = refl
combined false true value behind (some v) h = refl
combined false false value behind none h = refl
combined false false value behind (some v) h = refl

load_each-lookup :
    (overwrite : Bool) (m env : Map Text) (other : Text)
    → HasUniqueKeys m
    → lookup other (load_each overwrite m env)
      ≡ preferred overwrite (lookup other m) (lookup other env)
unfolding load_each lookup
load_each-lookup true [] env other h = refl
load_each-lookup false [] env other h = keep_first (lookup other env)
load_each-lookup overwrite ((k, value) ∷ m) env other h =
    load_each-lookup overwrite m _ other h.1
    ∙ ap (preferred overwrite (lookup other m)) (set-lookup overwrite k other value env)
    ∙ combined overwrite (text_eq k other) value (lookup other m) (lookup other env)
        (absent-lookup k other m h.0)

-- When a file is loaded, each variable has the file's value or that of the environment: where both have
-- one, the file's if it overwrites, and else the environment's.
pub load-lookup :
    (file : Option Text) (overwrite : Bool) (env : Map Text) (other : Text)
    → lookup other (load file overwrite env)
      ≡ preferred overwrite (lookup other (parse file)) (lookup other env)
unfolding load
load-lookup file overwrite env other =
    load_each-lookup overwrite (parse file) env other (parse-HasUniqueKeys file)
