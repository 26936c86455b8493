-- ===== src/Prelude/Dict.antt =====
-- Maps from texts, by their entries: `std::map` and `std::unordered_map` with string keys.
use Prim.Native.Nat.{◌+◌}
use mathlib.Core.Path.{◌≡◌, refl, subst, ◌∙◌}
use mathlib.Core.Logic.{◌≢◌, inl, inr}
use mathlib.Core.Bool.{Bool, false, not}
use mathlib.Core.Option.{Option, none, some}
use mathlib.Core.List.{List, [], ◌∷◌}
use native.Mathlib.Omega.{arith}
use mylobsterpp.Prelude.Tests.{Option-cases, if◌then◌else◌, Bool-cases}
use mylobsterpp.Prelude.Lists.{length, All, keep}
use mylobsterpp.Prelude.Bytes.{Text, text_eq, text_eq_iff}

abbrev pub Map {ℓ} : Type ℓ → Type ℓ
Map V = List (Text × V)

module _ {ℓ} {V : Type ℓ} where
  unfoldable pub lookup : Text → Map V → Option V
  lookup key [] = none
  lookup key ((k, v) ∷ m) = if text_eq k key then some v else lookup key m

  -- `m.insert_or_assign(key, value)`
  unfoldable pub assign : Text → V → Map V → Map V
  assign key value [] = (key, value) ∷ []
  assign key value ((k, v) ∷ m) =
      if text_eq k key then (key, value) ∷ m else (k, v) ∷ assign key value m

  unfoldable pub erase : Text → Map V → Map V
  erase key [] = []
  erase key ((k, v) ∷ m) = if text_eq k key then erase key m else (k, v) ∷ erase key m

  pub lookup-assign :
      (key other : Text) (value : V) (m : Map V)
      → lookup other (assign key value m)
        ≡ (if text_eq key other then some value else lookup other m)
  unfolding lookup assign
  lookup-assign key other value [] = refl
  lookup-assign key other value ((k, v) ∷ m) = ground (
    arith,
    text_eq_iff k key,
    text_eq_iff k other,
    text_eq_iff key other,
    lookup-assign key other value m,
  )

  pub lookup-erase :
      (key other : Text) (m : Map V)
      → lookup other (erase key m) ≡ (if text_eq key other then none else lookup other m)
  unfolding lookup erase
  lookup-erase key other [] = ground arith
  lookup-erase key other ((k, v) ∷ m) = ground (
    arith,
    text_eq_iff k key,
    text_eq_iff k other,
    text_eq_iff key other,
    lookup-erase key other m,
  )

differs : (key k : Text) → text_eq k key ≡ false → k ≢ key
differs key k other e = ground (arith, text_eq_iff k key)

module _ {V : Type 0} where
  -- Every entry satisfies a predicate.
  abbrev pub Entries : (Text → V → Type 0) → Map V → Type 0
  Entries P m = All (λ (e : Text × V). P e.0 e.1) m

  pub Entries-assign :
      (P : Text → V → Type 0) (key : Text) (value : V) (m : Map V)
      → P key value
      → Entries P m
      → Entries P (assign key value m)
  unfolding assign
  Entries-assign P key value [] p h = (p, tt)
  Entries-assign P key value ((k, v) ∷ m) p h = ground (arith, Entries-assign P key value m p h.1)

  pub Entries-erase :
      (P : Text → V → Type 0) (key : Text) (m : Map V) → Entries P m → Entries P (erase key m)
  unfolding erase
  Entries-erase P key [] h = tt
  Entries-erase P key ((k, v) ∷ m) h = ground (arith, Entries-erase P key m h.1)

  pub Entries-lookup :
      (P : Text → V → Type 0) (key : Text) (m : Map V) (value : V)
      → Entries P m
      → lookup key m ≡ some value
      → P key value
  unfolding lookup
  Entries-lookup P key [] value h e = cc
  Entries-lookup P key ((k, v) ∷ m) value h e =
      ground (arith, text_eq_iff k key, Entries-lookup P key m value h.1)

  -- No two entries have one key.
  abbrev pub HasUniqueKeys : Map V → Type 0
  HasUniqueKeys [] = Unit
  HasUniqueKeys ((k, v) ∷ m) = Entries (λ j _. k ≢ j) m × HasUniqueKeys m

  pub HasUniqueKeys-assign :
      (key : Text) (value : V) (m : Map V) → HasUniqueKeys m → HasUniqueKeys (assign key value m)
  unfolding assign
  HasUniqueKeys-assign key value [] h = (tt, tt)
  HasUniqueKeys-assign key value ((k, v) ∷ m) h = elim (Bool-cases (text_eq k key)) [
    | inl same ↦
        rw same (subst (λ j. Entries (λ i _. j ≢ i) m) ((text_eq_iff k key).0 same) h.0, h.1)
    | inr other ↦ rw other (
      Entries-assign (λ j _. k ≢ j) key value m (differs key k other) h.0,
      HasUniqueKeys-assign key value m h.1,
    )
  ]

  pub HasUniqueKeys-erase : (key : Text) (m : Map V) → HasUniqueKeys m → HasUniqueKeys (erase key m)
  unfolding erase
  HasUniqueKeys-erase key [] h = tt
  HasUniqueKeys-erase key ((k, v) ∷ m) h =
      ground (arith, HasUniqueKeys-erase key m h.1, Entries-erase (λ j _. k ≢ j) key m h.0)

  pub keep-Entries :
      (P : Text → V → Type 0) (p : Text × V → Bool) (m : Map V) → Entries P m → Entries P (keep p m)
  unfolding keep
  keep-Entries P p [] h = tt
  keep-Entries P p (e ∷ m) h = elim (Bool-cases (p e)) [
    | inl kept ↦ rw kept (h.0, keep-Entries P p m h.1)
    | inr gone ↦ rw gone (keep-Entries P p m h.1)
  ]

  pub keep-HasUniqueKeys :
      (p : Text × V → Bool) (m : Map V) → HasUniqueKeys m → HasUniqueKeys (keep p m)
  unfolding keep
  keep-HasUniqueKeys p [] h = tt
  keep-HasUniqueKeys p ((k, v) ∷ m) h = elim (Bool-cases (p (k, v))) [
    | inl kept ↦ rw kept (keep-Entries (λ j _. k ≢ j) p m h.0, keep-HasUniqueKeys p m h.1)
    | inr gone ↦ rw gone (keep-HasUniqueKeys p m h.1)
  ]

  absent : (key : Text) (t : Map V) → Entries (λ j _. key ≢ j) t → lookup key t ≡ none
  absent key t h = elim (Option-cases (lookup key t)) [
    | inl e ↦ e
    | inr (v, e) ↦ absurd (Entries-lookup (λ j _. key ≢ j) key t v h e refl)
  ]

  -- Among unique keys, a filter acts on the entry of each key.
  pub lookup-keep :
      (id : Text) (p : Text × V → Bool) (t : Map V)
      → HasUniqueKeys t
      → lookup id (keep p t)
        ≡ elim (lookup id t) [ none ↦ none | some v ↦ if p (id, v) then some v else none ]
  unfolding keep lookup
  lookup-keep id p [] u = refl
  lookup-keep id p ((k, v) ∷ t) u = elim (Bool-cases (text_eq k id)) [
    | inl same ↦
        let here = (text_eq_iff k id).0 same in
        let later = lookup-keep id p t u.1 in
        let nothing : lookup id t ≡ none = subst (λ j. lookup j t ≡ none) here (absent k t u.0) in
        elim (Bool-cases (p (k, v))) [
          | inl kept ↦ rw (same, kept, same) (rw⁻¹ here (rw kept refl))
          | inr gone ↦
              let none_left : lookup id (keep p t) ≡ none = later ∙ rw nothing refl in
              let moved : p (id, v) ≡ false = subst (λ j. p (j, v) ≡ false) here gone in
              rw (same, gone) (rw moved none_left)
        ]
    | inr other ↦ elim (Bool-cases (p (k, v))) [
      | inl kept ↦ rw (other, kept, other) (lookup-keep id p t u.1)
      | inr gone ↦ rw (other, gone) (lookup-keep id p t u.1)
    ]
  ]

  pub length-keep :
      (p : Text × V → Bool) (t : Map V)
      → length t ≡ length (keep p t) + length (keep (λ e. not (p e)) t)
  unfolding keep
  length-keep p [] = omega arith
  length-keep p (e ∷ t) = ground (arith, length-keep p t)
