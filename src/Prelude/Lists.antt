-- ===== src/Prelude/Lists.antt =====
-- Lists measured by native numbers, under the library's names, and predicates on their items.
use Prim.Native.Nat.{ℕ, zero, suc, ◌+◌}
use mathlib.Core.Path.{◌≡◌, refl}
use mathlib.Core.Logic.{◌⊎◌, ◌↔◌, inl, inr}
use mathlib.Core.Bool.{Bool}
use mathlib.Core.List.{List, [], ◌∷◌, ◌++◌}
use mathlib.Core.Option.{Option, none, some}
use native.Mathlib.Omega.{arith}
use mylobsterpp.Prelude.Tests.{if◌then◌else◌}

module _ {ℓ} {A : Type ℓ} where
  abbrev pub length : List A → ℕ
  length [] = 0
  length (x ∷ xs) = suc (length xs)

  abbrev pub get_elem? : List A → ℕ → Option A
  get_elem? [] i = none
  get_elem? (x ∷ xs) zero = some x
  get_elem? (x ∷ xs) (suc i) = get_elem? xs i

  abbrev pub take : ℕ → List A → List A
  take zero xs = []
  take (suc n) [] = []
  take (suc n) (x ∷ xs) = x ∷ take n xs

  abbrev pub drop : ℕ → List A → List A
  drop zero xs = xs
  drop (suc n) [] = []
  drop (suc n) (x ∷ xs) = drop n xs

  pub length-append : (xs ys : List A) → length (xs ++ ys) ≡ length xs + length ys
  length-append [] ys = omega arith
  length-append (x ∷ xs) ys = omega (arith, length-append xs ys)

  pub drop-length-append : (xs ys : List A) → drop (length xs) (xs ++ ys) ≡ ys
  drop-length-append [] ys = refl
  drop-length-append (x ∷ xs) ys = drop-length-append xs ys

-- Every item satisfies a predicate; some item does.
abbrev pub All {ℓ κ} : {A : Type ℓ} → (A → Type κ) → List A → Type κ
All P [] = Unit
All P (x ∷ xs) = P x × All P xs

abbrev pub Has {ℓ} : {A : Type ℓ} → (A → Type 0) → List A → Type 0
Has P [] = ⊥
Has P (x ∷ xs) = P x ⊎ Has P xs

module _ {ℓ κ} {A : Type ℓ} (P : A → Type κ) where
  pub All-append : (xs ys : List A) → All P xs → All P ys → All P (xs ++ ys)
  All-append [] ys h k = k
  All-append (x ∷ xs) ys h k = (h.0, All-append xs ys h.1 k)

-- The items that pass a test, in order.
module _ {ℓ} {A : Type ℓ} (p : A → Bool) where
  unfoldable pub keep : List A → List A
  keep [] = []
  keep (x ∷ xs) = if p x then x ∷ keep xs else keep xs

pub All-map {ℓ κ κ'} :
    {A : Type ℓ} {P : A → Type κ} {Q : A → Type κ'} (xs : List A)
    → ((x : A) → P x → Q x)
    → All P xs
    → All Q xs
All-map [] f h = tt
All-map (x ∷ xs) f h = (f x h.0, All-map xs f h.1)

-- What holds of every item holds of one that occurs.
pub All-Has {ℓ κ} :
    {A : Type ℓ} {P : A → Type κ} {Q : A → Type 0} (xs : List A)
    → All P xs
    → Has Q xs
    → (x : A) × P x × Q x
All-Has [] h m = absurd m
All-Has (x ∷ xs) h (inl q) = (x, h.0, q)
All-Has (x ∷ xs) h (inr m) = All-Has xs h.1 m

pub All-of_Has :
    {A : Type 0} (P : A → Type 0) (xs : List A) → ((x : A) → Has (λ y. y ≡ x) xs → P x) → All P xs
All-of_Has P [] f = tt
All-of_Has P (x ∷ xs) f = (f x (inl refl), All-of_Has P xs (λ y m. f y (inr m)))

pub Has-append {ℓ} :
    {A : Type ℓ} (P : A → Type 0) (xs ys : List A) → Has P (xs ++ ys) ↔ (Has P xs ⊎ Has P ys)
Has-append P [] ys = (λ m. inr m, λ m. elim m [ inl n ↦ absurd n | inr n ↦ n ])
Has-append P (x ∷ xs) ys =
    let ih = Has-append P xs ys in
    (
      λ m. elim m [
        | inl p ↦ inl (inl p)
        | inr n ↦ elim (ih.0 n) [ inl a ↦ inl (inr a) | inr b ↦ inr b ]
      ],
      λ m. elim m [
        | inl a ↦ elim a [ inl p ↦ inl p | inr n ↦ inr (ih.1 (inl n)) ]
        | inr b ↦ inr (ih.1 (inr b))
      ],
    )

pub keep-All {ℓ κ} :
    {A : Type ℓ} (P : A → Type κ) (p : A → Bool) (xs : List A) → All P xs → All P (keep p xs)
unfolding keep
keep-All P p [] h = tt
keep-All P p (x ∷ xs) h = ground (arith, keep-All P p xs h.1)
