-- ===== src/Prelude/Sorting.antt =====
-- Insertion sort, for `std::sort` where the comparison leaves only equal values unordered.
use mathlib.Core.Bool.{Bool}
use mathlib.Core.List.{List, [], ◌∷◌}
use native.Mathlib.Omega.{arith}
use mylobsterpp.Prelude.Tests.{if◌then◌else◌}
use mylobsterpp.Prelude.Lists.{All}

module _ {ℓ} {A : Type ℓ} (lt : A → A → Bool) where
  unfoldable pub insert_by : A → List A → List A
  insert_by x [] = x ∷ []
  insert_by x (y ∷ ys) = if lt y x then y ∷ insert_by x ys else x ∷ y ∷ ys

  unfoldable pub sort_by : List A → List A
  unfolding insert_by
  sort_by [] = []
  sort_by (x ∷ xs) = insert_by x (sort_by xs)

-- Sorting neither adds nor loses items.
module _ {ℓ} {A : Type ℓ} (lt : A → A → Bool) (P : A → Type 0) where
  pub All-insert_by : (x : A) (ys : List A) → P x → All P ys → All P (insert_by lt x ys)
  unfolding insert_by
  All-insert_by x [] p h = (p, tt)
  All-insert_by x (y ∷ ys) p h = ground (arith, All-insert_by x ys p h.1)

  pub All-sort_by : (xs : List A) → All P xs → All P (sort_by lt xs)
  unfolding sort_by
  All-sort_by [] h = tt
  All-sort_by (x ∷ xs) h = All-insert_by x (sort_by lt xs) h.0 (All-sort_by xs h.1)

  pub All-insert_by_inv : (x : A) (ys : List A) → All P (insert_by lt x ys) → P x × All P ys
  unfolding insert_by
  All-insert_by_inv x [] h = (h.0, tt)
  All-insert_by_inv x (y ∷ ys) h = ground (arith, All-insert_by_inv x ys)

  pub All-sort_by_inv : (xs : List A) → All P (sort_by lt xs) → All P xs
  unfolding sort_by
  All-sort_by_inv [] h = tt
  All-sort_by_inv (x ∷ xs) h =
      let (p, rest) = All-insert_by_inv x (sort_by lt xs) h in (p, All-sort_by_inv xs rest)
