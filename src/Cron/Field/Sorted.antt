-- ===== src/Cron/Field/Sorted.antt =====
-- `std::sort`, then `std::unique`: the same values, each once, in ascending order.
use mylobsterpp.Prelude.{
  ℕ, ◌≤◌, ◌<◌, ◌≡◌, refl, ◌↔◌, inl, inr, List, [], ◌∷◌, arith, Bool-cases, ltb, ◌==◌, All, All-map,
  insert_by, sort_by, All-insert_by,
}
use mylobsterpp.Cron.Field.{unique}
use mylobsterpp.Cron.Field.Range.{Occurs}

abbrev pub Ascends : List ℕ → Type 0
Ascends [] = Unit
Ascends (x ∷ xs) = All (λ y. x < y) xs × Ascends xs

abbrev Rises : List ℕ → Type 0
Rises [] = Unit
Rises (x ∷ xs) = All (λ y. x ≤ y) xs × Rises xs

Rises-insert_by : (x : ℕ) (ys : List ℕ) → Rises ys → Rises (insert_by ltb x ys)
unfolding insert_by
Rises-insert_by x [] h = (tt, tt)
Rises-insert_by x (y ∷ ys) h = elim (Bool-cases (ltb y x)) [
  | inl below ↦
      rw below (All-insert_by ltb (λ z. y ≤ z) x ys (ground arith) h.0, Rises-insert_by x ys h.1)
  | inr above ↦
      let le : x ≤ y = ground arith in
      rw above ((le, All-map ys (λ z k. omega (arith, le, k)) h.0), h)
]

Rises-sort_by : (xs : List ℕ) → Rises (sort_by ltb xs)
unfolding sort_by
Rises-sort_by [] = tt
Rises-sort_by (x ∷ xs) = Rises-insert_by x (sort_by ltb xs) (Rises-sort_by xs)

All-unique : (x : ℕ) (ys : List ℕ) → All (λ y. x < y) ys → All (λ y. x < y) (unique ys)
unfolding unique
All-unique x [] h = tt
All-unique x (y ∷ []) h = h
All-unique x (y ∷ z ∷ ys) h = ground (arith, All-unique x (z ∷ ys) h.1)

Ascends-unique : (xs : List ℕ) → Rises xs → Ascends (unique xs)
unfolding unique
Ascends-unique [] h = tt
Ascends-unique (x ∷ []) h = (tt, tt)
Ascends-unique (x ∷ y ∷ xs) h = elim (Bool-cases (x == y)) [
  | inl same ↦ rw same (Ascends-unique (y ∷ xs) h.1)
  | inr other ↦
      let lt : x < y = ground arith in
      rw other (
        All-unique x (y ∷ xs) (lt, All-map xs (λ z k. omega (arith, lt, k)) h.1.0),
        Ascends-unique (y ∷ xs) h.1,
      )
]

Occurs-insert_by : (v x : ℕ) (ys : List ℕ) → Occurs v (insert_by ltb x ys) ↔ Occurs v (x ∷ ys)
unfolding insert_by
Occurs-insert_by v x [] = (λ m. m, λ m. m)
Occurs-insert_by v x (y ∷ ys) = elim (Bool-cases (ltb y x)) [
  | inr above ↦ rw above (λ m. m, λ m. m)
  | inl below ↦ rw below (ground (arith, Occurs-insert_by v x ys))
]

Occurs-sort_by : (v : ℕ) (xs : List ℕ) → Occurs v (sort_by ltb xs) ↔ Occurs v xs
unfolding sort_by
Occurs-sort_by v [] = (λ m. m, λ m. m)
Occurs-sort_by v (x ∷ xs) =
    ground (arith, Occurs-insert_by v x (sort_by ltb xs), Occurs-sort_by v xs)

Occurs-unique : (v : ℕ) (xs : List ℕ) → Occurs v (unique xs) ↔ Occurs v xs
unfolding unique
Occurs-unique v [] = (λ m. m, λ m. m)
Occurs-unique v (x ∷ []) = (λ m. m, λ m. m)
Occurs-unique v (x ∷ y ∷ xs) = elim (Bool-cases (x == y)) [
  | inl same ↦ rw same (ground (arith, Occurs-unique v (y ∷ xs)))
  | inr other ↦ rw other (ground (arith, Occurs-unique v (y ∷ xs)))
]

-- The result ascends strictly, and has the values of the input.
pub sorted_unique-Ascends : (xs : List ℕ) → Ascends (unique (sort_by ltb xs))
sorted_unique-Ascends xs = Ascends-unique (sort_by ltb xs) (Rises-sort_by xs)

pub Occurs-sorted_unique : (v : ℕ) (xs : List ℕ) → Occurs v (unique (sort_by ltb xs)) ↔ Occurs v xs
Occurs-sorted_unique v xs =
    let u = Occurs-unique v (sort_by ltb xs) in
    let s = Occurs-sort_by v xs in (λ m. s.0 (u.0 m), λ m. u.1 (s.1 m))

-- A list that ascends already stays as it is.
insert_by-least : (x : ℕ) (ys : List ℕ) → All (λ y. x < y) ys → insert_by ltb x ys ≡ x ∷ ys
unfolding insert_by
insert_by-least x [] h = refl
insert_by-least x (y ∷ ys) h = ground arith

sort_by-Ascends : (xs : List ℕ) → Ascends xs → sort_by ltb xs ≡ xs
unfolding sort_by
sort_by-Ascends [] h = refl
sort_by-Ascends (x ∷ xs) h = rw (sort_by-Ascends xs h.1) (insert_by-least x xs h.0)

unique-Ascends : (xs : List ℕ) → Ascends xs → unique xs ≡ xs
unfolding unique
unique-Ascends [] h = refl
unique-Ascends (x ∷ []) h = refl
unique-Ascends (x ∷ y ∷ xs) h = ground (arith, unique-Ascends (y ∷ xs) h.1)

pub sorted_unique-of_Ascends : (xs : List ℕ) → Ascends xs → unique (sort_by ltb xs) ≡ xs
sorted_unique-of_Ascends xs h = rw (sort_by-Ascends xs h) (unique-Ascends xs h)
