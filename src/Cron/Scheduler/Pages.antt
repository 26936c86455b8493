-- ===== src/Cron/Scheduler/Pages.antt =====
-- The listings by their pages: pages that follow one another make up one, and what a page holds.
use mylobsterpp.Prelude.{
  pos, int_max, ℕ, zero, suc, ◌+◌, ◌≤◌, ◌≡◌, refl, sym, ap, ◌∙◌, inl, inr, Bool, true, List, [],
  ◌∷◌, ◌++◌, arith, Bool-cases, length, take, drop, keep, All, All-sort_by, Has, All-of_Has, Text,
  text_lt, ok,
}
use mylobsterpp.Cron.Scheduler.{Scheduler, task_names}
use mylobsterpp.Cron.Scheduler.Listing.{CronListParams, clamp, page, passes_query, sort_names, list}

module _ {A : Type 0} where
  drop-all : (n : ℕ) (xs : List A) → length xs ≤ n → drop n xs ≡ []
  drop-all zero [] h = refl
  drop-all zero (x ∷ xs) h = absurd (omega arith)
  drop-all (suc n) [] h = refl
  drop-all (suc n) (x ∷ xs) h = drop-all n xs (omega arith)

  take-nil : (n : ℕ) → Path (List A) (take n []) []
  take-nil zero = refl
  take-nil (suc n) = refl

  take-all : (n : ℕ) (xs : List A) → length xs ≤ n → take n xs ≡ xs
  take-all n [] h = take-nil n
  take-all zero (x ∷ xs) h = absurd (omega arith)
  take-all (suc n) (x ∷ xs) h = ap (λ ys. x ∷ ys) (take-all n xs (omega arith))

  length-drop : (n : ℕ) (xs : List A) → length xs ≤ n + length (drop n xs)
  length-drop zero xs = omega arith
  length-drop (suc n) [] = omega arith
  length-drop (suc n) (x ∷ xs) = omega (arith, length-drop n xs)

  length-take : (n : ℕ) (xs : List A) → length (take n xs) ≤ n
  length-take zero xs = omega arith
  length-take (suc n) [] = omega arith
  length-take (suc n) (x ∷ xs) = omega (arith, length-take n xs)

  length-drop_le : (n l : ℕ) (xs : List A) → length xs ≤ n + l → length (drop n xs) ≤ l
  length-drop_le zero l xs h = omega arith
  length-drop_le (suc n) l [] h = omega arith
  length-drop_le (suc n) l (x ∷ xs) h = length-drop_le n l xs (omega arith)

  take-append : (l m : ℕ) (xs : List A) → take l xs ++ take m (drop l xs) ≡ take (l + m) xs
  take-append zero m xs = let none_taken : 0 + m ≡ m = omega arith in rw none_taken refl
  take-append (suc l) m [] = take-nil m ∙ sym (take-nil (suc l + m))
  take-append (suc l) m (x ∷ xs) =
      let one_taken : suc l + m ≡ suc (l + m) = omega arith in
      rw one_taken (ap (λ ys. x ∷ ys) (take-append l m xs))

  drop-drop : (n l : ℕ) (xs : List A) → drop l (drop n xs) ≡ drop (n + l) xs
  drop-drop zero l xs = let none_dropped : 0 + l ≡ l = omega arith in rw none_dropped refl
  drop-drop (suc n) l [] = drop-all l [] (omega arith) ∙ sym (drop-all (suc n + l) [] (omega arith))
  drop-drop (suc n) l (x ∷ xs) =
      let one_dropped : suc n + l ≡ suc (n + l) = omega arith in rw one_dropped (drop-drop n l xs)

  module _ (P : A → Type 0) where
    All-drop : (n : ℕ) (xs : List A) → All P xs → All P (drop n xs)
    All-drop zero xs h = h
    All-drop (suc n) [] h = tt
    All-drop (suc n) (x ∷ xs) h = All-drop n xs h.1

    All-take : (n : ℕ) (xs : List A) → All P xs → All P (take n xs)
    All-take zero xs h = tt
    All-take (suc n) [] h = tt
    All-take (suc n) (x ∷ xs) h = (h.0, All-take n xs h.1)

  page-slice :
      (offset limit : ℕ) (xs : List A)
      → offset + limit ≤ int_max
      → page offset limit xs ≡ ok (take limit (drop offset xs))
  unfolding page
  page-slice offset limit xs h = ground (
    arith,
    drop-all offset xs,
    take-nil limit,
    take-all limit (drop offset xs),
    length-drop_le offset limit xs,
  )

  page-ok :
      (offset limit : ℕ) (xs page_items : List A)
      → page offset limit xs ≡ ok page_items
      → page_items ≡ take limit (drop offset xs)
  unfolding page
  page-ok offset limit xs page_items h = ground (
    arith,
    drop-all offset xs,
    take-nil limit,
    take-all limit (drop offset xs),
    length-drop_le offset limit xs,
  )

abbrev at : CronListParams → (offset limit : ℕ) → CronListParams
at params offset limit = record params { offset = pos offset; limit = pos limit }

-- As long as the last item's number fits a signed 32-bit integer, a page of `l` names from `o` on and
-- the page of `m` names behind it are both listed, and together are the page of `l + m` names from `o` on.
pub list-append :
    (s : Scheduler) (params : CronListParams) (o l m : ℕ)
    → o + l + m ≤ int_max
    → (a : List Text) × (b : List Text) × (list s (at params o l) ≡ ok a)
      × (list s (at params (o + l) m) ≡ ok b)
      × (list s (at params o (l + m)) ≡ ok (a ++ b))
unfolding list clamp
list-append s params o l m h =
    let names = sort_names params (keep (passes_query params.query) (task_names s)) in
    (
      take l (drop o names),
      take m (drop (o + l) names),
      page-slice o l names (omega arith),
      page-slice (o + l) m names (omega arith),
      page-slice o (l + m) names (omega arith)
          ∙ ap ok (sym (ground (arith, take-append l m (drop o names), drop-drop o l names))),
    )

keep-All :
    (P : Text → Type 0) (p : Text → Bool) (names : List Text)
    → All P names
    → All (λ n. P n × (p n ≡ true)) (keep p names)
unfolding keep
keep-All P p [] h = tt
keep-All P p (n ∷ names) h = elim (Bool-cases (p n)) [
  | inl e ↦ rw e ((h.0, e), keep-All P p names h.1)
  | inr e ↦ rw e (keep-All P p names h.1)
]

sort_names-All :
    (P : Text → Type 0) (params : CronListParams) (names : List Text)
    → All P names
    → All P (sort_names params names)
unfolding sort_names
sort_names-All P params names h =
    ground (arith, All-sort_by (λ a b. text_lt b a) P names h, All-sort_by text_lt P names h)

-- A page that is listed has at most `limit` names, none if the limit is negative; each is the key of a
-- task and passes the query.
pub list-All :
    (s : Scheduler) (params : CronListParams) (names : List Text)
    → list s params ≡ ok names
    → (length names ≤ clamp params.limit)
      × All (λ n. Has (λ k. k ≡ n) (task_names s) × (passes_query params.query n ≡ true)) names
unfolding list
list-All s params names h =
    let kept = keep (passes_query params.query) (task_names s) in
    let limit = clamp params.limit in
    let offset = clamp params.offset in
    let sorted = sort_names params kept in
    let Fits : Text → Type 0 =
      λ n. Has (λ k. k ≡ n) (task_names s) × (passes_query params.query n ≡ true) in
    let whole : All Fits sorted = sort_names-All Fits params kept (
      keep-All (λ n. Has (λ k. k ≡ n) (task_names s)) (passes_query params.query) (task_names s)
        (All-of_Has (λ n. Has (λ k. k ≡ n) (task_names s)) (task_names s) (λ n m. m))) in
    rw (page-ok offset limit sorted names h) (
      length-take limit (drop offset sorted),
      All-take Fits limit (drop offset sorted) (All-drop Fits offset sorted whole),
    )
