-- ===== src/Browser/Pool/Within.antt =====
-- What the operations keep of the bound and of the identifiers.
use mylobsterpp.Prelude.{
  ℕ, suc, ◌<◌, leb, length-append, Result, ok, err, undefined, ◌≤◌, ◌≡◌, refl, ap, ◌∙◌, sym, subst,
  inl, inr, Bool-cases, Option, Option-cases, none, some, List, [], ◌∷◌, arith, if-eq-true,
  if-eq-false, length, Text, text_eq, VoidResult,
}
use mylobsterpp.Browser.Pool.{
  BrowserInstance, BrowserPool, Launch, no_chrome, started, reuse, launch_browser, new_instance,
  adopted, grow, acquire, given_back, release, taken_out, close,
}
use mylobsterpp.Browser.Pool.Reuse.{ids, Absent, IsUnique, length-ids, Reused, reuse-Reused}
use mylobsterpp.Browser.Pool.Lending.{IsBounded}

ids-given_back :
    (id : Text) (now : ℕ) (bs : List BrowserInstance) → ids (given_back id now bs) ≡ ids bs
unfolding given_back
ids-given_back id now [] = refl
ids-given_back id now (b ∷ bs) = elim (Bool-cases (text_eq b.id id)) [
  | inl same ↦ ap ids (if-eq-true (text_eq b.id id) _ _ same)
  | inr other ↦
      ap ids (if-eq-false (text_eq b.id id) _ _ other) ∙ ap (◌∷◌ b.id) (ids-given_back id now bs)
]

-- What is left is shorter and still without duplicates.
abbrev Left : List BrowserInstance → List BrowserInstance → Type 0
Left bs left =
    (suc (length left) ≡ length bs)
    × ((k : Text) → Absent k (ids bs) → Absent k (ids left))
    × (IsUnique (ids bs) → IsUnique (ids left))

abbrev LeftIf : List BrowserInstance → Option (List BrowserInstance) → Type 0
LeftIf bs none = Unit
LeftIf bs (some left) = Left bs left

abbrev put_back : BrowserInstance → Option (List BrowserInstance) → Option (List BrowserInstance)
put_back b none = none
put_back b (some left) = some (b ∷ left)

put_back-LeftIf :
    (b : BrowserInstance) (bs : List BrowserInstance) (o : Option (List BrowserInstance))
    → LeftIf bs o
    → LeftIf (b ∷ bs) (put_back b o)
put_back-LeftIf b bs none h = tt
put_back-LeftIf b bs (some left) h =
    (ap suc h.0, (λ k a. (a.0, h.1 k a.1)), λ u. (h.1 b.id u.0, h.2 u.1))

taken_out-LeftIf : (id : Text) (bs : List BrowserInstance) → LeftIf bs (taken_out id bs)
unfolding taken_out
taken_out-LeftIf id [] = tt
taken_out-LeftIf id (b ∷ bs) = elim (Bool-cases (text_eq b.id id)) [
  | inl same ↦
      subst (LeftIf (b ∷ bs)) (sym (if-eq-true (text_eq b.id id) _ _ same))
        (refl, (λ k a. a.1), λ u. u.1)
  | inr other ↦
      subst (LeftIf (b ∷ bs)) (sym (if-eq-false (text_eq b.id id) _ _ other))
        (put_back-LeftIf b bs (taken_out id bs) (taken_out-LeftIf id bs))
]

abbrev pub IsWithin : BrowserPool → Type 0
IsWithin p = length p.instances ≤ p.pool_size

pub release-IsWithin :
    (p : BrowserPool) (id : Text) (now : ℕ) → IsWithin p → IsWithin (release p id now)
unfolding release
release-IsWithin p id now within =
    subst (λ n. n ≤ p.pool_size)
      (sym (length-ids p.instances)
        ∙ ap length (sym (ids-given_back id now p.instances))
        ∙ length-ids (given_back id now p.instances))
      within

pub release-IsBounded :
    (p : BrowserPool) (id : Text) (now : ℕ) → IsBounded p → IsBounded (release p id now)
unfolding release
release-IsBounded p id now b =
    (subst IsUnique (sym (ids-given_back id now p.instances)) b.0, release-IsWithin p id now b.1)

pub close-IsWithin : (p : BrowserPool) (id : Text) → IsWithin p → IsWithin (close p id).0
unfolding close
close-IsWithin p id within = elim (Option-cases (taken_out id p.instances)) [
  | inl e ↦ rw (e, close) within
  | inr (left, e) ↦
      let (shorter, _, _) = subst (LeftIf p.instances) e (taken_out-LeftIf id p.instances) in
      rw (e, close) (omega arith)
]

pub close-IsBounded : (p : BrowserPool) (id : Text) → IsBounded p → IsBounded (close p id).0
unfolding close
close-IsBounded p id b = elim (Option-cases (taken_out id p.instances)) [
  | inl e ↦ rw (e, close) b
  | inr (left, e) ↦
      let (shorter, _, unique) = subst (LeftIf p.instances) e (taken_out-LeftIf id p.instances) in
      rw (e, close) (unique b.0, omega arith)
]

adopted-IsWithin :
    (p : BrowserPool) (now : ℕ) (x : Result Text) (connected : VoidResult)
    → length p.instances < p.pool_size
    → IsWithin (adopted p now x connected).0
unfolding adopted
adopted-IsWithin p now (ok id) (ok _) room =
    rw (length-append p.instances (new_instance now id ∷ [])) (omega arith)
adopted-IsWithin p now (ok id) (err e) room = omega arith
adopted-IsWithin p now (ok id) undefined room = omega arith
adopted-IsWithin p now (err e) connected room = omega arith
adopted-IsWithin p now undefined connected room = omega arith

launched-IsWithin :
    (p : BrowserPool) (now : ℕ) (launch : Launch) (connected : VoidResult)
    → length p.instances < p.pool_size
    → let (q, id) = launch_browser p launch in IsWithin (adopted q now id connected).0
unfolding launch_browser
launched-IsWithin p now no_chrome connected room = adopted-IsWithin p now _ connected room
launched-IsWithin p now (started x) connected room = adopted-IsWithin _ now x connected room

grow-IsWithin :
    (p : BrowserPool) (now : ℕ) (launch : Launch) (connected : VoidResult)
    → IsWithin p
    → IsWithin (grow p now launch connected).0
unfolding grow
grow-IsWithin p now launch connected h = elim (Bool-cases (leb p.pool_size (length p.instances))) [
  | inl full ↦ rw (full, grow) h
  | inr room ↦ rw (room, grow) (launched-IsWithin p now launch connected (ground arith))
]

pub acquire-IsWithin :
    (p : BrowserPool) (now : ℕ) (launch : Launch) (connected : VoidResult)
    → IsWithin p
    → IsWithin (acquire p now launch connected).0
unfolding acquire
acquire-IsWithin p now launch connected h = elim (Option-cases (reuse now p.instances)) [
  | inl e ↦ rw (e, acquire) (grow-IsWithin p now launch connected h)
  | inr ((bs, id), e) ↦
      let (same, _, _, _) = subst (Reused p.instances) e (reuse-Reused now p.instances) in
      rw (e, acquire)
        (subst (λ n. n ≤ p.pool_size)
          (sym (length-ids p.instances) ∙ ap length (sym same) ∙ length-ids bs) h)
]
