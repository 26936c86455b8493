-- ===== src/Browser/Pool/Reuse.antt =====
-- Which idle browser is lent again.
use mylobsterpp.Prelude.{
  ℕ, suc, ◌≡◌, ◌≢◌, refl, ap, ◌∙◌, sym, subst, inl, inr, true, false, Bool-cases, Option, none,
  some, List, [], ◌∷◌, if-eq-true, if-eq-false, length, All, Has, Text,
}
use mylobsterpp.Browser.Pool.{BrowserInstance, lend, reuse}

abbrev pub Lent : Text → List BrowserInstance → Type 0
Lent id bs = Has (λ (b : BrowserInstance). (b.id ≡ id) × (b.in_use ≡ true)) bs

abbrev pub ids : List BrowserInstance → List Text
ids [] = []
ids (b ∷ bs) = b.id ∷ ids bs

abbrev pub Absent : Text → List Text → Type 0
Absent id names = All (λ name. name ≢ id) names

abbrev pub IsUnique : List Text → Type 0
IsUnique [] = Unit
IsUnique (name ∷ names) = Absent name names × IsUnique names

pub length-ids : (bs : List BrowserInstance) → length (ids bs) ≡ length bs
length-ids [] = refl
length-ids (b ∷ bs) = ap suc (length-ids bs)

-- What `reuse` gives.
abbrev pub Reused : List BrowserInstance → Option (List BrowserInstance × Text) → Type 0
Reused bs none = All (λ (b : BrowserInstance). b.in_use ≡ true) bs
Reused bs (some r) =
    (ids r.0 ≡ ids bs)
    × Lent r.1 r.0
    × (IsUnique (ids bs) → Lent r.1 bs → ⊥)
    × Has (λ name. name ≡ r.1) (ids bs)

pub Absent-Lent : (id : Text) (bs : List BrowserInstance) → Absent id (ids bs) → Lent id bs → ⊥
Absent-Lent id [] h m = absurd m
Absent-Lent id (b ∷ bs) h (inl (same, used)) = h.0 same
Absent-Lent id (b ∷ bs) h (inr m) = Absent-Lent id bs h.1 m

Absent-Has : (id : Text) (names : List Text) → Absent id names → Has (λ name. name ≡ id) names → ⊥
Absent-Has id [] h m = absurd m
Absent-Has id (name ∷ names) h (inl same) = h.0 same
Absent-Has id (name ∷ names) h (inr m) = Absent-Has id names h.1 m

idle_first :
    (b : BrowserInstance) (bs : List BrowserInstance)
    → b.in_use ≡ false
    → IsUnique (ids (b ∷ bs))
    → Lent b.id (b ∷ bs)
    → ⊥
idle_first b bs idle h (inl (same, used)) = cc
idle_first b bs idle h (inr m) = Absent-Lent b.id bs h.0 m

used_first :
    (b : BrowserInstance) (bs : List BrowserInstance) (id : Text)
    → (IsUnique (ids bs) → Lent id bs → ⊥)
    → Has (λ name. name ≡ id) (ids bs)
    → IsUnique (ids (b ∷ bs))
    → Lent id (b ∷ bs)
    → ⊥
used_first b bs id free there h (inl (same, used)) =
    Absent-Has id (ids bs) (subst (λ k. Absent k (ids bs)) same h.0) there
used_first b bs id free there h (inr m) = free h.1 m

reuse-idle :
    (now : ℕ) (b : BrowserInstance) (bs : List BrowserInstance)
    → b.in_use ≡ false
    → reuse now (b ∷ bs) ≡ some (lend now b ∷ bs, b.id)
unfolding reuse
reuse-idle now b bs idle = if-eq-false b.in_use _ _ idle

abbrev behind :
    BrowserInstance → Option (List BrowserInstance × Text) → Option (List BrowserInstance × Text)
behind b none = none
behind b (some r) = some (b ∷ r.0, r.1)

reuse-used :
    (now : ℕ) (b : BrowserInstance) (bs : List BrowserInstance)
    → b.in_use ≡ true
    → (later : Option (List BrowserInstance × Text)) → reuse now bs ≡ later
    → reuse now (b ∷ bs) ≡ behind b later
unfolding reuse
reuse-used now b bs used none e = if-eq-true b.in_use _ _ used ∙ rw e refl
reuse-used now b bs used (some r) e = if-eq-true b.in_use _ _ used ∙ rw e refl

first_idle :
    (now : ℕ) (b : BrowserInstance) (bs : List BrowserInstance)
    → b.in_use ≡ false
    → Reused (b ∷ bs) (reuse now (b ∷ bs))
unfolding reuse lend
first_idle now b bs idle =
    subst (Reused (b ∷ bs)) (sym (reuse-idle now b bs idle))
      (refl, inl (refl, refl), idle_first b bs idle, inl refl)

later_idle :
    (now : ℕ) (b : BrowserInstance) (bs : List BrowserInstance)
    (later : Option (List BrowserInstance × Text))
    → b.in_use ≡ true
    → reuse now bs ≡ later
    → Reused bs later
    → Reused (b ∷ bs) (reuse now (b ∷ bs))
later_idle now b bs none used e h =
    subst (Reused (b ∷ bs)) (sym (reuse-used now b bs used none e)) (used, h)
later_idle now b bs (some r) used e h =
    subst (Reused (b ∷ bs)) (sym (reuse-used now b bs used (some r) e))
      (ap (◌∷◌ b.id) h.0, inr h.1, used_first b bs r.1 h.2 h.3, inr h.3)

pub reuse-Reused : (now : ℕ) (bs : List BrowserInstance) → Reused bs (reuse now bs)
unfolding reuse lend
reuse-Reused now [] = tt
reuse-Reused now (b ∷ bs) = elim (Bool-cases b.in_use) [
  | inr idle ↦ first_idle now b bs idle
  | inl used ↦ later_idle now b bs (reuse now bs) used refl (reuse-Reused now bs)
]
