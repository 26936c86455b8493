-- ===== src/Gateway/RateLimiter/Window.antt =====
-- What the limiter knows of an address are its failures in the last minute.
use mylobsterpp.Prelude.{
  ℕ, ◌+◌, ◌≤◌, ◌≡◌, refl, ap, ◌∙◌, sym, subst, inl, inr, false, not, Bool-cases, Option-cases, none,
  List, [], ◌∷◌, ◌++◌, arith, if◌then◌else◌, ltb, keep, keep-All, All, All-append, Text, text_eq,
  text_eq_iff, Map, lookup, lookup-assign, lookup-erase,
}
use mylobsterpp.Gateway.RateLimiter.{window, drop_old, stored, prune, times_of}

-- Times in the order in which they came.
abbrev pub InOrder : List ℕ → Type 0
InOrder [] = Unit
InOrder (t ∷ times) = All (λ u. t ≤ u) times × InOrder times

abbrev pub recent : ℕ → List ℕ → List ℕ
recent now times = keep (λ t. not (ltb (t + window) now)) times

recent_all :
    (now t : ℕ) (times : List ℕ)
    → ltb (t + window) now ≡ false
    → All (λ u. t ≤ u) times
    → recent now times ≡ times
unfolding keep
recent_all now t [] new h = refl
recent_all now t (u ∷ times) new h =
    let newer : ltb (u + window) now ≡ false = ground arith in
    rw newer (ap (◌∷◌ u) (recent_all now t times new h.1))

-- From times in order, popping the front takes all that are old.
pub drop_old-recent :
    (now : ℕ) (times : List ℕ) → InOrder times → drop_old now times ≡ recent now times
unfolding drop_old keep
drop_old-recent now [] h = refl
drop_old-recent now (t ∷ times) h = elim (Bool-cases (ltb (t + window) now)) [
  | inl old ↦ rw old (drop_old-recent now times h.1)
  | inr new ↦ rw new (ap (◌∷◌ t) (sym (recent_all now t times new h.0)))
]

-- The times that are kept for an address.
abbrev pub kept : Text → Map (List ℕ) → List ℕ
kept ip m = times_of (lookup ip m)

kept-stored :
    (ip other : Text) (times : List ℕ) (m : Map (List ℕ))
    → kept other (stored ip times m) ≡ (if text_eq ip other then times else kept other m)
kept-stored ip other [] m = ap times_of (lookup-erase ip other m) ∙ ground arith
kept-stored ip other (t ∷ times) m =
    ap times_of (lookup-assign ip other (t ∷ times) m) ∙ ground arith

pub kept-prune :
    (ip other : Text) (now : ℕ) (m : Map (List ℕ))
    → kept other (prune ip now m)
      ≡ (if text_eq ip other then drop_old now (kept ip m) else kept other m)
unfolding prune drop_old
kept-prune ip other now m = elim (Option-cases (lookup ip m)) [
  | inl e ↦
      rw (e, prune)
        (elim (Bool-cases (text_eq ip other)) [
          | inl same ↦
              rw same
                (ap times_of (subst (λ k. lookup k m ≡ none) ((text_eq_iff ip other).0 same) e))
          | inr differ ↦ rw differ refl
        ])
  | inr (times, e) ↦ rw (e, prune) (kept-stored ip other (drop_old now times) m)
]

pub recent-recent :
    (before now : ℕ) (times : List ℕ)
    → before ≤ now
    → recent now (recent before times) ≡ recent now times
unfolding keep
recent-recent before now [] le = refl
recent-recent before now (t ∷ times) le = ground (arith, recent-recent before now times le)

pub recent-append :
    (now : ℕ) (xs ys : List ℕ) → recent now (xs ++ ys) ≡ recent now xs ++ recent now ys
unfolding keep
recent-append now [] ys = refl
recent-append now (x ∷ xs) ys = ground (arith, recent-append now xs ys)

pub recent-InOrder : (now : ℕ) (times : List ℕ) → InOrder times → InOrder (recent now times)
unfolding keep
recent-InOrder now [] h = tt
recent-InOrder now (t ∷ times) h = elim (Bool-cases (ltb (t + window) now)) [
  | inl old ↦ rw old (recent-InOrder now times h.1)
  | inr new ↦ rw new (keep-All (λ u. t ≤ u) _ times h.0, recent-InOrder now times h.1)
]

pub InOrder-append :
    (times : List ℕ) (now : ℕ)
    → InOrder times
    → All (λ t. t ≤ now) times
    → InOrder (times ++ now ∷ [])
InOrder-append [] now h k = (tt, tt)
InOrder-append (t ∷ times) now h k =
    (All-append (λ u. t ≤ u) times (now ∷ []) h.0 (k.0, tt), InOrder-append times now h.1 k.1)

-- The failures of an address, oldest first.
abbrev pub failures_of : Text → List (Text × ℕ) → List ℕ
failures_of ip [] = []
failures_of ip ((other, t) ∷ events) =
    let rest = failures_of ip events in if text_eq other ip then t ∷ rest else rest

pub failures_of-append :
    (ip : Text) (xs ys : List (Text × ℕ))
    → failures_of ip (xs ++ ys) ≡ failures_of ip xs ++ failures_of ip ys
failures_of-append ip [] ys = refl
failures_of-append ip ((other, t) ∷ xs) ys = ground (arith, failures_of-append ip xs ys)
