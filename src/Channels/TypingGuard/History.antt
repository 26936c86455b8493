-- ===== src/Channels/TypingGuard/History.antt =====
-- When the breaker trips.
use mylobsterpp.Prelude.{◌≡◌, refl, ◌↔◌, ◌⊎◌, inl, Bool, true, false, List, [], ◌∷◌, arith}
use mylobsterpp.Channels.TypingGuard.{TypingStartGuard, fresh, start, reset}

-- The attempts since a reset, oldest first.
abbrev pub started : TypingStartGuard → List Bool → TypingStartGuard
started g [] = g
started g (sent ∷ later) = started (start g sent) later

-- Two attempts in a row did not succeed.
abbrev pub HasTwoFailures : List Bool → Type 0
HasTwoFailures [] = ⊥
HasTwoFailures (sent ∷ []) = ⊥
HasTwoFailures (sent ∷ next ∷ later) =
    ((sent ≡ false) × (next ≡ false)) ⊎ HasTwoFailures (next ∷ later)

started-tripped :
    (g : TypingStartGuard) (l : List Bool) → g.tripped ≡ true → (started g l).tripped ≡ true
unfolding start
started-tripped g [] h = h
started-tripped g (sent ∷ later) h = rw h (started-tripped _ later refl)

HasTwoFailures-sent : (l : List Bool) → HasTwoFailures (true ∷ l) ↔ HasTwoFailures l
HasTwoFailures-sent [] = ground arith
HasTwoFailures-sent (sent ∷ l) = ground arith

mutual
  unfolding start

  from_zero : (l : List Bool) → ((started fresh l).tripped ≡ true) ↔ HasTwoFailures l
  from_zero [] = ground arith
  from_zero (true ∷ later) = ground (arith, HasTwoFailures-sent later, from_zero later)
  from_zero (false ∷ later) = from_one later

  from_one :
      (l : List Bool)
      → ((started (record { consecutive_failures = 1; tripped = false }) l).tripped ≡ true)
        ↔ HasTwoFailures (false ∷ l)
  from_one [] = ground arith
  from_one (true ∷ later) = ground (arith, HasTwoFailures-sent later, from_zero later)
  from_one (false ∷ later) = (λ _. inl (refl, refl), λ _. started-tripped _ later refl)

-- After a reset the breaker trips exactly if two attempts in a row did not succeed, and then stays so.
pub started-tripped_iff :
    (g : TypingStartGuard) (l : List Bool)
    → ((started (reset g) l).tripped ≡ true) ↔ HasTwoFailures l
unfolding reset
started-tripped_iff g l = from_zero l
