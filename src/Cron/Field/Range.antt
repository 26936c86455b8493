-- ===== src/Cron/Field/Range.antt =====
-- The stepping loop yields the arithmetic progression, unless it overflows.
use mylobsterpp.Prelude.{
  int_max, ℕ, zero, suc, ◌+◌, ◌-◌, ◌*◌, ◌≤◌, ◌<◌, ◌≡◌, refl, sym, subst, ◌↔◌, ◌⊎◌, inl, inr, true,
  false, List, [], ◌∷◌, arith, Bool-cases, leb, ltb, Has, ok, undefined, >>=-eq-ok,
}
use mylobsterpp.Cron.Field.{range_loop, range_values}

abbrev pub Occurs : ℕ → List ℕ → Type 0
Occurs v values = Has (λ x. x ≡ v) values

-- `v` is one of start, start + step, start + 2 step, … up to `end`.
abbrev pub InProgression : (start end step v : ℕ) → Type 0
InProgression start end step v = (k : ℕ) × (v ≡ start + k * step) × (v ≤ end)

-- One round that ends well.
range_loop-round :
    (fuel i end step : ℕ) (values : List ℕ)
    → range_loop (suc fuel) i end step ≡ ok values
    → ((end < i) × (values ≡ []))
      ⊎ ((i ≤ end)
          × ((rest : List ℕ) × (values ≡ i ∷ rest)
              × (range_loop fuel (i + step) end step ≡ ok rest)))
unfolding range_loop
range_loop-round fuel i end step values h = elim (Bool-cases (leb i end)) [
  | inr out ↦ inl (ground arith, ground arith)
  | inl within ↦ elim (Bool-cases (ltb int_max (i + step))) [
    | inl over ↦ ground arith
    | inr fits ↦
        let (rest, e, same) =
          >>=-eq-ok (range_loop fuel (i + step) end step) (λ vs. ok (i ∷ vs)) {last = values}
            (ground arith) in
        inr (ground arith, (rest, ground arith, e))
  ]
]

range_loop→progression :
    (fuel i end step v : ℕ) (values : List ℕ)
    → range_loop fuel i end step ≡ ok values
    → Occurs v values
    → InProgression i end step v
unfolding range_loop
range_loop→progression zero i end step v [] h o = absurd o
range_loop→progression zero i end step v (x ∷ values) h o = cc
range_loop→progression (suc fuel) i end step v values h o =
    elim (range_loop-round fuel i end step values h) [
      | inl (over, empty) ↦ absurd (subst (Occurs v) empty o)
      | inr (within, (rest, e, later)) ↦ elim (subst (Occurs v) e o) [
        | inl here ↦ (0, omega arith, omega arith)
        | inr there ↦
            let (k, same, below) =
              range_loop→progression fuel (i + step) end step v rest later there in
            (suc k, omega arith, below)
      ]
    ]

progression→range_loop :
    (fuel i end step k : ℕ) (values : List ℕ)
    → 0 < step
    → end + 1 ≤ fuel + i
    → range_loop fuel i end step ≡ ok values
    → i + k * step ≤ end
    → Occurs (i + k * step) values
progression→range_loop zero i end step k values positive f h b = absurd (omega arith)
progression→range_loop (suc fuel) i end step k values positive f h b =
    elim (range_loop-round fuel i end step values h) [
      | inl (over, empty) ↦ absurd (omega arith)
      | inr (within, (rest, e, later)) ↦ subst (Occurs (i + k * step)) (sym e) (
          next (λ j r. progression→range_loop fuel (i + step) end step j r positive (omega arith)) k
            rest b later)
    ]
  where
    next :
        ((j : ℕ) (rest : List ℕ)
          → range_loop fuel (i + step) end step ≡ ok rest
          → i + step + j * step ≤ end
          → Occurs (i + step + j * step) rest)
        → (k : ℕ) (rest : List ℕ) → i + k * step ≤ end
        → range_loop fuel (i + step) end step ≡ ok rest
        → Occurs (i + k * step) (i ∷ rest)
    next ih zero rest b later = inl (omega arith)
    next ih (suc k) rest b later =
        let regroup : i + step + k * step ≡ i + suc k * step = omega arith in
        inr (subst (λ x. Occurs x rest) regroup (ih k rest later (omega arith)))

-- When the loop for `start`, `end` and a positive step ends well, its values are the progression.
pub range_values_iff :
    (start end step v : ℕ) (values : List ℕ)
    → 0 < step
    → range_values start end step ≡ ok values
    → Occurs v values ↔ InProgression start end step v
unfolding range_values
range_values_iff start end step v values positive h = (
  range_loop→progression (end + 1 - start) start end step v values h,
  λ (k, same, below).
      subst (λ x. Occurs x values) (sym same)
        (progression→range_loop (end + 1 - start) start end step k values positive (omega arith) h
          (omega arith)),
)

range_loop_defined :
    (fuel i end step : ℕ)
    → end + step ≤ int_max
    → (values : List ℕ) × (range_loop fuel i end step ≡ ok values)
unfolding range_loop
range_loop_defined zero i end step h = ([], refl)
range_loop_defined (suc fuel) i end step h =
    let (rest, e) = range_loop_defined fuel (i + step) end step h in
    elim (Bool-cases (leb i end)) [
      | inr out ↦ ([], rw out)
      | inl within ↦ (i ∷ rest, rw (within, fits within, e))
    ]
  where
    fits : leb i end ≡ true → ltb int_max (i + step) ≡ false
    fits within = ground arith

-- The loop is defined when `end + step` fits an `int`, and undefined when it runs at all and already
-- `start + step` does not fit.
pub range_values_defined :
    (start end step : ℕ)
    → (end + step ≤ int_max → (values : List ℕ) × (range_values start end step ≡ ok values))
      × (start ≤ end → int_max < start + step → range_values start end step ≡ undefined)
unfolding range_values range_loop
range_values_defined start end step = (
  range_loop_defined (end + 1 - start) start end step,
  λ runs over. let one : end + 1 - start ≡ suc (end - start) = omega arith in rw one (ground arith),
)
