-- ===== src/Cron/Field/Bounds.antt =====
-- Whatever a field is, its values lie in the field's range, ascend, and are not none.
use mylobsterpp.Prelude.{
  ℕ, ◌≤◌, ◌<◌, ◌≡◌, ◌≢◌, refl, sym, subst, ◌∙◌, inl, inr, some, List, [], ◌∷◌, ◌++◌, arith,
  Bool-cases, Option-cases, ltb, sort_by, map, to_lower, All, All-of_Has, All-Has, All-append, Text,
  text_eq, codes, break_byte, ok, >>=-eq-ok,
}
use mylobsterpp.Cron.Field.{
  Names, find_name, named_value, resolve_value, range_values, split_step, parse_range, parse_single,
  parse_unstepped, parse_element, pieces_from, parse_elements, unique, parse_field,
}
use mylobsterpp.Cron.Field.Range.{Occurs, range_values_iff}
use mylobsterpp.Cron.Field.Sorted.{Ascends, sorted_unique-Ascends, Occurs-sorted_unique}

append-ne-nil : (xs ys : List ℕ) → xs ≢ [] → xs ++ ys ≢ []
append-ne-nil [] ys h e = h refl
append-ne-nil (x ∷ xs) ys h e = cc

pieces-ne-nil : (part field : Text) → field ≢ [] → pieces_from part field ≢ []
unfolding pieces_from
pieces-ne-nil part [] h = absurd (h refl)
pieces-ne-nil part (c ∷ []) h = ground arith
pieces-ne-nil part (c ∷ d ∷ field) h = ground (arith, pieces-ne-nil (part ++ c ∷ []) (d ∷ field))

sorted_unique-ne-nil : (xs : List ℕ) → xs ≢ [] → unique (sort_by ltb xs) ≢ []
sorted_unique-ne-nil [] h e = h refl
sorted_unique-ne-nil (x ∷ xs) h e =
    subst (Occurs x) e ((Occurs-sorted_unique x (x ∷ xs)).1 (inl refl))

module _ (lo hi : ℕ) where
  abbrev pub InRange : ℕ → Type 0
  InRange v = (lo ≤ v) × (v ≤ hi)

  -- The values of a good element.
  abbrev pub IsGood : List ℕ → Type 0
  IsGood values = All InRange values × (values ≢ [])

  abbrev pub NamesInRange : Names → Type 0
  NamesInRange names = All (λ (n : Text × ℕ). InRange n.1) names

  find_name-InRange :
      (token : Text) (names : Names) (v : ℕ)
      → NamesInRange names
      → find_name token names ≡ some v
      → InRange v
  unfolding find_name
  find_name-InRange token [] v h e = cc
  find_name-InRange token ((name, value) ∷ names) v h e = elim (Bool-cases (text_eq name token)) [
    | inl here ↦ let same : value ≡ v = ground arith in subst InRange same h.0
    | inr other ↦ find_name-InRange token names v h.1 (ground arith)
  ]

  resolve_value-InRange :
      (token : Text) (names : Names) (v : ℕ)
      → NamesInRange names
      → resolve_value token lo hi names ≡ ok v
      → InRange v
  unfolding resolve_value named_value
  resolve_value-InRange token names v h e = elim (Option-cases (named_value token names)) [
    | inl unnamed ↦ ground arith
    | inr (value, named) ↦
        let same : value ≡ v = ground arith in
        subst InRange same (find_name-InRange (map to_lower token) names value h (ground arith))
  ]

  range_values-IsGood :
      (start end step : ℕ) (values : List ℕ)
      → 0 < step
      → lo ≤ start
      → start ≤ end
      → end ≤ hi
      → range_values start end step ≡ ok values
      → IsGood values
  range_values-IsGood start end step values positive a b c h = (
    All-of_Has InRange values (λ v m.
        let (k, e, below) = (range_values_iff start end step v values positive h).0 m in
        (omega arith, omega arith)),
    λ empty.
        subst (Occurs start) empty
          ((range_values_iff start end step start values positive h).1 (0, omega arith, b)),
  )

  split_step-pos : (elem part : Text) (step : ℕ) → split_step elem ≡ ok (part, step) → 0 < step
  unfolding split_step
  split_step-pos elem part step h = ground arith

  module _ (names : Names) (named : NamesInRange names) (range : lo ≤ hi) where
    parse_range-IsGood :
        (a b : Text) (step : ℕ) (values : List ℕ)
        → 0 < step
        → parse_range a b step lo hi names ≡ ok values
        → IsGood values
    unfolding parse_range
    parse_range-IsGood a b step values positive h =
        let (start, es, h₁) = >>=-eq-ok (resolve_value a lo hi names) _ h in
        let (end, ee, h₂) = >>=-eq-ok (resolve_value b lo hi names) _ h₁ in
        let s = resolve_value-InRange a names start named es in
        let e = resolve_value-InRange b names end named ee in
        range_values-IsGood start end step values positive s.0 (ground arith) e.1 (ground arith)

    parse_single-IsGood :
        (a : Text) (step : ℕ) (values : List ℕ)
        → 0 < step
        → parse_single a step lo hi names ≡ ok values
        → IsGood values
    unfolding parse_single
    parse_single-IsGood a step values positive h =
        let (value, ev, h₁) = >>=-eq-ok (resolve_value a lo hi names) _ h in
        let v = resolve_value-InRange a names value named ev in
        elim (Bool-cases (ltb 1 step)) [
          | inl stepped ↦
              range_values-IsGood value hi step values positive v.0 v.1 (omega arith) (ground arith)
          | inr plain ↦
              let same : values ≡ value ∷ [] = ground arith in
              subst IsGood (sym same) ((v, tt), λ e. cc)
        ]

    parse_unstepped-IsGood :
        (a : Text) (step : ℕ) (values : List ℕ)
        → 0 < step
        → parse_unstepped a step lo hi names ≡ ok values
        → IsGood values
    unfolding parse_unstepped
    parse_unstepped-IsGood a step values positive h = elim (Bool-cases (text_eq a (codes "*"))) [
      | inl star ↦
          range_values-IsGood lo hi step values positive (omega arith) range (omega arith)
            (ground arith)
      | inr other ↦ elim (Option-cases (break_byte b'-' a)) [
        | inl single ↦ parse_single-IsGood a step values positive (ground arith)
        | inr ((s, e), dash) ↦ parse_range-IsGood s e step values positive (ground arith)
      ]
    ]

    parse_element-IsGood :
        (elem : Text) (values : List ℕ) → parse_element elem lo hi names ≡ ok values → IsGood values
    unfolding parse_element
    parse_element-IsGood elem values h =
        let ((part, step), e, h₁) = >>=-eq-ok (split_step elem) _ h in
        parse_unstepped-IsGood part step values (split_step-pos elem part step e) h₁

    parse_elements-InRange :
        (parts : List Text) (values : List ℕ)
        → parse_elements parts lo hi names ≡ ok values
        → All InRange values × (parts ≢ [] → values ≢ [])
    unfolding parse_elements
    parse_elements-InRange [] values h =
        let same : [] ≡ values = cc in (subst (All InRange) same tt, λ ne. absurd (ne refl))
    parse_elements-InRange (part ∷ parts) values h =
        let (here, eh, h₁) = >>=-eq-ok (parse_element part lo hi names) _ h in
        let (later, el, h₂) = >>=-eq-ok (parse_elements parts lo hi names) _ h₁ in
        let good = parse_element-IsGood part here eh in
        let same : here ++ later ≡ values = cc in
        (
          subst (All InRange) same
              (All-append InRange here later good.0 (parse_elements-InRange parts later el).0),
          λ _ empty. append-ne-nil here later good.1 (same ∙ empty),
        )

    -- For a range that is not empty and names whose values lie in it, a field that is not the empty
    -- text and parses has values, all of them in the range, in ascending order and each once.
    pub parse_field-IsField :
        (field : Text) (values : List ℕ)
        → field ≢ []
        → parse_field field lo hi names ≡ ok values
        → Ascends values × IsGood values
    unfolding parse_field
    parse_field-IsField field values nonempty h =
        let (raw, e, h₁) = >>=-eq-ok (parse_elements (pieces_from [] field) lo hi names) _ h in
        let (inside, some_raw) = parse_elements-InRange (pieces_from [] field) raw e in
        let same : unique (sort_by ltb raw) ≡ values = cc in
        (
          subst Ascends same (sorted_unique-Ascends raw),
          (
            subst (All InRange) same (
                All-of_Has InRange (unique (sort_by ltb raw)) (λ v m.
                  let (x, p, ex) = All-Has raw inside ((Occurs-sorted_unique v raw).0 m) in
                  subst InRange ex p)),
            λ empty.
                sorted_unique-ne-nil raw (some_raw (pieces-ne-nil [] field nonempty))
                  (same ∙ empty),
          ),
        )
