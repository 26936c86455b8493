-- ===== src/Agent/Tool/Schema.antt =====
-- What the schema of a tool describes.
use mylobsterpp.Prelude.{
  ◌≡◌, ◌↔◌, ◌⊎◌, inl, inr, Bool, true, false, Option, none, some, List, [], ◌∷◌, arith, Has,
  Bool-cases, Text, text_eq_iff, Json, null, boolean, number, text, array, object, no_members,
  member, find_member, put_member, find_member-put_member,
}
use mylobsterpp.Agent.Tool.{ToolParameter, property, properties_from, required_names}

abbrev is_there : Option Json → Bool
is_there none = false
is_there (some v) = true

-- Whether a JSON value is an object with the member.
unfoldable pub describes : Text → Json → Bool
unfolding find_member
describes key (object ms) = is_there (find_member key ms)
describes key _ = false

-- What `properties_from` starts with: a null value or an object.
abbrev IsProperties : Json → Type 0
IsProperties null = Unit
IsProperties (object ms) = Unit
IsProperties _ = ⊥

properties_from-describes :
    (name : Text) (ps : List ToolParameter) (j : Json)
    → IsProperties j
    → (describes name (properties_from j ps) ≡ true)
      ↔ ((describes name j ≡ true) ⊎ Has (λ (p : ToolParameter). p.name ≡ name) ps)
unfolding properties_from describes find_member
properties_from-describes name [] j h = ground arith
properties_from-describes name (p ∷ ps) null h = ground (
  arith,
  text_eq_iff p.name name,
  properties_from-describes name ps (object (member p.name (property p) no_members)) tt,
)
properties_from-describes name (p ∷ ps) (object ms) h = ground (
  arith,
  text_eq_iff p.name name,
  find_member-put_member p.name name (property p) ms,
  properties_from-describes name ps (object (put_member p.name (property p) ms)) tt,
)
properties_from-describes name (p ∷ ps) (boolean b) h = absurd h
properties_from-describes name (p ∷ ps) (number n) h = absurd h
properties_from-describes name (p ∷ ps) (text t) h = absurd h
properties_from-describes name (p ∷ ps) (array xs) h = absurd h

required_names-Has :
    (name : Text) (ps : List ToolParameter)
    → Has (λ t. t ≡ name) (required_names ps)
      ↔ Has (λ (p : ToolParameter). (p.name ≡ name) × (p.required ≡ true)) ps
unfolding required_names
required_names-Has name [] = ground arith
required_names-Has name (p ∷ ps) = elim (Bool-cases p.required) [
  | inl r ↦ rw r (ground (arith, required_names-Has name ps))
  | inr o ↦ rw o (ground (arith, required_names-Has name ps))
]
