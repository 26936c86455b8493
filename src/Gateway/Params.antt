-- ===== src/Gateway/Params.antt =====
-- What the handlers of gateway/ read from the parameters of a request: `params.value(key, default)`, which
-- throws on parameters that are no object and on a value of another type. `none` is the exception.
use mylobsterpp.Prelude.{
  Bool, Option, none, some, [], ◌∷◌, true, false, Text, codes, Json, Members, text, boolean, object,
  member, no_members, find_member,
}

unfoldable pub value_text : (key default : Text) → Json → Option Text
unfolding find_member
value_text key default (object ms) = elim (find_member key ms) [
  | none ↦ some default
  | some (text t) ↦ some t
  | some _ ↦ none
]
value_text key default _ = none

unfoldable pub value_bool : (key : Text) → (default : Bool) → Json → Option Bool
unfolding find_member
value_bool key default (object ms) = elim (find_member key ms) [
  | none ↦ some default
  | some (boolean b) ↦ some b
  | some _ ↦ none
]
value_bool key default _ = none

unfoldable pub value_json : (key : Text) → (default : Json) → Json → Option Json
unfolding find_member
value_json key default (object ms) = elim (find_member key ms) [
  | none ↦ some default
  | some j ↦ some j
]
value_json key default _ = none

-- `{"ok": false, "error": message}`
unfoldable pub refused : (message : Text) → Json
refused message =
    object (member (codes "ok") (boolean false) (member (codes "error") (text message) no_members))

-- `{"ok": true}`, with more members.
unfoldable pub accepted : Members → Json
accepted more = object (member (codes "ok") (boolean true) more)

abbrev pub is_empty : Text → Bool
is_empty [] = true
is_empty (c ∷ s) = false
