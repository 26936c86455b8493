-- ===== src/Gateway/Hooks/Webhook.antt =====
-- gateway/hooks.cpp: which URLs a webhook may have.
use mylobsterpp.Prelude.{
  ℕ, Bool, true, false, ◌||◌, none, some, [], ◌∷◌, if◌then◌else◌, map, Text, codes, to_lower,
  break_at, break_byte, has_byte,
}

-- `url.find(needle) != npos`
unfoldable pub has_part : (needle s : Text) → Bool
unfolding break_at
has_part needle s = elim (break_at needle s) [ none ↦ false | some _ ↦ true ]

-- Up to the first byte of the kind, or all of it.
unfoldable pub up_to : (c : ℕ) → Text → Text
unfolding break_byte
up_to c s = elim (break_byte c s) [ none ↦ s | some r ↦ r.0 ]

abbrev is_empty : Text → Bool
is_empty [] = true
is_empty (c ∷ s) = false

-- `%2e%2e`, `%2f` and `%5c`.
unfoldable pub has_encoded_traversal : Text → Bool
unfolding has_part
has_encoded_traversal lower =
    has_part (codes "%2e%2e") lower || has_part (codes "%2f") lower || has_part (codes "%5c") lower

-- The tests behind the scheme: an at sign before the first slash, an empty host, the encodings.
unfoldable pub validate_rest : (url rest : Text) → Bool
unfolding up_to has_byte has_encoded_traversal
validate_rest url rest =
    let authority = up_to b'/' rest in
    if has_byte b'@' authority
    then false
    else if is_empty (up_to b':' authority)
    then false
    else if has_encoded_traversal (map to_lower url)
    then false
    else true

unfoldable pub validate_webhook_url : (url : Text) → Bool
unfolding validate_rest
validate_webhook_url [] = false
validate_webhook_url (c ∷ url) = elim (break_at (codes "://") (c ∷ url)) [
  | none ↦ false
  | some r ↦ validate_rest (c ∷ url) r.1
]
