-- ===== src/Gateway/Handshake/Params.antt =====
-- gateway/server.cpp, GatewayServer::handle_connection: what the handshake reads from the parameters of
-- the `connect` request.
use mylobsterpp.Prelude.{
  Bool, true, false, ◌||◌, ltb, none, some, List, [], ◌∷◌, if◌then◌else◌, Text, codes, ℤ, pos,
  negsuc, wrap, Items, Members, object, array, text, boolean, number, no_items, item, find_member,
  protocol_error,
}
use mylobsterpp.Gateway.Frame.{make_error_response}
use mylobsterpp.Gateway.Handshake.Ending.{Check, passed, rejected, dropped, ◌>>=◌}

-- `j.value(key, default)` for a string, an `int` and a 64-bit integer; of another type it throws.
unfoldable pub value_text : (key default : Text) → Members → Check Text
unfolding find_member
value_text key default ms = elim (find_member key ms) [
  | none ↦ passed default
  | some (text t) ↦ passed t
  | some _ ↦ dropped
]

-- An `int` takes a Boolean for 0 or 1; an `int64_t` takes numbers only.
unfoldable pub value_int : (key : Text) → (default : ℤ) → Members → Check ℤ
unfolding find_member wrap
value_int key default ms = elim (find_member key ms) [
  | none ↦ passed default
  | some (number n) ↦ passed (wrap 31 n)
  | some (boolean true) ↦ passed (pos 1)
  | some (boolean false) ↦ passed (pos 0)
  | some _ ↦ dropped
]

unfoldable pub value_int64 : (key : Text) → (default : ℤ) → Members → Check ℤ
unfolding find_member wrap
value_int64 key default ms = elim (find_member key ms) [
  | none ↦ passed default
  | some (number n) ↦ passed (wrap 63 n)
  | some _ ↦ dropped
]

abbrev pub protocol_version : ℤ
protocol_version = pos 3

-- `a < b` of integers.
unfoldable pub lt_int : ℤ → ℤ → Bool
lt_int (pos a) (pos b) = ltb a b
lt_int (pos a) (negsuc b) = false
lt_int (negsuc a) (pos b) = true
lt_int (negsuc a) (negsuc b) = ltb b a

unfoldable pub check_version : (id : Text) → Members → Check Unit
unfolding value_int lt_int make_error_response
check_version id ms = do
  min_protocol ← value_int (codes "minProtocol") (pos 0) ms
  max_protocol ← value_int (codes "maxProtocol") (pos 0) ms
  if lt_int max_protocol protocol_version || lt_int protocol_version min_protocol
      then rejected (make_error_response id protocol_error (codes "Unsupported protocol version"))
      else passed tt

-- The strings of an array.
unfoldable pub text_items : Items → List Text
text_items no_items = []
text_items (item (text t) xs) = t ∷ text_items xs
text_items (item _ xs) = text_items xs

unfoldable pub requested_scopes : Members → List Text
unfolding find_member text_items
requested_scopes ms = elim (find_member (codes "scopes") ms) [
  | some (array xs) ↦ text_items xs
  | _ ↦ []
]

-- `params["auth"].value("token", "")`, where there is such an object.
unfoldable pub auth_token : Members → Check Text
unfolding find_member value_text
auth_token ms = elim (find_member (codes "auth") ms) [
  | some (object auth) ↦ value_text (codes "token") [] auth
  | _ ↦ passed []
]
