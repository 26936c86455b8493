-- ===== src/Gateway/Handshake.antt =====
-- gateway/server.cpp, GatewayServer::handle_connection: the connect handshake, from the first message to
-- the connection's scopes. The hash of a public key and the check of a signature are OpenSSL's and
-- arguments, as are the clock, the nonce of the challenge and the peer's address. An exception of the
-- JSON library drops the connection.
pub mod Params
pub mod Ending
pub mod Device
pub mod Scopes
pub mod Shown
use mylobsterpp.Prelude.{
  ℕ, ◌+◌, ◌-◌, ◌*◌, ◌^◌, Bool, true, false, not, ◌&&◌, ◌||◌, ltb, leb, Option, none, some, List, [],
  ◌∷◌, if◌then◌else◌, Text, codes, text_eq, ℤ, pos, negsuc, wrap, Json, Items, Members, object,
  array, text, number, no_items, item, no_members, member, find_member, Result, ok, err, undefined,
  protocol_error, unauthorized,
}
use mylobsterpp.Gateway.Frame.{
  Frame, request, response, event_frame, RequestFrame, ResponseFrame, make_response,
  make_error_response,
}
use mylobsterpp.Gateway.Auth.{
  AuthInfo, AuthMethod, Authenticator, no_auth, tailscale, token, is_open, verify,
}
use mylobsterpp.Infra.DeviceAuth.{
  DeviceAuthParams, DeviceAuthV3Params, build_device_auth_payload, build_device_auth_payload_v3,
}
use mylobsterpp.Gateway.Handshake.Ending.{Check, passed, rejected, dropped, overflowed, ◌>>=◌}
use mylobsterpp.Gateway.Handshake.Params.{
  value_text, value_int, value_int64, protocol_version, lt_int, check_version, text_items,
  requested_scopes, auth_token,
}

-- The default-constructed `AuthInfo`.
abbrev pub no_info : AuthInfo
no_info = record {
  identity = [];
  method = no_auth;
  device = none;
  metadata = Json.null;
  trusted_proxy_auth_ok = false;
}

abbrev pub verified : (id : Text) → (message : Option Text) → Result AuthInfo → Check AuthInfo
verified id message (ok info) = passed info
verified id (some message) (err e) = rejected (make_error_response id unauthorized message)
verified id none (err e) = rejected (make_error_response id unauthorized e.message)
verified id message undefined = overflowed

abbrev pub is_tailscale : AuthMethod → Bool
is_tailscale tailscale = true
is_tailscale _ = false

unfoldable pub verify_credential : Authenticator → (id credential : Text) → Check AuthInfo
unfolding verify make_error_response
verify_credential a id [] =
    rejected (make_error_response id unauthorized (codes "Authentication required"))
verify_credential a id (c ∷ s) =
    verified id (some (codes "Authentication failed")) (verify a (c ∷ s))

-- Step 5: the peer's address, or the token.
unfoldable pub authenticate : Authenticator → (peer id : Text) → Members → Check AuthInfo
unfolding is_open verify auth_token verify_credential
authenticate a peer id ms =
    if is_open a
    then passed no_info
    else auth_token ms >>= λ credential.
        if is_tailscale a.method
        then verified id none (verify a peer)
        else verify_credential a id credential

-- What the handshake knows about the world.
pub record Environment : Type 0 where
  pub derive_device_id : (public_key : Text) → Text
  pub verify_signature : (public_key payload signature : Text) → Bool
  pub now : ℕ
  pub challenge_nonce : Text
  pub peer : Text

abbrev pub skew_limit : ℕ
skew_limit = 2 * 60 * 1000

-- `std::abs(now - signed_at)`, in 64 bits.
unfoldable pub clock_skew : (now : ℕ) → (signed_at : ℤ) → Check ℕ
clock_skew now (pos s) = passed ((now - s) + (s - now))
clock_skew now (negsuc s) = if ltb (now + s + 1) (2 ^ 63) then passed (now + s + 1) else overflowed

-- The members of the `device` object.
pub record DeviceClaim : Type 0 where
  pub id : Text
  pub public_key : Text
  pub signed_at : ℤ
  pub nonce : Text
  pub signature : Text
  pub client_id : Text
  pub client_mode : Text

unfoldable pub device_claim : Members → Check DeviceClaim
unfolding value_text value_int64
device_claim device = do
  id ← value_text (codes "id") [] device
  public_key ← value_text (codes "publicKey") [] device
  signed_at ← value_int64 (codes "signedAt") (pos 0) device
  nonce ← value_text (codes "nonce") [] device
  signature ← value_text (codes "signature") [] device
  client_id ← value_text (codes "clientId") [] device
  client_mode ← value_text (codes "clientMode") [] device
  passed (record {
    id = id;
    public_key = public_key;
    signed_at = signed_at;
    nonce = nonce;
    signature = signature;
    client_id = client_id;
    client_mode = client_mode;
  })

abbrev pub signed_params :
    DeviceClaim → (role : Text) → (scopes : List Text) → (credential : Text) → DeviceAuthParams
signed_params c role scopes credential = record {
  device_id = c.id;
  client_id = c.client_id;
  client_mode = c.client_mode;
  role = role;
  scopes = scopes;
  signed_at_ms = c.signed_at;
  token = credential;
  nonce = c.nonce;
}

-- The payload in the version that the device declares.
unfoldable pub signed_payload :
    Members → DeviceClaim → (role : Text) → (scopes : List Text) → (credential : Text) → Check Text
unfolding value_int value_text lt_int build_device_auth_payload build_device_auth_payload_v3
signed_payload device c role scopes credential =
    value_int (codes "payloadVersion") (pos 2) device >>= λ version.
    let v3 = value_text (codes "platform") [] device >>= λ platform.
    value_text (codes "deviceFamily") [] device >>= λ device_family. passed (
      build_device_auth_payload_v3 (record {
        base = signed_params c role scopes credential;
        platform = platform;
        device_family = device_family;
      })) in
    if lt_int version (pos 3)
    then passed (build_device_auth_payload (signed_params c role scopes credential))
    else v3

-- Step 6 for a claim: whether the device is valid.
unfoldable pub is_valid_device :
    Environment → (ms device : Members) → DeviceClaim → (role : Text) → Check Bool
unfolding clock_skew auth_token requested_scopes signed_payload
is_valid_device env ms device c role =
    if not (text_eq (env.derive_device_id c.public_key) c.id)
    then passed false
    else clock_skew env.now c.signed_at >>= λ skew.
        if ltb skew_limit skew
        then passed false
        else if not (text_eq c.nonce env.challenge_nonce)
        then passed false
        else auth_token ms >>= λ credential.
            signed_payload device c role (requested_scopes ms) credential >>= λ payload.
            passed (env.verify_signature c.public_key payload c.signature)

-- The scopes that are granted, and the key of a valid device, empty without one.
pub record Granted : Type 0 where
  pub scopes : List Text
  pub device_key : Text
  pub has_valid_device : Bool

abbrev pub granted_for : Members → DeviceClaim → Bool → Granted
granted_for ms c true = record {
  scopes = requested_scopes ms;
  device_key = c.public_key;
  has_valid_device = true;
}
granted_for ms c false = record { scopes = []; device_key = []; has_valid_device = false }

-- Steps 6 and 7, by what `params["device"]` is.
unfoldable pub grant_for :
    Environment → Authenticator → (role : Text) → Members → Option Json → Check Granted
unfolding device_claim is_valid_device requested_scopes is_open
grant_for env a role ms (some (object device)) = device_claim device >>= λ c.
    is_valid_device env ms device c role >>= λ valid. passed (granted_for ms c valid)
grant_for env a role ms _ = passed (record {
  scopes = if is_open a then requested_scopes ms else [];
  device_key = [];
  has_valid_device = false;
})

unfoldable pub grant : Environment → Authenticator → (role : Text) → Members → Check Granted
unfolding find_member grant_for
grant env a role ms = grant_for env a role ms (find_member (codes "device") ms)

-- The two rules that clear the scopes behind it.
unfoldable pub cleared : Authenticator → AuthInfo → (role client_mode : Text) → Granted → Granted
unfolding is_open
cleared a info role client_mode g =
    let is_operator = text_eq role (codes "operator") in
    if (text_eq client_mode (codes "control-ui") && info.trusted_proxy_auth_ok && not is_operator)
      || (not (is_open a)
          && not g.has_valid_device
          && not info.trusted_proxy_auth_ok
          && is_operator)
    then record g { scopes = [] }
    else g

-- A connection as the handshake leaves it; an empty key is no key.
pub record Admission : Type 0 where
  pub auth : AuthInfo
  pub scopes : List Text
  pub device_key : Text

unfoldable pub connect_params :
    Environment → Authenticator → (id : Text) → Members → Check Admission
unfolding check_version value_text authenticate grant cleared
connect_params env a id ms = do
  _ ← check_version id ms
  role ← value_text (codes "role") (codes "operator") ms
  info ← authenticate a env.peer id ms
  g ← grant env a role ms
  client_mode ← value_text (codes "clientMode") [] ms
  let h = cleared a info role client_mode g in
      passed (record { auth = info; scopes = h.scopes; device_key = h.device_key })

-- `value` of a JSON value that is no object throws.
unfoldable pub connect_json : Environment → Authenticator → (id : Text) → Json → Check Admission
unfolding connect_params
connect_json env a id (object ms) = connect_params env a id ms
connect_json env a id _ = dropped

unfoldable pub connect_request : Environment → Authenticator → RequestFrame → Check Admission
unfolding connect_json make_error_response
connect_request env a req =
    if text_eq req.method (codes "connect")
    then connect_json env a req.id req.params
    else rejected
        (make_error_response req.id protocol_error (codes "First request must be 'connect'"))

abbrev pub no_connect : Check Admission
no_connect = rejected (make_error_response [] protocol_error (codes "Expected connect request"))

unfoldable pub handshake : Environment → Authenticator → Result Frame → Check Admission
unfolding connect_request make_error_response
handshake env a (ok (request req)) = connect_request env a req
handshake env a _ = no_connect
