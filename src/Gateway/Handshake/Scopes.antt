-- ===== src/Gateway/Handshake/Scopes.antt =====
-- What a connection's scopes rest on.
use mylobsterpp.Prelude.{
  ◌≡◌, ◌⊎◌, refl, sym, subst, ◌∙◌, inl, inr, Bool, true, false, Bool-cases, Option, none, some,
  List, [], if◌then◌else◌, Text, codes, text_eq, text_eq_iff, Json, Members, object, null, boolean,
  number, text, array, find_member, Result, ok, err, undefined,
}
use mylobsterpp.Gateway.Frame.{Frame, request, response, event_frame, RequestFrame, ResponseFrame}
use mylobsterpp.Gateway.Auth.{Authenticator, is_open}
use mylobsterpp.Gateway.Handshake.{
  Environment, DeviceClaim, Admission, Granted, authenticate, device_claim, is_valid_device,
  granted_for, grant_for, grant, cleared, connect_params, connect_json, connect_request, handshake,
}
use mylobsterpp.Gateway.Handshake.Params.{value_text, check_version, requested_scopes}
use mylobsterpp.Gateway.Handshake.Device.{ProvesDevice, is_valid_device-ProvesDevice}
use mylobsterpp.Gateway.Handshake.Ending.{passed, rejected, >>=-eq-passed, passed-injective}
use mylobsterpp.Gateway.Handshake.Shown.{Shows, authenticate-Shows}

-- What scopes that are granted rest on, if access is not open.
abbrev pub RestsOn : Environment → (ms : Members) → (role : Text) → (scopes : List Text) → Type 0
RestsOn env ms role scopes =
    (scopes ≡ [])
    ⊎ ((scopes ≡ requested_scopes ms)
        × ((device : Members) × (c : DeviceClaim) × (find_member (codes "device") ms
              ≡ some (object device))
            × (device_claim device ≡ passed c)
            × ProvesDevice env ms device c role))

granted_for-RestsOn :
    (env : Environment) (ms device : Members) (c : DeviceClaim) (role : Text) (valid : Bool)
    → find_member (codes "device") ms ≡ some (object device)
    → device_claim device ≡ passed c
    → is_valid_device env ms device c role ≡ passed valid
    → RestsOn env ms role (granted_for ms c valid).scopes
granted_for-RestsOn env ms device c role true found claimed e =
    inr (refl, (device, c, found, claimed, is_valid_device-ProvesDevice env ms device c role e))
granted_for-RestsOn env ms device c role false found claimed e = inl refl

-- Without a device.
no_device :
    (env : Environment) (a : Authenticator) (role : Text) (ms : Members) (g : Granted)
    → is_open a ≡ false
    → passed (record {
      scopes = if is_open a then requested_scopes ms else [];
      device_key = [];
      has_valid_device = false;
    })
      ≡ passed g
    → RestsOn env ms role g.scopes
no_device env a role ms g closed e =
    let same : (if is_open a then requested_scopes ms else []) ≡ g.scopes = cc in
    inl (sym same ∙ rw closed refl)

grant_for-RestsOn :
    (env : Environment) (a : Authenticator) (role : Text) (ms : Members) (found : Option Json)
    (g : Granted)
    → is_open a ≡ false
    → find_member (codes "device") ms ≡ found
    → grant_for env a role ms found ≡ passed g
    → RestsOn env ms role g.scopes
unfolding grant_for
grant_for-RestsOn env a role ms none g closed found e = no_device env a role ms g closed e
grant_for-RestsOn env a role ms (some null) g closed found e = no_device env a role ms g closed e
grant_for-RestsOn env a role ms (some (boolean b)) g closed found e =
    no_device env a role ms g closed e
grant_for-RestsOn env a role ms (some (number n)) g closed found e =
    no_device env a role ms g closed e
grant_for-RestsOn env a role ms (some (text t)) g closed found e =
    no_device env a role ms g closed e
grant_for-RestsOn env a role ms (some (array xs)) g closed found e =
    no_device env a role ms g closed e
grant_for-RestsOn env a role ms (some (object device)) g closed found e =
    let (c, claimed, e1) = >>=-eq-passed (device_claim device) _ e in
    let (valid, checked, e2) = >>=-eq-passed (is_valid_device env ms device c role) _ e1 in
    subst (λ (h : Granted). RestsOn env ms role h.scopes) (passed-injective e2)
      (granted_for-RestsOn env ms device c role valid found claimed checked)

grant-RestsOn :
    (env : Environment) (a : Authenticator) (role : Text) (ms : Members) (g : Granted)
    → is_open a ≡ false
    → grant env a role ms ≡ passed g
    → RestsOn env ms role g.scopes
unfolding grant
grant-RestsOn env a role ms g closed e =
    grant_for-RestsOn env a role ms (find_member (codes "device") ms) g closed refl e

if_cleared :
    (env : Environment) (role : Text) (ms : Members) (g : Granted) (b : Bool)
    → RestsOn env ms role g.scopes
    → RestsOn env ms role (if b then record g { scopes = [] } else g).scopes
if_cleared env role ms g true h = inl refl
if_cleared env role ms g false h = h

connect_params-RestsOn :
    (env : Environment) (a : Authenticator) (id : Text) (ms : Members) (adm : Admission)
    → is_open a ≡ false
    → connect_params env a id ms ≡ passed adm
    → Shows a env.peer ms adm.auth
      × ((role : Text) × (value_text (codes "role") (codes "operator") ms ≡ passed role)
          × RestsOn env ms role adm.scopes)
unfolding connect_params cleared
connect_params-RestsOn env a id ms adm closed e =
    let (_, version, e1) = >>=-eq-passed (check_version id ms) _ e in
    let (role, r, e2) = >>=-eq-passed (value_text (codes "role") (codes "operator") ms) _ e1 in
    let (info, v, e3) = >>=-eq-passed (authenticate a env.peer id ms) _ e2 in
    let (g, granted, e4) = >>=-eq-passed (grant env a role ms) _ e3 in
    let (client_mode, m, e5) = >>=-eq-passed (value_text (codes "clientMode") [] ms) _ e4 in
    let same = passed-injective e5 in
    let rests = if_cleared env role ms g _ (grant-RestsOn env a role ms g closed granted) in
    (
      subst (λ (d : Admission). Shows a env.peer ms d.auth) same
          (authenticate-Shows a env.peer id ms info closed v),
      (role, r, subst (λ (d : Admission). RestsOn env ms role d.scopes) same rests),
    )

connect_json-object :
    (env : Environment) (a : Authenticator) (id : Text) (params : Json) (adm : Admission)
    → connect_json env a id params ≡ passed adm
    → (ms : Members) × (params ≡ object ms) × (connect_params env a id ms ≡ passed adm)
unfolding connect_json
connect_json-object env a id (object ms) adm e = (ms, refl, e)
connect_json-object env a id null adm e = cc
connect_json-object env a id (boolean b) adm e = cc
connect_json-object env a id (number n) adm e = cc
connect_json-object env a id (text t) adm e = cc
connect_json-object env a id (array xs) adm e = cc

refused : {r : ResponseFrame} {adm : Admission} → rejected r ≡ passed adm → ⊥
refused e = cc

connect_request-object :
    (env : Environment) (a : Authenticator) (req : RequestFrame) (adm : Admission)
    → connect_request env a req ≡ passed adm
    → (req.method ≡ codes "connect")
      × ((ms : Members) × (req.params ≡ object ms) × (connect_params env a req.id ms ≡ passed adm))
unfolding connect_request
connect_request-object env a req adm e = elim (Bool-cases (text_eq req.method (codes "connect"))) [
  | inl same ↦ (
    (text_eq_iff req.method (codes "connect")).0 same,
    connect_json-object env a req.id req.params adm (rw (same, connect_request) at e),
  )
  | inr other ↦ absurd (refused (rw (other, connect_request) at e))
]

-- If access is not open and the handshake admits a client, its message was a `connect` request with an
-- object of parameters, and its identity is what the authenticator gives for a credential: the peer's
-- address where the method is Tailscale's, and else the token of the message, which is not empty. It
-- either has no scopes, or has those that it asked for and proved its device: the identifier is that of
-- its key, the time is near the server's, and it signed this connection's challenge, with its role and
-- the scopes.
pub handshake-RestsOn :
    (env : Environment) (a : Authenticator) (message : Result Frame) (adm : Admission)
    → is_open a ≡ false
    → handshake env a message ≡ passed adm
    → (req : RequestFrame) × (ms : Members) × (message ≡ ok (request req))
      × (req.method ≡ codes "connect")
      × (req.params ≡ object ms)
      × Shows a env.peer ms adm.auth
      × ((role : Text) × (value_text (codes "role") (codes "operator") ms ≡ passed role)
          × RestsOn env ms role adm.scopes)
unfolding handshake
handshake-RestsOn env a (ok (request req)) adm closed e =
    let (method, (ms, params, admitted)) = connect_request-object env a req adm e in
    let (shown, rests) = connect_params-RestsOn env a req.id ms adm closed admitted in
    (req, ms, refl, method, params, shown, rests)
handshake-RestsOn env a (ok (response f)) adm closed e = cc
handshake-RestsOn env a (ok (event_frame f)) adm closed e = cc
handshake-RestsOn env a (err f) adm closed e = cc
handshake-RestsOn env a undefined adm closed e = cc
