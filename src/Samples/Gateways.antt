-- ===== src/Samples/Gateways.antt =====
-- Samples for the gateway: a device that connects, frames, hooks and failed logins.
use mylobsterpp.Prelude.{
  has_byte, has_byte-Lacks, if◌then◌else◌, text_eq, ℕ, ◌+◌, ◌*◌, ◌≤◌, ◌≡◌, ◌≢◌, refl, ◌↔◌, ◌⊎◌, inl,
  inr, Bool, true, false, Option, none, some, List, [], ◌∷◌, ◌++◌, arith, leb, length, Text, codes,
  lookup, pos, Json, Members, null, number, text, array, object, no_items, item, no_members, member,
  Result, ok,
}
use mylobsterpp.Gateway.Frame.{request, RequestFrame, frame_from_json, frame_to_json}
use mylobsterpp.Gateway.Frame.RoundTrip.{frame_from_json-frame_to_json}
use mylobsterpp.Gateway.Auth.{AuthConfig, configure, is_open, verify, token_user}
use mylobsterpp.Gateway.Auth.Laws.{OpenReason, is_open-configure_iff, verify-configure}
use mylobsterpp.Gateway.Hooks.{HookRegistry, Hook, low, highest, before}
use mylobsterpp.Gateway.Hooks.Order.{IsOrdered, start, put_before, Reach-IsOrdered}
use mylobsterpp.Gateway.Protocol.{Protocol}
use mylobsterpp.Gateway.Connection.{Wire, Connection, read_loop}
use mylobsterpp.Gateway.Connection.Responses.{Answered, asked_by, read_loop-ids}
use mylobsterpp.Gateway.RateLimiter.{AuthRateLimiter, max_failures, check, record_failure}
use mylobsterpp.Gateway.RateLimiter.Window.{recent, failures_of}
use mylobsterpp.Gateway.RateLimiter.Refused.{fresh, failed, check-recent}
use mylobsterpp.Gateway.Handshake.{Environment, Admission, handshake}
use mylobsterpp.Gateway.Handshake.Params.{value_text}
use mylobsterpp.Gateway.Handshake.Ending.{passed}
use mylobsterpp.Gateway.Handshake.Shown.{Shows}
use mylobsterpp.Gateway.Handshake.Scopes.{RestsOn, handshake-RestsOn}
use mylobsterpp.Infra.DeviceAuth.{DeviceAuthParams, join_scopes, build_device_auth_payload}
use mylobsterpp.Infra.DeviceAuth.Laws.{HasNoBars, AgreesWith, build_device_auth_payload-AgreesWith}

abbrev by_token : AuthConfig
by_token = record { method = codes "token"; token = some (codes "s3"); tailscale_authkey = none }

is_open-configure_iff_example : (is_open (configure by_token) ≡ true) ↔ OpenReason by_token
is_open-configure_iff_example = is_open-configure_iff by_token

by_token-is_closed : is_open (configure by_token) ≡ false
unfolding is_open configure mylobsterpp.Prelude.text_eq
by_token-is_closed = refl

by_token-verifies : verify (configure by_token) (codes "s3") ≡ ok token_user
unfolding verify configure mylobsterpp.Prelude.text_eq
by_token-verifies = refl

verify-configure_example :
    ((by_token.method ≡ codes "token") × (by_token.token ≡ some (codes "s3")))
    ⊎ ((by_token.method ≡ codes "tailscale") × (codes "s3" ≢ []))
verify-configure_example =
    verify-configure by_token (codes "s3") token_user by_token-is_closed by_token-verifies

-- A world in which a device's identifier is its key and every signature verifies.
abbrev lab : Environment
lab = record {
  derive_device_id = λ key. key;
  verify_signature = λ key payload signature. true;
  now = 5000;
  challenge_nonce = codes "n1";
  peer = codes "10.0.0.1";
}

abbrev device : Members
device = member (codes "id") (text (codes "k")) (
    member (codes "publicKey") (text (codes "k")) (
      member (codes "signedAt") (number (pos 4000))
        (member (codes "nonce") (text (codes "n1")) no_members)))

abbrev connect_params : Members
connect_params = member (codes "minProtocol") (number (pos 3)) (
    member (codes "maxProtocol") (number (pos 3)) (
      member (codes "scopes") (array (item (text (codes "read")) no_items)) (
        member (codes "auth") (object (member (codes "token") (text (codes "s3")) no_members))
          (member (codes "device") (object device) no_members))))

abbrev connect : RequestFrame
connect = record { id = codes "1"; method = codes "connect"; params = object connect_params }

abbrev admitted : Admission
admitted = record { auth = token_user; scopes = codes "read" ∷ []; device_key = codes "k" }

connect-passes : handshake lab (configure by_token) (ok (request connect)) ≡ passed admitted
unfolding handshake mylobsterpp.Prelude.text_eq configure
connect-passes = refl

handshake-RestsOn_example :
    (req : RequestFrame) × (ms : Members) × (ok (request connect) ≡ ok (request req))
    × (req.method ≡ codes "connect")
    × (req.params ≡ object ms)
    × Shows (configure by_token) lab.peer ms admitted.auth
    × ((role : Text) × (value_text (codes "role") (codes "operator") ms ≡ passed role)
        × RestsOn lab ms role admitted.scopes)
handshake-RestsOn_example =
    handshake-RestsOn lab (configure by_token) (ok (request connect)) admitted by_token-is_closed
      connect-passes

frame_from_json-frame_to_json_example :
    frame_from_json (frame_to_json (request connect)) ≡ ok (request connect)
frame_from_json-frame_to_json_example = frame_from_json-frame_to_json (request connect)

abbrev silent : Hook
silent ctx = none

abbrev two_hooks : HookRegistry
two_hooks =
    before
      (before (record { before_hooks = []; after_hooks = [] }) (codes "m") (codes "b") silent low)
      (codes "m") (codes "a") silent highest

Reach-IsOrdered_example : IsOrdered two_hooks.before_hooks × IsOrdered two_hooks.after_hooks
Reach-IsOrdered_example = Reach-IsOrdered (
    put_before (put_before start (codes "m") (codes "b") silent low) (codes "m") (codes "a") silent
      highest)

-- A parser of one message: all others are malformed.
abbrev read_ping : Text → Option Json
read_ping s =
    if text_eq s (codes "ping")
    then some (
        object (
          member (codes "id") (text (codes "9"))
            (member (codes "method") (text (codes "ping")) no_members)))
    else none

abbrev messages : List (Text × Bool)
messages = (codes "ping", false) ∷ (codes "?", false) ∷ (codes "pong", false) ∷ []

abbrev no_methods : Protocol Unit
no_methods = record { entries = [] }

abbrev opened : Connection
opened = record { is_open = true; thrown = false; sent = [] }

-- Every frame is written as one letter, and nothing is removed from it.
abbrev plain : Wire
plain = record { dump = λ j. some (codes "f"); sanitize = λ t. t }

read_loop-ids_example :
    let (v, d) =
      read_loop plain (λ hooks. hooks) two_hooks no_methods read_ping (tt, opened) messages in
    (texts : List Text) × (d.sent ≡ opened.sent ++ texts)
    × Answered plain (asked_by read_ping messages) texts d.thrown
    × (d.is_open ≡ d.thrown)
read_loop-ids_example =
    read_loop-ids plain (λ hooks. hooks) two_hooks no_methods read_ping messages tt opened refl refl
      (refl, (refl, (refl, tt)))

abbrev ip : Text
ip = codes "10.0.0.9"

abbrev failed_twice : AuthRateLimiter
failed_twice = record_failure (record_failure (record { failures = [] }) ip 10) ip 20

check-recent_example :
    (check failed_twice ip 30).1
    ≡ leb max_failures (length (recent 30 (failures_of ip ((ip, 10) ∷ (ip, 20) ∷ []))))
check-recent_example =
    check-recent (failed (failed fresh ip 10 (omega arith)) ip 20 (omega arith)) ip 30 (omega arith)

abbrev signed : DeviceAuthParams
signed = record {
  device_id = codes "k";
  client_id = codes "c";
  client_mode = [];
  role = codes "operator";
  scopes = codes "read" ∷ codes "write" ∷ [];
  signed_at_ms = pos 4000;
  token = codes "s3";
  nonce = codes "n1";
}

-- The same with the scopes as one that has a comma.
abbrev joined : DeviceAuthParams
joined = record signed { scopes = codes "read,write" ∷ [] }

signed-HasNoBars : HasNoBars signed
unfolding has_byte join_scopes
signed-HasNoBars = (
  (has_byte-Lacks b'|' signed.device_id).0 refl,
  (has_byte-Lacks b'|' signed.client_id).0 refl,
  tt,
  (has_byte-Lacks b'|' signed.role).0 refl,
  (has_byte-Lacks b'|' (join_scopes signed.scopes)).0 refl,
  (has_byte-Lacks b'|' signed.token).0 refl,
)

joined-HasNoBars : HasNoBars joined
unfolding join_scopes
joined-HasNoBars = signed-HasNoBars

same_payload : build_device_auth_payload signed ≡ build_device_auth_payload joined
unfolding build_device_auth_payload
same_payload = refl

build_device_auth_payload-AgreesWith_example : AgreesWith signed joined
build_device_auth_payload-AgreesWith_example =
    build_device_auth_payload-AgreesWith signed joined signed-HasNoBars joined-HasNoBars
      (omega arith) (omega arith) same_payload
