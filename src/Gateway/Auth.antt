-- ===== src/Gateway/Auth.antt =====
-- gateway/auth.cpp and auth.hpp: who a client is, by what a credential is compared with. JSON forms are
-- left out. Where a credential stands in a request is in `Credentials`.
pub mod Credentials
pub mod Laws
use mylobsterpp.Prelude.{
  ℕ, suc, Bool, true, false, not, ◌||◌, ◌&&◌, ◌==◌, ltb, leb, length, Option, none, some, List, [],
  ◌∷◌, ◌++◌, if◌then◌else◌, drop, Text, codes, text_eq, starts_with, has_text, break_at, break_byte,
  ℤ, pos, negsuc, Json, object, text, no_members, member, Result, ok, fail, unauthorized,
  internal_error,
}

pub data AuthMethod : Type 0 where
  no_auth token tailscale : AuthMethod

pub record AuthInfo : Type 0 where
  pub identity : Text
  pub method : AuthMethod
  pub device : Option Text
  pub metadata : Json
  pub trusted_proxy_auth_ok : Bool

unfoldable pub should_skip_control_ui_pairing :
    AuthInfo → (is_control_ui : Bool) → (role : Text) → Bool
should_skip_control_ui_pairing auth is_control_ui role =
    is_control_ui && auth.trusted_proxy_auth_ok && text_eq role (codes "operator")

-- `equal &= (credential[i] == secret_[i])`, over texts of one length.
unfoldable pub compare_bytes : Bool → (credential secret : Text) → Bool
compare_bytes equal (c ∷ credential) (s ∷ secret) =
    compare_bytes (equal && c == s) credential secret
compare_bytes equal _ _ = equal

abbrev pub token_user : AuthInfo
token_user = record {
  identity = codes "token-user";
  method = token;
  device = none;
  metadata = object no_members;
  trusted_proxy_auth_ok = false;
}

-- `TokenAuthVerifier::verify`
unfoldable pub verify_token : (secret credential : Text) → Result AuthInfo
unfolding compare_bytes
verify_token secret credential =
    if not (length credential == length secret)
    then fail unauthorized "Invalid authentication token"
    else if not (compare_bytes true credential secret)
    then fail unauthorized "Invalid authentication token"
    else ok token_user

-- `TailscaleAuthVerifier::verify`, which asks nobody.
unfoldable pub verify_tailscale : (socket_path peer_addr : Text) → Result AuthInfo
verify_tailscale socket_path [] = fail unauthorized "Empty peer address for tailscale auth"
verify_tailscale socket_path (c ∷ peer_addr) = ok (record {
  identity = c ∷ peer_addr;
  method = tailscale;
  device = none;
  metadata = object (member (codes "socket") (text socket_path) no_members);
  trusted_proxy_auth_ok = false;
})

-- A verifier with what it was constructed with.
pub data AuthVerifier : Type 0 where
  token_verifier : (secret : Text) → AuthVerifier
  tailscale_verifier : (socket_path : Text) → AuthVerifier

pub record Authenticator : Type 0 where
  pub method : AuthMethod
  pub verifier : Option AuthVerifier

pub record AuthConfig : Type 0 where
  pub method : Text
  pub token : Option Text
  pub tailscale_authkey : Option Text

abbrev pub open_access : Authenticator
open_access = record { method = no_auth; verifier = none }

abbrev pub socket_or_default : Option Text → Text
socket_or_default (some (c ∷ path)) = c ∷ path
socket_or_default _ = codes "/var/run/tailscale/tailscaled.sock"

abbrev pub with_token : Option Text → Authenticator
with_token (some (c ∷ secret)) = record {
  method = token;
  verifier = some (token_verifier (c ∷ secret));
}
with_token _ = open_access

unfoldable pub configure : AuthConfig → Authenticator
configure config =
    if text_eq config.method (codes "token")
    then with_token config.token
    else if text_eq config.method (codes "tailscale")
    then record {
      method = tailscale;
      verifier = some (tailscale_verifier (socket_or_default config.tailscale_authkey));
    }
    else open_access

abbrev pub anonymous : AuthInfo
anonymous = record {
  identity = codes "anonymous";
  method = no_auth;
  device = none;
  metadata = object no_members;
  trusted_proxy_auth_ok = false;
}

unfoldable pub verify_by : Option AuthVerifier → (credential : Text) → Result AuthInfo
unfolding verify_token verify_tailscale
verify_by none credential = fail internal_error "Auth verifier not configured"
verify_by (some (token_verifier secret)) credential = verify_token secret credential
verify_by (some (tailscale_verifier socket_path)) credential =
    verify_tailscale socket_path credential

unfoldable pub verify : Authenticator → (credential : Text) → Result AuthInfo
unfolding verify_by
verify a credential = elim a.method [
  | no_auth ↦ ok anonymous
  | token ↦ verify_by a.verifier credential
  | tailscale ↦ verify_by a.verifier credential
]

unfoldable pub is_open : Authenticator → Bool
is_open a = elim a.method [ no_auth ↦ true | token ↦ false | tailscale ↦ false ]
