-- ===== src/Gateway/Handshake/Shown.antt =====
-- Which credential an identity rests on.
use mylobsterpp.Prelude.{
  ◌≡◌, ◌≢◌, ◌↔◌, ◌⊎◌, refl, ap, ◌∙◌, inl, inr, Bool, true, false, Option, none, some, [], ◌∷◌,
  if◌then◌else◌, Text, codes, Members, Result, ok, err, undefined,
}
use mylobsterpp.Gateway.Auth.{
  AuthMethod, tailscale, no_auth, AuthInfo, Authenticator, is_open, verify,
}
use mylobsterpp.Gateway.Handshake.{authenticate, verified, verify_credential, is_tailscale}
use mylobsterpp.Gateway.Handshake.Params.{auth_token}
use mylobsterpp.Gateway.Handshake.Ending.{passed, >>=-eq-passed, passed-injective}

verified-verify :
    (a : Authenticator) (id : Text) (message : Option Text) (credential : Text)
    (x : Result AuthInfo) (info : AuthInfo)
    → verify a credential ≡ x
    → verified id message x ≡ passed info
    → verify a credential ≡ ok info
verified-verify a id message credential (ok i) info v e = v ∙ ap ok (passed-injective e)
verified-verify a id none credential (err f) info v e = cc
verified-verify a id (some m) credential (err f) info v e = cc
verified-verify a id message credential undefined info v e = cc

verify_credential-verify :
    (a : Authenticator) (id credential : Text) (info : AuthInfo)
    → verify_credential a id credential ≡ passed info
    → verify a credential ≡ ok info
unfolding verify_credential
verify_credential-verify a id [] info e = cc
verify_credential-verify a id (c ∷ s) info e =
    verified-verify a id (some (codes "Authentication failed")) (c ∷ s) _ info refl e

verify_credential-filled :
    (a : Authenticator) (id credential : Text) (info : AuthInfo)
    → verify_credential a id credential ≡ passed info
    → credential ≢ []
unfolding verify_credential
verify_credential-filled a id [] info e = cc
verify_credential-filled a id (c ∷ s) info e = λ same. cc

-- What verifies: the peer's address where the method is Tailscale's, and else the token in the message,
-- which is not empty.
abbrev pub Shows : Authenticator → (peer : Text) → Members → AuthInfo → Type 0
Shows a peer ms info =
    ((a.method ≡ tailscale) × (verify a peer ≡ ok info))
    ⊎ ((a.method ≢ tailscale)
        × ((token : Text) × (auth_token ms ≡ passed token)
            × (token ≢ [])
            × (verify a token ≡ ok info)))

method_iff : (method : AuthMethod) → (is_tailscale method ≡ true) ↔ (method ≡ tailscale)
method_iff no_auth = ((λ e. cc), λ e. cc)
method_iff AuthMethod.token = ((λ e. cc), λ e. cc)
method_iff tailscale = ((λ e. refl), λ e. refl)

by_method :
    (a : Authenticator) (peer id credential : Text) (ms : Members) (info : AuthInfo)
    (by_peer : Bool)
    → is_tailscale a.method ≡ by_peer
    → auth_token ms ≡ passed credential
    → (if by_peer then verified id none (verify a peer) else verify_credential a id credential)
      ≡ passed info
    → Shows a peer ms info
by_method a peer id credential ms info true m asked e =
    inl ((method_iff a.method).0 m, verified-verify a id none peer _ info refl e)
by_method a peer id credential ms info false m asked e = inr (
  λ same. let yes = (method_iff a.method).1 same in cc,
  (
    credential,
    asked,
    verify_credential-filled a id credential info e,
    verify_credential-verify a id credential info e,
  ),
)

pub authenticate-Shows :
    (a : Authenticator) (peer id : Text) (ms : Members) (info : AuthInfo)
    → is_open a ≡ false
    → authenticate a peer id ms ≡ passed info
    → Shows a peer ms info
unfolding authenticate
authenticate-Shows a peer id ms info closed e =
    let (credential, asked, e1) =
      >>=-eq-passed (auth_token ms) _ (rw (closed, authenticate) at e) in
    by_method a peer id credential ms info (is_tailscale a.method) refl asked e1
