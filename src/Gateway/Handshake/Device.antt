-- ===== src/Gateway/Handshake/Device.antt =====
-- What the check of a device shows.
use mylobsterpp.Prelude.{
  ℕ, ◌≤◌, ◌≡◌, refl, Bool, true, false, not, ltb, arith, if◌then◌else◌, Text, text_eq, text_eq_iff,
  Members,
}
use mylobsterpp.Gateway.Handshake.{
  Environment, DeviceClaim, skew_limit, clock_skew, signed_payload, is_valid_device,
}
use mylobsterpp.Gateway.Handshake.Params.{auth_token, requested_scopes}
use mylobsterpp.Gateway.Handshake.Ending.{Check, passed, >>=-eq-passed, passed-injective}

-- A device whose identifier is that of its key, whose time is near the server's, which answers this
-- connection's challenge, and which signed a payload of its version over role and scopes.
abbrev pub ProvesDevice : Environment → (ms device : Members) → DeviceClaim → (role : Text) → Type 0
ProvesDevice env ms device c role =
    (env.derive_device_id c.public_key ≡ c.id)
    × ((skew : ℕ) × (clock_skew env.now c.signed_at ≡ passed skew) × (skew ≤ skew_limit))
    × (c.nonce ≡ env.challenge_nonce)
    × ((credential payload : Text) × (auth_token ms ≡ passed credential)
        × (signed_payload device c role (requested_scopes ms) credential ≡ passed payload)
        × (env.verify_signature c.public_key payload c.signature ≡ true))

go_unless :
    (b : Bool) (x : Check Bool)
    → (if b then passed false else x) ≡ passed true
    → (b ≡ false) × (x ≡ passed true)
go_unless true x e = cc
go_unless false x e = (refl, e)

go_if :
    (b : Bool) (x : Check Bool)
    → (if not b then passed false else x) ≡ passed true
    → (b ≡ true) × (x ≡ passed true)
go_if true x e = (refl, e)
go_if false x e = cc

pub is_valid_device-ProvesDevice :
    (env : Environment) (ms device : Members) (c : DeviceClaim) (role : Text)
    → is_valid_device env ms device c role ≡ passed true
    → ProvesDevice env ms device c role
unfolding is_valid_device
is_valid_device-ProvesDevice env ms device c role e =
    let (same, e1) = go_if (text_eq (env.derive_device_id c.public_key) c.id) _ e in
    let (skew, near, e2) = >>=-eq-passed (clock_skew env.now c.signed_at) _ e1 in
    let (close, e3) = go_unless (ltb skew_limit skew) _ e2 in
    let (fresh, e4) = go_if (text_eq c.nonce env.challenge_nonce) _ e3 in
    let (credential, asked, e5) = >>=-eq-passed (auth_token ms) _ e4 in
    let (payload, built, e6) =
      >>=-eq-passed (signed_payload device c role (requested_scopes ms) credential) _ e5 in
    (
      (text_eq_iff _ c.id).0 same,
      (skew, near, ground arith),
      (text_eq_iff c.nonce _).0 fresh,
      (credential, payload, asked, built, passed-injective e6),
    )
