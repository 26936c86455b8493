-- ===== src/Infra/DeviceAuth/Laws.antt =====
-- When the signed text determines what was signed.
use mylobsterpp.Prelude.{drop, ◌≡◌, sym, ap, ◌∙◌, some, Text, Lacks, break_byte, break_byte-append}
use mylobsterpp.Infra.DeviceAuth.Decimal.{IsInt64, to_string-Lacks, to_string-injective}
use mylobsterpp.Infra.DeviceAuth.{
  DeviceAuthParams, barred, to_string, join_scopes, fields, build_device_auth_payload,
}

pairs : (x y : Text × Text) → some x ≡ some y → (x.0 ≡ y.0) × (x.1 ≡ y.1)
pairs x y e = (cc, cc)

cut :
    (s s' t t' : Text)
    → Lacks b'|' s
    → Lacks b'|' s'
    → barred s t ≡ barred s' t'
    → (s ≡ s') × (t ≡ t')
unfolding barred
cut s s' t t' h h' e =
    pairs (s, t) (s', t')
      (sym (break_byte-append b'|' s t h)
        ∙ ap (break_byte b'|') e
        ∙ break_byte-append b'|' s' t' h')

-- No bar in a field.
abbrev pub HasNoBars : DeviceAuthParams → Type 0
HasNoBars p =
    Lacks b'|' p.device_id
    × Lacks b'|' p.client_id
    × Lacks b'|' p.client_mode
    × Lacks b'|' p.role
    × Lacks b'|' (join_scopes p.scopes)
    × Lacks b'|' p.token

-- What is signed, the scopes as they are joined.
abbrev pub AgreesWith : DeviceAuthParams → DeviceAuthParams → Type 0
AgreesWith p q =
    (p.device_id ≡ q.device_id)
    × (p.client_id ≡ q.client_id)
    × (p.client_mode ≡ q.client_mode)
    × (p.role ≡ q.role)
    × (join_scopes p.scopes ≡ join_scopes q.scopes)
    × (p.signed_at_ms ≡ q.signed_at_ms)
    × (p.token ≡ q.token)
    × (p.nonce ≡ q.nonce)

-- Two sets of parameters without bars before the nonce, with times that are 64-bit integers, have one
-- payload only if they agree in every field, up to how their scopes are split at commas.
pub build_device_auth_payload-AgreesWith :
    (p q : DeviceAuthParams)
    → HasNoBars p
    → HasNoBars q
    → IsInt64 p.signed_at_ms
    → IsInt64 q.signed_at_ms
    → build_device_auth_payload p ≡ build_device_auth_payload q
    → AgreesWith p q
unfolding build_device_auth_payload fields
build_device_auth_payload-AgreesWith p q h k i j e =
    let start : fields p p.nonce ≡ fields q q.nonce = ap (drop 3) e in
    let (device, e1) = cut p.device_id q.device_id _ _ (h.0) (k.0) start in
    let (client, e2) = cut p.client_id q.client_id _ _ (h.1) (k.1) e1 in
    let (mode, e3) = cut p.client_mode q.client_mode _ _ (h.2) (k.2) e2 in
    let (role, e4) = cut p.role q.role _ _ (h.3) (k.3) e3 in
    let (scopes, e5) = cut (join_scopes p.scopes) (join_scopes q.scopes) _ _ (h.4) (k.4) e4 in
    let (time, e6) =
      cut (to_string p.signed_at_ms) (to_string q.signed_at_ms) _ _ (to_string-Lacks p.signed_at_ms)
        (to_string-Lacks q.signed_at_ms) e5 in
    let (token, nonce) = cut p.token q.token _ _ (h.5) (k.5) e6 in
    (
      device,
      client,
      mode,
      role,
      scopes,
      to_string-injective p.signed_at_ms q.signed_at_ms i j time,
      token,
      nonce,
    )
