-- ===== src/Gateway/Auth/Laws.antt =====
-- What a credential must be, and where it may come from.
use mylobsterpp.Prelude.{
  ◌≡◌, ◌≢◌, ◌↔◌, ◌⊎◌, refl, inl, inr, sym, ap, ◌∙◌, subst, true, false, ◌==◌, Bool-cases, length,
  Option, none, some, [], ◌∷◌, arith, Text, codes, text_eq, text_eq_iff, ok, ok-injective, fail,
  unauthorized,
}
use mylobsterpp.Gateway.Auth.{
  AuthInfo, Authenticator, AuthConfig, token, tailscale, compare_bytes, token_user, verify_token,
  verify_by, token_verifier, tailscale_verifier, verify_tailscale, socket_or_default, with_token,
  open_access, configure, verify, is_open,
}

compare_bytes-false : (s t : Text) → compare_bytes false s t ≡ false
unfolding compare_bytes
compare_bytes-false [] t = refl
compare_bytes-false (c ∷ s) [] = refl
compare_bytes-false (c ∷ s) (d ∷ t) = compare_bytes-false s t

-- The comparison that takes the same time for all bytes is equality.
compare_bytes_iff : (s t : Text) → length s ≡ length t → (compare_bytes true s t ≡ true) ↔ (s ≡ t)
unfolding compare_bytes
compare_bytes_iff [] [] h = (λ _. refl, λ _. refl)
compare_bytes_iff [] (d ∷ t) h = absurd (omega arith)
compare_bytes_iff (c ∷ s) [] h = absurd (omega arith)
compare_bytes_iff (c ∷ s) (d ∷ t) h = ground (arith, compare_bytes_iff s t, compare_bytes-false s t)

verify_token_same : (secret : Text) → verify_token secret secret ≡ ok token_user
unfolding verify_token
verify_token_same secret =
    let same : compare_bytes true secret secret ≡ true =
      (compare_bytes_iff secret secret refl).1 refl in
    let even : (length secret == length secret) ≡ true = ground arith in rw (even, same) refl

no_token : {info : AuthInfo} → fail unauthorized "Invalid authentication token" ≡ ok info → ⊥
no_token e = cc

distinct : (s t : Text) → text_eq s t ≡ false → s ≢ t
distinct s t e = ground (arith, text_eq_iff s t)

opened : true ≡ false → ⊥
opened e = cc

verify_token-ok :
    (secret credential : Text) (info : AuthInfo)
    → verify_token secret credential ≡ ok info
    → (credential ≡ secret) × (info ≡ token_user)
unfolding verify_token
verify_token-ok secret credential info e = elim (Bool-cases (length credential == length secret)) [
  | inr uneven ↦ absurd (no_token (rw uneven at e))
  | inl even ↦ elim (Bool-cases (compare_bytes true credential secret)) [
    | inr differ ↦ absurd (no_token (rw (even, differ) at e))
    | inl same ↦ (
      (compare_bytes_iff credential secret (ground arith)).0 same,
      sym (ok-injective (rw (even, same) at e)),
    )
  ]
]

-- A token is accepted exactly if it is the secret.
pub verify_token_iff :
    (secret credential : Text) (info : AuthInfo)
    → (verify_token secret credential ≡ ok info) ↔ ((credential ≡ secret) × (info ≡ token_user))
verify_token_iff secret credential info = (
  verify_token-ok secret credential info,
  λ h.
      subst (λ c. verify_token secret c ≡ ok info) (sym h.0)
        (verify_token_same secret ∙ ap ok (sym h.1)),
)

abbrev pub HasNoToken : Option Text → Type 0
HasNoToken t = (t ≡ none) ⊎ (t ≡ some [])

abbrev pub OpenReason : AuthConfig → Type 0
OpenReason c =
    ((c.method ≡ codes "token") × HasNoToken c.token)
    ⊎ ((c.method ≢ codes "token") × (c.method ≢ codes "tailscale"))

abbrev by_token : Text → Authenticator
by_token secret = record { method = token; verifier = some (token_verifier secret) }

abbrev by_tailscale : Text → Authenticator
by_tailscale socket = record { method = tailscale; verifier = some (tailscale_verifier socket) }

-- What `configure` makes of a configuration.
abbrev Configured : AuthConfig → Authenticator → Type 0
Configured c a =
    (OpenReason c × (a ≡ open_access))
    ⊎ (((secret : Text) × (c.method ≡ codes "token")
          × (c.token ≡ some secret)
          × (secret ≢ [])
          × (a ≡ by_token secret))
        ⊎ ((socket : Text) × (c.method ≡ codes "tailscale") × (a ≡ by_tailscale socket)))

with_token-Configured :
    (c : AuthConfig) (t : Option Text)
    → c.method ≡ codes "token"
    → c.token ≡ t
    → Configured c (with_token t)
with_token-Configured c none m e = inl (inl (m, inl e), refl)
with_token-Configured c (some []) m e = inl (inl (m, inr e), refl)
with_token-Configured c (some (x ∷ secret)) m e = inr (inl (x ∷ secret, m, e, (λ n. cc), refl))

configure-Configured : (c : AuthConfig) → Configured c (configure c)
unfolding configure
configure-Configured c = elim (Bool-cases (text_eq c.method (codes "token"))) [
  | inl m ↦ rw m (with_token-Configured c c.token ((text_eq_iff c.method (codes "token")).0 m) refl)
  | inr n ↦ elim (Bool-cases (text_eq c.method (codes "tailscale"))) [
    | inl m ↦
        rw (n, m)
          (inr (
            inr (
              socket_or_default c.tailscale_authkey,
              (text_eq_iff c.method (codes "tailscale")).0 m,
              refl,
            )))
    | inr o ↦ rw (n, o) (inl (inr (distinct c.method _ n, distinct c.method _ o), refl))
  ]
]

has_token :
    (c : AuthConfig) (secret : Text) → c.token ≡ some secret → secret ≢ [] → HasNoToken c.token → ⊥
has_token c secret t n (inl e) = cc
has_token c secret t n (inr e) = let empty : secret ≡ [] = cc in n empty

methods_differ : codes "token" ≡ codes "tailscale" → ⊥
unfolding text_eq
methods_differ = distinct (codes "token") (codes "tailscale") refl

-- Access is open exactly if the method is `token` but no token is configured, or the method is neither
-- `token` nor `tailscale`.
pub is_open-configure_iff : (c : AuthConfig) → (is_open (configure c) ≡ true) ↔ OpenReason c
unfolding is_open
is_open-configure_iff c = elim (configure-Configured c) [
  | inl (reason, e) ↦ rw e ((λ _. reason, λ _. refl))
  | inr (inl (secret, m, t, n, e)) ↦
      rw e (
        (
          λ o. cc,
          λ o. absurd (elim o [ inl (_, h) ↦ has_token c secret t n h | inr (h, _) ↦ h m ]),
        ))
  | inr (inr (socket, m, e)) ↦ rw e (
      (
        λ o. cc,
        λ o. absurd (elim o [ inl (h, _) ↦ methods_differ (sym h ∙ m) | inr (_, h) ↦ h m ]),
      ))
]

verify_tailscale-ok :
    (socket credential : Text) (info : AuthInfo)
    → verify_tailscale socket credential ≡ ok info
    → credential ≢ []
unfolding verify_tailscale
verify_tailscale-ok socket [] info e = cc
verify_tailscale-ok socket (x ∷ credential) info e = λ n. cc

-- Where access is not open, who is let in has the configured token, or, by `tailscale`, any address at
-- all.
pub verify-configure :
    (c : AuthConfig) (credential : Text) (info : AuthInfo)
    → is_open (configure c) ≡ false
    → verify (configure c) credential ≡ ok info
    → ((c.method ≡ codes "token") × (c.token ≡ some credential))
      ⊎ ((c.method ≡ codes "tailscale") × (credential ≢ []))
unfolding is_open verify verify_by
verify-configure c credential info closed e = elim (configure-Configured c) [
  | inl (reason, o) ↦ absurd (opened (rw o at closed))
  | inr (inl (secret, m, t, n, o)) ↦
      let (same, _) = verify_token-ok secret credential info (rw o at e) in
      inl (m, t ∙ ap some (sym same))
  | inr (inr (socket, m, o)) ↦ inr (m, verify_tailscale-ok socket credential info (rw o at e))
]
