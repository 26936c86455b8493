-- ===== src/Gateway/Auth/Credentials.antt =====
-- gateway/auth.cpp: where a credential may stand in a request, and the policy for browsers.
use mylobsterpp.Prelude.{
  ℕ, Bool, true, false, not, ◌&&◌, ◌==◌, ltb, leb, length, Option, none, some, List, [], ◌∷◌,
  if◌then◌else◌, drop, Text, codes, starts_with, has_text, break_at, break_byte, ℤ, pos, negsuc,
}
use mylobsterpp.Gateway.Auth.{AuthMethod, token, tailscale}

-- The loops over blanks at the front and at the back.
unfoldable pub trim_front : Text → Text
trim_front [] = []
trim_front (c ∷ s) = if c == b' ' then trim_front s else c ∷ s

abbrev ended : ℕ → Text → Text
ended c [] = if c == b' ' then [] else c ∷ []
ended c (d ∷ s) = c ∷ d ∷ s

unfoldable pub trim_back : Text → Text
trim_back [] = []
trim_back (c ∷ s) = ended c (trim_back s)

abbrev nonempty : Text → Option Text
nonempty [] = none
nonempty (c ∷ s) = some (c ∷ s)

abbrev bearer : Text
bearer = codes "Bearer "

unfoldable pub extract_bearer_token : (header_value : Text) → Option Text
unfolding trim_front trim_back
extract_bearer_token header_value =
    if leb (length header_value) (length bearer)
    then none
    else if not (starts_with header_value bearer)
    then none
    else nonempty (trim_back (trim_front (drop (length bearer) header_value)))

abbrev token_key : Text
token_key = codes "token="

abbrev onto : ℕ → List Text → List Text
onto c [] = (c ∷ []) ∷ []
onto c (segment ∷ segments) = (c ∷ segment) ∷ segments

-- What stands between the `&`s.
unfoldable pub segments : (query : Text) → List Text
segments [] = [] ∷ []
segments (c ∷ query) = let rest = segments query in if c == b'&' then [] ∷ rest else onto c rest

-- The first segment that is `token=` with something behind it.
unfoldable pub find_token : List Text → Option Text
find_token [] = none
find_token (segment ∷ rest) =
    if ltb (length token_key) (length segment) && starts_with segment token_key
    then some (drop (length token_key) segment)
    else find_token rest

unfoldable pub query_token : (target : Text) → Option Text
unfolding break_byte segments find_token
query_token target = elim (break_byte b'?' target) [
  | none ↦ none
  | some r ↦ find_token (segments r.1)
]

abbrev or_else {ℓ} : {A : Type ℓ} → Option A → Option A → Option A
or_else none next = next
or_else (some a) next = some a

-- An empty header has no token either.
unfoldable pub extract_token_from_request : (target auth_header : Text) → Option Text
unfolding extract_bearer_token query_token
extract_token_from_request target auth_header =
    or_else (extract_bearer_token auth_header) (query_token target)

pub record BrowserAuthPolicy : Type 0 where
  pub allow_loopback : Bool
  pub max_loopback_connections : ℤ
  pub allowed_origins : List Text

abbrev is_nil {ℓ} : {A : Type ℓ} → List A → Bool
is_nil [] = true
is_nil (x ∷ xs) = false

unfoldable pub validate_browser_ws_origin : (origin : Text) → BrowserAuthPolicy → Bool
unfolding has_text
validate_browser_ws_origin origin policy =
    if is_nil policy.allowed_origins
    then true
    else if is_nil origin
    then false
    else has_text origin policy.allowed_origins

-- `count >= max` of a count that is not negative.
abbrev reaches : ℕ → ℤ → Bool
reaches count (pos max) = leb max count
reaches count (negsuc max) = true

unfoldable pub check_loopback_browser_throttle : (current : ℕ) → BrowserAuthPolicy → Bool
check_loopback_browser_throttle current policy =
    if not policy.allow_loopback
    then false
    else if reaches current policy.max_loopback_connections
    then false
    else true

-- The cookie's value behind the first `token=`, wherever it stands.
unfoldable pub cookie_token : (cookie_header : Text) → Option Text
unfolding break_at break_byte
cookie_token cookie_header = elim (break_at token_key cookie_header) [
  | none ↦ none
  | some r ↦ elim (break_byte b';' r.1) [ none ↦ nonempty r.1 | some value ↦ nonempty value.0 ]
]

abbrev tagged : AuthMethod → Option Text → Option (Text × AuthMethod)
tagged method none = none
tagged method (some credential) = some (credential, method)

-- `CredentialResolver::resolve`
unfoldable pub resolve :
    (auth_header target cookie_header remote_addr : Text) → Option (Text × AuthMethod)
unfolding extract_bearer_token extract_token_from_request cookie_token
resolve auth_header target cookie_header remote_addr =
    or_else (tagged token (extract_bearer_token auth_header)) (
      or_else (tagged token (extract_token_from_request target [])) (
        or_else (tagged token (cookie_token cookie_header))
          (tagged tailscale (nonempty remote_addr))))
