-- ===== src/Infra/Url.antt =====
-- infra/fetch_guard.cpp, lines 86 to 167: the host and the origin of a URL, and the headers that a
-- redirect to another origin must not carry.
pub mod Laws
use mylobsterpp.Prelude.{
  ℕ, Bool, true, false, not, ◌&&◌, ◌||◌, Option, none, some, List, [], ◌∷◌, ◌++◌, ◌==◌,
  if◌then◌else◌, Text, codes, text_eq, has_byte, break_at, break_byte, Map, erase,
}

-- `if (pos != npos) url = url.substr(pos + n)`, over the two sides of the separator.
abbrev pub behind_or : Option (Text × Text) → Text → Text
behind_or none url = url
behind_or (some (_, rest)) url = rest

-- `if (pos != npos) url = url.substr(0, pos)`
abbrev pub before_or : Option (Text × Text) → Text → Text
before_or none url = url
before_or (some (front, _)) url = front

unfoldable pub strip_scheme : Text → Text
strip_scheme url = behind_or (break_at (codes "://") url) url

-- Scheme, path, port and userinfo are stripped in this order.
unfoldable pub extract_hostname : Text → Text
extract_hostname url =
    let no_scheme = strip_scheme url in
    let no_path = before_or (break_byte b'/' no_scheme) no_scheme in
    let no_port = before_or (break_byte b':' no_path) no_path in
    behind_or (break_byte b'@' no_port) no_port

-- An `@` counts only in front of the first slash.
unfoldable pub strip_userinfo : Text → Text
strip_userinfo rest = elim (break_byte b'@' rest) [
  | none ↦ rest
  | some (user, host) ↦ if has_byte b'/' user then rest else host
]

abbrev ends_authority : ℕ → Bool
ends_authority c = c == b'/' || c == b'?' || c == b'#'

unfoldable pub host_port : Text → Text
host_port [] = []
host_port (c ∷ rest) = if ends_authority c then [] else c ∷ host_port rest

unfoldable pub extract_origin : Text → Text
unfolding strip_userinfo host_port
extract_origin url = elim (break_at (codes "://") url) [
  | none ↦ url
  | some (scheme, rest) ↦ scheme ++ (codes "://" ++ host_port (strip_userinfo rest))
]

abbrev pub Headers : Type 0
Headers = Map Text

abbrev pub sensitive_headers : List Text
sensitive_headers = codes "Authorization" ∷ codes "Cookie" ∷ codes "Proxy-Authorization" ∷ []

unfoldable pub erase_all : List Text → Headers → Headers
erase_all [] headers = headers
erase_all (name ∷ names) headers = erase_all names (erase name headers)

unfoldable pub strip_cross_origin_headers : Headers → (from_url to_url : Text) → Headers
unfolding erase_all
strip_cross_origin_headers headers from to =
    if text_eq (extract_origin from) (extract_origin to)
    then headers
    else erase_all sensitive_headers headers
