-- ===== src/Infra/FetchGuard.antt =====
-- infra/fetch_guard.cpp: which addresses are private, the check of a URL, and the fetch that follows
-- redirects. The address parser and its predicates (Boost.Asio), the resolver and the HTTP client are
-- parameters: records of what they answer.
pub mod Private
pub mod Redirects
use Prim.Native.Nat.{bit_and}
use mylobsterpp.Prelude.{
  text_lt, ℕ, zero, suc, ◌+◌, ◌-◌, Bool, true, false, not, ◌&&◌, ◌||◌, Option, none, some, List, [],
  ◌∷◌, ltb, leb, ◌==◌, if◌then◌else◌, get_elem?, sort_by, Text, codes, text_eq, has_byte, lookup,
  Result, VoidResult, ok, err, undefined, fail, forbidden, invalid_argument, connection_failed,
}
use mylobsterpp.Infra.Url.{extract_hostname, Headers}

-- Four bytes; the last is not read.
unfoldable pub is_private_ipv4 : (a b c d : ℕ) → Bool
is_private_ipv4 a b c d =
    if a == 10
    then true
    else if a == 172 && leb 16 b && leb b 31
    then true
    else if a == 192 && b == 168
    then true
    else if a == 127
    then true
    else if a == 169 && b == 254
    then true
    else if a == 100 && leb 64 b && leb b 127
    then true
    else if a == 0 && b == 0 && c == 0
    then true
    else false

pub data Address : Type 0 where
  v4 : (a b c d : ℕ) → Address
  v6 : (bytes : List ℕ) → Address

-- Boost.Asio's address functions. `none` is an address that does not parse.
pub record AddressLib : Type 0 where
  pub make_address : Text → Option Address
  pub is_loopback : List ℕ → Bool
  pub is_link_local : List ℕ → Bool
  pub is_v4_mapped : List ℕ → Bool
  pub is_unspecified : List ℕ → Bool

abbrev byte_at : List ℕ → ℕ → ℕ
byte_at bytes i = elim (get_elem? bytes i) [ none ↦ 0 | some b ↦ b ]

unfoldable pub is_private_ipv6 : AddressLib → List ℕ → Bool
is_private_ipv6 lib bytes =
    if lib.is_loopback bytes
    then true
    else if bit_and (byte_at bytes 0) 0xFE == 0xFC
    then true
    else if lib.is_link_local bytes
    then true
    else if bit_and (byte_at bytes 0) 0xFF == 0xFF
    then true
    else if lib.is_v4_mapped bytes
    then is_private_ipv4 (byte_at bytes 12) (byte_at bytes 13) (byte_at bytes 14) (byte_at bytes 15)
    else if lib.is_unspecified bytes
    then true
    else false

-- What cannot be parsed counts as private.
unfoldable pub is_private_ip : AddressLib → Text → Bool
is_private_ip lib ip = elim (lib.make_address ip) [
  | none ↦ true
  | some (v4 a b c d) ↦ is_private_ipv4 a b c d
  | some (v6 bytes) ↦ is_private_ipv6 lib bytes
]

abbrev by_family : (a_v4 b_v4 a_before_b : Bool) → Bool
by_family true true before = before
by_family false false before = before
by_family a_v4 _ _ = a_v4

-- The order of the addresses: IPv4 first, then by text.
unfoldable pub address_lt : Text → Text → Bool
unfolding text_lt
address_lt a b = by_family (not (has_byte b':' a)) (not (has_byte b':' b)) (text_lt a b)

unfoldable pub any_private : AddressLib → List Text → Bool
any_private lib [] = false
any_private lib (ip ∷ ips) = if is_private_ip lib ip then true else any_private lib ips

-- The member `allow_private_`, and what the guard calls. The resolver and the client answer anew in
-- each round of `safe_fetch`; `none` is a failed resolution.
pub record Response : Type 0 where
  pub status : ℕ
  pub headers : Headers
  pub body : Text

pub record World : Type 0 where
  pub lib : AddressLib
  pub allow_private : Bool
  pub resolve : (round : ℕ) → (hostname : Text) → Option (List Text)
  pub get : (round : ℕ) → (url : Text) → Result Response

abbrev is_empty : Text → Bool
is_empty [] = true
is_empty _ = false

unfoldable pub validate_url : World → (round : ℕ) → (url : Text) → VoidResult
unfolding any_private
validate_url w round url =
    if is_empty (extract_hostname url)
    then fail invalid_argument "Empty hostname in URL"
    else if w.allow_private
    then ok tt
    else elim (w.resolve round (extract_hostname url)) [
      | none ↦ fail connection_failed "DNS resolution failed for SSRF check"
      | some addresses ↦
          if any_private w.lib (sort_by address_lt addresses)
          then fail forbidden "SSRF blocked: URL resolves to private IP"
          else ok tt
    ]

-- The `location` header of a redirect, unless it is empty.
abbrev non_empty : Option Text → Option Text
non_empty (some (c ∷ url)) = some (c ∷ url)
non_empty _ = none

unfoldable pub location : Headers → Option Text
location headers = elim (lookup (codes "location") headers) [
  | none ↦ non_empty (lookup (codes "Location") headers)
  | some url ↦ non_empty (some url)
]

unfoldable pub redirect_target : Response → Option Text
unfolding location
redirect_target r = if leb 300 r.status && ltb r.status 400 then location r.headers else none

unfoldable pub contains : Text → List Text → Bool
contains url [] = false
contains url (u ∷ visited) = text_eq url u || contains url visited

-- The result, and the URLs that `http.get` was called with, in order.
abbrev pub Fetch : Type 0
Fetch = Result Response × List Text

-- The rest of a round behind the call of `http.get`.
unfoldable pub follow : Result Response → (next : Text → Fetch) → Fetch
follow (err e) next = (err e, [])
follow undefined next = (undefined, [])
follow (ok response) next = elim (redirect_target response) [
  | none ↦ (ok response, [])
  | some url ↦ next url
]

abbrev pub logged : (url : Text) → Fetch → Fetch
logged url (r, urls) = (r, url ∷ urls)

unfoldable pub fetch_loop :
    World → (rounds_left round : ℕ) → (current_url : Text) → (visited : List Text) → Fetch
unfolding follow contains
fetch_loop w zero round url visited = (fail invalid_argument "Too many redirects", [])
fetch_loop w (suc left) round url visited = elim (validate_url w round url) [
  | err e ↦ (err e, [])
  | undefined ↦ (undefined, [])
  | ok _ ↦
      if contains url visited
      then (fail invalid_argument "Redirect loop detected", [])
      else logged url
          (follow (w.get round url) (λ next. fetch_loop w left (round + 1) next (url ∷ visited)))
]

-- `max_redirects` as a count; a negative one is no round at all, `fetch_loop w 0`.
unfoldable pub safe_fetch : World → (url : Text) → (max_redirects : ℕ) → Fetch
unfolding fetch_loop
safe_fetch w url max_redirects = fetch_loop w (max_redirects + 1) 0 url []
