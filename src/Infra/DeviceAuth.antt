-- ===== src/Infra/DeviceAuth.antt =====
-- infra/device.cpp and device.hpp: the texts that a device signs. Keys, hashes and signatures are
-- OpenSSL's and stand as arguments where they are used.
pub mod Decimal
pub mod Laws
use mylobsterpp.Prelude.{
  ℕ, zero, suc, ◌+◌, ◌/◌, ◌%◌, ◌||◌, ◌&&◌, ◌==◌, ltb, leb, List, [], ◌∷◌, ◌++◌, if◌then◌else◌, Text,
  codes, ℤ, pos, negsuc,
}
use mylobsterpp.Infra.NetworkMode.{trim_start, trim_end}

pub record DeviceAuthParams : Type 0 where
  pub device_id : Text
  pub client_id : Text
  pub client_mode : Text
  pub role : Text
  pub scopes : List Text
  pub signed_at_ms : ℤ
  pub token : Text
  pub nonce : Text

pub record DeviceAuthV3Params : Type 0 where
  pub base : DeviceAuthParams
  pub platform : Text
  pub device_family : Text

-- The last digits of a number.
unfoldable pub decimal : (digits : ℕ) → ℕ → Text
decimal zero n = []
decimal (suc digits) n =
    let front = decimal digits (n / 10) in
    if ltb n 10 then (b'0' + n) ∷ [] else front ++ (b'0' + n % 10) ∷ []

-- `std::to_string` of a 64-bit integer, which has at most 19 digits.
unfoldable pub to_string : ℤ → Text
unfolding decimal
to_string (pos n) = decimal 19 n
to_string (negsuc n) = b'-' ∷ decimal 19 (n + 1)

unfoldable pub join_scopes : List Text → Text
join_scopes [] = []
join_scopes (scope ∷ []) = scope
join_scopes (scope ∷ next ∷ scopes) = scope ++ b',' ∷ join_scopes (next ∷ scopes)

-- `payload += field + "|"`, with what is appended behind it.
unfoldable pub barred : (field behind : Text) → Text
barred field behind = field ++ b'|' ∷ behind

-- The fields up to the nonce.
unfoldable pub fields : DeviceAuthParams → (behind : Text) → Text
unfolding join_scopes to_string barred
fields p behind = barred p.device_id (
    barred p.client_id (
      barred p.client_mode (
        barred p.role (
          barred (join_scopes p.scopes)
            (barred (to_string p.signed_at_ms) (barred p.token behind))))))

unfoldable pub build_device_auth_payload : DeviceAuthParams → Text
unfolding fields
build_device_auth_payload p = codes "v2|" ++ fields p p.nonce

-- Lower case in ASCII, without the bytes above it.
unfoldable pub ascii_lower : Text → Text
ascii_lower [] = []
ascii_lower (c ∷ s) =
    let rest = ascii_lower s in
    if ltb 127 c then rest else (if leb b'A' c && leb c b'Z' then c + 32 else c) ∷ rest

unfoldable pub normalize_device_metadata_for_auth : Text → Text
unfolding trim_start trim_end ascii_lower
normalize_device_metadata_for_auth value = ascii_lower (trim_end (trim_start value))

unfoldable pub build_device_auth_payload_v3 : DeviceAuthV3Params → Text
unfolding fields normalize_device_metadata_for_auth
build_device_auth_payload_v3 p =
    codes "v3|"
    ++ fields p.base (
        barred p.base.nonce (
          barred (normalize_device_metadata_for_auth p.platform)
            (normalize_device_metadata_for_auth p.device_family)))
