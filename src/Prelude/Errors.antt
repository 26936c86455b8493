-- ===== src/Prelude/Errors.antt =====
-- core/error.hpp: the error codes and `Result`. Where the detail of an error only reaches the log, it is
-- left empty.
use Prim.Native.String.{String}
use mathlib.Core.Logic.{◌⊎◌, inl, inr}
use mathlib.Core.Path.{◌≡◌, refl}
use mathlib.Core.List.{[], ◌∷◌, ◌++◌}
use mylobsterpp.Prelude.Bytes.{Text, codes}

pub data ErrorCode : Type 0 where
  unknown invalid_config invalid_argument not_found already_exists unauthorized forbidden timeout
        connection_failed connection_closed protocol_error serialization_error io_error
        database_error provider_error channel_error plugin_error browser_error memory_error
        session_error rate_limited internal_error :
      ErrorCode

pub record Error : Type 0 where
  pub error_code : ErrorCode
  pub message : Text
  pub detail : Text

-- `undefined` is not in the source: it marks a run that overflows a signed integer.
pub data Result {ℓ} (A : Type ℓ) : Type ℓ where
  ok : A → Result A
  err : Error → Result A
  undefined : Result A

abbrev pub fail {ℓ} : {A : Type ℓ} → ErrorCode → String → Result A
fail c m = err (record { error_code = c; message = codes m; detail = [] })

abbrev pub VoidResult : Type 0
VoidResult = Result (Unit {0})

infixl 5 ◌>>=◌ ◌>>◌
abbrev pub ◌>>=◌ {ℓ κ} : {A : Type ℓ} {B : Type κ} → Result A → (A → Result B) → Result B
◌>>=◌ undefined next = undefined
◌>>=◌ (err failure) next = err failure
◌>>=◌ (ok value) next = next value

-- What a bind that succeeds went through.
pub >>=-eq-ok {ℓ κ} :
    {A : Type ℓ} {B : Type κ} (first : Result A) (next : A → Result B) {last : B}
    → (first >>= next) ≡ ok last
    → (value : A) × (first ≡ ok value) × (next value ≡ ok last)
>>=-eq-ok undefined next bound = cc
>>=-eq-ok (err failure) next bound = cc
>>=-eq-ok (ok value) next bound = (value, refl, bound)

abbrev pub ◌>>◌ {κ} : {B : Type κ} → VoidResult → Result B → Result B
check >> next = check >>= λ _. next

pub Result-cases {ℓ} :
    {A : Type ℓ} (r : Result A)
    → ((a : A) × (r ≡ ok a)) ⊎ (((e : Error) × (r ≡ err e)) ⊎ (r ≡ undefined))
Result-cases (ok a) = inl (a, refl)
Result-cases (err e) = inr (inl (e, refl))
Result-cases undefined = inr (inr refl)

-- `make_fail` with a message put together at run time, and with a detail.
abbrev pub fail_with {ℓ} : {A : Type ℓ} → ErrorCode → (message detail : Text) → Result A
fail_with c m d = err (record { error_code = c; message = m; detail = d })

unfoldable pub what : Error → Text
what e = elim e.detail [ [] ↦ e.message | ◌∷◌ c d ↦ e.message ++ codes ": " ++ c ∷ d ]

unfoldable pub error_code_to_string : ErrorCode → Text
error_code_to_string unknown = codes "UNKNOWN"
error_code_to_string invalid_config = codes "INVALID_CONFIG"
error_code_to_string invalid_argument = codes "INVALID_ARGUMENT"
error_code_to_string not_found = codes "NOT_FOUND"
error_code_to_string already_exists = codes "ALREADY_EXISTS"
error_code_to_string unauthorized = codes "UNAUTHORIZED"
error_code_to_string forbidden = codes "FORBIDDEN"
error_code_to_string timeout = codes "TIMEOUT"
error_code_to_string connection_failed = codes "CONNECTION_FAILED"
error_code_to_string connection_closed = codes "CONNECTION_CLOSED"
error_code_to_string protocol_error = codes "PROTOCOL_ERROR"
error_code_to_string serialization_error = codes "SERIALIZATION_ERROR"
error_code_to_string io_error = codes "IO_ERROR"
error_code_to_string database_error = codes "DATABASE_ERROR"
error_code_to_string provider_error = codes "PROVIDER_ERROR"
error_code_to_string channel_error = codes "CHANNEL_ERROR"
error_code_to_string plugin_error = codes "PLUGIN_ERROR"
error_code_to_string browser_error = codes "BROWSER_ERROR"
error_code_to_string memory_error = codes "MEMORY_ERROR"
error_code_to_string session_error = codes "SESSION_ERROR"
error_code_to_string rate_limited = codes "RATE_LIMITED"
error_code_to_string internal_error = codes "INTERNAL_ERROR"

pub ok-injective {ℓ} : {A : Type ℓ} {a b : A} → ok a ≡ ok b → a ≡ b
ok-injective e = cc
