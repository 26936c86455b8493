-- ===== src/Gateway/Handshake/Ending.antt =====
-- How a step of the handshake ends: with a value, with an error response and a close, with an exception,
-- or in the overflow of a signed integer, which the source leaves undefined.
use mylobsterpp.Gateway.Frame.{ResponseFrame}
use mylobsterpp.Prelude.{◌≡◌, refl}

pub data Check (A : Type 0) : Type 0 where
  passed : A → Check A
  rejected : ResponseFrame → Check A
  dropped : Check A
  overflowed : Check A

infixl 5 ◌>>=◌
abbrev pub ◌>>=◌ : {A B : Type 0} → Check A → (A → Check B) → Check B
◌>>=◌ (passed a) next = next a
◌>>=◌ (rejected r) next = rejected r
◌>>=◌ dropped next = dropped
◌>>=◌ overflowed next = overflowed

pub >>=-eq-passed :
    {A B : Type 0} (first : Check A) (next : A → Check B) {last : B}
    → (first >>= next) ≡ passed last
    → (a : A) × (first ≡ passed a) × (next a ≡ passed last)
>>=-eq-passed (passed a) next e = (a, refl, e)
>>=-eq-passed (rejected r) next e = cc
>>=-eq-passed dropped next e = cc
>>=-eq-passed overflowed next e = cc

pub passed-injective : {A : Type 0} {a b : A} → passed a ≡ passed b → a ≡ b
passed-injective e = cc
