-- ===== src/Infra/Percent/Laws.antt =====
-- Decoding shortens, decoding to a fixed point, and what the screen lets through.
use mathlib.Core.Logic.{◌⊎◌}
use mylobsterpp.Prelude.{
  ℕ, zero, suc, ◌+◌, ◌*◌, ◌≤◌, ◌<◌, ◌≡◌, refl, ap, ◌≢◌, inl, true, false, [], ◌∷◌, arith, length,
  Text, text_eq_iff, has_byte, has_byte-Lacks, Lacks, ok,
}
use mylobsterpp.Infra.Percent.{
  escaped_byte, decode_step, malformed_escape, uri_decode_percent, iterative_uri_decode,
  has_malformed_percent_encoding, default_passes, decode_checked,
}

-- A round either keeps its byte or drops two.
pub decode-shrinks :
    (s : Text) → (uri_decode_percent s ≡ s) ⊎ (length (uri_decode_percent s) + 2 ≤ length s)
unfolding uri_decode_percent decode_step
decode-shrinks [] = inl refl
decode-shrinks (c ∷ a ∷ b ∷ rest) =
    ground (arith, decode-shrinks rest, decode-shrinks (a ∷ b ∷ rest))
decode-shrinks (c ∷ []) = inl refl
decode-shrinks (c ∷ a ∷ []) = inl refl

pub length-decode-le : (s : Text) → length (uri_decode_percent s) ≤ length s
length-decode-le s = ground (arith, decode-shrinks s)

pub decode-Lacks : (s : Text) → Lacks b'%' s → uri_decode_percent s ≡ s
unfolding uri_decode_percent decode_step
decode-Lacks [] h = refl
decode-Lacks (c ∷ a ∷ b ∷ rest) h = ground (arith, decode-Lacks (a ∷ b ∷ rest))
decode-Lacks (c ∷ []) h = refl
decode-Lacks (c ∷ a ∷ []) h = refl

-- A well-formed text with a percent sign gets shorter.
decode-lt :
    (s : Text)
    → has_malformed_percent_encoding s ≡ false
    → has_byte b'%' s ≡ true
    → length (uri_decode_percent s) < length s
unfolding uri_decode_percent decode_step has_malformed_percent_encoding malformed_escape has_byte
    escaped_byte
decode-lt [] m h = cc
decode-lt (c ∷ a ∷ b ∷ rest) m h = ground (arith, length-decode-le rest, decode-lt (a ∷ b ∷ rest))
decode-lt (c ∷ []) m h = ground arith
decode-lt (c ∷ a ∷ []) m h = ground arith

length-iterate-le : (s : Text) (n : ℕ) → length (iterative_uri_decode s n) ≤ length s
unfolding iterative_uri_decode
length-iterate-le s zero = omega arith
length-iterate-le s (suc n) =
    ground (arith, length-decode-le s, length-iterate-le (uri_decode_percent s) n)

-- If two bytes are allowed for each pass, the result cannot be decoded further.
pub iterate-stable :
    (s : Text) (n : ℕ)
    → length s ≤ 2 * n
    → uri_decode_percent (iterative_uri_decode s n) ≡ iterative_uri_decode s n
unfolding iterative_uri_decode
iterate-stable [] zero h = decode-Lacks [] tt
iterate-stable (c ∷ s) zero h = absurd (omega arith)
iterate-stable s (suc n) h = ground (
  arith,
  decode-shrinks s,
  text_eq_iff (uri_decode_percent s) s,
  iterate-stable (uri_decode_percent s) n,
)

-- A well-formed text that still has a percent sign is changed by the first pass.
iterate-ne :
    (s : Text) (n : ℕ)
    → has_malformed_percent_encoding s ≡ false
    → has_byte b'%' s ≡ true
    → iterative_uri_decode s (suc n) ≢ s
unfolding iterative_uri_decode
iterate-ne s n m h e =
    let shorter = decode-lt s m h in
    let later = length-iterate-le (uri_decode_percent s) n in
    ground (arith, text_eq_iff (uri_decode_percent s) s, ap length e)

-- The path that passes the screen holds no percent sign: no later decoder changes it.
pub decode_checked-Lacks : (path d : Text) → decode_checked path ≡ ok d → Lacks b'%' d
unfolding decode_checked
decode_checked-Lacks path d h =
    (has_byte-Lacks b'%' d).0 (
      ground
        (arith, text_eq_iff (iterative_uri_decode path default_passes) path, iterate-ne path 2))

-- A path without percent signs passes unchanged.
pub malformed-Lacks : (s : Text) → Lacks b'%' s → has_malformed_percent_encoding s ≡ false
unfolding has_malformed_percent_encoding
malformed-Lacks [] h = refl
malformed-Lacks (c ∷ a ∷ b ∷ rest) h = ground (arith, malformed-Lacks (a ∷ b ∷ rest))
malformed-Lacks (c ∷ []) h = ground arith
malformed-Lacks (c ∷ a ∷ []) h = ground arith

iterate-Lacks : (s : Text) (n : ℕ) → Lacks b'%' s → iterative_uri_decode s n ≡ s
unfolding iterative_uri_decode
iterate-Lacks s zero h = refl
iterate-Lacks s (suc n) h = ground (arith, decode-Lacks s h, text_eq_iff (uri_decode_percent s) s)

pub decode_checked-of_Lacks : (path : Text) → Lacks b'%' path → decode_checked path ≡ ok path
unfolding decode_checked
decode_checked-of_Lacks path h =
    ground
      (arith, malformed-Lacks path h, iterate-Lacks path default_passes h, has_byte-Lacks b'%' path)
