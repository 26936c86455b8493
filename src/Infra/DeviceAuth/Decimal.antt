-- ===== src/Infra/DeviceAuth/Decimal.antt =====
-- What `std::to_string` writes can be read back.
use mylobsterpp.Prelude.{
  ℕ, zero, suc, ◌+◌, ◌*◌, ◌-◌, ◌/◌, ◌%◌, ◌^◌, ◌≤◌, ◌<◌, ◌≡◌, ◌≢◌, refl, sym, ap, ◌∙◌, ◌⊎◌, inl, inr,
  drop, subst, Bool-cases, ltb, [], ◌∷◌, ◌++◌, arith, All-append, ℤ, pos, negsuc, Text, Lacks,
}
use mylobsterpp.Infra.DeviceAuth.{decimal, to_string}

-- The number that digits stand for, behind those read already.
read : (sofar : ℕ) → Text → ℕ
read sofar [] = sofar
read sofar (c ∷ s) = read (sofar * 10 + (c - b'0')) s

read-snoc :
    (sofar : ℕ) (s : Text) (c : ℕ) → read sofar (s ++ c ∷ []) ≡ read sofar s * 10 + (c - b'0')
unfolding read
read-snoc sofar [] c = refl
read-snoc sofar (d ∷ s) c = read-snoc (sofar * 10 + (d - b'0')) s c

tens : (digits : ℕ) → ℕ
tens zero = 1
tens (suc digits) = 10 * tens digits

read-decimal : (digits n : ℕ) → n < tens digits → read 0 (decimal digits n) ≡ n
unfolding decimal read tens
read-decimal zero n h = omega arith
read-decimal (suc digits) n h = elim (Bool-cases (ltb n 10)) [
  | inl small ↦ rw small (omega arith)
  | inr large ↦ rw large (
      read-snoc 0 (decimal digits (n / 10)) (b'0' + n % 10)
      ∙ ap (λ m. m * 10 + (b'0' + n % 10 - b'0')) (read-decimal digits (n / 10) (omega arith))
      ∙ (omega arith))
]

decimal-injective : (m n : ℕ) → m ≤ 2 ^ 63 → n ≤ 2 ^ 63 → decimal 19 m ≡ decimal 19 n → m ≡ n
unfolding tens
decimal-injective m n h k e =
    sym (read-decimal 19 m (omega arith)) ∙ ap (read 0) e ∙ read-decimal 19 n (omega arith)

decimal-Lacks : (c digits n : ℕ) → (c < b'0') ⊎ (b'9' < c) → Lacks c (decimal digits n)
unfolding decimal
decimal-Lacks c zero n o = tt
decimal-Lacks c (suc digits) n o = elim (Bool-cases (ltb n 10)) [
  | inl small ↦ rw small ((λ e. ground arith), tt)
  | inr large ↦ rw large (
      All-append (λ x. x ≢ c) (decimal digits (n / 10)) _ (decimal-Lacks c digits (n / 10) o)
        ((λ e. ground arith), tt))
]

pub to_string-Lacks : (n : ℤ) → Lacks b'|' (to_string n)
unfolding to_string
to_string-Lacks (pos n) = decimal-Lacks b'|' 19 n (inr (omega arith))
to_string-Lacks (negsuc n) = ((λ e. omega arith), decimal-Lacks b'|' 19 (n + 1) (inr (omega arith)))

-- A 64-bit integer.
abbrev pub IsInt64 : ℤ → Type 0
IsInt64 (pos n) = n < 2 ^ 63
IsInt64 (negsuc n) = n < 2 ^ 63

unsigned : (m n : ℕ) → decimal 19 m ≡ b'-' ∷ decimal 19 n → ⊥
unsigned m n e = (subst (Lacks b'-') e (decimal-Lacks b'-' 19 m (inl (omega arith)))).0 refl

pub to_string-injective : (a b : ℤ) → IsInt64 a → IsInt64 b → to_string a ≡ to_string b → a ≡ b
unfolding to_string
to_string-injective (pos m) (pos n) h k e =
    ap pos (decimal-injective m n (omega arith) (omega arith) e)
to_string-injective (pos m) (negsuc n) h k e = absurd (unsigned m (n + 1) e)
to_string-injective (negsuc m) (pos n) h k e = absurd (unsigned n (m + 1) (sym e))
to_string-injective (negsuc m) (negsuc n) h k e =
    let same = decimal-injective (m + 1) (n + 1) (omega arith) (omega arith) (ap (drop 1) e) in
    ap negsuc (omega arith)
