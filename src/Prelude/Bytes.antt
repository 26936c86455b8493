-- ===== src/Prelude/Bytes.antt =====
-- Byte strings: `std::string` and `std::string_view` as lists of the numbers below 256.
use Prim.Native.Nat.{ℕ, ◌+◌}
use Prim.Native.Char.{code}
use Prim.Native.String.{String}
use mathlib.Core.Path.{◌≡◌, refl}
use mathlib.Core.Logic.{◌↔◌, ◌≢◌, inl, inr}
use mathlib.Core.Bool.{Bool, true, false, ◌&&◌, ◌||◌}
use mathlib.Core.List.{List, [], ◌∷◌, ◌++◌}
use mathlib.Core.Option.{Option, none, some}
use mathlib.Core.Option
use native.Mathlib.Omega.{arith}
use mylobsterpp.Prelude.Tests.{Bool-cases, ltb, leb, ◌==◌, if◌then◌else◌}
use mylobsterpp.Prelude.Lists.{length, drop, All, Has}

abbrev pub Text : Type 0
Text = List ℕ

-- The bytes of an ASCII literal. `String` has its own `[]` and `∷`.
abbrev pub codes : String → Text
codes String.[] = []
codes (String.◌∷◌ c s) = code c ∷ codes s

unfoldable pub text_eq : Text → Text → Bool
text_eq [] [] = true
text_eq (x ∷ xs) (y ∷ ys) = x == y && text_eq xs ys
text_eq _ _ = false

pub text_eq_iff : (s t : Text) → (text_eq s t ≡ true) ↔ (s ≡ t)
unfolding text_eq
text_eq_iff [] [] = ground arith
text_eq_iff [] (y ∷ t) = ground arith
text_eq_iff (x ∷ s) [] = ground arith
text_eq_iff (x ∷ s) (y ∷ t) = ground (arith, text_eq_iff s t)

pub text_eq_self : (s : Text) → text_eq s s ≡ true
text_eq_self s = (text_eq_iff s s).1 refl

-- `a < b` of `std::string`.
unfoldable pub text_lt : Text → Text → Bool
text_lt s [] = false
text_lt [] (y ∷ t) = true
text_lt (x ∷ s) (y ∷ t) = if x == y then text_lt s t else ltb x y

-- `s.starts_with(prefix)`
unfoldable pub starts_with : Text → Text → Bool
starts_with s [] = true
starts_with [] (p ∷ ps) = false
starts_with (c ∷ s) (p ∷ ps) = c == p && starts_with s ps

-- `s.find(c) != npos`
unfoldable pub has_byte : ℕ → Text → Bool
has_byte c [] = false
has_byte c (x ∷ s) = x == c || has_byte c s

-- `s.find(needle)`, with what stands before the first occurrence and behind it.
unfoldable pub break_at : (needle s : Text) → Option (Text × Text)
unfolding starts_with
break_at needle [] = if starts_with [] needle then some ([], []) else none
break_at needle (c ∷ s) =
    if starts_with (c ∷ s) needle
    then some ([], drop (length needle) (c ∷ s))
    else Option.map (λ (r : Text × Text). (c ∷ r.0, r.1)) (break_at needle s)

-- The same for one byte.
unfoldable pub break_byte : ℕ → Text → Option (Text × Text)
break_byte c [] = none
break_byte c (x ∷ s) =
    if x == c
    then some ([], s)
    else Option.map (λ (r : Text × Text). (x ∷ r.0, r.1)) (break_byte c s)

-- `::tolower` in the C locale.
unfoldable pub to_lower : ℕ → ℕ
to_lower c = if leb b'A' c && leb c b'Z' then c + 32 else c

abbrev pub Lacks : ℕ → Text → Type 0
Lacks c s = All (λ x. x ≢ c) s

pub break_byte-Lacks : (c : ℕ) (s : Text) → Lacks c s → break_byte c s ≡ none
unfolding break_byte
break_byte-Lacks c [] h = refl
break_byte-Lacks c (x ∷ s) (h, hs) = ground (arith, break_byte-Lacks c s hs)

pub break_byte-append : (c : ℕ) (s t : Text) → Lacks c s → break_byte c (s ++ c ∷ t) ≡ some (s, t)
unfolding break_byte
break_byte-append c [] t h = ground arith
break_byte-append c (x ∷ s) t (h, hs) = ground (arith, break_byte-append c s t hs)

pub has_byte-Lacks : (c : ℕ) (s : Text) → (has_byte c s ≡ false) ↔ Lacks c s
unfolding has_byte
has_byte-Lacks c [] = (λ _. tt, λ _. refl)
has_byte-Lacks c (x ∷ s) = ground (arith, has_byte-Lacks c s)

pub starts_with-append : (p t : Text) → starts_with (p ++ t) p ≡ true
unfolding starts_with
starts_with-append [] t = refl
starts_with-append (p ∷ ps) t = ground (arith, starts_with-append ps t)

pub starts_with→append : (s p : Text) → starts_with s p ≡ true → (t : Text) × (s ≡ p ++ t)
unfolding starts_with
starts_with→append s [] h = (s, refl)
starts_with→append [] (p ∷ ps) h = cc
starts_with→append (c ∷ s) (p ∷ ps) h =
    let (t, e) = starts_with→append s ps (ground arith) in (t, ground arith)

-- `set.contains(t)`
unfoldable pub has_text : Text → List Text → Bool
has_text t [] = false
has_text t (x ∷ xs) = if text_eq x t then true else has_text t xs

pub has_text_iff : (t : Text) (xs : List Text) → (has_text t xs ≡ true) ↔ Has (λ x. x ≡ t) xs
unfolding has_text
has_text_iff t [] = (λ e. cc, λ m. absurd m)
has_text_iff t (x ∷ xs) =
    let ih = has_text_iff t xs in
    elim (Bool-cases (text_eq x t)) [
      | inl same ↦ rw same (λ _. inl ((text_eq_iff x t).0 same), λ _. refl)
      | inr other ↦ rw other (
        λ e. inr (ih.0 e),
        λ m. elim m [ inl e ↦ absurd (ground (arith, text_eq_iff x t)) | inr n ↦ ih.1 n ],
      )
    ]
