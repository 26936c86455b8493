-- ===== src/Prelude/Partial.antt =====
-- Chains of optional values, for `do` blocks.
use mathlib.Core.Option.{Option, none, some}

infixl 5 ◌>>=◌
abbrev pub ◌>>=◌ {ℓ κ} : {A : Type ℓ} {B : Type κ} → Option A → (A → Option B) → Option B
◌>>=◌ none next = none
◌>>=◌ (some value) next = next value
