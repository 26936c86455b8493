-- ===== src/Prelude/Int.antt =====
-- The integers as `int` has them, and its largest value.
use Prim.Native.Nat.{ℕ, ◌+◌, ◌-◌, ◌%◌, ◌^◌}
use mathlib.Core.Bool.{Bool}
use mathlib.Core.Option.{Option, none, some}
use mylobsterpp.Prelude.Tests.{if◌then◌else◌, ltb, leb}

abbrev pub int_max : ℕ
int_max = 2 ^ 31 - 1

-- `negsuc n` is -(n + 1).
pub data ℤ : Type 0 where
  pos : ℕ → ℤ
  negsuc : ℕ → ℤ

infixl 60 ◌+ℤ◌
unfoldable pub ◌+ℤ◌ : ℤ → ℤ → ℤ
pos a +ℤ pos b = pos (a + b)
pos a +ℤ negsuc b = if ltb b a then pos (a - (b + 1)) else negsuc (b - a)
negsuc a +ℤ pos b = if ltb a b then pos (b - (a + 1)) else negsuc (a - b)
negsuc a +ℤ negsuc b = negsuc (a + b + 1)

-- Whether an `int` holds the number.
unfoldable pub fits_int : ℤ → Bool
fits_int (pos n) = leb n int_max
fits_int (negsuc n) = leb n int_max

-- The sum of two `int`s, `none` where it overflows.
unfoldable pub add_int : ℤ → ℤ → Option ℤ
unfolding ◌+ℤ◌ fits_int
add_int a b = if fits_int (a +ℤ b) then some (a +ℤ b) else none

-- A number as an integer of `2 ^ (w + 1)` values, half of them negative, holds it.
unfoldable pub wrap : (w : ℕ) → ℤ → ℤ
wrap w (pos n) =
    let r = n % 2 ^ (w + 1) in if ltb r (2 ^ w) then pos r else negsuc (2 ^ (w + 1) - 1 - r)
wrap w (negsuc n) =
    let r = n % 2 ^ (w + 1) in if ltb r (2 ^ w) then negsuc r else pos (2 ^ (w + 1) - 1 - r)
