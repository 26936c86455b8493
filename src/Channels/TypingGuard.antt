-- ===== src/Channels/TypingGuard.antt =====
-- channels/typing_guard.hpp: the breaker for typing indicators. A call of the send function is its
-- outcome, false also where it throws. The timer has no effect on the state. A count stays below 3, so
-- its `int` does not overflow.
pub mod History
use mylobsterpp.Prelude.{ℕ, suc, Bool, true, false, ◌||◌, List, [], ◌∷◌, if◌then◌else◌, leb}

pub record TypingStartGuard : Type 0 where
  pub consecutive_failures : ℕ
  pub tripped : Bool

abbrev pub max_consecutive_failures : ℕ
max_consecutive_failures = 2

abbrev pub fresh : TypingStartGuard
fresh = record { consecutive_failures = 0; tripped = false }

unfoldable pub start : TypingStartGuard → (sent : Bool) → TypingStartGuard
start g sent =
    if g.tripped then g else if sent then record g { consecutive_failures = 0 } else record {
      consecutive_failures = suc g.consecutive_failures;
      tripped = leb max_consecutive_failures (suc g.consecutive_failures);
    }

unfoldable pub reset : TypingStartGuard → TypingStartGuard
reset g = fresh
