-- ===== src/Gateway/RateLimiter.antt =====
-- include/openclaw/gateway/server.hpp, AuthRateLimiter: how often an address failed to authenticate in
-- the last minute. Times are in nanoseconds of the steady clock; a cutoff before its start cuts nothing.
pub mod Window
pub mod Refused
use mylobsterpp.Prelude.{
  ℕ, ◌+◌, ◌*◌, ◌^◌, Bool, true, false, Option, none, some, List, [], ◌∷◌, ◌++◌, if◌then◌else◌, ltb,
  leb, length, Text, Map, lookup, assign, erase,
}

abbrev pub max_failures : ℕ
max_failures = 10

abbrev pub window : ℕ
window = 60 * 10 ^ 9

pub record AuthRateLimiter : Type 0 where
  pub failures : Map (List ℕ)

-- `front < now - window`, popped from the front.
unfoldable pub drop_old : (now : ℕ) → List ℕ → List ℕ
drop_old now [] = []
drop_old now (t ∷ times) = if ltb (t + window) now then drop_old now times else t ∷ times

abbrev pub stored : Text → List ℕ → Map (List ℕ) → Map (List ℕ)
stored ip [] m = erase ip m
stored ip (t ∷ times) m = assign ip (t ∷ times) m

unfoldable pub prune : (ip : Text) → (now : ℕ) → Map (List ℕ) → Map (List ℕ)
unfolding drop_old
prune ip now m = elim (lookup ip m) [ none ↦ m | some times ↦ stored ip (drop_old now times) m ]

-- `map[key]` for a list, empty for a missing key.
abbrev pub times_of : Option (List ℕ) → List ℕ
times_of none = []
times_of (some times) = times

unfoldable pub check : AuthRateLimiter → (ip : Text) → (now : ℕ) → AuthRateLimiter × Bool
unfolding prune
check r ip now =
    let left = prune ip now r.failures in
    (record { failures = left }, leb max_failures (length (times_of (lookup ip left))))

unfoldable pub record_failure : AuthRateLimiter → (ip : Text) → (now : ℕ) → AuthRateLimiter
unfolding prune
record_failure r ip now = record {
  failures = prune ip now (assign ip (times_of (lookup ip r.failures) ++ now ∷ []) r.failures);
}
