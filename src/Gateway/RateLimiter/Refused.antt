-- ===== src/Gateway/RateLimiter/Refused.antt =====
-- The limiter's table and the history of failures.
use mylobsterpp.Prelude.{
  ℕ, ◌≤◌, ◌≡◌, refl, ap, ◌∙◌, sym, subst, inl, inr, false, Bool-cases, List, [], ◌∷◌, ◌++◌, arith,
  leb, length, keep-All, All, All-append, All-map, Text, text_eq, text_eq_iff, text_eq_self, Map,
  lookup, assign, lookup-assign,
}
use mylobsterpp.Gateway.RateLimiter.{
  AuthRateLimiter, max_failures, drop_old, prune, times_of, check, record_failure,
}
use mylobsterpp.Gateway.RateLimiter.Window.{
  InOrder, InOrder-append, recent, recent-recent, recent-append, recent-InOrder, drop_old-recent,
  kept, kept-prune, failures_of, failures_of-append,
}

-- What is kept of an address is in order, not later than the last event, and as good as its history for
-- every later time.
abbrev TracksAt : Text → Map (List ℕ) → List (Text × ℕ) → (last : ℕ) → Type 0
TracksAt ip m events last =
    InOrder (kept ip m)
    × All (λ t. t ≤ last) (kept ip m)
    × ((now : ℕ) → last ≤ now → recent now (kept ip m) ≡ recent now (failures_of ip events))

abbrev Tracks : Map (List ℕ) → List (Text × ℕ) → (last : ℕ) → Type 0
Tracks m events last = (ip : Text) → TracksAt ip m events last

-- The same of a list of times.
abbrev TracksList : Text → List ℕ → List (Text × ℕ) → (last : ℕ) → Type 0
TracksList ip times events last =
    InOrder times
    × All (λ t. t ≤ last) times
    × ((now : ℕ) → last ≤ now → recent now times ≡ recent now (failures_of ip events))

later_on :
    (ip : Text) (times : List ℕ) (events : List (Text × ℕ)) (last now : ℕ)
    → last ≤ now
    → TracksList ip times events last
    → TracksList ip times events now
later_on ip times events last now le h =
    (h.0, All-map times (λ t k. omega arith) h.1, λ then_now on. h.2 then_now (omega arith))

dropped :
    (ip : Text) (times : List ℕ) (events : List (Text × ℕ)) (now : ℕ)
    → TracksList ip times events now
    → TracksList ip (drop_old now times) events now
dropped ip times events now h = rw (drop_old-recent now times h.0) (
  recent-InOrder now times h.0,
  keep-All (λ t. t ≤ now) _ times h.1,
  λ then_now on. recent-recent now then_now times on ∙ h.2 then_now on,
)

prune-Tracks :
    (ip : Text) (m : Map (List ℕ)) (events : List (Text × ℕ)) (now : ℕ)
    → Tracks m events now
    → Tracks (prune ip now m) events now
prune-Tracks ip m events now h other =
    subst (λ times. TracksList other times events now) (sym (kept-prune ip other now m))
      (elim (Bool-cases (text_eq ip other)) [
        | inl same ↦ rw same (
            subst (λ k. TracksList k (drop_old now (kept ip m)) events now)
              ((text_eq_iff ip other).0 same) (dropped ip (kept ip m) events now (h ip)))
        | inr differ ↦ rw differ (h other)
      ])

mine :
    (ip : Text) (events : List (Text × ℕ)) (now : ℕ)
    → failures_of ip (events ++ (ip, now) ∷ []) ≡ failures_of ip events ++ now ∷ []
mine ip events now = rw (failures_of-append ip events ((ip, now) ∷ [])) (rw (text_eq_self ip) refl)

not_mine :
    (ip other : Text) (events : List (Text × ℕ)) (now : ℕ)
    → text_eq ip other ≡ false
    → failures_of other (events ++ (ip, now) ∷ []) ≡ failures_of other events
not_mine ip other [] now differ = rw differ refl
not_mine ip other ((k, t) ∷ events) now differ = ground (arith, not_mine ip other events now differ)

failed_now :
    (ip : Text) (times : List ℕ) (events : List (Text × ℕ)) (now : ℕ)
    → TracksList ip times events now
    → TracksList ip (times ++ now ∷ []) (events ++ (ip, now) ∷ []) now
failed_now ip times events now h = (
  InOrder-append times now h.0 h.1,
  All-append (λ t. t ≤ now) times (now ∷ []) h.1 (omega arith, tt),
  λ then_now on.
      recent-append then_now times (now ∷ [])
      ∙ ap (λ xs. xs ++ recent then_now (now ∷ [])) (h.2 then_now on)
      ∙ sym (recent-append then_now (failures_of ip events) (now ∷ []))
      ∙ ap (recent then_now) (sym (mine ip events now)),
)

record_failure-Tracks :
    (ip : Text) (m : Map (List ℕ)) (events : List (Text × ℕ)) (now : ℕ)
    → Tracks m events now
    → Tracks (assign ip (kept ip m ++ now ∷ []) m) (events ++ (ip, now) ∷ []) now
record_failure-Tracks ip m events now h other =
    subst (λ l. TracksList other (times_of l) (events ++ (ip, now) ∷ []) now)
      (sym (lookup-assign ip other (kept ip m ++ now ∷ []) m))
      (elim (Bool-cases (text_eq ip other)) [
        | inl same ↦ rw same (
            subst (λ k. TracksList k (kept ip m ++ now ∷ []) (events ++ (ip, now) ∷ []) now)
              ((text_eq_iff ip other).0 same) (failed_now ip (kept ip m) events now (h ip)))
        | inr differ ↦ rw differ (
          (h other).0,
          (h other).1,
          λ then_now on.
              (h other).2 then_now on
              ∙ ap (recent then_now) (sym (not_mine ip other events now differ)),
        )
      ])

-- A limiter after failures and questions at times that never go back, the failures in order, and the
-- last time.
pub data History : AuthRateLimiter → List (Text × ℕ) → ℕ → Type 0 where
  fresh : History (record { failures = [] }) [] 0
  failed :
      {r : AuthRateLimiter} {events : List (Text × ℕ)} {last : ℕ}
      → History r events last
      → (ip : Text) (now : ℕ) → last ≤ now
      → History (record_failure r ip now) (events ++ (ip, now) ∷ []) now
  asked :
      {r : AuthRateLimiter} {events : List (Text × ℕ)} {last : ℕ}
      → History r events last
      → (ip : Text) (now : ℕ) → last ≤ now
      → History (check r ip now).0 events now

later_Tracks :
    (m : Map (List ℕ)) (events : List (Text × ℕ)) (last now : ℕ)
    → last ≤ now
    → Tracks m events last
    → Tracks m events now
later_Tracks m events last now le h ip = later_on ip (kept ip m) events last now le (h ip)

History-Tracks :
    {r : AuthRateLimiter} {events : List (Text × ℕ)} {last : ℕ}
    → History r events last
    → Tracks r.failures events last
unfolding record_failure check lookup
History-Tracks fresh = λ ip. (tt, tt, λ now on. refl)
History-Tracks (failed {r} {events} {last} h ip now le) = prune-Tracks ip _ _ now (
    record_failure-Tracks ip r.failures events now
      (later_Tracks r.failures events last now le (History-Tracks h)))
History-Tracks (asked {r} {events} {last} h ip now le) =
    prune-Tracks ip r.failures events now
      (later_Tracks r.failures events last now le (History-Tracks h))

-- An address is refused exactly if it failed at least `max_failures` times in the window before now,
-- whatever other addresses did and whatever was asked in between.
pub check-recent :
    {r : AuthRateLimiter} {events : List (Text × ℕ)} {last : ℕ}
    → History r events last
    → (ip : Text) (now : ℕ) → last ≤ now
    → (check r ip now).1 ≡ leb max_failures (length (recent now (failures_of ip events)))
unfolding check
check-recent {r} {events} {last} h ip now le =
    let tracks = later_Tracks r.failures events last now le (History-Tracks h) ip in
    let same : kept ip (prune ip now r.failures) ≡ recent now (failures_of ip events) =
      kept-prune ip ip now r.failures
      ∙ rw (text_eq_self ip) (drop_old-recent now (kept ip r.failures) tracks.0)
      ∙ tracks.2 now (omega arith) in
    rw same refl
