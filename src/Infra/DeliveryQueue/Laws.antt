-- ===== src/Infra/DeliveryQueue/Laws.antt =====
-- What becomes of deliveries: retries are counted and end in the failed folder, and no delivery waits
-- for another.
use mylobsterpp.Prelude.{
  ℕ, suc, ◌+◌, ◌≤◌, ◌<◌, ◌≡◌, refl, ap, ◌∙◌, inl, inr, Bool, true, false, not, ◌&&◌, none, some,
  List, [], ◌∷◌, arith, Bool-cases, if◌then◌else◌, leb, length, keep, Text, text_eq, text_eq_self,
  lookup, lookup-assign, lookup-erase, pos, int_max, ok,
}
use mylobsterpp.Infra.DeliveryQueue.{
  QueuedDelivery, DeliveryQueue, Faults, max_retries, write_delivery, ack, one_more, is_spent,
  failed_once, fail_delivery, load_pending, is_waiting, drain, drain_pending,
}

drain-length :
    (f : Faults) (send : QueuedDelivery → Bool) (now : ℕ) (ds : List QueuedDelivery)
    (q : DeliveryQueue)
    → (drain f send now ds q).1 ≡ length (keep (λ d. not (is_waiting now d) && send d) ds)
unfolding drain keep
drain-length f send now [] q = refl
drain-length f send now (d ∷ ds) q = elim (Bool-cases (is_waiting now d)) [
  | inl waits ↦ rw waits (drain-length f send now ds q)
  | inr due ↦ rw due (elim (Bool-cases (send d)) [
    | inl sent ↦ rw sent (ap suc (drain-length f send now ds (ack f q d.id).0))
    | inr lost ↦ rw lost (drain-length f send now ds _)
  ])
]

-- However long the other deliveries wait and whatever becomes of them, a drain counts as sent exactly
-- the deliveries that it loads, that are due and that can be sent.
pub drain_pending-length :
    (f : Faults) (send : QueuedDelivery → Bool) (now : ℕ) (q : DeliveryQueue)
    → (drain_pending f send now q).1
      ≡ length (keep (λ d. not (is_waiting now d) && send d) (load_pending q))
unfolding drain_pending
drain_pending-length f send now q = drain-length f send now (load_pending q) q

abbrev pub no_faults : Faults
no_faults = record { write = false; write_failed = false; remove = false }

-- A delivery after one more failure.
abbrev pub retried : QueuedDelivery → (n : ℕ) → (error : Text) → QueuedDelivery
retried d n error = record d { retry_count = pos (n + 1); last_error = some error }

failed_once-lookup :
    (q : DeliveryQueue) (d : QueuedDelivery) (n : ℕ) (error other : Text)
    → let r = (failed_once no_faults q d.id (retried d n error)).0 in
      (lookup other r.pending ≡ (
        if text_eq d.id other
        then (if leb max_retries (n + 1) then none else some (some (retried d n error)))
        else lookup other q.pending))
      × (lookup other r.failed ≡ (
          if text_eq d.id other && leb max_retries (n + 1)
          then some (some (retried d n error))
          else lookup other q.failed))
unfolding failed_once is_spent write_delivery
failed_once-lookup q d n error other = elim (Bool-cases (leb max_retries (n + 1))) [
  | inl spent ↦
      rw (spent, failed_once)
        (
          lookup-erase d.id other q.pending,
          ground (arith, lookup-assign d.id other (some (retried d n error)) q.failed),
        )
  | inr again ↦
      rw (again, failed_once)
        (lookup-assign d.id other (some (retried d n error)) q.pending, ground arith)
]

fail_delivery-found :
    (f : Faults) (q : DeliveryQueue) (d : QueuedDelivery) (n : ℕ) (error : Text)
    → lookup d.id q.pending ≡ some (some d)
    → d.retry_count ≡ pos n
    → n < int_max
    → fail_delivery f q d.id error ≡ failed_once f q d.id (retried d n error)
unfolding fail_delivery one_more
fail_delivery-found f q d n error found count small =
    let more : one_more d.retry_count ≡ some (pos (n + 1)) = rw count (ground arith) in
    rw (found, fail_delivery) (rw (more, one_more) refl)

-- If nothing faults, failing a pending delivery that has been retried `n` times, with `n` below
-- the largest int, stores it under its identifier with `n + 1` retries and the error: as pending
-- if `n + 1` is below `max_retries`, and else among the failed ones instead. Every other file of
-- both folders stays as it was.
pub fail_delivery-lookup :
    (q : DeliveryQueue) (d : QueuedDelivery) (n : ℕ) (error other : Text)
    → lookup d.id q.pending ≡ some (some d)
    → d.retry_count ≡ pos n
    → n < int_max
    → (lookup other (fail_delivery no_faults q d.id error).0.pending ≡ (
        if text_eq d.id other
        then (if leb max_retries (n + 1) then none else some (some (retried d n error)))
        else lookup other q.pending))
      × (lookup other (fail_delivery no_faults q d.id error).0.failed ≡ (
          if text_eq d.id other && leb max_retries (n + 1)
          then some (some (retried d n error))
          else lookup other q.failed))
fail_delivery-lookup q d n error other found count small =
    rw (fail_delivery-found no_faults q d n error found count small)
      (failed_once-lookup q d n error other)

-- If a pending delivery fails that has been retried `n` times, with `n` below the largest int and
-- `n + 1` at least `max_retries`, and its file among the failed ones cannot be written while the
-- pending one can be removed, then success is reported, the delivery is no longer pending, and the
-- failed folder is as before.
pub fail_delivery-lost :
    (f : Faults) (q : DeliveryQueue) (d : QueuedDelivery) (n : ℕ) (error : Text)
    → lookup d.id q.pending ≡ some (some d)
    → d.retry_count ≡ pos n
    → n < int_max
    → max_retries ≤ n + 1
    → f.write_failed ≡ true
    → f.remove ≡ false
    → ((fail_delivery f q d.id error).1 ≡ ok tt)
      × (lookup d.id (fail_delivery f q d.id error).0.pending ≡ none)
      × ((fail_delivery f q d.id error).0.failed ≡ q.failed)
unfolding failed_once is_spent
fail_delivery-lost f q d n error found count small last broken removes =
    let spent : leb max_retries (n + 1) ≡ true = ground arith in
    rw (fail_delivery-found f q d n error found count small) (
      rw (spent, failed_once)
        (rw removes
          (refl, lookup-erase d.id d.id q.pending ∙ rw (text_eq_self d.id) refl, rw broken refl)))
