-- ===== src/Samples/Deliveries.antt =====
-- Samples for the delivery queue: one delivery that has been retried four times.
use mylobsterpp.Prelude.{
  ◌+◌, ◌≡◌, refl, Bool, true, not, ◌&&◌, none, some, [], ◌∷◌, arith, if◌then◌else◌, leb, length,
  keep, codes, text_eq, lookup, pos, Json,
}
use mylobsterpp.Infra.DeliveryQueue.{
  QueuedDelivery, DeliveryQueue, max_retries, fail_delivery, load_pending, is_waiting,
  drain_pending,
}
use mylobsterpp.Infra.DeliveryQueue.Laws.{
  no_faults, retried, drain_pending-length, fail_delivery-lookup,
}

abbrev last_chance : QueuedDelivery
last_chance = record {
  id = codes "d1";
  enqueued_at = 1000;
  channel = codes "slack";
  to = codes "u";
  account_id = [];
  payloads = (record { text = codes "hi"; attachments = []; extra = Json.null }) ∷ [];
  retry_count = pos 4;
  last_error = none;
}

abbrev one_pending : DeliveryQueue
one_pending = record { pending = (codes "d1", some last_chance) ∷ []; failed = [] }

found : lookup last_chance.id one_pending.pending ≡ some (some last_chance)
unfolding lookup text_eq
found = refl

fail_delivery-lookup_example :
    (lookup
        (codes "d1")
        (fail_delivery no_faults one_pending (codes "d1") (codes "timeout")).0.pending
      ≡ (if text_eq (codes "d1") (codes "d1")
          then (if leb max_retries (4 + 1)
              then none
              else some (some (retried last_chance 4 (codes "timeout"))))
          else lookup (codes "d1") one_pending.pending))
    × (lookup
          (codes "d1")
          (fail_delivery no_faults one_pending (codes "d1") (codes "timeout")).0.failed
        ≡ (if text_eq (codes "d1") (codes "d1") && leb max_retries (4 + 1)
            then some (some (retried last_chance 4 (codes "timeout")))
            else lookup (codes "d1") one_pending.failed))
fail_delivery-lookup_example =
    fail_delivery-lookup one_pending last_chance 4 (codes "timeout") (codes "d1") found refl
      (omega arith)

abbrev sends_all : QueuedDelivery → Bool
sends_all _ = true

drain_pending-length_example :
    (drain_pending no_faults sends_all 700000 one_pending).1
    ≡ length (keep (λ d. not (is_waiting 700000 d) && sends_all d) (load_pending one_pending))
drain_pending-length_example = drain_pending-length no_faults sends_all 700000 one_pending
