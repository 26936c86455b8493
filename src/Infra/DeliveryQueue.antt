-- ===== src/Infra/DeliveryQueue.antt =====
-- infra/delivery_queue.cpp and delivery_queue.hpp: the folders of pending and of failed deliveries, by
-- the identifier in a file's name. A file stands as what reading it gives, `none` where its JSON does
-- not parse or convert: the JSON form itself is left out. Times are in milliseconds, and a time of 0 is
-- the clock's epoch.
pub mod Laws
use mylobsterpp.Prelude.{
  ℕ, zero, suc, min, length, get_elem?, ◌+◌, ◌*◌, ◌-◌, Bool, true, false, not, ◌&&◌, Option, none,
  some, String, List, [], ◌∷◌, if◌then◌else◌, ltb, leb, ◌==◌, sort_by, Text, codes, Map, Json,
  lookup, assign, erase, ℤ, pos, negsuc, int_max, Result, VoidResult, ok, err, undefined, fail,
  io_error, not_found,
}
use mylobsterpp.Channels.Message.{Attachment}

pub record DeliveryPayload : Type 0 where
  pub text : Text
  pub attachments : List Attachment
  pub extra : Json

pub record QueuedDelivery : Type 0 where
  pub id : Text
  pub enqueued_at : ℕ
  pub channel : Text
  pub to : Text
  pub account_id : Text
  pub payloads : List DeliveryPayload
  pub retry_count : ℤ
  pub last_error : Option Text

abbrev pub Folder : Type 0
Folder = Map (Option QueuedDelivery)

pub record DeliveryQueue : Type 0 where
  pub pending : Folder
  pub failed : Folder

-- Which writes and removals of the operating system do not succeed.
pub record Faults : Type 0 where
  pub write : Bool
  pub write_failed : Bool
  pub remove : Bool

abbrev pub max_retries : ℕ
max_retries = 5

unfoldable pub write_delivery : Faults → DeliveryQueue → QueuedDelivery → DeliveryQueue × VoidResult
write_delivery f q d =
    if f.write
    then (q, fail io_error "Failed to write delivery file")
    else (record q { pending = assign d.id (some d) q.pending }, ok tt)

abbrev or_else : Text → Text → Text
or_else [] uuid = uuid
or_else (c ∷ id) uuid = c ∷ id

unfoldable pub completed : (uuid : Text) (now : ℕ) → QueuedDelivery → QueuedDelivery
completed uuid now d = record d {
  id = or_else d.id uuid;
  enqueued_at = if d.enqueued_at == 0 then now else d.enqueued_at;
}

abbrev with_id : Text → VoidResult → Result Text
with_id id (ok _) = ok id
with_id id (err e) = err e
with_id id undefined = undefined

unfoldable pub enqueue :
    Faults → DeliveryQueue → (uuid : Text) (now : ℕ) → QueuedDelivery → DeliveryQueue × Result Text
unfolding write_delivery completed
enqueue f q uuid now d =
    let (r, result) = write_delivery f q (completed uuid now d) in
    (r, with_id (completed uuid now d).id result)

unfoldable pub ack : Faults → DeliveryQueue → (id : Text) → DeliveryQueue × VoidResult
ack f q id = elim (lookup id q.pending) [
  | none ↦ (q, fail not_found "Delivery not found")
  | some _ ↦
      if f.remove
      then (q, fail io_error "Failed to remove delivery file")
      else (record q { pending = erase id q.pending }, ok tt)
]

-- `retry_count++`: `none` where it overflows.
unfoldable pub one_more : ℤ → Option ℤ
one_more (pos n) = if ltb n int_max then some (pos (n + 1)) else none
one_more (negsuc zero) = some (pos 0)
one_more (negsuc (suc n)) = some (negsuc n)

unfoldable pub is_spent : ℤ → Bool
is_spent (pos n) = leb max_retries n
is_spent (negsuc n) = false

-- The failed folder once the delivery is written to it; the stream is not checked.
abbrev pub kept_failed : Faults → DeliveryQueue → (id : Text) → QueuedDelivery → Folder
kept_failed f q id d = if f.write_failed then q.failed else assign id (some d) q.failed

-- The delivery is moved to the failed ones, or updated in place; the result of the update is dropped.
unfoldable pub failed_once :
    Faults → DeliveryQueue → (id : Text) → QueuedDelivery → DeliveryQueue × VoidResult
unfolding is_spent
failed_once f q id d =
    if not (is_spent d.retry_count)
    then ((write_delivery f q d).0, ok tt)
    else if f.remove
    then (record q { failed = kept_failed f q id d }, fail io_error "Failed to update delivery")
    else (record { pending = erase id q.pending; failed = kept_failed f q id d }, ok tt)

unfoldable pub fail_delivery :
    Faults → DeliveryQueue → (id error : Text) → DeliveryQueue × VoidResult
unfolding one_more failed_once
fail_delivery f q id error = elim (lookup id q.pending) [
  | none ↦ (q, fail not_found "Delivery not found")
  | some none ↦ (q, fail io_error "Failed to update delivery")
  | some (some d) ↦ elim (one_more d.retry_count) [
    | none ↦ (q, undefined)
    | some n ↦ failed_once f q id (record d { retry_count = n; last_error = some error })
  ]
]

unfoldable pub readable : Folder → List QueuedDelivery
readable [] = []
readable ((_, none) ∷ files) = readable files
readable ((_, some d) ∷ files) = d ∷ readable files

-- Oldest first; deliveries of one time keep the folder's order here.
unfoldable pub load_pending : DeliveryQueue → List QueuedDelivery
unfolding readable
load_pending q = sort_by (λ a b. ltb a.enqueued_at b.enqueued_at) (readable q.pending)

abbrev pub backoff_seconds : List ℕ
backoff_seconds = 5 ∷ 25 ∷ 120 ∷ 600 ∷ []

unfoldable pub backoff_delay : (retry_count : ℤ) → ℕ
backoff_delay (negsuc _) = 0
backoff_delay (pos n) =
    if n == 0
    then 0
    else elim (get_elem? backoff_seconds (min (n - 1) (length backoff_seconds - 1))) [
      | none ↦ 0
      | some seconds ↦ seconds
    ]

unfoldable pub is_waiting : (now : ℕ) → QueuedDelivery → Bool
unfolding backoff_delay
is_waiting now d = ltb now (d.enqueued_at + backoff_delay d.retry_count * 1000)

-- The loop over what was loaded; `send` is false also where it throws. The results of `ack` and `fail`
-- are dropped, an overflow of a retry count among them.
unfoldable pub drain :
    Faults
    → (send : QueuedDelivery → Bool) → (now : ℕ) → List QueuedDelivery
    → DeliveryQueue
    → DeliveryQueue × ℕ
unfolding is_waiting
drain f send now [] q = (q, 0)
drain f send now (d ∷ ds) q =
    let skipped = drain f send now ds q in
    let acked = drain f send now ds (ack f q d.id).0 in
    let missed =
      drain f send now ds (fail_delivery f q d.id (codes "drain_pending: send failed")).0 in
    if is_waiting now d then skipped else if send d then (acked.0, suc acked.1) else missed

unfoldable pub drain_pending :
    Faults → (send : QueuedDelivery → Bool) → (now : ℕ) → DeliveryQueue → DeliveryQueue × ℕ
unfolding drain load_pending
drain_pending f send now q = drain f send now (load_pending q) q
