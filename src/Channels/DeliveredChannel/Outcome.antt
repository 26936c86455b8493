-- ===== src/Channels/DeliveredChannel/Outcome.antt =====
-- What a send leaves in the queue.
use mylobsterpp.Prelude.{
  ℕ, ◌==◌, ◌≡◌, refl, ap, ◌∙◌, inl, inr, Bool, true, false, ◌&&◌, Bool-cases, Option, none, some,
  ◌∷◌, [], pos, arith, if◌then◌else◌, Text, text_eq, text_eq_self, Map, lookup, assign, erase,
  lookup-assign, lookup-erase, VoidResult, ok, err, undefined, what,
}
use mylobsterpp.Infra.DeliveryQueue.{
  QueuedDelivery, DeliveryQueue, completed, enqueue, write_delivery, ack,
}
use mylobsterpp.Infra.DeliveryQueue.Laws.{no_faults, fail_delivery-lookup}
use mylobsterpp.Channels.Message.{OutgoingMessage}
use mylobsterpp.Channels.DeliveredChannel.{
  InnerChannel, Draw, new_delivery, store_first, settle, deliver,
}

-- A draw whose calls do not fault, with an identifier that is not empty.
abbrev pub drawn : (c : ℕ) (u : Text) (now : ℕ) → Draw
drawn c u now = record { faults = no_faults; uuid = c ∷ u; now = now }

same_time : (b : Bool) (now : ℕ) → (if b then now else now) ≡ now
same_time true now = refl
same_time false now = refl

-- The queue once the delivery is stored.
abbrev stored : Draw → (channel : Text) → OutgoingMessage → DeliveryQueue → DeliveryQueue
stored draw channel msg q = record q {
  pending = assign draw.uuid (some (new_delivery draw channel msg)) q.pending;
}

store_first-stored :
    (c : ℕ) (u : Text) (now : ℕ) (channel : Text) (msg : OutgoingMessage) (q : DeliveryQueue)
    → store_first (drawn c u now) channel msg q ≡ (stored (drawn c u now) channel msg q, c ∷ u)
unfolding store_first enqueue write_delivery completed new_delivery
store_first-stored c u now channel msg q =
    ap
      (λ at. (
        record q {
          pending =
              assign (c ∷ u)
                (some (record (new_delivery (drawn c u now) channel msg) { enqueued_at = at }))
                q.pending;
        },
        c ∷ u,
      ))
      (same_time (now == 0) now)

-- A delivery of the message after some failures.
abbrev pub delivery_of :
    (id : Text) (now : ℕ) (channel : Text)
    → OutgoingMessage
    → (retries : ℕ) → (error : Option Text) → QueuedDelivery
delivery_of id now channel msg retries error = record {
  id = id;
  enqueued_at = now;
  channel = channel;
  to = msg.recipient_id;
  account_id = [];
  payloads = (record { text = msg.text; attachments = msg.attachments; extra = msg.extra }) ∷ [];
  retry_count = pos retries;
  last_error = error;
}

-- What stands in the folder under the identifier once the channel has answered.
abbrev pub left :
    (id : Text) (now : ℕ) (channel : Text)
    → OutgoingMessage
    → VoidResult
    → Option (Option QueuedDelivery)
left id now channel msg (ok _) = none
left id now channel msg (err e) = some (some (delivery_of id now channel msg 1 (some (what e))))
left id now channel msg undefined = some (some (delivery_of id now channel msg 0 none))

found :
    (k : Text) (v : Option QueuedDelivery) (m : Map (Option QueuedDelivery))
    → lookup k (assign k v m) ≡ some v
found k v m = lookup-assign k k v m ∙ rw (text_eq_self k) refl

ack-found :
    (q : DeliveryQueue) (id : Text) (d : Option QueuedDelivery)
    → lookup id q.pending ≡ some d
    → (ack no_faults q id).0 ≡ record q { pending = erase id q.pending }
unfolding ack
ack-found q id d e = rw (e, ack) refl

-- Behind the assignment of a key only the lookup of that key differs.
over_assign :
    (k other : Text) (v : Option QueuedDelivery) (m : Map (Option QueuedDelivery))
    (x : Option (Option QueuedDelivery))
    → (if text_eq k other then x else lookup other (assign k v m))
      ≡ (if text_eq k other then x else lookup other m)
over_assign k other v m x = elim (Bool-cases (text_eq k other)) [
  | inl same ↦ rw same refl
  | inr differ ↦ rw differ (lookup-assign k other v m ∙ rw differ refl)
]

never : (b : Bool) (x y : Option (Option QueuedDelivery)) → (if b && false then x else y) ≡ y
never true x y = refl
never false x y = refl

settle-lookup :
    (c : ℕ) (u : Text) (now : ℕ) (channel : Text) (msg : OutgoingMessage) (q : DeliveryQueue)
    (result : VoidResult) (other : Text)
    → let draw = drawn c u now in
      let r = settle draw (stored draw channel msg q) (c ∷ u) result in
      (lookup other r.pending ≡ (
        if text_eq (c ∷ u) other
        then left (c ∷ u) now channel msg result
        else lookup other q.pending))
      × (lookup other r.failed ≡ lookup other q.failed)
unfolding settle new_delivery
settle-lookup c u now channel msg q (ok _) other =
    let d = new_delivery (drawn c u now) channel msg in
    rw
      (ack-found (stored (drawn c u now) channel msg q) (c ∷ u) (some d)
        (found (c ∷ u) (some d) q.pending))
      (
        lookup-erase (c ∷ u) other (assign (c ∷ u) (some d) q.pending)
            ∙ over_assign (c ∷ u) other (some d) q.pending none,
        refl,
      )
settle-lookup c u now channel msg q (err e) other =
    let d = new_delivery (drawn c u now) channel msg in
    let (pending, failed) =
      fail_delivery-lookup (stored (drawn c u now) channel msg q) d 0 (what e) other
        (found (c ∷ u) (some d) q.pending) refl (omega arith) in
    (
      pending ∙ over_assign (c ∷ u) other (some d) q.pending _,
      failed ∙ never (text_eq (c ∷ u) other) _ _,
    )
settle-lookup c u now channel msg q undefined other =
    let d = new_delivery (drawn c u now) channel msg in
    (lookup-assign (c ∷ u) other (some d) q.pending, refl)

-- If the queue's calls do not fault and the drawn identifier is not empty, sending a message leaves the
-- queue as it was where the channel accepts it, but for an older delivery of the same identifier; where
-- the channel reports an error, what is pending under the identifier is a delivery to the message's
-- recipient with the time and the channel's name, one payload with the message's text, attachments and
-- extra, one retry and the error. What the channel reports is reported.
pub deliver-lookup :
    {W : Type 0} (inner : InnerChannel W) (c : ℕ) (u : Text) (now : ℕ) (q : DeliveryQueue) (w : W)
    (msg : OutgoingMessage) (other : Text)
    → let (v, result) = inner.send w msg in
      (r : DeliveryQueue) × (deliver inner (drawn c u now) (some q) w msg ≡ (some r, v, result))
      × (lookup other r.pending ≡ (
          if text_eq (c ∷ u) other
          then left (c ∷ u) now inner.name msg result
          else lookup other q.pending))
      × (lookup other r.failed ≡ lookup other q.failed)
unfolding deliver
deliver-lookup inner c u now q w msg other =
    let result = (inner.send w msg).1 in
    let draw = drawn c u now in
    let (pending, failed) = settle-lookup c u now inner.name msg q result other in
    (
      settle draw (stored draw inner.name msg q) (c ∷ u) result,
      ap
          (λ (s : DeliveryQueue × Text).
            (some (settle draw s.0 s.1 result), (inner.send w msg).0, result))
          (store_first-stored c u now inner.name msg q),
      pending,
      failed,
    )
