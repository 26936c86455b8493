-- ===== src/Channels/DeliveredChannel.antt =====
-- channels/delivered_channel.cpp and delivered_channel.hpp: a channel with the hooks and the delivery
-- queue around its `send`. The channel inside acts on a world `W`. The run of the `message_sent` hooks
-- behind a send is left out: its result is dropped, and a hook is a function of its context here.
pub mod Outcome
use mylobsterpp.Prelude.{
  ℕ, Bool, true, false, Option, none, some, List, [], ◌∷◌, if◌then◌else◌, Text, codes, pos, Json,
  Members, object, text, boolean, no_members, member, find_member, Result, VoidResult, ok, err,
  undefined, what,
}
use mylobsterpp.Gateway.Hooks.{HookRegistry, SortHooks, run_before}
use mylobsterpp.Channels.Message.{OutgoingMessage}
use mylobsterpp.Infra.DeliveryQueue.{
  QueuedDelivery, DeliveryQueue, Faults, enqueue, ack, fail_delivery,
}

pub record InnerChannel (W : Type 0) : Type 0 where
  pub name : Text
  pub send : W → OutgoingMessage → W × VoidResult

-- What the queue makes of a send: whether its calls of the operating system fault, and the identifier
-- and the time that it draws.
pub record Draw : Type 0 where
  pub faults : Faults
  pub uuid : Text
  pub now : ℕ

-- What the hooks before a message decide.
pub data Decision : Type 0 where
  cancelled : Decision
  goes_on : OutgoingMessage → Decision
  thrown : Decision

unfoldable pub sending_context : (channel : Text) → OutgoingMessage → Json
sending_context channel msg = object (
    member (codes "channel") (text channel) (
      member (codes "to") (text msg.recipient_id)
        (member (codes "content") (text msg.text) no_members)))

abbrev with_content : OutgoingMessage → Option Json → OutgoingMessage
with_content msg (some (text t)) = record msg { text = t }
with_content msg _ = msg

-- `hooked.value("cancel", false)` throws on a value that is no Boolean, or where `hooked` is no object.
abbrev by_cancel : OutgoingMessage → Members → Option Json → Decision
by_cancel msg ms none = goes_on (with_content msg (find_member (codes "content") ms))
by_cancel msg ms (some (boolean true)) = cancelled
by_cancel msg ms (some (boolean false)) =
    goes_on (with_content msg (find_member (codes "content") ms))
by_cancel msg ms (some _) = thrown

unfoldable pub decide : OutgoingMessage → (hooked : Json) → Decision
unfolding find_member
decide msg (object ms) = by_cancel msg ms (find_member (codes "cancel") ms)
decide msg _ = thrown

unfoldable pub before_send :
    SortHooks → Option HookRegistry → (channel : Text) → OutgoingMessage → Decision
unfolding decide run_before sending_context
before_send sort none channel msg = goes_on msg
before_send sort (some hooks) channel msg =
    decide msg (run_before sort hooks (codes "message_sending") (sending_context channel msg))

unfoldable pub new_delivery : Draw → (channel : Text) → OutgoingMessage → QueuedDelivery
new_delivery draw channel msg = record {
  id = draw.uuid;
  enqueued_at = draw.now;
  channel = channel;
  to = msg.recipient_id;
  account_id = [];
  payloads = (record { text = msg.text; attachments = msg.attachments; extra = msg.extra }) ∷ [];
  retry_count = pos 0;
  last_error = none;
}

-- An identifier, empty where the delivery could not be stored.
abbrev id_or_empty : Result Text → Text
id_or_empty (ok id) = id
id_or_empty _ = []

unfoldable pub store_first :
    Draw → (channel : Text) → OutgoingMessage → DeliveryQueue → DeliveryQueue × Text
unfolding enqueue new_delivery
store_first draw channel msg q =
    let (r, id) = enqueue draw.faults q draw.uuid draw.now (new_delivery draw channel msg) in
    (r, id_or_empty id)

-- The delivery is acknowledged or failed; what the queue reports is dropped.
unfoldable pub settle : Draw → DeliveryQueue → (id : Text) → VoidResult → DeliveryQueue
unfolding ack fail_delivery what
settle draw q [] result = q
settle draw q (c ∷ id) (ok _) = (ack draw.faults q (c ∷ id)).0
settle draw q (c ∷ id) (err e) = (fail_delivery draw.faults q (c ∷ id) (what e)).0
settle draw q (c ∷ id) undefined = q

module _ {W : Type 0} (inner : InnerChannel W) where
  unfoldable pub deliver :
      Draw → Option DeliveryQueue → W → OutgoingMessage → Option DeliveryQueue × W × VoidResult
  unfolding store_first settle
  deliver draw none w msg = let (v, result) = inner.send w msg in (none, v, result)
  deliver draw (some q) w msg =
      let (r, id) = store_first draw inner.name msg q in
      let (v, result) = inner.send w msg in (some (settle draw r id result), v, result)

  -- `none` where an exception leaves `send`, before anything is stored or sent.
  unfoldable pub send :
      SortHooks
      → Option HookRegistry
      → Draw
      → Option DeliveryQueue
      → W
      → OutgoingMessage
      → Option (Option DeliveryQueue × W × VoidResult)
  unfolding before_send deliver
  send sort hooks draw queue w msg = elim (before_send sort hooks inner.name msg) [
    | thrown ↦ none
    | cancelled ↦ some (queue, w, ok tt)
    | goes_on changed ↦ some (deliver draw queue w changed)
  ]
