-- ===== src/Samples/Pools.antt =====
-- Samples for channels and browsers.
use mylobsterpp.Prelude.{
  arith, ◌+◌, ℕ, ◌⊎◌, ◌≤◌, ◌≡◌, ◌↔◌, true, false, ◌∷◌, none, some, [], if◌then◌else◌, Text, codes,
  text_eq, lookup, Json, ok, fail, io_error,
}
use mylobsterpp.Infra.DeliveryQueue.{DeliveryQueue}
use mylobsterpp.Channels.Message.{OutgoingMessage}
use mylobsterpp.Channels.DeliveredChannel.{InnerChannel, deliver}
use mylobsterpp.Channels.DeliveredChannel.Outcome.{drawn, left, deliver-lookup}
use mylobsterpp.Channels.TypingGuard.{fresh, reset}
use mylobsterpp.Channels.TypingGuard.History.{started, HasTwoFailures, started-tripped_iff}
use mylobsterpp.Channels.Registry.{
  Channel, ChannelRegistry, register_channel, set_global_on_message,
}
use mylobsterpp.Channels.Registry.Callbacks.{registered, callback_set, Reports, Reach-Reports}
use mylobsterpp.Channels.Registry.Callbacks
use mylobsterpp.Browser.Pool.{
  BrowserPool, started as launched, acquire, release, total_count, max_size,
}
use mylobsterpp.Browser.Pool.Reuse.{ids, IsUnique}
use mylobsterpp.Browser.Pool.Lending.{IsBounded, Acquired, acquire-Acquired}
use mylobsterpp.Browser.Pool.Bounded.{
  Reach, Clashes, empty, acquired, released, total_count-le-max_size,
}

-- A channel that counts the messages and accepts none.
abbrev refusing : InnerChannel ℕ
refusing = record { name = codes "slack"; send = λ w msg. (w + 1, fail io_error "down") }

abbrev hello : OutgoingMessage
hello = record {
  channel = codes "slack";
  recipient_id = codes "u";
  text = codes "hi";
  attachments = [];
  reply_to = none;
  thread_id = none;
  extra = Json.null;
}

abbrev no_deliveries : DeliveryQueue
no_deliveries = record { pending = []; failed = [] }

deliver-lookup_example :
    (r : DeliveryQueue) × (deliver refusing
        (drawn b'd' (codes "1") 1000)
        (some no_deliveries)
        0
        hello
      ≡ (some r, 1, fail io_error "down"))
    × (lookup (codes "d1") r.pending ≡ (
        if text_eq (codes "d1") (codes "d1")
        then left (codes "d1") 1000 (codes "slack") hello (fail io_error "down")
        else lookup (codes "d1") no_deliveries.pending))
    × (lookup (codes "d1") r.failed ≡ lookup (codes "d1") no_deliveries.failed)
deliver-lookup_example =
    deliver-lookup refusing b'd' (codes "1") 1000 no_deliveries 0 hello (codes "d1")

started-tripped_iff_example :
    ((started (reset fresh) (false ∷ true ∷ false ∷ [])).tripped ≡ true)
    ↔ HasTwoFailures (false ∷ true ∷ false ∷ [])
started-tripped_iff_example = started-tripped_iff fresh (false ∷ true ∷ false ∷ [])

abbrev bot : Text → Channel Unit ℕ
bot name = record { name = name; on_message = none; start = λ w. w; stop = λ w. w }

abbrev two_channels : ChannelRegistry Unit ℕ
two_channels =
    register_channel
      (set_global_on_message
        (register_channel (record { channels = []; global_callback = none })
          (some (bot (codes "a"))))
        (some 7))
      (some (bot (codes "b")))

Reach-Reports_example : Reports two_channels
Reach-Reports_example = Reach-Reports (
    registered (callback_set (registered Callbacks.start (some (bot (codes "a")))) (some 7))
      (some (bot (codes "b"))))

abbrev no_browsers : BrowserPool
no_browsers = record { pool_size = 1; instances = []; next_debug_port = 9222 }

no_browsers-IsBounded : IsBounded no_browsers
no_browsers-IsBounded = (tt, omega arith)

acquire-Acquired_example :
    IsBounded (acquire no_browsers 5 (launched (ok (codes "c1"))) (ok tt)).0
    × Acquired no_browsers (acquire no_browsers 5 (launched (ok (codes "c1"))) (ok tt))
acquire-Acquired_example =
    acquire-Acquired no_browsers 5 (launched (ok (codes "c1"))) (ok tt) tt no_browsers-IsBounded

abbrev given_back : BrowserPool
given_back = release (acquire no_browsers 5 (launched (ok (codes "c1"))) (ok tt)).0 (codes "c1") 6

abbrev given_back-Reach : Reach given_back
given_back-Reach =
    released (acquired (empty 1 9222) 5 (launched (ok (codes "c1"))) (ok tt)) (codes "c1") 6

total_count-le-max_size_example :
    (total_count given_back ≤ max_size given_back)
    × (IsUnique (ids given_back.instances) ⊎ Clashes given_back-Reach)
total_count-le-max_size_example = total_count-le-max_size given_back-Reach
