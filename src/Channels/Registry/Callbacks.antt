-- ===== src/Channels/Registry/Callbacks.antt =====
-- Every channel that is registered reports to the registry's callback.
use mylobsterpp.Prelude.{
  ◌≡◌, ◌≢◌, refl, inl, inr, Option, Option-cases, none, some, [], ◌∷◌, Text, Map, lookup, Entries,
  Entries-assign, Entries-erase, HasUniqueKeys, HasUniqueKeys-assign, HasUniqueKeys-erase,
}
use mylobsterpp.Channels.Registry.{
  Channel, ChannelRegistry, register_channel, unregister_channel, set_each, set_global_on_message,
  set_on_message, with_global,
}

module _ {W C : Type 0} where
  -- Where the callback is set, every channel has it, and every channel stands under its own name.
  abbrev ReportsTo : Option C → Text → Channel W C → Type 0
  ReportsTo none name channel = channel.name ≡ name
  ReportsTo (some cb) name channel = (channel.name ≡ name) × (channel.on_message ≡ some cb)

  abbrev pub Reports : ChannelRegistry W C → Type 0
  Reports r = Entries (ReportsTo r.global_callback) r.channels × HasUniqueKeys r.channels

  -- The registries that the operations make of an empty one.
  pub data Reach : ChannelRegistry W C → Type 0 where
    start : Reach (record { channels = []; global_callback = none })
    registered :
        {r : ChannelRegistry W C}
        → Reach r
        → (channel : Option (Channel W C)) → Reach (register_channel r channel)
    unregistered :
        {r : ChannelRegistry W C} → Reach r → (name : Text) → Reach (unregister_channel r name).0
    callback_set :
        {r : ChannelRegistry W C} → Reach r → (cb : Option C) → Reach (set_global_on_message r cb)

  named :
      (cb : Option C) (name : Text) (channel : Channel W C)
      → ReportsTo cb name channel
      → channel.name ≡ name
  named none name channel h = h
  named (some cb) name channel h = h.0

  with_global-ReportsTo :
      (cb : Option C) (channel : Channel W C) → ReportsTo cb channel.name (with_global cb channel)
  unfolding set_on_message
  with_global-ReportsTo none channel = refl
  with_global-ReportsTo (some cb) channel = (refl, refl)

  set_each-ReportsTo :
      (old cb : Option C) (m : Map (Channel W C))
      → Entries (ReportsTo old) m
      → Entries (ReportsTo cb) (set_each cb m)
  unfolding set_each
  set_each-ReportsTo old cb [] h = tt
  set_each-ReportsTo old none ((name, channel) ∷ m) h =
      (named old name channel h.0, set_each-ReportsTo old none m h.1)
  set_each-ReportsTo old (some cb) ((name, channel) ∷ m) h =
      ((named old name channel h.0, refl), set_each-ReportsTo old (some cb) m h.1)

  set_each-Entries :
      (P : Text → Type 0) (cb : Option C) (m : Map (Channel W C))
      → Entries (λ k _. P k) m
      → Entries (λ k _. P k) (set_each cb m)
  unfolding set_each
  set_each-Entries P cb [] h = tt
  set_each-Entries P cb ((name, channel) ∷ m) h = (h.0, set_each-Entries P cb m h.1)

  set_each-HasUniqueKeys :
      (cb : Option C) (m : Map (Channel W C)) → HasUniqueKeys m → HasUniqueKeys (set_each cb m)
  unfolding set_each
  set_each-HasUniqueKeys cb [] h = tt
  set_each-HasUniqueKeys cb ((name, channel) ∷ m) h =
      (set_each-Entries (λ k. name ≢ k) cb m h.0, set_each-HasUniqueKeys cb m h.1)

  -- In every registry that the operations reach, each channel stands under its own name, once, and
  -- reports to the callback, where one is set, whether it came before the callback or after it.
  pub Reach-Reports : {r : ChannelRegistry W C} → Reach r → Reports r
  unfolding register_channel unregister_channel set_global_on_message
  Reach-Reports start = (tt, tt)
  Reach-Reports (registered {r} h none) = Reach-Reports h
  Reach-Reports (registered {r} h (some channel)) =
      let (reports, unique) = Reach-Reports h in
      (
        Entries-assign (ReportsTo r.global_callback) channel.name _ r.channels
            (with_global-ReportsTo r.global_callback channel) reports,
        HasUniqueKeys-assign channel.name _ r.channels unique,
      )
  Reach-Reports (unregistered {r} h name) = elim (Option-cases (lookup name r.channels)) [
    | inl e ↦ rw (e, unregister_channel) (Reach-Reports h)
    | inr (channel, e) ↦
        let (reports, unique) = Reach-Reports h in
        rw (e, unregister_channel)
          (
            Entries-erase (ReportsTo r.global_callback) name r.channels reports,
            HasUniqueKeys-erase name r.channels unique,
          )
  ]
  Reach-Reports (callback_set {r} h cb) =
      let (reports, unique) = Reach-Reports h in
      (
        set_each-ReportsTo r.global_callback cb r.channels reports,
        set_each-HasUniqueKeys cb r.channels unique,
      )
