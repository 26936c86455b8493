-- ===== src/Channels/Registry.antt =====
-- channels/registry.cpp and registry.hpp: the channels by their names. A callback is of a type `C`; that
-- a channel starts or stops acts on a world `W`, and what it throws reaches the log only. Each
-- operation holds the lock and is taken whole.
pub mod Callbacks
use mylobsterpp.Prelude.{
  ℕ, Bool, true, false, Option, none, some, List, [], ◌∷◌, map, length, Text, Map, lookup, assign,
  erase,
}

pub record Channel (W C : Type 0) : Type 0 where
  pub name : Text
  pub on_message : Option C
  pub start : W → W
  pub stop : W → W

-- `none` is an empty `std::function`.
pub record ChannelRegistry (W C : Type 0) : Type 0 where
  pub channels : Map (Channel W C)
  pub global_callback : Option C

abbrev is_nil {ℓ} : {A : Type ℓ} → List A → Bool
is_nil [] = true
is_nil (x ∷ xs) = false

module _ {W C : Type 0} where
  unfoldable pub set_on_message : Option C → Channel W C → Channel W C
  set_on_message cb channel = record channel { on_message = cb }

  abbrev pub with_global : Option C → Channel W C → Channel W C
  with_global none channel = channel
  with_global (some cb) channel = set_on_message (some cb) channel

  -- `none` is a null pointer.
  unfoldable pub register_channel : ChannelRegistry W C → Option (Channel W C) → ChannelRegistry W C
  unfolding set_on_message
  register_channel r none = r
  register_channel r (some channel) = record r {
    channels = assign channel.name (with_global r.global_callback channel) r.channels;
  }

  unfoldable pub unregister_channel :
      ChannelRegistry W C → (name : Text) → ChannelRegistry W C × Option (Channel W C)
  unregister_channel r name = elim (lookup name r.channels) [
    | none ↦ (r, none)
    | some channel ↦ (record r { channels = erase name r.channels }, some channel)
  ]

  unfoldable pub get : ChannelRegistry W C → (name : Text) → Option (Channel W C)
  get r name = lookup name r.channels

  unfoldable pub list : ChannelRegistry W C → List Text
  list r = map (λ (e : Text × Channel W C). e.0) r.channels

  unfoldable pub size : ChannelRegistry W C → ℕ
  size r = length r.channels

  unfoldable pub empty : ChannelRegistry W C → Bool
  empty r = is_nil r.channels

  unfoldable pub start_each : Map (Channel W C) → W → W
  start_each [] w = w
  start_each ((name, channel) ∷ channels) w = start_each channels (channel.start w)

  unfoldable pub start_all : ChannelRegistry W C → W → W
  unfolding start_each
  start_all r w = start_each r.channels w

  unfoldable pub stop_each : Map (Channel W C) → W → W
  stop_each [] w = w
  stop_each ((name, channel) ∷ channels) w = stop_each channels (channel.stop w)

  unfoldable pub stop_all : ChannelRegistry W C → W → W
  unfolding stop_each
  stop_all r w = stop_each r.channels w

  unfoldable pub set_each : Option C → Map (Channel W C) → Map (Channel W C)
  unfolding set_on_message
  set_each cb [] = []
  set_each cb ((name, channel) ∷ channels) =
      (name, set_on_message cb channel) ∷ set_each cb channels

  unfoldable pub set_global_on_message : ChannelRegistry W C → Option C → ChannelRegistry W C
  unfolding set_each
  set_global_on_message r cb = record { channels = set_each cb r.channels; global_callback = cb }
