-- ===== src/Routing/TurnSource.antt =====
-- routing/turn_source.cpp and turn_source.hpp: where a reply goes, pinned to the turn that it answers.
use mylobsterpp.Prelude.{Option, some, ◌∷◌, Text}

pub record TurnSourceMetadata : Type 0 where
  pub channel : Option Text
  pub to : Option Text
  pub account_id : Option Text
  pub thread_id : Option Text

-- The turn's own value where it is there and not empty, and else the session's.
abbrev pinned : Option Text → Text → Text
pinned (some (c ∷ s)) session = c ∷ s
pinned _ session = session

unfoldable pub resolve_origin_message_provider :
    TurnSourceMetadata → (session_channel : Text) → Text
resolve_origin_message_provider turn session_channel = pinned turn.channel session_channel

unfoldable pub resolve_origin_to : TurnSourceMetadata → (session_to : Text) → Text
resolve_origin_to turn session_to = pinned turn.to session_to

unfoldable pub resolve_origin_account_id : TurnSourceMetadata → (session_account_id : Text) → Text
resolve_origin_account_id turn session_account_id = pinned turn.account_id session_account_id
