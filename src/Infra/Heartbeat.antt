-- ===== src/Infra/Heartbeat.antt =====
-- infra/heartbeat.cpp and heartbeat.hpp: the kind of chat that a heartbeat goes to, and whether it is
-- blocked.
use mylobsterpp.Prelude.{
  Bool, true, false, ◌&&◌, ◌==◌, Option, none, some, [], ◌∷◌, if◌then◌else◌, ltb, leb, length, Text,
  codes, text_eq, starts_with,
}
use mylobsterpp.Gateway.Hooks.Webhook.{has_part}

pub data ChatType : Type 0 where
  direct group channel unknown_type : ChatType

pub data DirectPolicy : Type 0 where
  allowed blocked : DirectPolicy

unfoldable pub all_digits : Text → Bool
all_digits [] = true
all_digits (c ∷ s) = leb b'0' c && leb c b'9' && all_digits s

unfoldable pub infer_telegram_target_chat_type : (target : Text) → ChatType
unfolding all_digits
infer_telegram_target_chat_type [] = unknown_type
infer_telegram_target_chat_type (c ∷ s) =
    if c == b'-'
    then (if starts_with (c ∷ s) (codes "-100") then channel else group)
    else if all_digits (c ∷ s)
    then direct
    else if starts_with (c ∷ s) (codes "@")
    then channel
    else unknown_type

unfoldable pub infer_discord_target_chat_type : (target : Text) → (is_dm : Bool) → ChatType
infer_discord_target_chat_type [] is_dm = unknown_type
infer_discord_target_chat_type (c ∷ s) is_dm = if is_dm then direct else channel

unfoldable pub infer_slack_target_chat_type : (target : Text) → ChatType
infer_slack_target_chat_type [] = unknown_type
infer_slack_target_chat_type (c ∷ s) =
    if c == b'D'
    then direct
    else if c == b'C'
    then channel
    else if c == b'G'
    then group
    else unknown_type

unfoldable pub infer_whatsapp_target_chat_type : (target : Text) → ChatType
unfolding has_part
infer_whatsapp_target_chat_type [] = unknown_type
infer_whatsapp_target_chat_type (c ∷ s) =
    if has_part (codes "@g.us") (c ∷ s)
    then group
    else if has_part (codes "@s.whatsapp.net") (c ∷ s)
    then direct
    else if has_part (codes "@broadcast") (c ∷ s)
    then channel
    else unknown_type

unfoldable pub infer_signal_target_chat_type : (target : Text) → ChatType
infer_signal_target_chat_type [] = unknown_type
infer_signal_target_chat_type (c ∷ s) =
    if starts_with (c ∷ s) (codes "+")
    then direct
    else if ltb 20 (length (c ∷ s))
    then group
    else unknown_type

unfoldable pub resolve_heartbeat_delivery_chat_type :
    (channel_type target : Text) (is_dm_hint : Bool) → ChatType
unfolding infer_telegram_target_chat_type infer_discord_target_chat_type
    infer_slack_target_chat_type infer_whatsapp_target_chat_type infer_signal_target_chat_type
resolve_heartbeat_delivery_chat_type channel_type target is_dm_hint =
    if text_eq channel_type (codes "telegram")
    then infer_telegram_target_chat_type target
    else if text_eq channel_type (codes "discord")
    then infer_discord_target_chat_type target is_dm_hint
    else if text_eq channel_type (codes "slack")
    then infer_slack_target_chat_type target
    else if text_eq channel_type (codes "whatsapp")
    then infer_whatsapp_target_chat_type target
    else if text_eq channel_type (codes "signal")
    then infer_signal_target_chat_type target
    else unknown_type

unfoldable pub should_block_heartbeat_dm : ChatType → Bool
should_block_heartbeat_dm direct = true
should_block_heartbeat_dm _ = false

unfoldable pub effective_policy : DirectPolicy → Option DirectPolicy → DirectPolicy
effective_policy policy none = policy
effective_policy policy (some agent) = agent

abbrev pub is_blocked : DirectPolicy → Bool
is_blocked blocked = true
is_blocked allowed = false

unfoldable pub should_block_heartbeat_delivery :
    ChatType → (policy : DirectPolicy) (agent_override : Option DirectPolicy) → Bool
unfolding effective_policy
should_block_heartbeat_delivery direct policy agent_override =
    is_blocked (effective_policy policy agent_override)
should_block_heartbeat_delivery _ policy agent_override = false
