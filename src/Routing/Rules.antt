-- ===== src/Routing/Rules.antt =====
-- routing/rules.cpp and rules.hpp: when a rule matches a message. The find of `std::regex` is an
-- argument: `none` is a `regex_error`. The metadata of a message, which no rule reads, is left out.
use mylobsterpp.Prelude.{
  ℤ, Bool, true, false, Option, none, some, ◌++◌, Text, codes, text_eq, starts_with,
}

pub data BindingScope : Type 0 where
  peer guild team global : BindingScope

pub record BindingContext : Type 0 where
  pub peer_id : Text
  pub guild_id : Option Text
  pub team_id : Option Text

pub record IncomingMessage : Type 0 where
  pub channel : Text
  pub sender_id : Text
  pub text : Text
  pub binding : Option BindingContext

pub data RoutingRule : Type 0 where
  prefix_rule : (prefix : Text) (priority : ℤ) → RoutingRule
  regex_rule : (pattern : Text) (priority : ℤ) → RoutingRule
  channel_rule : (channel : Text) (priority : ℤ) → RoutingRule
  scope_rule : (scope : BindingScope) (target_id : Text) (priority : ℤ) → RoutingRule

abbrev pub RegexSearch : Type 0
RegexSearch = (pattern text : Text) → Option Bool

unfoldable pub priority : RoutingRule → ℤ
priority (prefix_rule _ n) = n
priority (regex_rule _ n) = n
priority (channel_rule _ n) = n
priority (scope_rule _ _ n) = n

unfoldable pub rule_name : RoutingRule → Text
rule_name (prefix_rule prefix _) = codes "prefix:" ++ prefix
rule_name (regex_rule pattern _) = codes "regex:" ++ pattern
rule_name (channel_rule channel _) = codes "channel:" ++ channel
rule_name (scope_rule peer target _) = codes "scope:peer:" ++ target
rule_name (scope_rule guild target _) = codes "scope:guild:" ++ target
rule_name (scope_rule team target _) = codes "scope:team:" ++ target
rule_name (scope_rule global target _) = codes "scope:global"

abbrev is_text : Option Text → Text → Bool
is_text none target = false
is_text (some t) target = text_eq t target

unfoldable pub scope_matches : BindingScope → (target : Text) → Option BindingContext → Bool
scope_matches global target binding = true
scope_matches peer target (some ctx) = text_eq ctx.peer_id target
scope_matches guild target (some ctx) = is_text ctx.guild_id target
scope_matches team target (some ctx) = is_text ctx.team_id target
scope_matches _ target none = false

unfoldable pub matches : RegexSearch → RoutingRule → IncomingMessage → Bool
unfolding scope_matches
matches find (prefix_rule prefix _) msg = starts_with msg.text prefix
matches find (regex_rule pattern _) msg = elim (find pattern msg.text) [
  | none ↦ false
  | some found ↦ found
]
matches find (channel_rule channel _) msg = text_eq msg.channel channel
matches find (scope_rule scope target _) msg = scope_matches scope target msg.binding
