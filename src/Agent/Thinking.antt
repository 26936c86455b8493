-- ===== src/Agent/Thinking.antt =====
-- agent/thinking.cpp and thinking.hpp: how a request asks a model to think. A request is the members of
-- its JSON object.
use mylobsterpp.Prelude.{
  Bool, true, false, Option, none, some, if◌then◌else◌, Text, codes, text_eq, ℤ, pos, Members,
  number, text, object, no_members, member, put_member, drop_member,
}

pub data ThinkingMode : Type 0 where
  no_thinking basic extended : ThinkingMode

pub record ThinkingConfig : Type 0 where
  pub mode : ThinkingMode
  pub budget_tokens : Option ℤ
  pub include_in_response : Bool

-- The budget that is written for a mode that thinks.
unfoldable pub budget : ThinkingMode → Option ℤ → ℤ
budget extended (some tokens) = tokens
budget extended none = pos 10000
budget _ _ = pos 5000

abbrev with_thinking : ℤ → Members → Members
with_thinking tokens body = drop_member (codes "temperature") (
    put_member (codes "thinking")
      (object (
        member (codes "type") (text (codes "enabled"))
          (member (codes "budget_tokens") (number tokens) no_members)))
      body)

unfoldable pub apply_thinking_anthropic : Members → ThinkingConfig → Members
unfolding budget put_member drop_member
apply_thinking_anthropic body config = elim config.mode [
  | no_thinking ↦ body
  | basic ↦ with_thinking (budget basic config.budget_tokens) body
  | extended ↦ with_thinking (budget extended config.budget_tokens) body
]

abbrev with_effort : Text → Members → Members
with_effort effort body =
    drop_member (codes "top_p")
      (drop_member (codes "temperature") (put_member (codes "reasoning_effort") (text effort) body))

unfoldable pub apply_thinking_openai : Members → ThinkingConfig → Members
unfolding put_member drop_member
apply_thinking_openai body config = elim config.mode [
  | no_thinking ↦ body
  | basic ↦ with_effort (codes "medium") body
  | extended ↦ with_effort (codes "high") body
]

unfoldable pub thinking_config_from_mode : ThinkingMode → ThinkingConfig
thinking_config_from_mode no_thinking = record {
  mode = no_thinking;
  budget_tokens = none;
  include_in_response = false;
}
thinking_config_from_mode basic = record {
  mode = basic;
  budget_tokens = some (pos 5000);
  include_in_response = false;
}
thinking_config_from_mode extended = record {
  mode = extended;
  budget_tokens = some (pos 10000);
  include_in_response = true;
}

unfoldable pub parse_thinking_mode : Text → ThinkingMode
parse_thinking_mode mode =
    if text_eq mode (codes "basic")
    then basic
    else if text_eq mode (codes "extended")
    then extended
    else no_thinking
