-- ===== src/Agent/Runtime/Messages.antt =====
-- core/types.hpp, providers/provider.hpp and agent/runtime.cpp: messages, requests and responses, and
-- what the runtime reads from and writes to a message.
use mylobsterpp.Prelude.{
  Option, none, some, List, keep, Text, codes, text_eq, ℤ, Json, object, text, no_members, member,
}

pub data Role : Type 0 where
  user assistant system tool : Role

pub record ContentBlock : Type 0 where
  pub type : Text
  pub text : Text
  pub tool_use_id : Option Text
  pub tool_name : Option Text
  pub tool_input : Option Json
  pub tool_result : Option Json

pub record Message : Type 0 where
  pub role : Role
  pub content : List ContentBlock

pub record CompletionRequest : Type 0 where
  pub model : Text
  pub messages : List Message
  pub tools : List Json

pub record CompletionResponse : Type 0 where
  pub message : Message
  pub model : Text
  pub input_tokens : ℤ
  pub output_tokens : ℤ
  pub stop_reason : Text

abbrev pub value_or {ℓ} : {A : Type ℓ} → A → Option A → A
value_or default none = default
value_or default (some a) = a

unfoldable pub extract_tool_calls : Message → List ContentBlock
unfolding keep text_eq
extract_tool_calls m = keep (λ (b : ContentBlock). text_eq b.type (codes "tool_use")) m.content

unfoldable pub result_block : (id name shown : Text) → Json → ContentBlock
result_block id name shown result = record {
  type = codes "tool_result";
  text = shown;
  tool_use_id = some id;
  tool_name = some name;
  tool_input = none;
  tool_result = some result;
}

unfoldable pub error_json : Text → Json
error_json message = object (member (codes "error") (text message) no_members)
