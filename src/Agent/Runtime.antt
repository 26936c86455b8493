-- ===== src/Agent/Runtime.antt =====
-- agent/runtime.cpp and runtime.hpp: the loop between a model and its tools. Providers and tools act on
-- a world `W`; a stream's callback is part of it. The fields of requests and messages that the runtime
-- only passes on, identifiers and times are left out, and `json::dump` is an argument.
pub mod Messages
pub mod Blocks
pub mod Conversation
pub mod Loop
pub mod Bounded
use mylobsterpp.Prelude.{
  ℕ, zero, suc, Bool, true, false, ◌==◌, not, ◌&&◌, Option, none, some, List, [], ◌∷◌, ◌++◌,
  if◌then◌else◌, keep, Text, codes, text_eq, ℤ, pos, add_int, Json, object, text, no_members,
  member, Result, ok, err, undefined, fail, what, invalid_config,
}
use mylobsterpp.Agent.ToolRegistry.{
  ToolRegistry, size, execute, registry_to_json, registry_to_openai_json,
}
use mylobsterpp.Agent.Runtime.Messages.{
  Role, ContentBlock, Message, CompletionRequest, CompletionResponse, value_or, extract_tool_calls,
  result_block, error_json, user, assistant, system, tool,
}

abbrev pub Ask : Type 0 → Type 0
Ask W = W → CompletionRequest → W × Result CompletionResponse

pub record Provider (W : Type 0) : Type 0 where
  pub name : Text
  pub complete : Ask W
  pub stream : Ask W

pub record AgentRuntime (W : Type 0) : Type 0 where
  pub provider : Option (Provider W)
  pub fallback_providers : List (Provider W)
  pub tools : ToolRegistry W

abbrev is_empty {ℓ} : {A : Type ℓ} → List A → Bool
is_empty [] = true
is_empty (x ∷ xs) = false

module _ {W : Type 0} where
  -- The tools' definitions, in the provider's format, where the request brings none.
  unfoldable pub with_tools : ToolRegistry W → Provider W → CompletionRequest → CompletionRequest
  unfolding size registry_to_json registry_to_openai_json
  with_tools tools provider req =
      if is_empty req.tools && not (size tools == 0)
      then record req {
        tools =
            if text_eq provider.name (codes "openai")
            then registry_to_openai_json tools
            else registry_to_json tools;
      }
      else req

  unfoldable pub process : AgentRuntime W → W → CompletionRequest → W × Result CompletionResponse
  unfolding with_tools
  process runtime w req = elim runtime.provider [
    | none ↦ (w, fail invalid_config "No provider configured")
    | some provider ↦ provider.complete w (with_tools runtime.tools provider req)
  ]

  unfoldable pub process_stream :
      AgentRuntime W → W → CompletionRequest → W × Result CompletionResponse
  unfolding with_tools
  process_stream runtime w req = elim runtime.provider [
    | none ↦ (w, fail invalid_config "No provider configured")
    | some provider ↦ provider.stream w (with_tools runtime.tools provider req)
  ]

  unfoldable pub set_provider : AgentRuntime W → Option (Provider W) → AgentRuntime W
  set_provider runtime provider = record runtime { provider = provider }

  unfoldable pub set_fallback_providers : AgentRuntime W → List (Provider W) → AgentRuntime W
  set_fallback_providers runtime fallbacks = record runtime { fallback_providers = fallbacks }

module _ {W : Type 0} (dump : Json → Text) (tools : ToolRegistry W) where
  unfoldable pub block_of : (id name : Text) → Result Json → Result ContentBlock
  unfolding result_block error_json
  block_of id name (ok value) = ok (result_block id name (dump value) value)
  block_of id name (err e) = let j = error_json (what e) in ok (result_block id name (dump j) j)
  block_of id name undefined = undefined

  unfoldable pub execute_tool_call : W → ContentBlock → W × Result ContentBlock
  unfolding execute block_of
  execute_tool_call w call =
      let name = value_or [] call.tool_name in
      let id = value_or [] call.tool_use_id in
      let (v, result) = execute tools w name (value_or (object no_members) call.tool_input) in
      (v, block_of id name result)

  abbrev pub and_then :
      Result ContentBlock → Result (List ContentBlock) → Result (List ContentBlock)
  and_then (ok block) (ok blocks) = ok (block ∷ blocks)
  and_then (ok block) (err e) = err e
  and_then (ok block) undefined = undefined
  and_then (err e) _ = err e
  and_then undefined _ = undefined

  unfoldable pub execute_tool_calls : W → List ContentBlock → W × Result (List ContentBlock)
  unfolding execute_tool_call
  execute_tool_calls w [] = (w, ok [])
  execute_tool_calls w (call ∷ calls) =
      let (v, block) = execute_tool_call w call in
      let (u, blocks) = execute_tool_calls v calls in (u, and_then block blocks)

-- The loop's variables.
pub record LoopState : Type 0 where
  pub request : CompletionRequest
  pub total_input_tokens : ℤ
  pub total_output_tokens : ℤ
  pub final_response : CompletionResponse

pub data Turn : Type 0 where
  answered : CompletionResponse → Turn
  continues : LoopState → Turn

-- A response with the totals, if these fit.
abbrev pub with_totals : CompletionResponse → Option ℤ → Option ℤ → Result CompletionResponse
with_totals response (some input) (some output) =
    ok (record response { input_tokens = input; output_tokens = output })
with_totals response _ _ = undefined

unfoldable pub counted : LoopState → CompletionResponse → Result CompletionResponse
unfolding add_int
counted s response =
    with_totals response (add_int s.total_input_tokens response.input_tokens)
      (add_int s.total_output_tokens response.output_tokens)

-- The request with the response's message and the results of its calls behind it.
unfoldable pub extended : CompletionRequest → Message → List ContentBlock → CompletionRequest
extended req m blocks = record req {
  messages = req.messages ++ m ∷ record { role = user; content = blocks } ∷ [];
}

-- What follows when all calls are done. `counted` holds the totals, `response` the model's own numbers.
abbrev pub next_turn :
    LoopState → (response counted : CompletionResponse) → Result (List ContentBlock) → Result Turn
next_turn s response counted (err e) = err e
next_turn s response counted undefined = undefined
next_turn s response counted (ok blocks) = ok (
    continues (record {
      request = extended s.request response.message blocks;
      total_input_tokens = counted.input_tokens;
      total_output_tokens = counted.output_tokens;
      final_response = response;
    }))

module _ {W : Type 0} (dump : Json → Text) (tools : ToolRegistry W) where
  -- The response is the last one without calls; with calls they are executed.
  unfoldable pub called :
      W → LoopState → (response counted : CompletionResponse) → List ContentBlock → W × Result Turn
  unfolding execute_tool_calls extended
  called w s response counted [] = (w, ok (answered counted))
  called w s response counted (call ∷ calls) =
      let (v, blocks) = execute_tool_calls dump tools w (call ∷ calls) in
      (v, next_turn s response counted blocks)

  abbrev pub respond :
      W → LoopState → CompletionResponse → Result CompletionResponse → W × Result Turn
  respond w s response (err e) = (w, err e)
  respond w s response undefined = (w, undefined)
  respond w s response (ok counted) =
      called w s response counted (extract_tool_calls response.message)

  abbrev pub take_turn : W → LoopState → Result CompletionResponse → W × Result Turn
  take_turn w s (err e) = (w, err e)
  take_turn w s undefined = (w, undefined)
  take_turn w s (ok response) = respond w s response (counted s response)

  -- One round of the loop.
  unfoldable pub turn : Ask W → W → LoopState → W × Result Turn
  unfolding counted extract_tool_calls called
  turn ask w s = let (v, response) = ask w s.request in take_turn v s response

  -- Return, or the next round.
  abbrev pub go_on :
      W
      → Result Turn
      → (W → LoopState → W × Result CompletionResponse)
      → W × Result CompletionResponse
  go_on w (err e) next = (w, err e)
  go_on w undefined next = (w, undefined)
  go_on w (ok (answered response)) next = (w, ok response)
  go_on w (ok (continues s)) next = next w s

  -- The rounds that are left, none where `max_iterations` is not positive.
  unfoldable pub tool_loop : Ask W → (rounds : ℕ) → W → LoopState → W × Result CompletionResponse
  unfolding turn
  tool_loop ask zero w s = (
    w,
    ok (record s.final_response {
      input_tokens = s.total_input_tokens;
      output_tokens = s.total_output_tokens;
      stop_reason = codes "max_iterations";
    }),
  )
  tool_loop ask (suc rounds) w s =
      let (v, t) = turn ask w s in go_on v t (λ u s'. tool_loop ask rounds u s')

-- `blank` is the response that the loop starts with; its role is not initialized.
unfoldable pub start : (blank : CompletionResponse) → CompletionRequest → LoopState
start blank req = record {
  request = req;
  total_input_tokens = pos 0;
  total_output_tokens = pos 0;
  final_response = blank;
}

module _ {W : Type 0} (dump : Json → Text) where
  unfoldable pub process_with_tools :
      AgentRuntime W
      → (blank : CompletionResponse) → W
      → CompletionRequest
      → (max_iterations : ℕ) → W × Result CompletionResponse
  unfolding with_tools tool_loop start
  process_with_tools runtime blank w req max_iterations = elim runtime.provider [
    | none ↦ (w, fail invalid_config "No provider configured")
    | some provider ↦
        tool_loop dump runtime.tools provider.complete max_iterations w
          (start blank (with_tools runtime.tools provider req))
  ]

  unfoldable pub process_with_tools_stream :
      AgentRuntime W
      → (blank : CompletionResponse) → W
      → CompletionRequest
      → (max_iterations : ℕ) → W × Result CompletionResponse
  unfolding with_tools tool_loop start
  process_with_tools_stream runtime blank w req max_iterations = elim runtime.provider [
    | none ↦ (w, fail invalid_config "No provider configured")
    | some provider ↦
        tool_loop dump runtime.tools provider.stream max_iterations w
          (start blank (with_tools runtime.tools provider req))
  ]
