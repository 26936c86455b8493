-- ===== src/Agent/Runtime/Bounded.antt =====
-- How often the provider is asked, and with which conversations.
use mylobsterpp.Prelude.{
  ℕ, zero, suc, ◌≤◌, ◌+◌, ◌≡◌, ◌⊎◌, refl, subst, codes, List, [], ◌∷◌, arith, Text, Json, Result,
  ok, err, undefined, some,
}
use mylobsterpp.Agent.ToolRegistry.{ToolRegistry, execute}
use mylobsterpp.Agent.Runtime.{
  Ask, Provider, AgentRuntime, LoopState, Turn, answered, continues, called, respond, take_turn,
  turn, go_on, tool_loop, execute_tool_call, execute_tool_calls, with_tools, start,
  process_with_tools, process_with_tools_stream,
}
use mylobsterpp.Agent.Runtime.Messages.{
  ContentBlock, CompletionRequest, CompletionResponse, extract_tool_calls,
}
use mylobsterpp.Agent.Runtime.Conversation.{IsPaired}
use mylobsterpp.Agent.Runtime.Loop.{turn-Outcome, tool_loop-ok}

-- What a provider keeps that is asked with paired conversations only, `k` times so far.
abbrev pub Asks : {W : Type 0} → (ℕ → W → Type 0) → Ask W → Type 0
Asks {W} Inv ask =
    (k : ℕ) (w : W) (req : CompletionRequest)
    → IsPaired req.messages
    → Inv k w
    → Inv (suc k) (ask w req).0

-- What the tools keep.
abbrev pub Acts : {W : Type 0} → (ℕ → W → Type 0) → ToolRegistry W → Type 0
Acts {W} Inv tools =
    (k : ℕ) (w : W) (name : Text) (params : Json) → Inv k w → Inv k (execute tools w name params).0

-- The invariant, some number of questions behind `k`, at most `n`.
abbrev pub Within : {W : Type 0} → (ℕ → W → Type 0) → (k n : ℕ) → W → Type 0
Within Inv k n w = (j : ℕ) × (j ≤ n) × Inv (k + j) w

module _ {W : Type 0} (dump : Json → Text) (tools : ToolRegistry W) (Inv : ℕ → W → Type 0)
    (acts : Acts Inv tools) where
  execute_tool_calls-Inv :
      (k : ℕ) (calls : List ContentBlock) (w : W)
      → Inv k w
      → Inv k (execute_tool_calls dump tools w calls).0
  unfolding execute_tool_calls execute_tool_call
  execute_tool_calls-Inv k [] w h = h
  execute_tool_calls-Inv k (call ∷ calls) w h = execute_tool_calls-Inv k calls _ (acts k w _ _ h)

  called-Inv :
      (k : ℕ) (v : W) (s : LoopState) (response c : CompletionResponse) (calls : List ContentBlock)
      → Inv k v
      → Inv k (called dump tools v s response c calls).0
  unfolding called
  called-Inv k v s response c [] h = h
  called-Inv k v s response c (call ∷ calls) h = execute_tool_calls-Inv k (call ∷ calls) v h

  respond-Inv :
      (k : ℕ) (v : W) (s : LoopState) (response : CompletionResponse)
      (x : Result CompletionResponse)
      → Inv k v
      → Inv k (respond dump tools v s response x).0
  respond-Inv k v s response (ok c) h = called-Inv k v s response c _ h
  respond-Inv k v s response (err e) h = h
  respond-Inv k v s response undefined h = h

  take_turn-Inv :
      (k : ℕ) (v : W) (s : LoopState) (x : Result CompletionResponse)
      → Inv k v
      → Inv k (take_turn dump tools v s x).0
  take_turn-Inv k v s (ok response) h = respond-Inv k v s response _ h
  take_turn-Inv k v s (err e) h = h
  take_turn-Inv k v s undefined h = h

  module _ (ask : Ask W) (asks : Asks Inv ask) where
    turn-Inv :
        (k : ℕ) (w : W) (s : LoopState)
        → IsPaired s.request.messages
        → Inv k w
        → Inv (suc k) (turn dump tools ask w s).0
    unfolding turn
    turn-Inv k w s paired h = take_turn-Inv (suc k) _ s _ (asks k w s.request paired h)

    go_on-Within :
        (k n : ℕ) (v : W) (t : Result Turn) (next : W → LoopState → W × Result CompletionResponse)
        → Inv (suc k) v
        → ((s : LoopState) → t ≡ ok (continues s) → Within Inv (suc k) n (next v s).0)
        → Within Inv k (suc n) (go_on dump tools v t next).0
    go_on-Within k n v (err e) next h later = (1, omega arith, subst (λ i. Inv i v) (omega arith) h)
    go_on-Within k n v undefined next h later =
        (1, omega arith, subst (λ i. Inv i v) (omega arith) h)
    go_on-Within k n v (ok (answered a)) next h later =
        (1, omega arith, subst (λ i. Inv i v) (omega arith) h)
    go_on-Within k n v (ok (continues s)) next h later =
        let (j, le, i) = later s refl in
        (suc j, omega arith, subst (λ i. Inv i (next v s).0) (omega arith) i)

    pub tool_loop-Within :
        (n k : ℕ) (w : W) (s : LoopState)
        → IsPaired s.request.messages
        → Inv k w
        → Within Inv k n (tool_loop dump tools ask n w s).0
    unfolding tool_loop
    tool_loop-Within zero k w s paired h = (0, omega arith, subst (λ i. Inv i w) (omega arith) h)
    tool_loop-Within (suc n) k w s paired h =
        go_on-Within k n _ _ _ (turn-Inv k w s paired h) λ s' on.
          tool_loop-Within n (suc k) _ s' (turn-Outcome dump tools ask w s (continues s') on paired)
            (turn-Inv k w s paired h)

with_tools-messages :
    {W : Type 0} (tools : ToolRegistry W) (provider : Provider W) (req : CompletionRequest)
    → (with_tools tools provider req).messages ≡ req.messages
unfolding with_tools
with_tools-messages tools provider req = ground arith

module _ {W : Type 0} (dump : Json → Text) (runtime : AgentRuntime W) (blank : CompletionResponse)
    (w : W) (req : CompletionRequest) (n : ℕ) (provider : Provider W)
    (set : runtime.provider ≡ some provider) where
  -- What the tools keep, and what the provider keeps when it is asked for the `k + 1`-st time, with a
  -- conversation in which every tool use is answered, holds in the end after some number of questions
  -- that is at most `max_iterations`: the provider is asked no oftener and with no other conversation,
  -- if the one that it starts with is such a one. Streaming does the same.
  pub process_with_tools-Within :
      (Inv : ℕ → W → Type 0)
      → Acts Inv runtime.tools
      → Asks Inv provider.complete
      → Asks Inv provider.stream
      → IsPaired req.messages
      → Inv 0 w
      → Within Inv 0 n (process_with_tools dump runtime blank w req n).0
        × Within Inv 0 n (process_with_tools_stream dump runtime blank w req n).0
  unfolding process_with_tools process_with_tools_stream start
  process_with_tools-Within Inv acts completes streams paired h =
      let same = with_tools-messages runtime.tools provider req in
      let ready : IsPaired (with_tools runtime.tools provider req).messages = rw same paired in
      rw (set, process_with_tools, process_with_tools_stream)
        (
          tool_loop-Within dump runtime.tools Inv acts provider.complete completes n 0 w
              (start blank (with_tools runtime.tools provider req)) ready h,
          tool_loop-Within dump runtime.tools Inv acts provider.stream streams n 0 w
              (start blank (with_tools runtime.tools provider req)) ready h,
        )

  -- A response of the loop asks for no tool any more, or is marked as cut off after `max_iterations`.
  pub process_with_tools-ok :
      (r : CompletionResponse)
      → (process_with_tools dump runtime blank w req n).1 ≡ ok r
      → (extract_tool_calls r.message ≡ []) ⊎ (r.stop_reason ≡ codes "max_iterations")
  unfolding process_with_tools
  process_with_tools-ok r e =
      tool_loop-ok dump runtime.tools provider.complete n w _ r (rw (set, process_with_tools) at e)
