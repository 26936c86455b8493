-- ===== src/Agent/Runtime/Loop.antt =====
-- What the loop returns, and what it asks the provider.
use mylobsterpp.Prelude.{
  ℕ, zero, suc, ◌≡◌, refl, ap, sym, subst, ◌∙◌, ◌⊎◌, inl, inr, Option, none, some, List, [], ◌∷◌,
  Text, codes, Json, Result, ok, err, undefined, ok-injective, ℤ,
}
use mylobsterpp.Agent.ToolRegistry.{ToolRegistry}
use mylobsterpp.Agent.Runtime.{
  Ask, LoopState, Turn, answered, continues, counted, extended, with_totals, next_turn, called,
  respond, take_turn, turn, go_on, tool_loop,
}
use mylobsterpp.Agent.Runtime.Messages.{ContentBlock, user, CompletionResponse, extract_tool_calls}
use mylobsterpp.Agent.Runtime.Conversation.{
  IsPaired, IsPaired-append, Answers, execute_tool_calls-Answers,
}

with_totals-ok :
    (response c : CompletionResponse) (input output : Option ℤ)
    → with_totals response input output ≡ ok c
    → c.message ≡ response.message
with_totals-ok response c (some input) (some output) e = cc
with_totals-ok response c (some input) none e = cc
with_totals-ok response c none output e = cc

-- What a round promises: an answer asks for no tool, and a conversation that goes on stays paired.
abbrev Outcome : LoopState → Turn → Type 0
Outcome s (answered r) = extract_tool_calls r.message ≡ []
Outcome s (continues s') = IsPaired s.request.messages → IsPaired s'.request.messages

next_turn-Outcome :
    (s : LoopState) (response c : CompletionResponse) (x : Result (List ContentBlock)) (t : Turn)
    → ((blocks : List ContentBlock)
        → x ≡ ok blocks
        → Answers (extract_tool_calls response.message) blocks)
    → next_turn s response c x ≡ ok t
    → Outcome s t
unfolding extended
next_turn-Outcome s response c (err failure) t answers e = cc
next_turn-Outcome s response c undefined t answers e = cc
next_turn-Outcome s response c (ok blocks) t answers e =
    subst (Outcome s) (ok-injective e) λ paired.
      IsPaired-append s.request.messages response.message (record { role = user; content = blocks })
        paired refl (answers blocks refl)

module _ {W : Type 0} (dump : Json → Text) (tools : ToolRegistry W) where
  called-Outcome :
      (v : W) (s : LoopState) (response c : CompletionResponse) (calls : List ContentBlock)
      (t : Turn)
      → extract_tool_calls response.message ≡ calls
      → c.message ≡ response.message
      → (called dump tools v s response c calls).1 ≡ ok t
      → Outcome s t
  unfolding called
  called-Outcome v s response c [] t none_asked same e =
      subst (Outcome s) (ok-injective e) (ap extract_tool_calls same ∙ none_asked)
  called-Outcome v s response c (call ∷ calls) t asked same e =
      next_turn-Outcome s response c _ t
        (λ blocks done.
          subst (λ l. Answers l blocks) (sym asked)
            (execute_tool_calls-Answers dump tools (call ∷ calls) v blocks done))
        e

  respond-Outcome :
      (v : W) (s : LoopState) (response : CompletionResponse) (x : Result CompletionResponse)
      (t : Turn)
      → ((c : CompletionResponse) → x ≡ ok c → c.message ≡ response.message)
      → (respond dump tools v s response x).1 ≡ ok t
      → Outcome s t
  respond-Outcome v s response (err failure) t same e = cc
  respond-Outcome v s response undefined t same e = cc
  respond-Outcome v s response (ok c) t same e =
      called-Outcome v s response c _ t refl (same c refl) e

  take_turn-Outcome :
      (v : W) (s : LoopState) (x : Result CompletionResponse) (t : Turn)
      → (take_turn dump tools v s x).1 ≡ ok t
      → Outcome s t
  unfolding counted
  take_turn-Outcome v s (err failure) t e = cc
  take_turn-Outcome v s undefined t e = cc
  take_turn-Outcome v s (ok response) t e =
      respond-Outcome v s response _ t (λ c. with_totals-ok response c _ _) e

  pub turn-Outcome :
      (ask : Ask W) (w : W) (s : LoopState) (t : Turn)
      → (turn dump tools ask w s).1 ≡ ok t
      → Outcome s t
  unfolding turn
  turn-Outcome ask w s t e = take_turn-Outcome _ s _ t e

  go_on-ok :
      (w : W) (t : Result Turn) (next : W → LoopState → W × Result CompletionResponse)
      (r : CompletionResponse)
      → (go_on dump tools w t next).1 ≡ ok r
      → (t ≡ ok (answered r)) ⊎ ((s : LoopState) × (t ≡ ok (continues s)) × ((next w s).1 ≡ ok r))
  go_on-ok w (err failure) next r e = cc
  go_on-ok w undefined next r e = cc
  go_on-ok w (ok (answered a)) next r e = inl cc
  go_on-ok w (ok (continues s)) next r e = inr (s, refl, e)

  -- A response that the loop returns asks for no tool any more, or it is marked as cut off.
  pub tool_loop-ok :
      (ask : Ask W) (rounds : ℕ) (w : W) (s : LoopState) (r : CompletionResponse)
      → (tool_loop dump tools ask rounds w s).1 ≡ ok r
      → (extract_tool_calls r.message ≡ []) ⊎ (r.stop_reason ≡ codes "max_iterations")
  unfolding tool_loop
  tool_loop-ok ask zero w s r e = inr cc
  tool_loop-ok ask (suc rounds) w s r e = elim (go_on-ok _ _ _ r e) [
    | inl answer ↦ inl (turn-Outcome ask w s (answered r) answer)
    | inr (s', _, later) ↦ tool_loop-ok ask rounds _ s' r later
  ]
