-- ===== src/Agent/Runtime/Conversation.antt =====
-- Conversations in which every tool use is answered by the message behind it.
use mylobsterpp.Prelude.{
  ◌≡◌, refl, subst, ◌⊎◌, inl, inr, some, List, [], ◌∷◌, ◌++◌, keep, Text, codes, text_eq, Json,
  Result, ok, err, undefined,
}
use mylobsterpp.Agent.ToolRegistry.{ToolRegistry}
use mylobsterpp.Agent.Runtime.{block_of, execute_tool_call, execute_tool_calls, and_then}
use mylobsterpp.Agent.Runtime.Messages.{
  ContentBlock, Message, user, value_or, extract_tool_calls, result_block,
}

-- One result for each call, in order, under its identifier.
abbrev pub Answers : (calls blocks : List ContentBlock) → Type 0
Answers [] [] = Unit
Answers (c ∷ calls) (b ∷ blocks) =
    (b.tool_use_id ≡ some (value_or [] c.tool_use_id))
    × (b.type ≡ codes "tool_result")
    × Answers calls blocks
Answers _ _ = ⊥

abbrev pub AnsweredBy : Message → List Message → Type 0
AnsweredBy m [] = ⊥
AnsweredBy m (r ∷ ms) = (r.role ≡ user) × Answers (extract_tool_calls m) r.content

-- Every message asks for no tool, or is followed by the results.
abbrev pub IsPaired : List Message → Type 0
IsPaired [] = Unit
IsPaired (m ∷ ms) = ((extract_tool_calls m ≡ []) ⊎ AnsweredBy m ms) × IsPaired ms

AnsweredBy-append :
    (m : Message) (ms later : List Message) → AnsweredBy m ms → AnsweredBy m (ms ++ later)
AnsweredBy-append m [] later h = absurd h
AnsweredBy-append m (r ∷ ms) later h = h

-- Results ask for no tool.
keep-Answers :
    (calls blocks : List ContentBlock)
    → Answers calls blocks
    → keep (λ (b : ContentBlock). text_eq b.type (codes "tool_use")) blocks ≡ []
unfolding keep text_eq
keep-Answers [] [] h = refl
keep-Answers [] (b ∷ blocks) h = absurd h
keep-Answers (c ∷ calls) [] h = absurd h
keep-Answers (c ∷ calls) (b ∷ blocks) h = rw (h.1) (keep-Answers calls blocks h.2)

pub IsPaired-append :
    (ms : List Message) (m r : Message)
    → IsPaired ms
    → r.role ≡ user
    → Answers (extract_tool_calls m) r.content
    → IsPaired (ms ++ m ∷ r ∷ [])
unfolding extract_tool_calls
IsPaired-append [] m r h role a = (inr (role, a), (inl (keep-Answers _ r.content a), tt))
IsPaired-append (k ∷ ms) m r h role a = (
  elim h.0 [ inl none_asked ↦ inl none_asked | inr by ↦ inr (AnsweredBy-append k ms _ by) ],
  IsPaired-append ms m r h.1 role a,
)

module _ {W : Type 0} (dump : Json → Text) (tools : ToolRegistry W) where
  block_of-ok :
      (id name : Text) (result : Result Json) (b : ContentBlock)
      → block_of {W = W} dump tools id name result ≡ ok b
      → (b.tool_use_id ≡ some id) × (b.type ≡ codes "tool_result")
  unfolding block_of result_block
  block_of-ok id name (ok value) b e = (cc, cc)
  block_of-ok id name (err failure) b e = (cc, cc)
  block_of-ok id name undefined b e = cc

  and_then-ok :
      (x : Result ContentBlock) (y : Result (List ContentBlock)) (blocks : List ContentBlock)
      → and_then {W = W} dump tools x y ≡ ok blocks
      → (b : ContentBlock) × (bs : List ContentBlock) × (x ≡ ok b) × (y ≡ ok bs) × (b ∷ bs ≡ blocks)
  and_then-ok (ok b) (ok bs) blocks e = (b, bs, refl, refl, cc)
  and_then-ok (ok b) (err failure) blocks e = cc
  and_then-ok (ok b) undefined blocks e = cc
  and_then-ok (err failure) y blocks e = cc
  and_then-ok undefined y blocks e = cc

  pub execute_tool_calls-Answers :
      (calls : List ContentBlock) (w : W) (blocks : List ContentBlock)
      → (execute_tool_calls dump tools w calls).1 ≡ ok blocks
      → Answers calls blocks
  unfolding execute_tool_calls execute_tool_call
  execute_tool_calls-Answers [] w blocks e =
      let none_left : [] ≡ blocks = cc in subst (Answers []) none_left tt
  execute_tool_calls-Answers (call ∷ calls) w blocks e =
      let (b, bs, first, rest, together) = and_then-ok _ _ blocks e in
      let (id, type) = block_of-ok _ _ _ b first in
      subst (Answers (call ∷ calls)) together (id, type, execute_tool_calls-Answers calls _ bs rest)
