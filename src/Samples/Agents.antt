-- ===== src/Samples/Agents.antt =====
-- Samples for the agent: a model that asks for one tool and then answers.
use mylobsterpp.Prelude.{
  ℕ, suc, ◌==◌, ◌≡◌, refl, ap, inl, inr, Bool-cases, none, some, List, [], ◌∷◌, if◌then◌else◌,
  codes, text_eq, lookup, pos, null, ok,
}
use mylobsterpp.Agent.ToolRegistry.{Tool, ToolRegistry, execute}
use mylobsterpp.Agent.ToolRegistry.Refinement.{
  Command, register_it, execute_it, remove_it, contains_it, replies, spec_replies, replies_lem,
}
use mylobsterpp.Agent.Runtime.{
  Ask, Provider, AgentRuntime, process_with_tools, process_with_tools_stream,
}
use mylobsterpp.Agent.Runtime.Messages.{
  ContentBlock, user, assistant, CompletionRequest, CompletionResponse, extract_tool_calls,
}
use mylobsterpp.Agent.Runtime.Conversation.{IsPaired}
use mylobsterpp.Agent.Runtime.Bounded.{Asks, Acts, Within, process_with_tools-Within}

-- The world counts the questions.
abbrev echo : Tool ℕ
echo = record {
  definition = record { name = codes "echo"; description = []; parameters = [] };
  execute = λ w params. (w, ok params);
}

abbrev commands : List (Command ℕ)
commands =
    register_it (some echo)
    ∷ execute_it (codes "echo") null
    ∷ remove_it (codes "echo")
    ∷ contains_it (codes "echo")
    ∷ []

replies_lem_example :
    replies (record { tools = [] }, 0) commands ≡ spec_replies ((λ name. none), 0) commands
replies_lem_example = replies_lem 0 commands

abbrev one_tool : ToolRegistry ℕ
one_tool = record { tools = (codes "echo", echo) ∷ [] }

abbrev call : ContentBlock
call = record {
  type = codes "tool_use";
  text = [];
  tool_use_id = some (codes "t1");
  tool_name = some (codes "echo");
  tool_input = none;
  tool_result = none;
}

abbrev answer_with : List ContentBlock → CompletionResponse
answer_with content = record {
  message = record { role = assistant; content = content };
  model = [];
  input_tokens = pos 3;
  output_tokens = pos 2;
  stop_reason = [];
}

-- The first answer asks for the tool, the later ones for nothing.
abbrev ask_once : Ask ℕ
ask_once w req = (suc w, ok (answer_with (if w == 0 then call ∷ [] else [])))

abbrev model : Provider ℕ
model = record { name = codes "anthropic"; complete = ask_once; stream = ask_once }

abbrev runtime : AgentRuntime ℕ
runtime = record { provider = some model; fallback_providers = []; tools = one_tool }

abbrev question : CompletionRequest
question = record { model = []; messages = record { role = user; content = [] } ∷ []; tools = [] }

-- The number of questions is what the world counts.
abbrev Counts : ℕ → ℕ → Type 0
Counts k w = w ≡ k

one_tool-Acts : Acts Counts one_tool
unfolding execute lookup text_eq
one_tool-Acts k w name params h = elim (Bool-cases (text_eq (codes "echo") name)) [
  | inl same ↦ rw same h
  | inr other ↦ rw other h
]

ask_once-Asks : Asks Counts ask_once
ask_once-Asks k w req paired h = ap suc h

question-IsPaired : IsPaired question.messages
unfolding extract_tool_calls
question-IsPaired = (inl refl, tt)

process_with_tools-Within_example :
    Within Counts 0 25 (process_with_tools (λ j. []) runtime (answer_with []) 0 question 25).0
    × Within Counts 0 25
        (process_with_tools_stream (λ j. []) runtime (answer_with []) 0 question 25).0
process_with_tools-Within_example =
    process_with_tools-Within (λ j. []) runtime (answer_with []) 0 question 25 model refl Counts
      one_tool-Acts ask_once-Asks ask_once-Asks question-IsPaired refl
