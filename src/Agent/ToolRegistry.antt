-- ===== src/Agent/ToolRegistry.antt =====
-- agent/tool_registry.cpp and tool_registry.hpp: the tools by their names. A tool acts on a world `W`,
-- whatever its calls read and change. `std::unordered_map` keeps no order: here that of insertion.
pub mod Refinement
use mylobsterpp.Prelude.{
  ℕ, Bool, true, false, Option, none, some, List, [], ◌∷◌, map, length, Text, codes, Map, lookup,
  assign, erase, Json, Result, ok, fail_with, not_found,
}
use mylobsterpp.Agent.Tool.{ToolDefinition, to_json, to_anthropic_json, to_openai_json}

pub record Tool (W : Type 0) : Type 0 where
  pub definition : ToolDefinition
  pub execute : W → Json → W × Result Json

pub record ToolRegistry (W : Type 0) : Type 0 where
  pub tools : Map (Tool W)

module _ {W : Type 0} where
  -- `none` is a null pointer.
  unfoldable pub register_tool : ToolRegistry W → Option (Tool W) → ToolRegistry W
  register_tool r none = r
  register_tool r (some tool) = record { tools = assign tool.definition.name tool r.tools }

  unfoldable pub get : ToolRegistry W → (name : Text) → Option (Tool W)
  get r name = lookup name r.tools

  unfoldable pub list : ToolRegistry W → List ToolDefinition
  list r = map (λ (e : Text × Tool W). e.1.definition) r.tools

  unfoldable pub registry_to_json : ToolRegistry W → List Json
  registry_to_json r = map (λ (e : Text × Tool W). to_json e.1.definition) r.tools

  unfoldable pub registry_to_anthropic_json : ToolRegistry W → List Json
  registry_to_anthropic_json r =
      map (λ (e : Text × Tool W). to_anthropic_json e.1.definition) r.tools

  unfoldable pub registry_to_openai_json : ToolRegistry W → List Json
  registry_to_openai_json r = map (λ (e : Text × Tool W). to_openai_json e.1.definition) r.tools

  unfoldable pub execute : ToolRegistry W → W → (name : Text) → (params : Json) → W × Result Json
  unfolding get
  execute r w name params = elim (get r name) [
    | none ↦ (w, fail_with not_found (codes "Tool not found") name)
    | some tool ↦ tool.execute w params
  ]

  unfoldable pub size : ToolRegistry W → ℕ
  size r = length r.tools

  unfoldable pub contains : ToolRegistry W → (name : Text) → Bool
  contains r name = elim (lookup name r.tools) [ none ↦ false | some _ ↦ true ]

  unfoldable pub remove : ToolRegistry W → (name : Text) → ToolRegistry W × Bool
  remove r name = elim (lookup name r.tools) [
    | none ↦ (r, false)
    | some _ ↦ (record { tools = erase name r.tools }, true)
  ]

  unfoldable pub clear : ToolRegistry W → ToolRegistry W
  clear r = record { tools = [] }
