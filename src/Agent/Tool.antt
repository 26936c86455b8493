-- ===== src/Agent/Tool.antt =====
-- agent/tool.cpp and tool.hpp: the definition of a tool as JSON for the providers.
pub mod Schema
use mylobsterpp.Prelude.{
  Bool, true, Option, none, some, List, [], ◌∷◌, if◌then◌else◌, Text, codes, Json, Items, Members,
  null, text, array, object, no_items, item, no_members, member, put_member,
}

pub record ToolParameter : Type 0 where
  pub name : Text
  pub type : Text
  pub description : Text
  pub required : Bool
  pub default_value : Option Json
  pub enum_values : Option (List Text)

pub record ToolDefinition : Type 0 where
  pub name : Text
  pub description : Text
  pub parameters : List ToolParameter

-- A vector of strings as a JSON array.
unfoldable pub text_items : List Text → Items
text_items [] = no_items
text_items (t ∷ ts) = item (text t) (text_items ts)

abbrev with_default : Option Json → Members → Members
with_default none ms = ms
with_default (some v) ms = put_member (codes "default") v ms

abbrev with_enum : Option (List Text) → Members → Members
with_enum none ms = ms
with_enum (some values) ms = put_member (codes "enum") (array (text_items values)) ms

unfoldable pub property : ToolParameter → Json
unfolding put_member text_items
property p = object (
    with_enum p.enum_values (
      with_default p.default_value (
        member (codes "type") (text p.type)
          (member (codes "description") (text p.description) no_members))))

-- `properties`, from a null value on: assigning a member makes it an object.
abbrev assigned : Text → Json → Json → Json
assigned key value (object ms) = object (put_member key value ms)
assigned key value _ = object (member key value no_members)

unfoldable pub properties_from : Json → List ToolParameter → Json
unfolding put_member property
properties_from properties [] = properties
properties_from properties (p ∷ ps) = properties_from (assigned p.name (property p) properties) ps

unfoldable pub required_names : List ToolParameter → List Text
required_names [] = []
required_names (p ∷ ps) = let rest = required_names ps in if p.required then p.name ∷ rest else rest

abbrev with_required : List Text → Members → Members
with_required [] ms = ms
with_required (t ∷ ts) ms = put_member (codes "required") (array (text_items (t ∷ ts))) ms

unfoldable pub schema : List ToolParameter → Json
unfolding put_member text_items properties_from required_names
schema ps = object (
    with_required (required_names ps) (
      member (codes "type") (text (codes "object"))
        (member (codes "properties") (properties_from null ps) no_members)))

unfoldable pub to_json : ToolDefinition → Json
unfolding schema
to_json d = object (
    member (codes "name") (text d.name) (
      member (codes "description") (text d.description)
        (member (codes "input_schema") (schema d.parameters) no_members)))

unfoldable pub to_anthropic_json : ToolDefinition → Json
unfolding to_json
to_anthropic_json d = to_json d

unfoldable pub to_openai_json : ToolDefinition → Json
unfolding schema
to_openai_json d = object (
    member (codes "type") (text (codes "function")) (
      member (codes "function")
        (object (
          member (codes "name") (text d.name) (
            member (codes "description") (text d.description)
              (member (codes "parameters") (schema d.parameters) no_members))))
        no_members))
