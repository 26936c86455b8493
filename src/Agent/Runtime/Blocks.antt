-- ===== src/Agent/Runtime/Blocks.antt =====
-- core/types.cpp: content blocks to JSON and back. `none` is an exception of the JSON library.
use mylobsterpp.Prelude.{
  ◌≡◌, refl, Option, none, some, [], Text, codes, text_eq, Json, Members, text, no_members, member,
  find_member, put_member,
}
use mylobsterpp.Prelude.Partial.{◌>>=◌}
use mylobsterpp.Agent.Runtime.Messages.{ContentBlock}

-- `if (value) j[key] = *value`
abbrev put_text : (key : Text) → Option Text → Members → Members
put_text key none ms = ms
put_text key (some t) ms = put_member key (text t) ms

abbrev put_json : (key : Text) → Option Json → Members → Members
put_json key none ms = ms
put_json key (some j) ms = put_member key j ms

unfoldable pub block_to_json : ContentBlock → Members
unfolding put_member
block_to_json c = put_json (codes "tool_result") c.tool_result (
    put_json (codes "tool_input") c.tool_input (
      put_text (codes "tool_name") c.tool_name (
        put_text (codes "tool_use_id") c.tool_use_id
          (member (codes "type") (text c.type) (member (codes "text") (text c.text) no_members)))))

abbrev got_text : Option Json → Option Text
got_text (some (text t)) = some t
got_text _ = none

-- Where the key may be missing.
abbrev maybe_text : Option Json → Option (Option Text)
maybe_text none = some none
maybe_text (some (text t)) = some (some t)
maybe_text (some _) = none

abbrev or_empty : Option Text → Text
or_empty none = []
or_empty (some t) = t

unfoldable pub block_from_json : Members → Option ContentBlock
unfolding find_member
block_from_json ms = do
  type ← got_text (find_member (codes "type") ms)
  shown ← maybe_text (find_member (codes "text") ms)
  tool_use_id ← maybe_text (find_member (codes "tool_use_id") ms)
  tool_name ← maybe_text (find_member (codes "tool_name") ms)
  some (record {
    type = type;
    text = or_empty shown;
    tool_use_id = tool_use_id;
    tool_name = tool_name;
    tool_input = find_member (codes "tool_input") ms;
    tool_result = find_member (codes "tool_result") ms;
  })

read_back :
    (c : ContentBlock) (id name : Option Text) (input result : Option Json)
    → c.tool_use_id ≡ id
    → c.tool_name ≡ name
    → c.tool_input ≡ input
    → c.tool_result ≡ result
    → block_from_json (block_to_json c) ≡ some c
unfolding block_to_json block_from_json put_member find_member text_eq
read_back c none none none none a b d e = rw (a, b, d, e) refl
read_back c none none none (some w) a b d e = rw (a, b, d, e) refl
read_back c none none (some z) none a b d e = rw (a, b, d, e) refl
read_back c none none (some z) (some w) a b d e = rw (a, b, d, e) refl
read_back c none (some y) none none a b d e = rw (a, b, d, e) refl
read_back c none (some y) none (some w) a b d e = rw (a, b, d, e) refl
read_back c none (some y) (some z) none a b d e = rw (a, b, d, e) refl
read_back c none (some y) (some z) (some w) a b d e = rw (a, b, d, e) refl
read_back c (some x) none none none a b d e = rw (a, b, d, e) refl
read_back c (some x) none none (some w) a b d e = rw (a, b, d, e) refl
read_back c (some x) none (some z) none a b d e = rw (a, b, d, e) refl
read_back c (some x) none (some z) (some w) a b d e = rw (a, b, d, e) refl
read_back c (some x) (some y) none none a b d e = rw (a, b, d, e) refl
read_back c (some x) (some y) none (some w) a b d e = rw (a, b, d, e) refl
read_back c (some x) (some y) (some z) none a b d e = rw (a, b, d, e) refl
read_back c (some x) (some y) (some z) (some w) a b d e = rw (a, b, d, e) refl

-- Every content block, turned into JSON, is read back as it was.
block_from_json-block_to_json : (c : ContentBlock) → block_from_json (block_to_json c) ≡ some c
block_from_json-block_to_json c =
    read_back c c.tool_use_id c.tool_name c.tool_input c.tool_result refl refl refl refl
