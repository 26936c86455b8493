-- ===== src/Sessions/ModelRef.antt =====
-- sessions/session.cpp, resolve_session_model_identity_ref: which provider a model's name stands for.
use mylobsterpp.Prelude.{
  ℕ, ◌≡◌, refl, ◌||◌, Option, none, some, ◌∷◌, ◌++◌, if◌then◌else◌, Text, codes, starts_with,
  break_byte, Lacks, break_byte-append,
}

pub record ModelIdentityRef : Type 0 where
  pub provider : Text
  pub model : Text

unfoldable pub inferred_provider : (model_str : Text) → Text
unfolding starts_with
inferred_provider s =
    if starts_with s (codes "claude-")
      || starts_with s (codes "claude3")
      || starts_with s (codes "claude_")
    then codes "anthropic"
    else if starts_with s (codes "gpt-")
        || starts_with s (codes "o1-")
        || starts_with s (codes "o3-")
        || starts_with s (codes "chatgpt-")
    then codes "openai"
    else if starts_with s (codes "gemini-")
    then codes "gemini"
    else if starts_with s (codes "mistral-")
        || starts_with s (codes "mixtral-")
        || starts_with s (codes "codestral-")
    then codes "mistral"
    else if starts_with s (codes "llama-") || starts_with s (codes "meta-llama")
    then codes "meta"
    else codes "unknown"

-- The parts before and behind the first separator, if neither is empty.
abbrev pub two_parts : Option (Text × Text) → Option ModelIdentityRef
two_parts (some (c ∷ provider, d ∷ model)) =
    some (record { provider = c ∷ provider; model = d ∷ model })
two_parts _ = none

abbrev or_else : Option ModelIdentityRef → ModelIdentityRef → ModelIdentityRef
or_else (some ref) other = ref
or_else none other = other

unfoldable pub resolve_session_model_identity_ref : (model_str : Text) → ModelIdentityRef
unfolding break_byte inferred_provider
resolve_session_model_identity_ref s =
    or_else (two_parts (break_byte b'/' s)) (
      or_else (two_parts (break_byte b':' s))
        (record { provider = inferred_provider s; model = s }))

-- The printed form of a reference is resolved to that reference, if its provider is a text without a
-- slash and neither part is empty.
resolve_session_model_identity_ref-append :
    (c : ℕ) (provider : Text) (d : ℕ) (model : Text)
    → Lacks b'/' (c ∷ provider)
    → resolve_session_model_identity_ref ((c ∷ provider) ++ b'/' ∷ d ∷ model)
      ≡ record { provider = c ∷ provider; model = d ∷ model }
unfolding resolve_session_model_identity_ref
resolve_session_model_identity_ref-append c provider d model h =
    rw (break_byte-append b'/' (c ∷ provider) (d ∷ model) h) refl
