-- ===== src/Agent/ToolRegistry/Refinement.antt =====
-- The registry seen as a function from names to tools.
use mathlib.Core.Path.{fun_ext}
use mylobsterpp.Prelude.{
  ◌≡◌, refl, ap, inl, inr, Bool, true, false, Option, none, some, List, [], ◌∷◌, Option-cases,
  if◌then◌else◌, Text, codes, text_eq, text_eq_iff, Bool-cases, subst, lookup, lookup-assign,
  lookup-erase, Json, Result, fail_with, not_found,
}
use mylobsterpp.Agent.ToolRegistry.{
  Tool, ToolRegistry, register_tool, get, execute, contains, remove, clear,
}

module _ (W : Type 0) where
  pub data Command : Type 0 where
    register_it : Option (Tool W) → Command
    get_it : (name : Text) → Command
    contains_it : (name : Text) → Command
    remove_it : (name : Text) → Command
    execute_it : (name : Text) → (params : Json) → Command
    clear_it : Command

  pub data Reply : Type 0 where
    done : Reply
    found : Option (Tool W) → Reply
    answer : Bool → Reply
    result : Result Json → Reply

module _ {W : Type 0} where
  unfoldable pub step : ToolRegistry W × W → Command W → (ToolRegistry W × W) × Reply W
  unfolding register_tool get execute contains remove clear
  step (r, w) (register_it tool) = ((register_tool r tool, w), done)
  step (r, w) (get_it name) = ((r, w), found (get r name))
  step (r, w) (contains_it name) = ((r, w), answer (contains r name))
  step (r, w) (remove_it name) = let (s, removed) = remove r name in ((s, w), answer removed)
  step (r, w) (execute_it name params) = let (v, j) = execute r w name params in ((r, v), result j)
  step (r, w) clear_it = ((clear r, w), done)

  unfoldable pub replies : ToolRegistry W × W → List (Command W) → List (Reply W)
  unfolding step
  replies s [] = []
  replies s (c ∷ cs) = let (t, reply) = step s c in reply ∷ replies t cs

-- The promise: a partial function, changed at one name at a time.
abbrev pub Spec : Type 0 → Type 0
Spec W = Text → Option (Tool W)

module _ {W : Type 0} where
  abbrev is_found : Option (Tool W) → Bool
  is_found none = false
  is_found (some tool) = true

  abbrev put : Spec W → Text → Option (Tool W) → Spec W
  put s name tool other = if text_eq name other then tool else s other

  abbrev registered : Spec W → Option (Tool W) → Spec W
  registered s none = s
  registered s (some tool) = put s tool.definition.name (some tool)

  abbrev ran : W → (name : Text) → (params : Json) → Option (Tool W) → W × Result Json
  ran w name params none = (w, fail_with not_found (codes "Tool not found") name)
  ran w name params (some tool) = tool.execute w params

  unfoldable pub spec_step : Spec W × W → Command W → (Spec W × W) × Reply W
  spec_step (s, w) (register_it tool) = ((registered s tool, w), done)
  spec_step (s, w) (get_it name) = ((s, w), found (s name))
  spec_step (s, w) (contains_it name) = ((s, w), answer (is_found (s name)))
  spec_step (s, w) (remove_it name) = ((put s name none, w), answer (is_found (s name)))
  spec_step (s, w) (execute_it name params) =
      let (v, j) = ran w name params (s name) in ((s, v), result j)
  spec_step (s, w) clear_it = ((λ other. none, w), done)

  unfoldable pub spec_replies : Spec W × W → List (Command W) → List (Reply W)
  unfolding spec_step
  spec_replies s [] = []
  spec_replies s (c ∷ cs) = let (t, reply) = spec_step s c in reply ∷ spec_replies t cs

  -- What a registry stands for.
  abbrev view : ToolRegistry W → Spec W
  view r name = lookup name r.tools

  abbrev viewed : (ToolRegistry W × W) × Reply W → (Spec W × W) × Reply W
  viewed s = ((view s.0.0, s.0.1), s.1)

  contains-view : (r : ToolRegistry W) (name : Text) → contains r name ≡ is_found (view r name)
  unfolding contains
  contains-view r name = elim (Option-cases (lookup name r.tools)) [
    | inl e ↦ rw (e, contains) refl
    | inr (tool, e) ↦ rw (e, contains) refl
  ]

  execute-view :
      (r : ToolRegistry W) (w : W) (name : Text) (params : Json)
      → execute r w name params ≡ ran w name params (view r name)
  unfolding execute get
  execute-view r w name params = elim (Option-cases (lookup name r.tools)) [
    | inl e ↦ rw (e, execute) refl
    | inr (tool, e) ↦ rw (e, execute) refl
  ]

  unchanged :
      (r : ToolRegistry W) (name other : Text)
      → lookup name r.tools ≡ none
      → view r other ≡ put (view r) name none other
  unchanged r name other e = elim (Bool-cases (text_eq name other)) [
    | inl same ↦ rw same (subst (λ k. lookup k r.tools ≡ none) ((text_eq_iff name other).0 same) e)
    | inr differs ↦ rw differs refl
  ]

  remove-view :
      (r : ToolRegistry W) (name : Text)
      → ((remove r name).1 ≡ is_found (view r name))
        × ((other : Text) → view (remove r name).0 other ≡ put (view r) name none other)
  unfolding remove
  remove-view r name = elim (Option-cases (lookup name r.tools)) [
    | inl e ↦ rw (e, remove) (refl, λ other. unchanged r name other e)
    | inr (tool, e) ↦ rw (e, remove) (refl, λ other. lookup-erase name other r.tools)
  ]

  step-view :
      (r : ToolRegistry W) (w : W) (c : Command W)
      → viewed (step (r, w) c) ≡ spec_step (view r, w) c
  unfolding step spec_step register_tool get contains execute remove clear lookup
  step-view r w (register_it none) = refl
  step-view r w (register_it (some tool)) =
      ap (λ s. ((s, w), done))
        (fun_ext λ other. lookup-assign tool.definition.name other tool r.tools)
  step-view r w (get_it name) = refl
  step-view r w (contains_it name) = rw (contains-view r name) refl
  step-view r w (remove_it name) =
      let (reply, left) = remove-view r name in
      rw reply (ap (λ s. ((s, w), answer (is_found (view r name)))) (fun_ext left))
  step-view r w (execute_it name params) = rw (execute-view r w name params) refl
  step-view r w clear_it = refl

  replies-view :
      (cs : List (Command W)) (r : ToolRegistry W) (w : W)
      → replies (r, w) cs ≡ spec_replies (view r, w) cs
  unfolding replies spec_replies
  replies-view [] r w = refl
  replies-view (c ∷ cs) r w =
      rw⁻¹ (step-view r w c)
        (ap (◌∷◌ (step (r, w) c).1) (replies-view cs (step (r, w) c).0.0 (step (r, w) c).0.1))

  -- A client cannot tell the registry from a partial function from names to tools: whatever commands it
  -- gives to an empty registry, the replies are those of the function that is nowhere defined at first,
  -- is changed at one name by a registration or a removal, and answers for that name alone.
  pub replies_lem :
      (w : W) (cs : List (Command W))
      → replies (record { tools = [] }, w) cs ≡ spec_replies ((λ name. none), w) cs
  unfolding lookup
  replies_lem w cs = replies-view cs (record { tools = [] }) w
