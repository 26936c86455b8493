-- ===== src/Gateway/ToolHandler/Registered.antt =====
-- What requests make of the registry.
use mylobsterpp.Prelude.{
  ◌≡◌, ◌⊎◌, refl, inl, inr, Bool, true, false, Option, Option-cases, none, some, List, [], ◌∷◌, All,
  ◌∙◌, if◌then◌else◌, Text, text_eq, lookup, lookup-erase, Json, codes, object, no_members,
}
use mylobsterpp.Agent.ToolRegistry.{ToolRegistry, get, remove}
use mylobsterpp.Gateway.Hooks.{HookRegistry, SortHooks}
use mylobsterpp.Gateway.Protocol.{MethodHandler, Protocol}
use mylobsterpp.Gateway.Protocol.Builtins.{register_builtins}
use mylobsterpp.Gateway.Connection.{Wire, Connection, read_loop}
use mylobsterpp.Gateway.Connection.World.{
  HandlerKeeps, Keeps, register_method-Keeps, register_builtins-Keeps, read_loop-Inv,
}
use mylobsterpp.Gateway.Params.{value_text, value_json}
use mylobsterpp.Gateway.ToolHandler.{
  texts, two_texts, if_read, one_text, description_of, ToolWorld, with_text, executed,
  executed_with, unregistered, tool_list, tool_execute, tool_register, tool_unregister,
  tool_describe, tool_enable, run_with, run_with_two, run_with_both, shell_exec, file_read,
  file_write, file_list, file_search, http_request, code_run, code_analyze, tool_handlers,
  register_each, register_tool_handlers,
}

if_none :
    {A : Type 0} (b : Bool) (x : Option A)
    → ((if b then none else x) ≡ none) ⊎ ((if b then none else x) ≡ x)
if_none true x = inl refl
if_none false x = inr refl

remove-lookup :
    {W : Type 0} (r : ToolRegistry W) (name other : Text)
    → (lookup other (remove r name).0.tools ≡ none)
      ⊎ (lookup other (remove r name).0.tools ≡ lookup other r.tools)
unfolding remove
remove-lookup r name other = elim (Option-cases (lookup name r.tools)) [
  | inl e ↦ rw (e, remove) (inr refl)
  | inr (tool, e) ↦
      rw (e, remove) (rw (lookup-erase name other r.tools) (if_none (text_eq name other) _))
]

module _ {W : Type 0} (before : ToolRegistry W) where
  -- Under every name there is the tool that was there before, or none any more.
  pub record IsPart (s : ToolWorld W) : Type 0 where
    pub kept :
        (name : Text)
        → (lookup name s.0.tools ≡ none) ⊎ (lookup name s.0.tools ≡ lookup name before.tools)

  with_text-IsPart :
      (message : Text) (run : ToolWorld W → Text → ToolWorld W × Option Json)
      → ((s : ToolWorld W) (t : Text) → IsPart s → IsPart (run s t).0)
      → (s : ToolWorld W) (t : Option Text) → IsPart s
      → IsPart (with_text message run s t).0
  unfolding with_text
  with_text-IsPart message run keeps s none h = h
  with_text-IsPart message run keeps s (some []) h = h
  with_text-IsPart message run keeps s (some (c ∷ t)) h = keeps s (c ∷ t) h

  executed_with-IsPart :
      (show_result : Bool) (s : ToolWorld W) (name : Text) (params : Option Json)
      → IsPart s
      → IsPart (executed_with show_result s name params).0
  unfolding executed
  executed_with-IsPart show_result s name none h = h
  executed_with-IsPart show_result s name (some params) h = record { kept = h.kept }

  unregistered-IsPart : (s : ToolWorld W) (name : Text) → IsPart s → IsPart (unregistered s name).0
  unfolding unregistered
  unregistered-IsPart (r, w) name h = record {
    kept = λ other. elim (remove-lookup r name other) [
      | inl gone ↦ inl gone
      | inr there ↦ elim (h.kept other) [ inl e ↦ inl (there ∙ e) | inr e ↦ inr (there ∙ e) ]
    ];
  }

  -- A handler that runs a tool once it has a text.
  runs-IsPart :
      (show_result : Bool) (name message : Text) (params : ToolWorld W → Text → Option Json)
      (s : ToolWorld W) (t : Option Text)
      → IsPart s
      → IsPart
          (with_text message (λ q value. executed_with show_result q name (params q value)) s t).0
  runs-IsPart show_result name message params =
      with_text-IsPart message (λ q value. executed_with show_result q name (params q value))
        (λ q value. executed_with-IsPart show_result q name (params q value))

  run_with-Keeps : (name key message : Text) → HandlerKeeps IsPart (run_with name key message)
  unfolding run_with
  run_with-Keeps name key message s params h =
      runs-IsPart true name message (λ q value. some (object (texts ((key, value) ∷ [])))) s
        (value_text key [] params) h

  run_with_two-Keeps :
      (show_result : Bool) (name key message other default : Text)
      → HandlerKeeps IsPart (run_with_two show_result name key message other default)
  unfolding run_with_two
  run_with_two-Keeps show_result name key message other default s params h =
      runs-IsPart show_result name message
        (λ q value. two_texts other (value_text other default params) key value) s
        (value_text key [] params) h

  run_with_both-Keeps :
      (show_result : Bool) (name key message other default : Text)
      → HandlerKeeps IsPart (run_with_both show_result name key message other default)
  unfolding run_with_both
  run_with_both-Keeps show_result name key message other default s params h =
      runs-IsPart show_result name message
        (λ q value. two_texts other (value_text other default params) key value) s
        (if_read (value_text other default params) (value_text key [] params)) h

  tool_execute-Keeps : HandlerKeeps IsPart tool_execute
  unfolding tool_execute
  tool_execute-Keeps s params h =
      with_text-IsPart (codes "name is required")
        (λ q name.
          executed_with true q name (value_json (codes "params") (object no_members) params))
        (λ q name.
          executed_with-IsPart true q name (value_json (codes "params") (object no_members) params))
        s (value_text (codes "name") [] params) h

  tool_unregister-Keeps : HandlerKeeps IsPart tool_unregister
  unfolding tool_unregister
  tool_unregister-Keeps s params h =
      with_text-IsPart (codes "name is required") unregistered unregistered-IsPart s
        (value_text (codes "name") [] params) h

  tool_describe-Keeps : HandlerKeeps IsPart tool_describe
  unfolding tool_describe
  tool_describe-Keeps s params h =
      with_text-IsPart (codes "name is required")
        (λ q name. (q, some (description_of name (get q.0 name)))) (λ q name k. k) s
        (value_text (codes "name") [] params) h

  file_list-Keeps : HandlerKeeps IsPart file_list
  unfolding file_list
  file_list-Keeps s params h =
      executed_with-IsPart true s (codes "file_list")
        (one_text (codes "path") (value_text (codes "path") (codes ".") params)) h

  tool_handlers-Keep :
      All (λ (h : Text × MethodHandler (ToolWorld W) × Text). HandlerKeeps IsPart h.1) tool_handlers
  unfolding tool_handlers tool_list tool_register tool_enable shell_exec file_read file_write
      file_search http_request code_run code_analyze
  tool_handlers-Keep = (
    (λ s params h. h),
    (
      tool_execute-Keeps,
      (
        (λ s params h. h),
        (
          tool_unregister-Keeps,
          (
            tool_describe-Keeps,
            (
              (λ s params h. h),
              (
                (λ s params h. h),
                (
                  run_with-Keeps (codes "shell") (codes "command") (codes "command is required"),
                  (
                    run_with-Keeps (codes "file_read") (codes "path") (codes "path is required"),
                    (
                      run_with_both-Keeps false (codes "file_write") (codes "path")
                          (codes "path is required") (codes "content") [],
                      (
                        file_list-Keeps,
                        (
                          run_with_both-Keeps true (codes "file_search") (codes "pattern")
                              (codes "pattern is required") (codes "path") (codes "."),
                          (
                            run_with_two-Keeps true (codes "http_request") (codes "url")
                                (codes "url is required") (codes "method") (codes "GET"),
                            (
                              run_with_both-Keeps true (codes "code_run") (codes "code")
                                  (codes "code is required") (codes "language") (codes "python"),
                              (
                                run_with-Keeps (codes "code_analyze") (codes "code")
                                    (codes "code is required"),
                                tt,
                              ),
                            ),
                          ),
                        ),
                      ),
                    ),
                  ),
                ),
              ),
            ),
          ),
        ),
      ),
    ),
  )

  register_each-Keeps :
      (l : List (Text × MethodHandler (ToolWorld W) × Text)) (p : Protocol (ToolWorld W))
      → All (λ (h : Text × MethodHandler (ToolWorld W) × Text). HandlerKeeps IsPart h.1) l
      → Keeps IsPart p
      → Keeps IsPart (register_each l p)
  unfolding register_each
  register_each-Keeps [] p h k = k
  register_each-Keeps ((name, handler, description) ∷ l) p h k =
      register_each-Keeps l _ h.1 (register_method-Keeps IsPart p name description _ handler h.0 k)

  -- Whatever messages a client sends to a gateway with the built-in stubs and the handlers of the tools,
  -- no tool is registered or replaced: under every name there is the tool of before, or none.
  pub read_loop-IsPart :
      (wire : Wire) (sort : SortHooks) (hooks : HookRegistry) (parse : Text → Option Json)
      (messages : List (Text × Bool)) (w : W) (c : Connection)
      → let gateway = register_tool_handlers (register_builtins (record { entries = [] })) in
        IsPart (read_loop wire sort hooks gateway parse ((before, w), c) messages).0
  unfolding register_tool_handlers
  read_loop-IsPart wire sort hooks parse messages w c =
      read_loop-Inv IsPart wire sort hooks _
        (register_each-Keeps tool_handlers _ tool_handlers-Keep
          (register_builtins-Keeps IsPart (record { entries = [] }) (record { handlers = tt })))
        parse messages (before, w) c (record { kept = λ name. inr refl })
