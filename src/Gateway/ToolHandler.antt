-- ===== src/Gateway/ToolHandler.antt =====
-- gateway/tool_handler.cpp: the requests for the tools. The world is the registry beside what its tools
-- act on. Where a tool's result is undefined, there is no reply.
pub mod Registered
use mylobsterpp.Prelude.{
  Bool, true, false, ◌||◌, Option, none, some, List, [], ◌∷◌, ◌++◌, map, length, Text, codes, pos,
  Json, Items, Members, text, number, boolean, array, object, no_items, item, no_members, member,
  Result, ok, err, undefined, what,
}
use mylobsterpp.Prelude.Partial.{◌>>=◌}
use mylobsterpp.Agent.Tool.{ToolDefinition, to_json}
use mylobsterpp.Agent.ToolRegistry.{Tool, ToolRegistry, list, get, execute, remove}
use mylobsterpp.Gateway.Params.{value_text, value_json, refused, accepted}
use mylobsterpp.Gateway.Protocol.{MethodHandler, Protocol, register_method}

abbrev pub ToolWorld : Type 0 → Type 0
ToolWorld W = ToolRegistry W × W

-- An object of texts.
abbrev pub texts : List (Text × Text) → Members
texts [] = no_members
texts ((key, t) ∷ l) = member key (text t) (texts l)

unfoldable pub listed : List ToolDefinition → Items
listed [] = no_items
listed (d ∷ ds) =
    item (object (texts ((codes "name", d.name) ∷ (codes "description", d.description) ∷ [])))
      (listed ds)

-- `show_result` is false where only the success is reported.
unfoldable pub reply_of : (show_result : Bool) → Result Json → Option Json
unfolding refused accepted what
reply_of true (ok j) = some (accepted (member (codes "result") j no_members))
reply_of false (ok j) = some (accepted no_members)
reply_of show_result (err e) = some (refused (what e))
reply_of show_result undefined = none

-- Parameters of two texts.
abbrev pub two_texts : (key : Text) → Option Text → (first value : Text) → Option Json
two_texts key none first value = none
two_texts key (some other) first value = some (object (texts ((first, value) ∷ (key, other) ∷ [])))

-- The value, if the other could be read.
abbrev pub if_read : Option Text → Option Text → Option Text
if_read none value = none
if_read (some other) value = value

abbrev pub one_text : (key : Text) → Option Text → Option Json
one_text key none = none
one_text key (some value) = some (object (texts ((key, value) ∷ [])))

module _ {W : Type 0} where
  unfoldable pub tool_list : MethodHandler (ToolWorld W)
  unfolding list listed
  tool_list (r, w) params = (
    (r, w),
    some (
        object (
          member (codes "tools") (array (listed (list r)))
            (member (codes "count") (number (pos (length (list r)))) no_members))),
  )

  -- A handler that wants a text that is not empty.
  unfoldable pub with_text :
      (message : Text)
      → (ToolWorld W → Text → ToolWorld W × Option Json)
      → ToolWorld W
      → Option Text
      → ToolWorld W × Option Json
  unfolding refused
  with_text message run s none = (s, none)
  with_text message run s (some []) = (s, some (refused message))
  with_text message run s (some (c ∷ t)) = run s (c ∷ t)

  unfoldable pub executed :
      (show_result : Bool) → ToolWorld W → (name : Text) → Json → ToolWorld W × Option Json
  unfolding execute reply_of
  executed show_result (r, w) name params =
      let (v, result) = execute r w name params in ((r, v), reply_of show_result result)

  -- With parameters whose reading may throw.
  abbrev pub executed_with :
      (show_result : Bool) → ToolWorld W → (name : Text) → Option Json → ToolWorld W × Option Json
  executed_with show_result s name none = (s, none)
  executed_with show_result s name (some params) = executed show_result s name params

  unfoldable pub tool_execute : MethodHandler (ToolWorld W)
  unfolding value_text value_json with_text executed
  tool_execute s params =
      with_text (codes "name is required")
        (λ t name.
          executed_with true t name (value_json (codes "params") (object no_members) params))
        s (value_text (codes "name") [] params)

  unfoldable pub tool_register : MethodHandler (ToolWorld W)
  unfolding refused
  tool_register s params = (s, some (refused (codes "Dynamic tool registration not yet supported")))

  unfoldable pub unregistered : ToolWorld W → (name : Text) → ToolWorld W × Option Json
  unfolding remove
  unregistered (r, w) name =
      let (q, removed) = remove r name in
      ((q, w), some (object (member (codes "ok") (boolean removed) no_members)))

  unfoldable pub tool_unregister : MethodHandler (ToolWorld W)
  unfolding value_text with_text unregistered
  tool_unregister s params =
      with_text (codes "name is required") unregistered s (value_text (codes "name") [] params)

  unfoldable pub description_of : (name : Text) → Option (Tool W) → Json
  unfolding refused to_json
  description_of name none = refused (codes "Tool not found: " ++ name)
  description_of name (some tool) = object (
      member (codes "name") (text tool.definition.name) (
        member (codes "description") (text tool.definition.description)
          (member (codes "schema") (to_json tool.definition) no_members)))

  unfoldable pub tool_describe : MethodHandler (ToolWorld W)
  unfolding value_text with_text get description_of
  tool_describe s params =
      with_text (codes "name is required")
        (λ t name. (t, some (description_of name (get t.0 name)))) s
        (value_text (codes "name") [] params)

  -- tool.enable and tool.disable
  unfoldable pub tool_enable : MethodHandler (ToolWorld W)
  unfolding accepted
  tool_enable s params = (s, some (accepted no_members))

  -- A request for one tool with one text, which must not be empty.
  unfoldable pub run_with : (name key message : Text) → MethodHandler (ToolWorld W)
  unfolding value_text with_text executed
  run_with name key message s params =
      with_text message (λ t value. executed true t name (object (texts ((key, value) ∷ [])))) s
        (value_text key [] params)

  unfoldable pub shell_exec : MethodHandler (ToolWorld W)
  unfolding run_with
  shell_exec = run_with (codes "shell") (codes "command") (codes "command is required")

  unfoldable pub file_read : MethodHandler (ToolWorld W)
  unfolding run_with
  file_read = run_with (codes "file_read") (codes "path") (codes "path is required")

  unfoldable pub code_analyze : MethodHandler (ToolWorld W)
  unfolding run_with
  code_analyze = run_with (codes "code_analyze") (codes "code") (codes "code is required")

  -- With a second text, which is read when the first is not empty.
  unfoldable pub run_with_two :
      (show_result : Bool) → (name key message other default : Text) → MethodHandler (ToolWorld W)
  unfolding value_text with_text executed
  run_with_two show_result name key message other default s params =
      with_text message
        (λ t value.
          executed_with show_result t name
            (two_texts other (value_text other default params) key value))
        s (value_text key [] params)

  -- With a second text, which is read before the first is looked at.
  unfoldable pub run_with_both :
      (show_result : Bool) → (name key message other default : Text) → MethodHandler (ToolWorld W)
  unfolding value_text with_text executed
  run_with_both show_result name key message other default s params =
      with_text message
        (λ t value.
          executed_with show_result t name
            (two_texts other (value_text other default params) key value))
        s (if_read (value_text other default params) (value_text key [] params))

  unfoldable pub file_write : MethodHandler (ToolWorld W)
  unfolding run_with_both
  file_write =
      run_with_both false (codes "file_write") (codes "path") (codes "path is required")
        (codes "content") []

  unfoldable pub file_search : MethodHandler (ToolWorld W)
  unfolding run_with_both
  file_search =
      run_with_both true (codes "file_search") (codes "pattern") (codes "pattern is required")
        (codes "path") (codes ".")

  unfoldable pub http_request : MethodHandler (ToolWorld W)
  unfolding run_with_two
  http_request =
      run_with_two true (codes "http_request") (codes "url") (codes "url is required")
        (codes "method") (codes "GET")

  unfoldable pub code_run : MethodHandler (ToolWorld W)
  unfolding run_with_both
  code_run =
      run_with_both true (codes "code_run") (codes "code") (codes "code is required")
        (codes "language") (codes "python")

  unfoldable pub file_list : MethodHandler (ToolWorld W)
  unfolding value_text executed
  file_list s params =
      executed_with true s (codes "file_list")
        (one_text (codes "path") (value_text (codes "path") (codes ".") params))

  -- The handlers with their names and descriptions.
  unfoldable pub tool_handlers : List (Text × MethodHandler (ToolWorld W) × Text)
  unfolding tool_list tool_execute tool_register tool_unregister tool_describe tool_enable
      shell_exec file_read file_write file_list file_search http_request code_run code_analyze
  tool_handlers =
      (codes "tool.list", tool_list, codes "List all registered tools")
      ∷ (codes "tool.execute", tool_execute, codes "Execute a tool by name with params")
      ∷ (codes "tool.register", tool_register, codes "Register a new dynamic tool")
      ∷ (codes "tool.unregister", tool_unregister, codes "Unregister a dynamic tool")
      ∷ (codes "tool.describe", tool_describe, codes "Get tool schema and description")
      ∷ (codes "tool.enable", tool_enable, codes "Enable a disabled tool")
      ∷ (codes "tool.disable", tool_enable, codes "Disable a tool without unregistering")
      ∷ (codes "tool.shell.exec", shell_exec, codes "Execute a shell command")
      ∷ (codes "tool.file.read", file_read, codes "Read file contents")
      ∷ (codes "tool.file.write", file_write, codes "Write file contents")
      ∷ (codes "tool.file.list", file_list, codes "List directory contents")
      ∷ (codes "tool.file.search", file_search, codes "Search files by pattern")
      ∷ (codes "tool.http.request", http_request, codes "Make an HTTP request")
      ∷ (codes "tool.code.run", code_run, codes "Execute code in a sandboxed runtime")
      ∷ (codes "tool.code.analyze", code_analyze, codes "Analyze code for issues")
      ∷ []

  unfoldable pub register_each :
      List (Text × MethodHandler (ToolWorld W) × Text)
      → Protocol (ToolWorld W)
      → Protocol (ToolWorld W)
  unfolding register_method
  register_each [] p = p
  register_each ((name, handler, description) ∷ l) p =
      register_each l (register_method p name handler description (codes "tool"))

  unfoldable pub register_tool_handlers : Protocol (ToolWorld W) → Protocol (ToolWorld W)
  unfolding tool_handlers register_each
  register_tool_handlers p = register_each tool_handlers p
