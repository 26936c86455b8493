-- ===== src/Gateway/Connection/World.antt =====
-- What the messages of a client cannot break.
use mylobsterpp.Prelude.{
  inl, inr, Bool, true, false, Option, Option-cases, none, some, List, [], ◌∷◌, if◌then◌else◌, Text,
  codes, Json, Result, ok, err, undefined, lookup, Entries, Entries-lookup, Entries-assign,
}
use mylobsterpp.Gateway.Frame.{Frame, request, response, event_frame, RequestFrame, parse_frame}
use mylobsterpp.Gateway.Hooks.{HookRegistry, SortHooks, run_before}
use mylobsterpp.Gateway.Protocol.{
  MethodHandler, Entry, Protocol, register_method, finished, dispatch,
}
use mylobsterpp.Gateway.Protocol.Builtins.{
  make_stub, register_stubs, register_builtins, gateway_methods, session_methods, channel_methods,
  tool_methods, memory_methods, browser_methods, provider_methods, plugin_methods, agent_methods,
  cron_methods, config_methods,
}
use mylobsterpp.Gateway.Connection.{
  Wire, Connection, is_running, answer, handle_request, handle_frame, receive, read_loop,
}

module _ {W : Type 0} (Inv : W → Type 0) where
  -- The handler keeps the property of the world, whatever its parameters are.
  abbrev pub HandlerKeeps : MethodHandler W → Type 0
  HandlerKeeps handler = (w : W) (params : Json) → Inv w → Inv (handler w params).0

  abbrev EntryKeeps : Text → Entry W → Type 0
  EntryKeeps name entry = HandlerKeeps entry.handler

  pub record Keeps (p : Protocol W) : Type 0 where
    pub handlers : Entries EntryKeeps p.entries

  pub register_method-Keeps :
      (p : Protocol W) (name description group : Text) (handler : MethodHandler W)
      → HandlerKeeps handler
      → Keeps p
      → Keeps (register_method p name handler description group)
  unfolding register_method
  register_method-Keeps p name description group handler h keeps = record {
    handlers = Entries-assign EntryKeeps name _ p.entries h keeps.handlers;
  }

  finished-Inv : (x : W × Option Json) → Inv x.0 → Inv (finished x).0
  finished-Inv (w, none) h = h
  finished-Inv (w, some j) h = h

  dispatch-Inv :
      (p : Protocol W) (w : W) (req : RequestFrame) → Keeps p → Inv w → Inv (dispatch p w req).0
  unfolding dispatch
  dispatch-Inv p w req keeps h = elim (Option-cases (lookup req.method p.entries)) [
    | inl e ↦ rw (e, dispatch) h
    | inr (entry, e) ↦
        let kept = Entries-lookup EntryKeeps req.method p.entries entry keeps.handlers e in
        rw (e, dispatch) (finished-Inv (entry.handler w req.params) (kept w req.params h))
  ]

  stubs-Keeps :
      (group : Text) (l : List (Text × Text)) (p : Protocol W)
      → Keeps p
      → Keeps (register_stubs group l p)
  unfolding register_stubs make_stub
  stubs-Keeps group [] p h = h
  stubs-Keeps group ((name, description) ∷ l) p h =
      stubs-Keeps group l _ (register_method-Keeps p name description group _ (λ w params k. k) h)

  pub register_builtins-Keeps : (p : Protocol W) → Keeps p → Keeps (register_builtins p)
  unfolding register_builtins
  register_builtins-Keeps p h = stubs-Keeps (codes "config") config_methods _ (
      stubs-Keeps (codes "cron") cron_methods _ (
        stubs-Keeps (codes "agent") agent_methods _ (
          stubs-Keeps (codes "plugin") plugin_methods _ (
            stubs-Keeps (codes "provider") provider_methods _ (
              stubs-Keeps (codes "browser") browser_methods _ (
                stubs-Keeps (codes "memory") memory_methods _ (
                  stubs-Keeps (codes "tool") tool_methods _ (
                    stubs-Keeps (codes "channel") channel_methods _ (
                      stubs-Keeps (codes "session") session_methods _
                        (stubs-Keeps (codes "gateway") gateway_methods _ h))))))))))

  if-Inv : (b : Bool) (x y : W × Connection) → Inv x.0 → Inv y.0 → Inv (if b then x else y).0
  if-Inv true x y h k = h
  if-Inv false x y h k = k

  module _ (wire : Wire) (sort : SortHooks) (hooks : HookRegistry) (protocol : Protocol W)
      (keeps : Keeps protocol) where
    receive-Inv :
        (fails : Bool) (w : W) (c : Connection) (message : Result Frame)
        → Inv w
        → Inv (receive wire sort hooks protocol fails (w, c) message).0
    unfolding receive handle_frame handle_request answer
    receive-Inv fails w c (ok (request req)) h =
        dispatch-Inv protocol w
          (record req { params = run_before sort hooks req.method req.params }) keeps h
    receive-Inv fails w c (ok (response f)) h = h
    receive-Inv fails w c (ok (event_frame f)) h = h
    receive-Inv fails w c (err e) h = h
    receive-Inv fails w c undefined h = h

    -- If every handler keeps a property of the world, it holds behind whatever messages a connection
    -- receives, malformed ones, failing writes and exceptions included.
    pub read_loop-Inv :
        (parse : Text → Option Json) (messages : List (Text × Bool)) (w : W) (c : Connection)
        → Inv w
        → Inv (read_loop wire sort hooks protocol parse (w, c) messages).0
    unfolding read_loop
    read_loop-Inv parse [] w c h = h
    read_loop-Inv parse ((bytes, fails) ∷ later) w c h =
        if-Inv (is_running c) _ _
          (read_loop-Inv parse later
            (receive wire sort hooks protocol fails (w, c) (parse_frame parse bytes)).0
            (receive wire sort hooks protocol fails (w, c) (parse_frame parse bytes)).1
            (receive-Inv fails w c (parse_frame parse bytes) h))
          h
