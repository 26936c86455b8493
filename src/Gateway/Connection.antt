-- ===== src/Gateway/Connection.antt =====
-- gateway/server.cpp, class Connection: what a connection sends for what it receives. A message comes
-- with whether the write of its response fails; the end of the messages is the close by the peer or an
-- error of the read. JSON texts and regular expressions are libraries' and stand as arguments: `dump`
-- throws on a text that is not UTF-8, and `sanitize` is sanitize_outbound_text, three replacements by
-- std::regex, whose own exceptions are left out. No handler catches what `dump` throws: it leaves the loop with the connection open.
pub mod Responses
pub mod World
use mylobsterpp.Prelude.{
  Bool, true, false, not, ◌&&◌, Option, none, some, List, [], ◌∷◌, ◌++◌, if◌then◌else◌, Text, codes,
  Json, Error, Result, VoidResult, ok, err, undefined, fail, connection_closed, io_error,
  protocol_error,
}
use mylobsterpp.Gateway.Frame.{
  Frame, request, response, event_frame, RequestFrame, ResponseFrame, parse_frame, serialize_frame,
  make_response, make_error_response,
}
use mylobsterpp.Gateway.Hooks.{HookRegistry, SortHooks, run_before, run_after}
use mylobsterpp.Gateway.Protocol.{Protocol, dispatch}

-- What turns a frame into the text that is written.
pub record Wire : Type 0 where
  pub dump : Json → Option Text
  pub sanitize : Text → Text

-- `sent` holds the texts that are written to the socket, `thrown` is whether an exception has left the
-- loop.
pub record Connection : Type 0 where
  pub is_open : Bool
  pub thrown : Bool
  pub sent : List Text

unfoldable pub send_text :
    (sanitize : Text → Text) → (fails : Bool) → Connection → Text → Connection × VoidResult
send_text sanitize fails c message =
    if not c.is_open
    then (c, fail connection_closed "Connection is closed")
    else if fails
    then (record c { is_open = false }, fail io_error "WebSocket write failed")
    else (record c { sent = c.sent ++ sanitize message ∷ [] }, ok tt)

abbrev pub send_dumped :
    Wire → (fails : Bool) → Connection → Option Text → Connection × Option VoidResult
send_dumped wire fails c none = (record c { thrown = true }, none)
send_dumped wire fails c (some message) =
    let (d, result) = send_text wire.sanitize fails c message in (d, some result)

-- The result is `none` where the serialization throws.
unfoldable pub send : Wire → (fails : Bool) → Connection → Frame → Connection × Option VoidResult
unfolding serialize_frame send_text
send wire fails c frame =
    if not c.is_open
    then (c, some (fail connection_closed "Connection is closed"))
    else send_dumped wire fails c (serialize_frame wire.dump frame)

unfoldable pub close : Connection → Connection
close c = record c { is_open = false }

module _ {W : Type 0} (sort : SortHooks) (hooks : HookRegistry) (protocol : Protocol W) where
  -- `none` where the handler's result is undefined.
  unfoldable pub response_of : RequestFrame → Result Json → Option ResponseFrame
  unfolding run_after make_response make_error_response
  response_of req (ok result) = some (make_response req.id (run_after sort hooks req.method result))
  response_of req (err e) = some (make_error_response req.id e.error_code e.message)
  response_of req undefined = none

  unfoldable pub answer : W → RequestFrame → W × Option ResponseFrame
  unfolding run_before dispatch response_of
  answer w req =
      let hooked = record req { params = run_before sort hooks req.method req.params } in
      let (v, result) = dispatch protocol w hooked in (v, response_of req result)

abbrev pub send_some : Wire → (fails : Bool) → Connection → Option ResponseFrame → Connection
send_some wire fails c none = c
send_some wire fails c (some f) = (send wire fails c (response f)).0

-- The loop goes on.
abbrev pub is_running : Connection → Bool
is_running c = c.is_open && not c.thrown

module _ {W : Type 0} (wire : Wire) (sort : SortHooks) (hooks : HookRegistry)
    (protocol : Protocol W) where
  unfoldable pub handle_request : (fails : Bool) → W × Connection → RequestFrame → W × Connection
  unfolding answer send
  handle_request fails (w, c) req =
      let (v, reply) = answer sort hooks protocol w req in (v, send_some wire fails c reply)

  -- Responses and events from a client only reach the log.
  unfoldable pub handle_frame : (fails : Bool) → W × Connection → Frame → W × Connection
  unfolding handle_request
  handle_frame fails s (request req) = handle_request fails s req
  handle_frame fails s _ = s

  unfoldable pub receive : (fails : Bool) → W × Connection → Result Frame → W × Connection
  unfolding handle_frame send make_error_response
  receive fails s (ok frame) = handle_frame fails s frame
  receive fails (w, c) (err e) =
      (w, (send wire fails c (response (make_error_response [] protocol_error e.message))).0)
  receive fails s undefined = s

  unfoldable pub read_loop :
      (parse : Text → Option Json) → W × Connection → List (Text × Bool) → W × Connection
  unfolding receive parse_frame close
  read_loop parse (w, c) [] = (w, if is_running c then close c else c)
  read_loop parse (w, c) ((bytes, fails) ∷ later) =
      let rest = read_loop parse (receive fails (w, c) (parse_frame parse bytes)) later in
      if is_running c then rest else (w, c)
