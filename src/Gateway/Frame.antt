-- ===== src/Gateway/Frame.antt =====
-- gateway/frame.cpp and frame.hpp: the frames of the gateway's protocol, to JSON and back. The printer
-- `json::dump` and the parser `json::parse` are arguments. A conversion that throws a `json::exception`
-- is `none`.
pub mod RoundTrip
use mylobsterpp.Prelude.{
  Bool, true, false, ◌&&◌, ◌||◌, Option, none, some, List, [], ◌∷◌, ◌++◌, if◌then◌else◌, Text,
  codes, text_eq, Json, Members, null, boolean, text, object, no_members, member, find_member,
  put_member, Result, ok, fail, fail_with, protocol_error, serialization_error, ErrorCode,
  error_code_to_string,
}
use mylobsterpp.Prelude.Partial.{◌>>=◌}

pub record RequestFrame : Type 0 where
  pub id : Text
  pub method : Text
  pub params : Json

pub record ResponseFrame : Type 0 where
  pub id : Text
  pub is_ok : Bool
  pub result : Option Json
  pub error : Option Json

pub record EventFrame : Type 0 where
  pub event : Text
  pub payload : Json

pub data Frame : Type 0 where
  request : RequestFrame → Frame
  response : ResponseFrame → Frame
  event_frame : EventFrame → Frame

-- `get<std::string>()`
unfoldable pub get_text : Json → Option Text
get_text (text t) = some t
get_text _ = none

unfoldable pub get_bool : Json → Option Bool
get_bool (boolean b) = some b
get_bool _ = none

-- `j.at(key).get_to(...)` for a string.
unfoldable pub at_text : Text → Members → Option Text
unfolding find_member get_text
at_text key ms = elim (find_member key ms) [ none ↦ none | some v ↦ get_text v ]

abbrev empty_object : Json
empty_object = object no_members

unfoldable pub request_to_json : RequestFrame → Json
request_to_json f = object (
    member (codes "type") (text (codes "req")) (
      member (codes "id") (text f.id)
        (member (codes "method") (text f.method) (member (codes "params") f.params no_members))))

unfoldable pub put_some : Text → Option Json → Members → Members
unfolding put_member
put_some key none ms = ms
put_some key (some v) ms = put_member key v ms

unfoldable pub response_to_json : ResponseFrame → Json
unfolding put_some
response_to_json f = object (
    put_some (codes "error") f.error (
      put_some (codes "payload") f.result (
        member (codes "type") (text (codes "res"))
          (member (codes "id") (text f.id) (member (codes "ok") (boolean f.is_ok) no_members)))))

unfoldable pub event_to_json : EventFrame → Json
event_to_json f = object (
    member (codes "type") (text (codes "event"))
      (member (codes "event") (text f.event) (member (codes "payload") f.payload no_members)))

unfoldable pub frame_to_json : Frame → Json
unfolding request_to_json response_to_json event_to_json
frame_to_json (request f) = request_to_json f
frame_to_json (response f) = response_to_json f
frame_to_json (event_frame f) = event_to_json f

-- The value of the first key that is there.
unfoldable pub first_of : Text → Text → Members → Option Json
first_of key old ms = elim (find_member key ms) [ none ↦ find_member old ms | some v ↦ some v ]

abbrev or_empty : Option Json → Json
or_empty none = empty_object
or_empty (some v) = v

unfoldable pub request_from_json : Members → Option RequestFrame
unfolding at_text
request_from_json ms = do
  id ← at_text (codes "id") ms
  method ← at_text (codes "method") ms
  some (record { id = id; method = method; params = or_empty (find_member (codes "params") ms) })

-- `j.value("ok", true)`
unfoldable pub ok_or_true : Members → Option Bool
unfolding get_bool
ok_or_true ms = elim (find_member (codes "ok") ms) [ none ↦ some true | some v ↦ get_bool v ]

unfoldable pub response_from_json : Members → Option ResponseFrame
unfolding at_text ok_or_true first_of
response_from_json ms = do
  id ← at_text (codes "id") ms
  is_ok ← ok_or_true ms
  some (record {
    id = id;
    is_ok = is_ok;
    result = first_of (codes "payload") (codes "result") ms;
    error = find_member (codes "error") ms;
  })

unfoldable pub event_from_json : Members → Option EventFrame
unfolding at_text first_of
event_from_json ms = do
  event ← at_text (codes "event") ms
  some (record { event = event; payload = or_empty (first_of (codes "payload") (codes "data") ms) })

abbrev is_there : Option Json → Bool
is_there none = false
is_there (some _) = true

unfoldable pub contains : Text → Members → Bool
contains key ms = is_there (find_member key ms)

-- The type by the shape of the object.
unfoldable pub inferred_type : Members → Option Text
unfolding contains
inferred_type ms =
    if contains (codes "method") ms
    then some (codes "request")
    else if contains (codes "event") ms
    then some (codes "event")
    else if contains (codes "id") ms
        && (contains (codes "payload") ms
            || contains (codes "result") ms
            || contains (codes "error") ms)
    then some (codes "response")
    else none

unfoldable pub frame_type : Members → Option Text
unfolding at_text inferred_type
frame_type ms = elim (at_text (codes "type") ms) [ none ↦ inferred_type ms | some t ↦ some t ]

abbrev converted {ℓ} : {A : Type ℓ} → Option A → (A → Frame) → Result Frame
converted none make = fail serialization_error "Failed to deserialize frame fields"
converted (some f) make = ok (make f)

unfoldable pub frame_of_type : Text → Members → Result Frame
unfolding request_from_json response_from_json event_from_json
frame_of_type type ms =
    if text_eq type (codes "req") || text_eq type (codes "request")
    then converted (request_from_json ms) request
    else if text_eq type (codes "res") || text_eq type (codes "response")
    then converted (response_from_json ms) response
    else if text_eq type (codes "event")
    then converted (event_from_json ms) event_frame
    else fail_with protocol_error (codes "Unknown frame type: " ++ type) []

-- `parse_frame` behind `json::parse`.
unfoldable pub frame_from_json : Json → Result Frame
unfolding frame_type frame_of_type
frame_from_json (object ms) = elim (frame_type ms) [
  | none ↦ fail protocol_error "Cannot determine frame type from JSON"
  | some type ↦ frame_of_type type ms
]
frame_from_json _ = fail protocol_error "Frame must be a JSON object"

unfoldable pub parse_frame : (parse : Text → Option Json) → Text → Result Frame
unfolding frame_from_json
parse_frame parse bytes = elim (parse bytes) [
  | none ↦ fail serialization_error "Failed to parse frame JSON"
  | some j ↦ frame_from_json j
]

-- `none` where `dump` throws, on a text that is not UTF-8.
unfoldable pub serialize_frame : (dump : Json → Option Text) → Frame → Option Text
unfolding frame_to_json
serialize_frame dump f = dump (frame_to_json f)

unfoldable pub make_response : (id : Text) → Json → ResponseFrame
make_response id result = record { id = id; is_ok = true; result = some result; error = none }

unfoldable pub make_error_response : (id : Text) → ErrorCode → (message : Text) → ResponseFrame
unfolding error_code_to_string
make_error_response id code message = record {
  id = id;
  is_ok = false;
  result = none;
  error = some (
      object (
        member (codes "code") (text (error_code_to_string code))
          (member (codes "message") (text message) no_members)));
}

unfoldable pub make_event : (event : Text) → Json → EventFrame
make_event event payload = record { event = event; payload = payload }
