-- ===== src/Gateway/Frame/RoundTrip.antt =====
-- Frames survive the wire.
use mylobsterpp.Prelude.{
  Option, none, some, ◌≡◌, refl, Text, text_eq, Json, find_member, put_member, ok,
}
use mylobsterpp.Gateway.Frame.{
  Frame, request, response, event_frame, ResponseFrame, get_text, get_bool, at_text, put_some,
  request_to_json, response_to_json, event_to_json, frame_to_json, first_of, request_from_json,
  ok_or_true, response_from_json, event_from_json, frame_type, frame_of_type, frame_from_json,
  parse_frame, serialize_frame,
}

from_json-response :
    (f : ResponseFrame) (result error : Option Json)
    → f.result ≡ result
    → f.error ≡ error
    → frame_from_json (response_to_json f) ≡ ok (response f)
unfolding frame_from_json response_to_json put_some put_member frame_type at_text find_member
    get_text text_eq frame_of_type response_from_json ok_or_true get_bool first_of
from_json-response f none none r e = rw (r, e) refl
from_json-response f none (some y) r e = rw (r, e) refl
from_json-response f (some x) none r e = rw (r, e) refl
from_json-response f (some x) (some y) r e = rw (r, e) refl

-- Every frame, turned into JSON, is read back as it was.
pub frame_from_json-frame_to_json : (f : Frame) → frame_from_json (frame_to_json f) ≡ ok f
unfolding frame_from_json frame_to_json request_to_json event_to_json frame_type at_text find_member
    get_text text_eq frame_of_type request_from_json event_from_json first_of
frame_from_json-frame_to_json (request f) = refl
frame_from_json-frame_to_json (response f) = from_json-response f f.result f.error refl refl
frame_from_json-frame_to_json (event_frame f) = refl

-- A frame is read back from what it is written as, if the parser reads what `dump` writes.
pub parse_frame-serialize_frame :
    (parse : Text → Option Json) (dump : Json → Option Text) (f : Frame) (t : Text)
    → serialize_frame dump f ≡ some t
    → ((j : Json) → dump j ≡ some t → parse t ≡ some j)
    → parse_frame parse t ≡ ok f
unfolding parse_frame serialize_frame
parse_frame-serialize_frame parse dump f t written reads =
    rw (reads (frame_to_json f) written, parse_frame) (frame_from_json-frame_to_json f)
