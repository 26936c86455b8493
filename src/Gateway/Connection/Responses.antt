-- ===== src/Gateway/Connection/Responses.antt =====
-- Each request is answered, and in order.
use mylobsterpp.Prelude.{
  ◌≡◌, if-eq-true, refl, ap, ◌∙◌, inl, inr, ◌⊎◌, Bool, true, false, not, ◌&&◌, Option, Option-cases,
  lookup, fail_with, not_found, protocol_error, none, some, List, [], ◌∷◌, ◌++◌, All, Text, Json,
  Result, ok, err, undefined,
}
use mylobsterpp.Gateway.Frame.{
  Frame, request, response, event_frame, RequestFrame, ResponseFrame, parse_frame, frame_to_json,
  serialize_frame, make_response, make_error_response,
}
use mylobsterpp.Gateway.Hooks.{HookRegistry, SortHooks, run_before}
use mylobsterpp.Gateway.Protocol.{Protocol, finished, dispatch}
use mylobsterpp.Gateway.Connection.{
  Wire, Connection, is_running, send_text, send_dumped, send, close, response_of, answer, send_some,
  handle_request, handle_frame, receive, read_loop,
}

-- What a message asks a response for: its identifier, or none where it is malformed.
abbrev pub asked : Result Frame → List Text
asked (ok (request req)) = req.id ∷ []
asked (ok (response f)) = []
asked (ok (event_frame f)) = []
asked (err e) = [] ∷ []
asked undefined = []

abbrev pub asked_by : (parse : Text → Option Json) → List (Text × Bool) → List Text
asked_by parse [] = []
asked_by parse ((bytes, fails) ∷ later) = asked (parse_frame parse bytes) ++ asked_by parse later

-- No write fails.
abbrev pub AllWritten : List (Text × Bool) → Type 0
AllWritten messages = All (λ (m : Text × Bool). m.1 ≡ false) messages

append_assoc : (xs ys zs : List Text) → (xs ++ ys) ++ zs ≡ xs ++ (ys ++ zs)
append_assoc [] ys zs = refl
append_assoc (x ∷ xs) ys zs = ap (◌∷◌ x) (append_assoc xs ys zs)

append_nil : (xs : List Text) → xs ≡ xs ++ []
append_nil [] = refl
append_nil (x ∷ xs) = ap (◌∷◌ x) (append_nil xs)

-- The texts answer the identifiers that were asked for, one response each and in order: each text is
-- what `sanitize` makes of the serialized response. They end early, with an exception, exactly where a
-- response is not serialized.
abbrev pub Answered : Wire → (wanted : List Text) → (texts : List Text) → (thrown : Bool) → Type 0
Answered wire [] texts thrown = (texts ≡ []) × (thrown ≡ false)
Answered wire (id ∷ wanted) texts thrown =
    (f : ResponseFrame) × (f.id ≡ id)
    × (((wire.dump (frame_to_json (response f)) ≡ none) × (texts ≡ []) × (thrown ≡ true))
        ⊎ ((t : Text) × (later : List Text) × (wire.dump (frame_to_json (response f)) ≡ some t)
            × (texts ≡ wire.sanitize t ∷ later)
            × Answered wire wanted later thrown))

-- What the loop has written of the answers, when the connection has become another.
abbrev Answers : Wire → Connection → List Text → Connection → Type 0
Answers wire c wanted d =
    (texts : List Text) × (d.sent ≡ c.sent ++ texts)
    × Answered wire wanted texts d.thrown
    × (d.is_open ≡ d.thrown)

not_missing : {m d : Text} {A : Type 0} → fail_with {A = A} not_found m d ≡ undefined → ⊥
not_missing e = cc

module _ {W : Type 0} (sort : SortHooks) (hooks : HookRegistry) (protocol : Protocol W) where
  finished-defined : (x : W × Option Json) → (finished x).1 ≡ undefined → ⊥
  finished-defined (w, none) e = cc
  finished-defined (w, some j) e = cc

  dispatch-defined : (w : W) (req : RequestFrame) → (dispatch protocol w req).1 ≡ undefined → ⊥
  unfolding dispatch
  dispatch-defined w req e = elim (Option-cases (lookup req.method protocol.entries)) [
    | inl missing ↦ not_missing (rw (missing, dispatch) at e)
    | inr (entry, found) ↦ finished-defined (entry.handler w req.params) (rw (found, dispatch) at e)
  ]

  response_of-id :
      (req : RequestFrame) (x : Result Json)
      → (x ≡ undefined → ⊥)
      → (f : ResponseFrame) × (response_of sort hooks protocol req x ≡ some f) × (f.id ≡ req.id)
  unfolding response_of make_response make_error_response
  response_of-id req (ok result) defined = (_, refl, refl)
  response_of-id req (err e) defined = (_, refl, refl)
  response_of-id req undefined defined = absurd (defined refl)

  -- Every request gets one response, under its identifier.
  pub answer-id :
      (w : W) (req : RequestFrame)
      → (f : ResponseFrame) × ((answer sort hooks protocol w req).1 ≡ some f) × (f.id ≡ req.id)
  unfolding answer
  answer-id w req =
      response_of-id req _
        (dispatch-defined w (record req { params = run_before sort hooks req.method req.params }))

running : (c : Connection) → c.is_open ≡ true → c.thrown ≡ false → is_running c ≡ true
running c o n = ap (λ b. b && not c.thrown) o ∙ ap not n

-- Where the connection is open, the send is what `dump` decides.
sent_as :
    (wire : Wire) (c : Connection) (f : ResponseFrame)
    → c.is_open ≡ true
    → (send wire false c (response f)).0
      ≡ (send_dumped wire false c (wire.dump (frame_to_json (response f)))).0
unfolding send serialize_frame
sent_as wire c f o = rw o refl

send_dumped-some :
    (wire : Wire) (c : Connection) (t : Text)
    → c.is_open ≡ true
    → (send_dumped wire false c (some t)).0 ≡ record c { sent = c.sent ++ wire.sanitize t ∷ [] }
unfolding send_text
send_dumped-some wire c t o = rw o refl

-- What a message does to an open connection that can write: nothing, or it sends what it asked for.
abbrev Receives : Wire → Connection → List Text → Connection → Type 0
Receives wire c wanted d =
    ((wanted ≡ []) × (d ≡ c))
    ⊎ ((id : Text) × (f : ResponseFrame) × (wanted ≡ id ∷ [])
        × (f.id ≡ id)
        × (d ≡ (send wire false c (response f)).0))

module _ {W : Type 0} (wire : Wire) (sort : SortHooks) (hooks : HookRegistry)
    (protocol : Protocol W) where
  receive-Receives :
      (w : W) (c : Connection) (message : Result Frame)
      → Receives wire c (asked message) (receive wire sort hooks protocol false (w, c) message).1
  unfolding receive handle_frame handle_request make_error_response
  receive-Receives w c (ok (request req)) =
      let (f, replied, same) = answer-id sort hooks protocol w req in
      inr (req.id, f, refl, same, ap (send_some wire false c) replied)
  receive-Receives w c (ok (response f)) = inl (refl, refl)
  receive-Receives w c (ok (event_frame f)) = inl (refl, refl)
  receive-Receives w c (err e) =
      inr ([], make_error_response [] protocol_error e.message, refl, refl, refl)
  receive-Receives w c undefined = inl (refl, refl)

  stopped :
      (parse : Text → Option Json) (messages : List (Text × Bool)) (w : W) (c : Connection)
      → is_running c ≡ false
      → read_loop wire sort hooks protocol parse (w, c) messages ≡ (w, c)
  unfolding read_loop
  stopped parse [] w c e = rw e refl
  stopped parse (m ∷ later) w c e = rw e refl

  read_loop-cons :
      (parse : Text → Option Json) (bytes : Text) (fails : Bool) (later : List (Text × Bool))
      (w : W) (c : Connection)
      → is_running c ≡ true
      → fails ≡ false
      → read_loop wire sort hooks protocol parse (w, c) ((bytes, fails) ∷ later)
        ≡ read_loop wire sort hooks protocol parse
            (receive wire sort hooks protocol false (w, c) (parse_frame parse bytes))
            later
  unfolding read_loop
  read_loop-cons parse bytes true later w c r e = cc
  read_loop-cons parse bytes false later w c r e = if-eq-true (is_running c) _ _ r

  module _ (parse : Text → Option Json) (later : List (Text × Bool)) (v : W) (c : Connection)
      (wanted : List Text) (o : c.is_open ≡ true) (n : c.thrown ≡ false)
      (ih : (e : Connection)
        → e.is_open ≡ true
        → e.thrown ≡ false
        → Answers wire e wanted (read_loop wire sort hooks protocol parse (v, e) later).1) where
    dumped-Answers :
        (f : ResponseFrame) (id : Text) (dumped : Option Text)
        → f.id ≡ id
        → wire.dump (frame_to_json (response f)) ≡ dumped
        → Answers wire c
            (id ∷ wanted)
            (read_loop wire sort hooks protocol parse
              (v, (send_dumped wire false c dumped).0)
              later).1
    dumped-Answers f id none same e =
        rw (stopped parse later v (record c { thrown = true }) (rw o refl))
          ([], append_nil c.sent, (f, same, inl (e, refl, refl)), o)
    dumped-Answers f id (some t) same e = rw (send_dumped-some wire c t o) (
        let (texts, sent, answered, closed) =
          ih (record c { sent = c.sent ++ wire.sanitize t ∷ [] }) o n in
        (
          wire.sanitize t ∷ texts,
          sent ∙ append_assoc c.sent (wire.sanitize t ∷ []) texts,
          (f, same, inr (t, texts, e, refl, answered)),
          closed,
        ))

    received-Answers :
        (now : List Text) (d : Connection)
        → Receives wire c now d
        → Answers wire c (now ++ wanted) (read_loop wire sort hooks protocol parse (v, d) later).1
    received-Answers now d (inl (none_asked, kept)) = rw (none_asked, kept) (ih c o n)
    received-Answers now d (inr (id, f, one, same, sent)) =
        rw (one, sent, sent_as wire c f o) (dumped-Answers f id _ same refl)

  -- If a connection is open, no exception has left its loop and no write fails, what it writes while the
  -- peer's messages last is one response for each request, under its identifier, and one with an empty
  -- identifier for each malformed message, in the order of the messages: the text of each is what
  -- `sanitize` makes of the serialized frame. Where a frame cannot be serialized, the writing ends there
  -- with the exception and the connection is left open; else it is closed at the end.
  pub read_loop-ids :
      (parse : Text → Option Json) (messages : List (Text × Bool)) (w : W) (c : Connection)
      → c.is_open ≡ true
      → c.thrown ≡ false
      → AllWritten messages
      → let (v, d) = read_loop wire sort hooks protocol parse (w, c) messages in
        (texts : List Text) × (d.sent ≡ c.sent ++ texts)
        × Answered wire (asked_by parse messages) texts d.thrown
        × (d.is_open ≡ d.thrown)
  unfolding read_loop close
  read_loop-ids parse [] w c o n written = rw (o, n) ([], append_nil c.sent, (refl, refl), refl)
  read_loop-ids parse ((bytes, fails) ∷ later) w c o n written =
      rw (read_loop-cons parse bytes fails later w c (running c o n) written.0) (
        received-Answers parse later
          (receive wire sort hooks protocol false (w, c) (parse_frame parse bytes)).0 c
          (asked_by parse later) o n (λ e p q. read_loop-ids parse later _ e p q written.1)
          (asked (parse_frame parse bytes)) _ (receive-Receives w c (parse_frame parse bytes)))
