-- ===== src/Gateway/Protocol/Dispatch.antt =====
-- Which handler answers a request.
use mylobsterpp.Prelude.{
  ◌≡◌, refl, ap, ◌∙◌, inl, inr, Bool, true, false, Bool-cases, Option, Option-cases, none, some,
  List, [], ◌∷◌, ◌++◌, if◌then◌else◌, Text, codes, text_eq, text_eq_iff, has_text, lookup,
  lookup-assign, Json, Result, ok, fail_with, not_found,
}
use mylobsterpp.Gateway.Frame.{RequestFrame}
use mylobsterpp.Gateway.Protocol.{
  MethodHandler, Entry, Protocol, register_method, finished, dispatch,
}
use mylobsterpp.Gateway.Protocol.Builtins.{stub_reply, make_stub, register_stubs}

abbrev pub names : List (Text × Text) → List Text
names [] = []
names ((name, description) ∷ l) = name ∷ names l

module _ {W : Type 0} where
  -- `dispatch` by what the table has.
  dispatched : W → RequestFrame → Option (Entry W) → W × Result Json
  dispatched w req none = (w, fail_with not_found (codes "Method not found: " ++ req.method) [])
  dispatched w req (some entry) = finished (entry.handler w req.params)

  dispatch-dispatched :
      (p : Protocol W) (w : W) (req : RequestFrame)
      → dispatch p w req ≡ dispatched w req (lookup req.method p.entries)
  unfolding dispatch dispatched
  dispatch-dispatched p w req = elim (Option-cases (lookup req.method p.entries)) [
    | inl e ↦ rw (e, dispatch) refl
    | inr (entry, e) ↦ rw (e, dispatch) refl
  ]

  if-dispatched :
      (w : W) (req : RequestFrame) (b : Bool) (entry : Entry W) (found : Option (Entry W))
      → dispatched w req (if b then some entry else found)
        ≡ (if b then finished (entry.handler w req.params) else dispatched w req found)
  unfolding dispatched
  if-dispatched w req true entry found = refl
  if-dispatched w req false entry found = refl

  -- A method that is registered answers its own requests, and no others.
  pub dispatch-register_method :
      (p : Protocol W) (name description group : Text) (handler : MethodHandler W) (w : W)
      (req : RequestFrame)
      → dispatch (register_method p name handler description group) w req
        ≡ (if text_eq name req.method then finished (handler w req.params) else dispatch p w req)
  unfolding register_method
  dispatch-register_method p name description group handler w req =
      rw (dispatch-dispatched p w req) (
        dispatch-dispatched _ w req
        ∙ ap (dispatched w req) (lookup-assign name req.method _ p.entries)
        ∙ if-dispatched w req (text_eq name req.method) _ _)

  both : (b : Bool) (x : W × Result Json) → (if b then x else x) ≡ x
  both true x = refl
  both false x = refl

  stubbed :
      (w : W) (req : RequestFrame) (group name : Text) (l : List (Text × Text))
      (x : W × Result Json)
      → (if has_text req.method (names l)
          then (w, ok (stub_reply req.method))
          else (if text_eq name req.method then finished (make_stub name w req.params) else x))
        ≡ (if has_text req.method (name ∷ names l) then (w, ok (stub_reply req.method)) else x)
  unfolding has_text make_stub stub_reply
  stubbed w req group name l x = elim (Bool-cases (text_eq name req.method)) [
    | inl same ↦
        rw same (rw ((text_eq_iff name req.method).0 same) (both (has_text req.method (names l)) _))
    | inr other ↦ rw other refl
  ]

  -- Once the names of a group are registered as stubs, a request for one of them is answered by the stub's
  -- reply with that name, whatever was registered under it before, and every other request as before.
  pub dispatch-register_stubs :
      (group : Text) (l : List (Text × Text)) (p : Protocol W) (w : W) (req : RequestFrame)
      → dispatch (register_stubs group l p) w req ≡ (
          if has_text req.method (names l)
          then (w, ok (stub_reply req.method))
          else dispatch p w req)
  unfolding register_stubs has_text
  dispatch-register_stubs group [] p w req = refl
  dispatch-register_stubs group ((name, description) ∷ l) p w req =
      dispatch-register_stubs group l _ w req
      ∙ ap (λ x. if has_text req.method (names l) then (w, ok (stub_reply req.method)) else x)
          (dispatch-register_method p name description group (make_stub name) w req)
      ∙ stubbed w req group name l (dispatch p w req)
