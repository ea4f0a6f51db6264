-- ===== src/Session/Storage/Stored.antt =====
-- A session that is saved and loaded, once and again.
use gori.Prelude.{
  Bool-cases, All, is_empty, Result, ok, err, String, ◌≡◌, refl, ap, subst, ◌∙◌, inl, inr, true,
  false, some, List, [], ◌∷◌, map,
}
use gori.Message.{
  Content, text, thinking, plan, image, audio, tool_use, tool_result, foreign, Message,
}
use gori.Message.Envelope.{
  Envelope, WireMessage, cons_result, safe_input, encode_content, encode_all, marshal,
  decode_content, decode_all, unmarshal,
}
use gori.Message.RoundTrip.{IsNative, AllNative}
use gori.Session.{Session, entries}
use gori.Session.Storage.{
  Json, SessionFile, marshal_all, with_key, marshal_state, indent_envelope, indent_message, save,
  unmarshal_all, load,
}

-- What json.MarshalIndent keeps to: the text that it writes for valid JSON is valid and not empty, and is written
-- as it is the next time; and a value that was read from a file marshals, and is read as itself.
pub record IsLawful (json : Json) : Type 0 where
  pub object_valid : json.valid "{}" ≡ true
  pub indent_valid : (x : String) → json.valid x ≡ true → json.valid (json.indent x) ≡ true
  pub indent_full : (x : String) → json.valid x ≡ true → is_empty (json.indent x) ≡ false
  pub indent_again :
      (x : String) → json.valid x ≡ true → json.indent (json.indent x) ≡ json.indent x
  pub value_again : (v u : String) → json.state_value v ≡ ok u → json.state_value u ≡ ok u

module _ (json : Json) (laws : IsLawful json) where
  -- A block as a file holds it: a tool input is replaced by `{}` if it is empty or no JSON, and indented.
  abbrev pub stored : Content → Content
  stored (tool_use u) = tool_use (record u { input = json.indent (safe_input json.valid u.input) })
  stored c = c

  abbrev pub stored_message : Message → Message
  stored_message m = record m { content = map stored m.content }

  safe_input-valid :
      (x : String)
      → (is_empty (safe_input json.valid x) ≡ false) × (json.valid (safe_input json.valid x) ≡ true)
  unfolding safe_input
  safe_input-valid x = elim (Bool-cases (is_empty x)) [
    | inl yes_ ↦ rw yes_ (refl, laws.object_valid)
    | inr full ↦ elim (Bool-cases (json.valid x)) [
      | inl yes_ ↦ rw (full, yes_) (full, yes_)
      | inr no_ ↦ rw (full, no_) (refl, laws.object_valid)
    ]
  ]

  decode-encode :
      (c : Content)
      → IsNative c
      → (e : Envelope) × (encode_content json.valid c ≡ ok e)
        × (decode_content (indent_envelope json e) ≡ ok (stored c))
  unfolding encode_content decode_content indent_envelope
  decode-encode (text t) h = (_, refl, refl)
  decode-encode (thinking t) h = (_, refl, refl)
  decode-encode (plan p) h = (_, refl, refl)
  decode-encode (image i) h = (_, refl, refl)
  decode-encode (audio a) h = (_, refl, refl)
  decode-encode (tool_use u) h = (_, refl, rw (safe_input-valid u.input).0 refl)
  decode-encode (tool_result r) h = (_, refl, refl)
  decode-encode (foreign k) h = elim h [ ]

  decode_all-encode_all :
      (cs : List Content)
      → AllNative cs
      → (es : List Envelope) × (encode_all json.valid cs ≡ ok es)
        × (decode_all (map (indent_envelope json) es) ≡ ok (map stored cs))
  unfolding encode_all decode_all
  decode_all-encode_all [] h = ([], refl, refl)
  decode_all-encode_all (c ∷ cs) h =
      let (e, p, q) = decode-encode c h.0 in
      let (es, ps, qs) = decode_all-encode_all cs h.1 in (e ∷ es, rw (p, ps), rw (q, qs))

  unmarshal-marshal :
      (m : Message)
      → AllNative m.content
      → (w : WireMessage) × (marshal json.valid m ≡ ok w)
        × (unmarshal (indent_message json w) ≡ ok (stored_message m))
  unfolding marshal unmarshal
  unmarshal-marshal m h =
      let (es, p, q) = decode_all-encode_all m.content h in
      (record { role = m.role; content = es }, rw p, rw q)

  unmarshal_all-marshal_all :
      (ms : List Message)
      → All (λ m. AllNative m.content) ms
      → (ws : List WireMessage) × (marshal_all json ms ≡ ok ws)
        × (unmarshal_all (map (indent_message json) ws) ≡ ok (map stored_message ms))
  unfolding marshal_all unmarshal_all
  unmarshal_all-marshal_all [] h = ([], refl, refl)
  unmarshal_all-marshal_all (m ∷ ms) h =
      let (w, p, q) = unmarshal-marshal m h.0 in
      let (ws, ps, qs) = unmarshal_all-marshal_all ms h.1 in (w ∷ ws, rw (p, ps), rw (q, qs))

  stored_again : (c : Content) → stored (stored c) ≡ stored c
  unfolding safe_input
  stored_again (tool_use u) =
      let (full, good) = safe_input-valid u.input in
      rw
        (
          laws.indent_full (safe_input json.valid u.input) good,
          laws.indent_valid (safe_input json.valid u.input) good,
          laws.indent_again (safe_input json.valid u.input) good,
        )
        refl
  stored_again (text t) = refl
  stored_again (thinking t) = refl
  stored_again (plan p) = refl
  stored_again (image i) = refl
  stored_again (audio a) = refl
  stored_again (tool_result r) = refl
  stored_again (foreign k) = refl

  stored_content : (cs : List Content) → map stored (map stored cs) ≡ map stored cs
  stored_content [] = refl
  stored_content (c ∷ cs) = rw (stored_again c, stored_content cs) refl

  stored_history :
      (ms : List Message) → map stored_message (map stored_message ms) ≡ map stored_message ms
  stored_history [] = refl
  stored_history (m ∷ ms) = rw (stored_content m.content, stored_history ms) refl

  stored-IsNative : (c : Content) → IsNative c → IsNative (stored c)
  stored-IsNative (tool_use u) h = tt
  stored-IsNative (text t) h = tt
  stored-IsNative (thinking t) h = tt
  stored-IsNative (plan p) h = tt
  stored-IsNative (image i) h = tt
  stored-IsNative (audio a) h = tt
  stored-IsNative (tool_result r) h = tt
  stored-IsNative (foreign k) h = h

  stored-AllNative : (cs : List Content) → AllNative cs → AllNative (map stored cs)
  stored-AllNative [] h = tt
  stored-AllNative (c ∷ cs) h = (stored-IsNative c h.0, stored-AllNative cs h.1)

  history-AllNative :
      (ms : List Message)
      → All (λ m. AllNative m.content) ms
      → All (λ m. AllNative m.content) (map stored_message ms)
  history-AllNative [] h = tt
  history-AllNative (m ∷ ms) h = (stored-AllNative m.content h.0, history-AllNative ms h.1)

  cons_state :
      (k : String) (r : Result String) (q : Result (List (String × String)))
      (st : List (String × String))
      → cons_result (with_key json k r) q ≡ ok st
      → (u : String) × (ts : List (String × String)) × (r ≡ ok u) × (q ≡ ok ts) × (st ≡ (k, u) ∷ ts)
  cons_state k (err e) q st h = cc
  cons_state k (ok u) (err e) st h = cc
  cons_state k (ok u) (ok ts) st h = (u, ts, refl, refl, cc)

  state_again :
      (m st : List (String × String)) → marshal_state json m ≡ ok st → marshal_state json st ≡ ok st
  unfolding marshal_state
  state_again [] st h = subst (λ x. marshal_state json x ≡ ok x) (nil_ok st h) refl
    where
      nil_ok : (st : List (String × String)) → ok [] ≡ ok st → [] ≡ st
      nil_ok st h = cc
  state_again ((k, v) ∷ m) st h =
      let (u, ts, e, q, same) = cons_state k (json.state_value v) (marshal_state json m) st h in
      rw same (rw (laws.value_again v u e, state_again m ts q) refl)

  -- The session that a saved one is read back as.
  abbrev pub stored_session : Session → List (String × String) → Session
  stored_session s st = record { history = map stored_message s.history; state = some st }

  load_once :
      (s : Session) (st : List (String × String))
      → All (λ m. AllNative m.content) s.history
      → marshal_state json (entries s.state) ≡ ok st
      → (f : SessionFile) × (save json s ≡ ok f) × (load f ≡ ok (stored_session s st))
  unfolding save load
  load_once s st h k =
      let (ws, p, q) = unmarshal_all-marshal_all s.history h in
      (record { history = map (indent_message json) ws; state = st }, rw (p, k) refl, rw q refl)

  -- A session of native blocks whose state marshals is saved without an error. Loading the file gives the
  -- same messages, each tool input indented, or `{}` if it was empty or no JSON, and the state's values as
  -- JSON reads them back. That session is saved without an error again, and loading this second file
  -- gives exactly the same session. It is asked of encoding/json that what it has written, it writes
  -- and reads back as it is.
  pub load-save :
      (s : Session) (st : List (String × String))
      → All (λ m. AllNative m.content) s.history
      → marshal_state json (entries s.state) ≡ ok st
      → ((f : SessionFile) × (save json s ≡ ok f) × (load f ≡ ok (stored_session s st)))
        × ((g : SessionFile) × (save json (stored_session s st) ≡ ok g)
            × (load g ≡ ok (stored_session s st)))
  load-save s st h k =
      let (g, p, q) =
        load_once (stored_session s st) st (history-AllNative s.history h)
          (state_again (entries s.state) st k) in
      (
        load_once s st h k,
        (
          g,
          p,
          q ∙ ap (λ ms. ok (record { history = ms; state = some st })) (stored_history s.history),
        ),
      )
