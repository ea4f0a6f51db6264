-- ===== src/Message/Envelope.antt =====
-- The canonical JSON form of message.go, up to the envelopes. How encoding/json writes an envelope, and the raw
-- input in it, is left to the users. `json.Valid` is a parameter, since the model has no JSON text.
use gori.Prelude.{
  ℕ, Bool, false, ◌||◌, not, String, List, [], ◌∷◌, Result, ok, err, append, quote, str_eq,
  is_empty, if◌then◌else◌,
}
use gori.Message.{
  Role, Content, text, thinking, plan, image, audio, tool_use, tool_result, foreign, Message,
}

pub record Envelope : Type 0 where
  pub kind : String
  pub text : String
  pub signature : String
  pub steps : List String
  pub media_type : String
  pub bytes : List ℕ
  pub url : String
  pub id : String
  pub name : String
  pub input : String
  pub tool_use_id : String
  pub is_error : Bool

-- The zero value, with its kind.
abbrev pub blank : String → Envelope
blank k = record {
  kind = k;
  text = "";
  signature = "";
  steps = [];
  media_type = "";
  bytes = [];
  url = "";
  id = "";
  name = "";
  input = "";
  tool_use_id = "";
  is_error = false;
}

pub record WireMessage : Type 0 where
  pub role : Role
  pub content : List Envelope

abbrev pub unknown_kind {ℓ} : {A : Type ℓ} → String → Result A
unknown_kind k = err (append "gori: unknown content kind " (quote k))

-- What a loop that appends, and returns at the first error, makes of one round and the later ones.
abbrev pub cons_result {ℓ} : {A : Type ℓ} → Result A → Result (List A) → Result (List A)
cons_result (err e) rest = err e
cons_result (ok a) (err e) = err e
cons_result (ok a) (ok rest) = ok (a ∷ rest)

abbrev finish_encode : Role → Result (List Envelope) → Result WireMessage
finish_encode r (err e) = err e
finish_encode r (ok es) = ok (record { role = r; content = es })

abbrev finish_decode : Role → Result (List Content) → Result Message
finish_decode r (err e) = err e
finish_decode r (ok cs) = ok (record { role = r; content = cs })

module _ (valid : String → Bool) where
  -- The input that is written: an empty or invalid one is replaced.
  unfoldable pub safe_input : String → String
  safe_input i = if is_empty i || not (valid i) then "{}" else i

  -- The `switch` of `MarshalJSON`.
  unfoldable pub encode_content : Content → Result Envelope
  encode_content (text t) = ok (record (blank "text") { text = t.text })
  encode_content (thinking t) =
      ok (record (blank "thinking") { text = t.text; signature = t.signature })
  encode_content (plan p) = ok (record (blank "plan") { steps = p.steps })
  encode_content (image i) =
      ok (record (blank "image") { media_type = i.media_type; bytes = i.bytes; url = i.url })
  encode_content (audio a) =
      ok (record (blank "audio") { media_type = a.media_type; bytes = a.bytes })
  encode_content (tool_use u) =
      ok (record (blank "tool_use") { id = u.id; name = u.name; input = safe_input u.input })
  encode_content (tool_result r) = ok (record (blank "tool_result") {
    tool_use_id = r.tool_use_id;
    name = r.name;
    text = r.content;
    is_error = r.is_error;
  })
  encode_content (foreign k) = unknown_kind k

  unfoldable pub encode_all : List Content → Result (List Envelope)
  encode_all [] = ok []
  encode_all (c ∷ cs) = cons_result (encode_content c) (encode_all cs)

  unfoldable pub marshal : Message → Result WireMessage
  marshal m = finish_encode m.role (encode_all m.content)

-- The `switch` of `UnmarshalJSON`.
unfoldable pub decode_content : Envelope → Result Content
decode_content e =
    if str_eq e.kind "text"
    then ok (text (record { text = e.text }))
    else if str_eq e.kind "thinking"
    then ok (thinking (record { text = e.text; signature = e.signature }))
    else if str_eq e.kind "plan"
    then ok (plan (record { steps = e.steps }))
    else if str_eq e.kind "image"
    then ok (image (record { media_type = e.media_type; bytes = e.bytes; url = e.url }))
    else if str_eq e.kind "audio"
    then ok (audio (record { media_type = e.media_type; bytes = e.bytes }))
    else if str_eq e.kind "tool_use"
    then ok (tool_use (record { id = e.id; name = e.name; input = e.input }))
    else if str_eq e.kind "tool_result"
    then ok (
        tool_result (record {
          tool_use_id = e.tool_use_id;
          name = e.name;
          content = e.text;
          is_error = e.is_error;
        }))
    else unknown_kind e.kind

unfoldable pub decode_all : List Envelope → Result (List Content)
decode_all [] = ok []
decode_all (e ∷ es) = cons_result (decode_content e) (decode_all es)

unfoldable pub unmarshal : WireMessage → Result Message
unmarshal w = finish_decode w.role (decode_all w.content)
