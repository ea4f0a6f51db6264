-- ===== src/Message/RoundTrip.antt =====
-- What the envelopes of a message give back: all of it, but tool inputs that were no JSON.
use gori.Prelude.{Bool, String, List, [], ◌∷◌, ok, ◌≡◌, refl, map}
use gori.Message.{
  Content, text, thinking, plan, image, audio, tool_use, tool_result, foreign, Message,
}
use gori.Message.Envelope.{
  Envelope, WireMessage, safe_input, encode_content, encode_all, marshal, decode_content,
  decode_all, unmarshal,
}

-- Blocks of the package's own types.
abbrev pub IsNative : Content → Type 0
IsNative (foreign k) = ⊥
IsNative _ = Unit

abbrev pub AllNative : List Content → Type 0
AllNative [] = Unit
AllNative (c ∷ cs) = IsNative c × AllNative cs

module _ (valid : String → Bool) where
  -- A block with the input that is safe to write.
  abbrev pub normalise : Content → Content
  normalise (tool_use u) = tool_use (record u { input = safe_input valid u.input })
  normalise c = c

  abbrev pub normalise_message : Message → Message
  normalise_message m = record m { content = map normalise m.content }

  decode-encode :
      (c : Content)
      → IsNative c
      → (e : Envelope) × (encode_content valid c ≡ ok e) × (decode_content e ≡ ok (normalise c))
  unfolding encode_content decode_content
  decode-encode (text t) h = (_, refl, refl)
  decode-encode (thinking t) h = (_, refl, refl)
  decode-encode (plan p) h = (_, refl, refl)
  decode-encode (image i) h = (_, refl, refl)
  decode-encode (audio a) h = (_, refl, refl)
  decode-encode (tool_use u) h = (_, refl, refl)
  decode-encode (tool_result r) h = (_, refl, refl)
  decode-encode (foreign k) h = elim h [ ]

  decode_all-encode_all :
      (cs : List Content)
      → AllNative cs
      → (es : List Envelope) × (encode_all valid cs ≡ ok es)
        × (decode_all es ≡ ok (map normalise cs))
  unfolding encode_all decode_all
  decode_all-encode_all [] h = ([], refl, refl)
  decode_all-encode_all (c ∷ cs) h =
      let (e, p, q) = decode-encode c h.0 in
      let (es, ps, qs) = decode_all-encode_all cs h.1 in (e ∷ es, rw (p, ps), rw (q, qs))

  -- A message of native blocks is encoded without an error, and decoding gives the same message,
  -- with each tool input that is empty or invalid JSON replaced by `{}`.
  pub unmarshal-marshal :
      (m : Message)
      → AllNative m.content
      → (w : WireMessage) × (marshal valid m ≡ ok w) × (unmarshal w ≡ ok (normalise_message m))
  unfolding marshal unmarshal
  unmarshal-marshal m h =
      let (es, p, q) = decode_all-encode_all m.content h in
      (record { role = m.role; content = es }, rw p, rw q)
