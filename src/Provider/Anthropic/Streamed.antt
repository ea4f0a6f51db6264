-- ===== src/Provider/Anthropic/Streamed.antt =====
-- `Stream` on the frames of a reply, step by step, with a callback that accepts every event
-- (provider/anthropic/anthropic.go).
use package.text.Mathlib.TextLemmas.{append_assoc, append-nil, nil-append}
use gori.Prelude.{
  append, concat, ℕ, suc, ◌<◌, String, ◌≡◌, refl, ◌∙◌, Bool, true, false, Option, none, some, List,
  [], ◌∷◌, ◌++◌, map, arith,
}
use gori.Prelude.Int.{pos}
use gori.Message.{Content, text}
use gori.Provider.{StreamEvent, text_event, thinking_event, tool_delta, tool_start}
use gori.Provider.Anthropic.{to_content}
use gori.Provider.Anthropic.Events.{
  Delta, text_delta, thinking_delta, signature_delta, json_delta, other_delta, BlockStart,
  block_start, block_stop, BlockAcc, StreamState, new_acc, put, start_acc, acc_for, write_delta,
  acc_content, slot_content, collect, deliver, send, send_if, on_start, send_delta, delta_into,
  stop_acc, step, raise,
}
use gori.Provider.Anthropic.Assembly.{
  SentBlock, sent_text, sent_thinking, sent_tool, sent_other, whole, deltas_of, start_of,
  delta_frame, IsWhole, Yields, Fixed, IsBetween, IsWithin, put_other, put_same, collect-put,
  IsKept,
}

abbrev pub write_all : List Delta → BlockAcc → BlockAcc
write_all [] a = a
write_all (d ∷ ds) a = write_all ds (write_delta d a)

abbrev pub started : BlockStart → BlockAcc
started b = record (new_acc "") { type_name = b.type_name; tool_id = b.id; tool_name = b.name }

write_texts :
    (cs : List String) (a : BlockAcc)
    → write_all (map text_delta cs) a ≡ record a { text = append a.text (concat cs) }
unfolding write_delta
write_texts [] a = rw append-nil
write_texts (c ∷ cs) a = rw (write_texts cs, append_assoc)

write_thinking :
    (cs : List String) (ds : List Delta) (a : BlockAcc)
    → write_all (map thinking_delta cs ++ ds) a
      ≡ write_all ds (record a { text = append a.text (concat cs) })
unfolding write_delta
write_thinking [] ds a = rw append-nil
write_thinking (c ∷ cs) ds a = rw (write_thinking cs, append_assoc)

write_signatures :
    (gs : List String) (a : BlockAcc)
    → write_all (map signature_delta gs) a ≡ record a { signature = append a.signature (concat gs) }
unfolding write_delta
write_signatures [] a = rw append-nil
write_signatures (g ∷ gs) a = rw (write_signatures gs, append_assoc)

write_inputs :
    (js : List String) (a : BlockAcc)
    → write_all (map json_delta js) a ≡ record a { tool_json = append a.tool_json (concat js) }
unfolding write_delta
write_inputs [] a = rw append-nil
write_inputs (j ∷ js) a = rw (write_inputs js, append_assoc)

raise_same : (k : ℕ) → raise (pos k) k ≡ suc k
raise_same k = ground arith

-- The content of a block that was read is that of the block in one piece.
pub acc_content-whole :
    (valid : String → Bool) (k : ℕ) (b : SentBlock)
    → IsWhole valid b
    → acc_content valid (write_all (deltas_of b) (started (start_of k b)))
      ≡ to_content (whole b ∷ [])
unfolding acc_content to_content
acc_content-whole valid k (sent_text cs) h = rw (write_texts cs, nil-append, h)
acc_content-whole valid k (sent_thinking cs gs) h =
    rw (write_thinking cs, write_signatures gs, nil-append, nil-append)
acc_content-whole valid k (sent_tool i n js) h = rw (write_inputs js, nil-append, h.0, h.1)
acc_content-whole valid k (sent_other t) (h, h', h'') = rw (h, h', h'')

module _ (fn : List StreamEvent → StreamEvent → Option String) (valid : String → Bool)
    (accept : (sent : List StreamEvent) (e : StreamEvent) → fn sent e ≡ none) where
  pub send-Yields :
      (P : StreamState → Type 0) (e : StreamEvent) (s : StreamState)
      → P (record s { sent = s.sent ++ e ∷ [] })
      → Yields P (send fn e s)
  unfolding send deliver
  send-Yields P e s h = rw (accept s.sent e) h

  send_if-Yields :
      (P : StreamState → Type 0) (b : Bool) (e : StreamEvent) (s : StreamState)
      → P (record s { sent = s.sent ++ e ∷ [] })
      → P s
      → Yields P (send_if fn b e s)
  unfolding send_if
  send_if-Yields P true e s h k = send-Yields P e s h
  send_if-Yields P false e s h k = k

  send_delta-Yields :
      (P : StreamState → Type 0) (d : Delta) (s : StreamState)
      → ((sent : List StreamEvent) → P (record s { sent = sent }))
      → Yields P (send_delta fn d s)
  unfolding send_delta
  send_delta-Yields P (text_delta t) s h = send-Yields P (text_event t) s (h _)
  send_delta-Yields P (thinking_delta t) s h = send-Yields P (thinking_event t) s (h _)
  send_delta-Yields P (json_delta t) s h = send-Yields P (tool_delta t) s (h _)
  send_delta-Yields P (signature_delta t) s h = h s.sent
  send_delta-Yields P (other_delta t) s h = h s.sent

  module _ (f : Fixed) (k : ℕ) (cs : List Content) where
    put-IsWithin :
        (a : BlockAcc) (s : StreamState)
        → collect valid s.blocks k ≡ cs
        → ((j : ℕ) → k < j → s.blocks (pos j) ≡ none)
        → IsKept f s
        → (sent : List StreamEvent)
        → IsWithin valid f k cs a
            (record s { blocks = put (pos k) a s.blocks; count = suc k; sent = sent })
    put-IsWithin a s h l m sent = (
      m,
      refl,
      collect-put valid k k a s.blocks (omega arith) ∙ h,
      put_same k a s.blocks,
      λ j e. put_other j k a s.blocks (ground arith) ∙ l j e,
    )

    pub start-IsWithin :
        (b : BlockStart) (s : StreamState)
        → b.index ≡ pos k
        → IsBetween valid f k cs s
        → Yields (IsWithin valid f k cs (started b)) (step fn (block_start (some b)) s)
    unfolding step on_start start_acc
    start-IsWithin b s e (o, h, l, n) =
        rw (e, n k (omega arith), h, raise_same k)
          (send_if-Yields (IsWithin valid f k cs (started b)) _ _ _
            (put-IsWithin (started b) s l (λ j e'. n j (omega arith)) o
              (s.sent ++ tool_start b.id b.name ∷ []))
            (put-IsWithin (started b) s l (λ j e'. n j (omega arith)) o s.sent))

    pub delta-IsWithin :
        (d : Delta) (a : BlockAcc) (s : StreamState)
        → IsWithin valid f k cs a s
        → Yields (IsWithin valid f k cs (write_delta d a)) (step fn (delta_frame k d) s)
    unfolding step delta_into acc_for
    delta-IsWithin d a s (o, h, l, m, n) =
        rw (m, h) (send_delta-Yields _ d _ (put-IsWithin (write_delta d a) s l n o))

    pub stop-IsBetween :
        (a : BlockAcc) (s : StreamState)
        → IsWithin valid f k cs a s
        → Yields
            (IsBetween valid f (suc k) (cs ++ acc_content valid a))
            (step fn (block_stop (pos k)) s)
    unfolding step stop_acc collect slot_content
    stop-IsBetween a s (o, h, l, m, n) = rw m (
        send_if-Yields (IsBetween valid f (suc k) (cs ++ acc_content valid a)) _ _ s
          (o, h, rw (l, m), λ j e. n j (omega arith)) (o, h, rw (l, m), λ j e. n j (omega arith)))
