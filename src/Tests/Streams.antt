-- ===== src/Tests/Streams.antt =====
-- The SSE scanner: a frame of the hub, and lines that end in each way. The transport of JSON-RPC: blank
-- lines, and messages that are sent and received.
use gori.Prelude.{
  length, ℕ, suc, ◌+◌, ◌≡◌, refl, sym, ap, Option, none, some, List, [], ◌∷◌, ◌++◌, arith,
}
use gori.Sse.{
  Bytes, line_from, read_line, strip_bom, trim_right, same_bytes, has_nul, join, start, word_data,
  Scan, event, on_line, next, new_scanner, next_event,
}
use gori.Sse.Frames.{frame, next-frame}
use gori.Sse.Ends.{next_ends}
use gori.Rpc.Framing.{read_bytes, read_message, receive, end_line, after_write, write_message}
use gori.Rpc.Framing.Received.{Sent, nothing, then_sent, Sent-receive}

abbrev kind_bytes : Bytes
kind_bytes = 107 ∷ []

abbrev data_text : Bytes
data_text = 123 ∷ 125 ∷ []

next-frame_example :
    next 4 (frame (55 ∷ []) kind_bytes data_text (58 ∷ [])) start
    ≡ some (
        event
          (record { event_type = kind_bytes; data_bytes = data_text; id = 55 ∷ []; retry = [] })
          (58 ∷ []))
unfolding has_nul
next-frame_example =
    next-frame 0 (55 ∷ []) kind_bytes data_text (58 ∷ []) (refl, tt) (refl, tt) (refl, (refl, tt))
      refl (omega arith) (omega arith) (omega arith)

-- A data line that ends in CR, one in CR LF, and a blank line in CR; the second keeps one space.
abbrev mixed_breaks : Bytes
mixed_breaks =
    (word_data ++ (58 ∷ 97 ∷ 13 ∷ []))
    ++ ((word_data ++ (58 ∷ 32 ∷ 32 ∷ 98 ∷ 13 ∷ 10 ∷ [])) ++ (13 ∷ []))

mixed_breaks_run :
    next 3 mixed_breaks start
    ≡ some (
        event
          (record { event_type = []; data_bytes = 97 ∷ 10 ∷ 32 ∷ 98 ∷ []; id = []; retry = [] })
          [])
unfolding next read_line line_from on_line trim_right same_bytes join
mixed_breaks_run = refl

bom_run :
    next_event 3 (new_scanner (239 ∷ 187 ∷ 191 ∷ mixed_breaks))
    ≡ next_event 3 (new_scanner mixed_breaks)
unfolding next_event strip_bom
bom_run = refl

next_ends_example :
    (r : Scan) × ((k : ℕ) → next (suc (length mixed_breaks + k)) mixed_breaks start ≡ some r)
next_ends_example = next_ends mixed_breaks start

abbrev append_to : Bytes → Bytes → Option ℕ × Bytes
append_to b w = (none, w ++ b)

abbrev two_messages : List Bytes
two_messages = data_text ∷ kind_bytes ∷ []

two_messages-Sent : Sent append_to two_messages [] (123 ∷ 125 ∷ 10 ∷ 107 ∷ 10 ∷ [])
unfolding write_message after_write end_line
two_messages-Sent = then_sent refl (then_sent refl nothing)

keep_alive_run : receive 2 4 (10 ∷ 13 ∷ 10 ∷ 123 ∷ 125 ∷ 13 ∷ 10 ∷ []) ≡ some (data_text ∷ [])
unfolding receive read_message read_bytes trim_right
keep_alive_run = refl

Sent-receive_example : receive 3 1 (123 ∷ 125 ∷ 10 ∷ 107 ∷ 10 ∷ []) ≡ some two_messages
Sent-receive_example =
    Sent-receive append_to (λ w. w) (λ b w v h. sym (ap (λ r. r.1) h)) 0 two_messages []
      (123 ∷ 125 ∷ 10 ∷ 107 ∷ 10 ∷ []) (((refl, (refl, tt)), λ h. cc), (((refl, tt), λ h. cc), tt))
      refl two_messages-Sent
