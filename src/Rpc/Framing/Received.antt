-- ===== src/Rpc/Framing/Received.antt =====
-- Messages that are written to a transport of internal/rpc/transport.go and read from it again.
use gori.Prelude.{
  ◌==◌, length, All, ℕ, suc, ◌≡◌, refl, sym, ◌∙◌, Option, none, some, List, [], ◌∷◌, ◌++◌,
  append-nil, append_assoc,
}
use gori.Sse.{Bytes, trim_right}
use gori.Sse.Frames.{IsPlain, or_false, trim_right-plain}
use gori.Rpc.Framing.{
  whole, put_byte, read_bytes, message, given, on_chunk, read_message, put_message, on_got, receive,
  wrote, end_line, after_write, write_message,
}

-- A message that has bytes and no line break.
abbrev pub IsMessage : Bytes → Type 0
IsMessage m = All IsPlain m × ((m ≡ []) → ⊥)

read_bytes-plain :
    (m rest : Bytes) → All IsPlain m → read_bytes (m ++ 10 ∷ rest) ≡ whole (m ++ 10 ∷ []) rest
unfolding read_bytes put_byte
read_bytes-plain [] rest h = refl
read_bytes-plain (b ∷ m) rest h =
    rw ((or_false (b == 10) (b == 13) h.0).0, read_bytes-plain m rest h.1)

read_message-plain :
    (n : ℕ) (m rest : Bytes)
    → IsMessage m
    → read_message (suc n) (m ++ 10 ∷ rest) ≡ some (message m rest)
unfolding read_message on_chunk given
read_message-plain n [] rest (h, full) = absurd (full refl)
read_message-plain n (b ∷ m) rest (h, full) =
    rw (read_bytes-plain (b ∷ m) rest h, trim_right-plain (b ∷ m) h)

-- The bytes of messages, a line each.
abbrev pub lines_of : List Bytes → Bytes
lines_of [] = []
lines_of (m ∷ ms) = m ++ 10 ∷ lines_of ms

lines_of-receive :
    (n : ℕ) (ms : List Bytes)
    → All IsMessage ms
    → receive (suc (length ms)) (suc n) (lines_of ms) ≡ some ms
unfolding receive on_got put_message read_message on_chunk read_bytes trim_right given
lines_of-receive n [] h = refl
lines_of-receive n (m ∷ ms) h =
    rw (read_message-plain n m (lines_of ms) h.0, lines_of-receive n ms h.1)

-- `Sent write ms w v`: the messages are written one after another from `w`, no write returns an
-- error, and `v` is the writer after them.
pub data Sent {W E : Type 0} (write : Bytes → W → Option E × W) : List Bytes → W → W → Type 0 where
  nothing : {w : W} → Sent write [] w w
  then_sent :
      {m : Bytes} {ms : List Bytes} {w v u : W}
      → write_message write m w ≡ wrote v
      → Sent write ms v u
      → Sent write (m ∷ ms) w u

module _ {W E : Type 0} (write : Bytes → W → Option E × W) (contents : W → Bytes) where
  -- The contract of io.Writer: a write without an error has written all of its bytes.
  abbrev pub Appends : Type 0
  Appends = (b : Bytes) (w v : W) → write b w ≡ (none, v) → contents v ≡ contents w ++ b

module _ {W E : Type 0} (write : Bytes → W → Option E × W) (contents : W → Bytes)
    (appends : Appends write contents) where
  end_line-contents : (r : Option E × W) (v : W) → end_line write r ≡ wrote v → r ≡ (none, v)
  unfolding end_line
  end_line-contents (some e, w) v h = cc
  end_line-contents (none, w) v h = cc

  after_write-contents :
      (r : Option E × W) (b : Bytes) (w v : W)
      → write b w ≡ r
      → after_write write r ≡ wrote v
      → contents v ≡ contents w ++ b ++ 10 ∷ []
  unfolding after_write
  after_write-contents (some e, u) b w v first h = cc
  after_write-contents (none, u) b w v first h =
      appends (10 ∷ []) u v (end_line-contents (write (10 ∷ []) u) v h) ∙ rw (appends b w u first)

  Sent-contents :
      (ms : List Bytes) (w v : W) → Sent write ms w v → contents v ≡ contents w ++ lines_of ms
  unfolding write_message
  Sent-contents _ _ _ (nothing {w}) = sym (append-nil (contents w))
  Sent-contents _ _ _ (then_sent {m} {ms} {w} {v} {u} h later) =
      Sent-contents ms v u later
      ∙ rw (after_write-contents (write m w) m w v refl h) (
          append_assoc (contents w ++ m) (10 ∷ []) (lines_of ms)
          ∙ append_assoc (contents w) m (10 ∷ lines_of ms))

  -- Over a writer that takes all the bytes of a write without an error, and that is empty at first,
  -- messages without line breaks that are sent one after another without an error are received as
  -- the same messages in the same order, and then the reads end with the error of the stream.
  pub Sent-receive :
      (n : ℕ) (ms : List Bytes) (w v : W)
      → All IsMessage ms
      → contents w ≡ []
      → Sent write ms w v
      → receive (suc (length ms)) (suc n) (contents v) ≡ some ms
  Sent-receive n ms w v h empty sent =
      rw (Sent-contents ms w v sent, empty) (lines_of-receive n ms h)
