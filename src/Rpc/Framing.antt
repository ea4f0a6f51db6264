-- ===== src/Rpc/Framing.antt =====
-- internal/rpc/transport.go: messages as lines over an io stream. `W` is the io.Writer of a
-- transport and `write` its Write, with the error it may return; the io.Reader is the bytes up to
-- its end, where ReadBytes returns the bytes that are left and an error.
pub mod Received
use gori.Prelude.{if◌then◌else◌, ◌==◌, ℕ, zero, suc, Option, none, some, List, [], ◌∷◌, ◌++◌}
use gori.Sse.{Bytes, trim_right}

-- What `ReadBytes('\n')` gives: a line with its end and the bytes after it, or the bytes before the
-- error at the end of the stream.
pub data Chunk : Type 0 where
  whole : Bytes → Bytes → Chunk
  broken : Bytes → Chunk

unfoldable pub put_byte : ℕ → Chunk → Chunk
put_byte b (whole l rest) = whole (b ∷ l) rest
put_byte b (broken l) = broken (b ∷ l)

unfoldable pub read_bytes : Bytes → Chunk
unfolding put_byte
read_bytes [] = broken []
read_bytes (b ∷ bs) =
    let later = put_byte b (read_bytes bs) in if b == 10 then whole (b ∷ []) bs else later

-- What `ReadMessage` returns, with the bytes that are left.
pub data Got : Type 0 where
  message : Bytes → Bytes → Got
  read_error : Got

-- `if len(trimmed) > 0`, with what happens to a blank line.
unfoldable pub given : Bytes → Bytes → Option Got → Option Got
given [] rest blank = blank
given (b ∷ bs) rest blank = some (message (b ∷ bs) rest)

unfoldable pub on_chunk : Chunk → (Bytes → Option Got) → Option Got
unfolding given
on_chunk (whole l rest) again = given (trim_right l) rest (again rest)
on_chunk (broken l) again = given (trim_right l) [] (some read_error)

-- `ReadMessage`, on as many lines as the number says; `none` is a loop that goes on.
unfoldable pub read_message : ℕ → Bytes → Option Got
unfolding on_chunk
read_message zero bs = none
read_message (suc n) bs = on_chunk (read_bytes bs) (read_message n)

unfoldable pub put_message : Bytes → Option (List Bytes) → Option (List Bytes)
put_message m none = none
put_message m (some ms) = some (m ∷ ms)

unfoldable pub on_got : Option Got → (Bytes → Option (List Bytes)) → Option (List Bytes)
unfolding put_message
on_got none later = none
on_got (some (message m rest)) later = put_message m (later rest)
on_got (some read_error) later = some []

-- The messages that a loop over `ReadMessage` handles before it ends on the error, for as many reads
-- as the first number says, each on as many lines as the second says.
unfoldable pub receive : ℕ → ℕ → Bytes → Option (List Bytes)
unfolding on_got
receive zero n bs = none
receive (suc k) n bs = on_got (read_message n bs) (receive k n)

-- What `WriteMessage` returns.
pub data Wrote (W E : Type 0) : Type 0 where
  wrote : W → Wrote W E
  write_error : E → W → Wrote W E

module _ {W E : Type 0} (write : Bytes → W → Option E × W) where
  unfoldable pub end_line : Option E × W → Wrote W E
  end_line (some e, w) = write_error e w
  end_line (none, w) = wrote w

  unfoldable pub after_write : Option E × W → Wrote W E
  unfolding end_line
  after_write (some e, w) = write_error e w
  after_write (none, w) = end_line (write (10 ∷ []) w)

  unfoldable pub write_message : Bytes → W → Wrote W E
  unfolding after_write
  write_message b w = after_write (write b w)
