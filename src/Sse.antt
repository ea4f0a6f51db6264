-- ===== src/Sse.antt =====
-- internal/sse/sse.go: server-sent events read from bytes. A text is the list of its bytes.
pub mod Frames
pub mod Ends
use gori.Prelude.{
  ltb, leb, ◌==◌, if◌then◌else◌, length, ℕ, zero, suc, ◌+◌, Bool, true, false, ◌&&◌, ◌||◌, Option,
  none, some, List, [], ◌∷◌, ◌++◌,
}

abbrev pub max_event_bytes : ℕ
max_event_bytes = 16777216

abbrev pub Bytes : Type 0
Bytes = List ℕ

pub record Event : Type 0 where
  pub event_type : Bytes
  pub data_bytes : Bytes
  pub id : Bytes
  pub retry : Bytes

-- What `readLine` gives: a line with its terminator as LF, the bytes up to the end of the stream, or
-- the error of a line that is too long.
pub data Line : Type 0 where
  ended : Bytes → Bytes → Line
  unended : Bytes → Line
  line_too_long : Line

unfoldable pub skip_lf : Bytes → Bytes
skip_lf [] = []
skip_lf (b ∷ bs) = if b == 10 then bs else b ∷ bs

-- The loop of `readLine`, with the bytes that the builder holds.
unfoldable pub line_from : Bytes → Bytes → Line
unfolding skip_lf
line_from acc [] = unended acc
line_from acc (b ∷ bs) =
    let rest = line_from (acc ++ b ∷ []) bs in
    if b == 10
    then ended (acc ++ 10 ∷ []) bs
    else if b == 13
    then ended (acc ++ 10 ∷ []) (skip_lf bs)
    else if leb max_event_bytes (length acc)
    then line_too_long
    else rest

unfoldable pub read_line : Bytes → Line
read_line bs = line_from [] bs

-- `stripBOM`, which the first `readLine` calls.
unfoldable pub strip_bom : Bytes → Bytes
strip_bom (a ∷ b ∷ c ∷ bs) = if a == 239 && b == 187 && c == 191 then bs else a ∷ b ∷ c ∷ bs
strip_bom bs = bs

abbrev pub is_break : ℕ → Bool
is_break b = b == 10 || b == 13

unfoldable pub no_bytes : Bytes → Bool
no_bytes [] = true
no_bytes (b ∷ bs) = false

-- `strings.TrimRight(line, "\r\n")`.
unfoldable pub trim_right : Bytes → Bytes
unfolding no_bytes
trim_right [] = []
trim_right (b ∷ bs) =
    let rest = trim_right bs in if is_break b && no_bytes rest then [] else b ∷ rest

-- `strings.Cut(line, ":")`.
unfoldable pub cut : Bytes → Bytes × Bytes
cut [] = ([], [])
cut (b ∷ bs) = let (field, value) = cut bs in if b == 58 then ([], bs) else (b ∷ field, value)

unfoldable pub trim_space : Bytes → Bytes
trim_space [] = []
trim_space (b ∷ bs) = if b == 32 then bs else b ∷ bs

unfoldable pub same_bytes : Bytes → Bytes → Bool
same_bytes [] [] = true
same_bytes (a ∷ as') (b ∷ bs) = a == b && same_bytes as' bs
same_bytes _ _ = false

unfoldable pub has_nul : Bytes → Bool
has_nul [] = false
has_nul (b ∷ bs) = b == 0 || has_nul bs

-- `strings.Join(data, "\n")`.
unfoldable pub join : List Bytes → Bytes
join [] = []
join (d ∷ []) = d
join (d ∷ e ∷ ds) = d ++ 10 ∷ join (e ∷ ds)

-- The variables of `Next`.
pub record Pending : Type 0 where
  pub event : Event
  pub lines : List Bytes
  pub size : ℕ

abbrev pub empty_event : Event
empty_event = record { event_type = []; data_bytes = []; id = []; retry = [] }

abbrev pub start : Pending
start = record { event = empty_event; lines = []; size = 0 }

abbrev pub word_event : Bytes
word_event = 101 ∷ 118 ∷ 101 ∷ 110 ∷ 116 ∷ []

abbrev pub word_data : Bytes
word_data = 100 ∷ 97 ∷ 116 ∷ 97 ∷ []

abbrev pub word_id : Bytes
word_id = 105 ∷ 100 ∷ []

abbrev pub word_retry : Bytes
word_retry = 114 ∷ 101 ∷ 116 ∷ 114 ∷ 121 ∷ []

-- A data line; `none` is the error of an event that is too large.
unfoldable pub add_data : Bytes → Pending → Option Pending
add_data v p =
    let size = p.size + suc (length v) in
    if ltb max_event_bytes size
    then none
    else some (record p { lines = p.lines ++ v ∷ []; size = size })

unfoldable pub set_field : Bytes → Bytes → Pending → Option Pending
unfolding add_data
set_field field v p =
    if same_bytes field word_event
    then some (record p { event = record p.event { event_type = v } })
    else if same_bytes field word_data
    then add_data v p
    else if same_bytes field word_id
    then some (if has_nul v then p else record p { event = record p.event { id = v } })
    else if same_bytes field word_retry
    then some (record p { event = record p.event { retry = v } })
    else some p

-- What `Next` returns, with the bytes that are left.
pub data Scan : Type 0 where
  event : Event → Bytes → Scan
  eof line_error event_error : Scan

-- `dispatch`, on the data lines.
unfoldable pub dispatch_lines : List Bytes → Event → Option Event
dispatch_lines [] e = none
dispatch_lines (d ∷ ds) e = some (record e { data_bytes = join (d ∷ ds) })

abbrev pub dispatch : Pending → Option Event
dispatch p = dispatch_lines p.lines p.event

abbrev pub reset_type : Pending → Pending
reset_type p = record p { event = record p.event { event_type = [] } }

-- A line has dispatched an event, changed the variables, or made the event too large.
pub data Turn : Type 0 where
  dispatched : Event → Turn
  goes_on : Pending → Turn
  too_large : Turn

unfoldable pub turn_of : Option Pending → Turn
turn_of none = too_large
turn_of (some p) = goes_on p

unfoldable pub end_event : Option Event → Pending → Turn
end_event none p = goes_on (reset_type p)
end_event (some e) p = dispatched e

-- A line without its terminator.
unfoldable pub on_line : Bytes → Pending → Turn
unfolding turn_of end_event dispatch_lines set_field cut trim_space
on_line [] p = end_event (dispatch p) p
on_line (b ∷ bs) p =
    let (field, value) = cut (b ∷ bs) in
    if b == 58 then goes_on p else turn_of (set_field field (trim_space value) p)

unfoldable pub at_end : Option Event → Scan
at_end none = eof
at_end (some e) = event e []

unfoldable pub after_turn : Turn → (Pending → Option Scan) → Bytes → Option Scan
after_turn (dispatched e) next rest = some (event e rest)
after_turn (goes_on p) next rest = next p
after_turn too_large next rest = some event_error

-- One round of the loop of `Next`; `next` is the later rounds.
unfoldable pub on_read : Line → (Bytes → Pending → Option Scan) → Pending → Option Scan
unfolding after_turn at_end dispatch_lines
on_read line_too_long next p = some line_error
on_read (ended l rest) next p = after_turn (on_line (trim_right l) p) (next rest) rest
on_read (unended []) next p = some (at_end (dispatch p))
on_read (unended (b ∷ bs)) next p =
    after_turn (on_line (trim_right (b ∷ bs)) p) (λ q. some (at_end (dispatch q))) []

-- `Next`, on as many lines as the number says; `none` is a loop that goes on.
unfoldable pub next : ℕ → Bytes → Pending → Option Scan
unfolding on_read
next zero bs p = none
next (suc n) bs p = on_read (read_line bs) (next n) p

pub record Scanner : Type 0 where
  pub reader : Bytes
  pub bom_done : Bool

abbrev pub new_scanner : Bytes → Scanner
new_scanner r = record { reader = r; bom_done = false }

-- `Next` on a scanner, whose first line has its byte order mark removed.
unfoldable pub next_event : ℕ → Scanner → Option Scan
unfolding strip_bom next
next_event n s =
    let stripped = strip_bom s.reader in next n (if s.bom_done then s.reader else stripped) start
