-- ===== src/Rpc/Client.antt =====
-- The read loop and the calls of internal/rpc/client.go, as one sequence of steps. A call is a record
-- in the order of registration: its key in `pending` is the field `pending`, its channel of
-- capacity 1 is `box`, and `outcome` is what `Call` has returned.
use gori.Prelude.{
  if◌then◌else◌, str_eq, ℕ, suc, String, Bool, true, false, not, ◌&&◌, Option, none, some, List, [],
  ◌∷◌, ◌++◌, map,
}
use gori.Rpc.{Response}

pub data Box (J : Type 0) : Type 0 where
  empty_box closed_box : Box J
  holds : Response J → Box J

pub data Outcome (J : Type 0) : Type 0 where
  client_closed context_done : Outcome J
  write_failed read_failed : String → Outcome J
  responded : Response J → Outcome J

pub record Call (J : Type 0) : Type 0 where
  pub key : String
  pub pending : Bool
  pub written : Bool
  pub box : Box J
  pub outcome : Option (Outcome J)

-- `read_err` is `readErr`, which is set if and only if `closed` is.
pub record Client (J : Type 0) : Type 0 where
  pub next_id : ℕ
  pub calls : List (Call J)
  pub read_err : Option String

-- A message that the loop reads: a request of the server, one that does not decode, or a response.
pub data Message (J : Type 0) : Type 0 where
  server_request undecoded : Message J
  response : Response J → Message J

-- What happens: `Call` begins, its write returns, its context ends or it takes from its channel; the
-- loop reads a message or an error.
pub data Step (J : Type 0) : Type 0 where
  begin : Step J
  wrote : String → Option String → Step J
  cancel take_box : String → Step J
  receive : Message J → Step J
  fail_read : String → Step J

module _ {J : Type 0} where
  abbrev pub new_client : Client J
  new_client = record { next_id = 0; calls = []; read_err = none }

  -- The call once it has returned: its key is deleted on every path that may find it pending.
  abbrev pub return_call : Outcome J → Call J → Call J
  return_call o c = record c { pending = false; outcome = some o }

  abbrev pub new_call : String → Call J
  new_call k = record { key = k; pending = true; written = false; box = empty_box; outcome = none }

  unfoldable pub register : String → Option String → Call J
  register k none = new_call k
  register k (some e) = return_call client_closed (new_call k)

  unfoldable pub is_live : Option (Outcome J) → Bool
  is_live none = true
  is_live (some o) = false

  -- The first `select` of `Call`: the write ends.
  unfoldable pub end_write : Option String → Call J → Call J
  end_write none c = record c { written = true }
  end_write (some e) c = return_call (write_failed e) c

  unfoldable pub on_write : Option String → Call J → Call J
  unfolding end_write
  on_write e c = if is_live c.outcome && not c.written then end_write e c else c

  unfoldable pub on_cancel : Call J → Call J
  on_cancel c = if is_live c.outcome then return_call context_done c else c

  -- The second `select`: a receive, which waits while the channel is empty.
  unfoldable pub from_box : Option String → Box J → Call J → Call J
  from_box e empty_box c = c
  from_box e (holds r) c = record c { box = empty_box; outcome = some (responded r) }
  from_box none closed_box c = record c { outcome = some (read_failed "") }
  from_box (some e) closed_box c = record c { outcome = some (read_failed e) }

  unfoldable pub on_take : Option String → Call J → Call J
  unfolding from_box
  on_take e c = if is_live c.outcome && c.written then from_box e c.box c else c

  -- The send on the channel of a pending call.
  unfoldable pub put_box : Response J → Call J → Call J
  put_box r c =
      if c.pending && str_eq c.key r.id then record c { pending = false; box = holds r } else c

  unfoldable pub close_box : Call J → Call J
  close_box c = if c.pending then record c { pending = false; box = closed_box } else c

  -- The call of the key, changed.
  unfoldable pub on_key : String → (Call J → Call J) → Call J → Call J
  on_key k f c = if str_eq c.key k then f c else c

  unfoldable pub read_message : Message J → List (Call J) → List (Call J)
  unfolding put_box
  read_message (response r) cs = map (put_box r) cs
  read_message _ cs = cs

  -- `format` is `strconv.FormatInt` in base 10. After an error the loop has returned and reads no
  -- more.
  module _ (format : ℕ → String) where
    unfoldable pub receive_on : Option String → Message J → Client J → Client J
    unfolding read_message
    receive_on none msg c = record c { calls = read_message msg c.calls }
    receive_on (some e) msg c = c

    unfoldable pub fail_on : Option String → String → Client J → Client J
    unfolding close_box
    fail_on none e c = record c { calls = map close_box c.calls; read_err = some e }
    fail_on (some e') e c = c

    unfoldable pub step : Step J → Client J → Client J
    unfolding register on_write on_cancel on_take on_key receive_on fail_on
    step begin c = record c {
      next_id = suc c.next_id;
      calls = c.calls ++ register (format (suc c.next_id)) c.read_err ∷ [];
    }
    step (wrote k e) c = record c { calls = map (on_key k (on_write e)) c.calls }
    step (cancel k) c = record c { calls = map (on_key k on_cancel) c.calls }
    step (take_box k) c = record c { calls = map (on_key k (on_take c.read_err)) c.calls }
    step (receive msg) c = receive_on c.read_err msg c
    step (fail_read e) c = fail_on c.read_err e c

    unfoldable pub steps : List (Step J) → Client J → Client J
    steps [] c = c
    steps (a ∷ as') c = steps as' (step a c)
