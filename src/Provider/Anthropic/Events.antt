-- ===== src/Provider/Anthropic/Events.antt =====
-- `Complete` and `Stream` of provider/anthropic/anthropic.go: the exchange with the server, and the
-- event loop. An event comes with its data as encoding/json decodes it, `none` where that fails.
use gori.Prelude.{
  ltb, leb, ◌==◌, if◌then◌else◌, str_eq, append, is_empty, Result, ok, err, ℕ, zero, suc, String,
  Bool, true, false, not, ◌&&◌, ◌||◌, Option, none, some, List, [], ◌∷◌, ◌++◌,
}
use gori.Prelude.Int.{ℤ, pos, negsuc, pos_part}
use gori.Message.{assistant, Content, text, thinking, tool_use}
use gori.Provider.{
  StopReason, other_stop, Usage, zero_usage, Response, Request, StreamEvent, text_event,
  thinking_event, tool_start, tool_delta, tool_stop, stream_done,
}
use gori.Provider.Anthropic.{
  ApiRequest, build_request, Refusal, check_content, ApiUsage, ApiResponse, stop_reason_of,
  prompt_size, to_response,
}

pub data Failure : Type 0 where
  refusal : Refusal → Failure
  unsent undecoded unread : String → Failure
  bad_status : ℕ → Failure
  server_error : String → String → Failure
  callback : String → Failure
  bad_data truncated : Failure

pub data Try {ℓ} (A : Type ℓ) : Type ℓ where
  success : A → Try A
  failure : Failure → Try A

abbrev pub and_then {ℓ κ} : {A : Type ℓ} {B : Type κ} → Try A → (A → Try B) → Try B
and_then (success a) f = f a
and_then (failure e) f = failure e

pub record HttpReply {ℓ} (B : Type ℓ) : Type ℓ where
  pub status : ℕ
  pub body : B

-- `post`: what the exchange by `httpretry.Do` gives, and the status that is an error.
unfoldable pub check_status {ℓ} : {B : Type ℓ} → HttpReply B → Try B
check_status r = if leb 400 r.status then failure (bad_status r.status) else success r.body

unfoldable pub post {ℓ} : {B : Type ℓ} → Result (HttpReply B) → Try B
unfolding check_status
post (ok r) = check_status r
post (err e) = failure (unsent e)

-- The guard with which both calls begin.
abbrev pub guarded {ℓ} : {A : Type ℓ} → Option Refusal → Try A → Try A
guarded none r = r
guarded (some e) r = failure (refusal e)

unfoldable pub decoded : Result ApiResponse → Try Response
decoded (ok r) = success (to_response r)
decoded (err e) = failure (undecoded e)

-- The server answers a request with a reply whose body `decode` reads.
unfoldable pub complete {ℓ} :
    {B : Type ℓ}
    → (ApiRequest → Result (HttpReply B))
    → (B → Result ApiResponse)
    → Request
    → Try Response
unfolding post decoded
complete exchange decode req =
    guarded (check_content req)
      (and_then (post (exchange (build_request req false))) (λ b. decoded (decode b)))

pub data Delta : Type 0 where
  text_delta thinking_delta signature_delta json_delta other_delta : String → Delta

pub record BlockStart : Type 0 where
  pub index : ℤ
  pub type_name : String
  pub id : String
  pub name : String

pub data Frame : Type 0 where
  no_data message_stop : Frame
  error_event : String → String → Frame
  block_start : Option BlockStart → Frame
  block_delta : Option (ℤ × Delta) → Frame
  block_stop : ℤ → Frame
  message_delta : Option (String × ℤ) → Frame
  message_start : Option ApiUsage → Frame
  other_event : String → Frame

pub record BlockAcc : Type 0 where
  pub type_name : String
  pub text : String
  pub signature : String
  pub tool_id : String
  pub tool_name : String
  pub tool_json : String

-- `count` is `maxIdx + 1`; `sent` holds the events that the callback got.
pub record StreamState : Type 0 where
  pub blocks : ℤ → Option BlockAcc
  pub count : ℕ
  pub stop_reason : StopReason
  pub usage : Usage
  pub saw_stop : Bool
  pub sent : List StreamEvent

abbrev pub start_state : StreamState
start_state = record {
  blocks = λ i. none;
  count = 0;
  stop_reason = other_stop "";
  usage = zero_usage;
  saw_stop = false;
  sent = [];
}

abbrev pub new_acc : String → BlockAcc
new_acc t = record {
  type_name = t;
  text = "";
  signature = "";
  tool_id = "";
  tool_name = "";
  tool_json = "";
}

abbrev pub int_eq : ℤ → ℤ → Bool
int_eq (pos a) (pos b) = a == b
int_eq (negsuc a) (negsuc b) = a == b
int_eq _ _ = false

abbrev pub put : ℤ → BlockAcc → (ℤ → Option BlockAcc) → ℤ → Option BlockAcc
put i a blocks j = if int_eq j i then some a else blocks j

-- `if e.Index > maxIdx`.
abbrev pub raise : ℤ → ℕ → ℕ
raise (pos i) n = if ltb i n then n else suc i
raise (negsuc i) n = n

abbrev old_acc : Option BlockAcc → BlockAcc
old_acc none = new_acc ""
old_acc (some a) = a

unfoldable pub start_acc : BlockStart → Option BlockAcc → BlockAcc
start_acc b a = record (old_acc a) { type_name = b.type_name; tool_id = b.id; tool_name = b.name }

-- The accumulator that a delta is written into: a lost start is made up for texts and thinking.
unfoldable pub acc_for : Delta → Option BlockAcc → Option BlockAcc
acc_for d (some a) = some a
acc_for (text_delta _) none = some (new_acc "text")
acc_for (thinking_delta _) none = some (new_acc "thinking")
acc_for _ none = none

unfoldable pub write_delta : Delta → BlockAcc → BlockAcc
write_delta (text_delta s) a = record a { text = append a.text s }
write_delta (thinking_delta s) a = record a { text = append a.text s }
write_delta (signature_delta s) a = record a { signature = append a.signature s }
write_delta (json_delta s) a = record a { tool_json = append a.tool_json s }
write_delta (other_delta _) a = a

-- Only an accumulator that is new raises the highest index.
abbrev pub raise_new : Option BlockAcc → ℤ → ℕ → ℕ
raise_new (some _) i n = n
raise_new none i n = raise i n

unfoldable pub set_delta : String → ℤ → StreamState → StreamState
set_delta stop n s = record s {
  stop_reason = if is_empty stop then s.stop_reason else stop_reason_of stop;
  usage = record s.usage {
    output_tokens = if ltb 0 (pos_part n) then pos_part n else s.usage.output_tokens;
  };
}

unfoldable pub set_prompt : ApiUsage → StreamState → StreamState
set_prompt u s = record s {
  usage = record s.usage {
    input_tokens = prompt_size u;
    cache_read_tokens = u.cache_read;
    cache_write_tokens = u.cache_creation;
  };
}

-- `none` is the empty reason, with which a response starts.
unfoldable pub is_unset : StopReason → Bool
is_unset (other_stop s) = is_empty s
is_unset _ = false

-- The stream ends, or its reading fails.
pub data Ending : Type 0 where
  at_eof : Ending
  read_error : String → Ending

module _ (json_valid : String → Bool) where
  abbrev tool_input : String → String
  tool_input j = if is_empty j || not (json_valid j) then "{}" else j

  -- `blockAcc.content`.
  unfoldable pub acc_content : BlockAcc → List Content
  acc_content a =
      if str_eq a.type_name "text"
      then (if is_empty a.text then [] else text (record { text = a.text }) ∷ [])
      else if str_eq a.type_name "thinking"
      then thinking (record { text = a.text; signature = a.signature }) ∷ []
      else if str_eq a.type_name "tool_use"
      then tool_use (record { id = a.tool_id; name = a.tool_name; input = tool_input a.tool_json })
        ∷ []
      else []

  unfoldable pub slot_content : Option BlockAcc → List Content
  slot_content none = []
  slot_content (some a) = acc_content a

  -- The loop over the indices below `count`.
  unfoldable pub collect : (ℤ → Option BlockAcc) → ℕ → List Content
  collect blocks zero = []
  collect blocks (suc n) = collect blocks n ++ slot_content (blocks (pos n))

  abbrev pub response_of : StreamState → Response
  response_of s = record {
    message = record { role = assistant; content = collect s.blocks s.count };
    stop_reason = s.stop_reason;
    usage = s.usage;
  }

-- `fn` is the callback's error on an event, after the events it got before.
module _ (fn : List StreamEvent → StreamEvent → Option String) where
  unfoldable pub deliver : StreamEvent → Option String → StreamState → Try StreamState
  deliver e none s = success (record s { sent = s.sent ++ e ∷ [] })
  deliver e (some x) s = failure (callback x)

  unfoldable pub send : StreamEvent → StreamState → Try StreamState
  unfolding deliver
  send e s = deliver e (fn s.sent e) s

  unfoldable pub send_if : Bool → StreamEvent → StreamState → Try StreamState
  send_if true e s = send e s
  send_if false e s = success s

  unfoldable pub on_start : BlockStart → StreamState → Try StreamState
  unfolding send_if
  on_start b s =
      let a = start_acc b (s.blocks b.index) in
      send_if (str_eq a.type_name "tool_use") (tool_start a.tool_id a.tool_name)
        (record s { blocks = put b.index a s.blocks; count = raise b.index s.count })

  unfoldable pub send_delta : Delta → StreamState → Try StreamState
  send_delta (text_delta t) s = send (text_event t) s
  send_delta (thinking_delta t) s = send (thinking_event t) s
  send_delta (json_delta t) s = send (tool_delta t) s
  send_delta _ s = success s

  unfoldable pub delta_into : ℤ → Delta → Option BlockAcc → ℕ → StreamState → Try StreamState
  unfolding send_delta
  delta_into i d none n s = success s
  delta_into i d (some a) n s =
      send_delta d (record s { blocks = put i (write_delta d a) s.blocks; count = n })

  unfoldable pub stop_acc : Option BlockAcc → StreamState → Try StreamState
  unfolding send_if
  stop_acc none s = success s
  stop_acc (some a) s = send_if (str_eq a.type_name "tool_use") (tool_stop a.tool_id) s

  -- One round of the loop.
  unfoldable pub step : Frame → StreamState → Try StreamState
  unfolding on_start delta_into stop_acc set_delta set_prompt
  step no_data s = success s
  step (error_event t m) s = failure (server_error t m)
  step (block_start none) s = failure bad_data
  step (block_start (some b)) s = on_start b s
  step (block_delta none) s = failure bad_data
  step (block_delta (some (i, d))) s =
      delta_into i d (acc_for d (s.blocks i)) (raise_new (s.blocks i) i s.count) s
  step (block_stop i) s = stop_acc (s.blocks i) s
  step (message_delta none) s = failure bad_data
  step (message_delta (some (stop, n))) s = success (set_delta stop n s)
  step (message_start none) s = success s
  step (message_start (some u)) s = success (set_prompt u s)
  step message_stop s = success (record s { saw_stop = true })
  step (other_event _) s = success s

  unfoldable pub run : List Frame → StreamState → Try StreamState
  run [] s = success s
  run (f ∷ fs) s = and_then (step f s) (run fs)

  module _ (json_valid : String → Bool) where
    unfoldable pub finish : Ending → StreamState → Try Response
    unfolding is_unset
    finish (read_error e) s = failure (unread e)
    finish at_eof s =
        if not s.saw_stop && is_unset s.stop_reason
        then failure truncated
        else and_then (send (stream_done s.usage) s) (λ s'. success (response_of json_valid s))

    -- The server's reply to a request is its frames and their end.
    unfoldable pub stream :
        (ApiRequest → Result (HttpReply (List Frame × Ending))) → Request → Try Response
    unfolding post
    stream exchange req = guarded (check_content req) (
        and_then (post (exchange (build_request req true)))
          (λ (fs, end). and_then (run fs start_state) (finish end)))
