-- ===== src/Provider/Openai/Events.antt =====
-- `Complete` and `Stream` of provider/openai/openai.go: the exchange with the server, and the event
-- loop. A chunk comes as encoding/json decodes it. The accumulators' map and the order of their
-- indices are one association list, in that order.
use gori.Prelude.{
  leb, ◌==◌, if◌then◌else◌, append, is_empty, Result, ok, err, ℕ, String, Bool, true, false, not,
  ◌&&◌, Option, none, some, List, [], ◌∷◌, ◌++◌,
}
use gori.Prelude.Int.{ℤ, pos, negsuc}
use gori.Message.{assistant, Content, text, audio, tool_use, system_text_only}
use gori.Provider.{
  StopReason, other_stop, Usage, zero_usage, Response, Request, StreamEvent, text_event, tool_start,
  tool_delta, tool_stop, stream_done,
}
use gori.Provider.Openai.{
  ToolCall, or_object, ApiRequest, build_request, stop_reason_of, ApiUsage, to_usage,
}

abbrev pub bind {ℓ κ} : {A : Type ℓ} {B : Type κ} → Result A → (A → Result B) → Result B
bind (ok a) f = f a
bind (err e) f = err e

pub record HttpReply {ℓ} (B : Type ℓ) : Type ℓ where
  pub status : ℕ
  pub body : B

-- The text of an error status is left out.
unfoldable pub check_status {ℓ} : {B : Type ℓ} → HttpReply B → Result B
check_status r = if leb 400 r.status then err "openai: status" else ok r.body

unfoldable pub post {ℓ} : {B : Type ℓ} → Result (HttpReply B) → Result B
unfolding check_status
post r = bind r check_status

abbrev pub guarded {ℓ} : {A : Type ℓ} → Option String → Result A → Result A
guarded none r = r
guarded (some k) r = err (append "openai: " k)

pub record AudioReply : Type 0 where
  pub bytes : Option (List ℕ)
  pub transcript : String

pub record Choice : Type 0 where
  pub content : String
  pub audio : Option AudioReply
  pub calls : List ToolCall
  pub finish_reason : String

pub record ApiResponse : Type 0 where
  pub choices : List Choice
  pub usage : ApiUsage

abbrev pub text_blocks : String → List Content
text_blocks s = if is_empty s then [] else text (record { text = s }) ∷ []

unfoldable pub audio_blocks : Option (List ℕ) → List Content
audio_blocks none = []
audio_blocks (some []) = []
audio_blocks (some (b ∷ bs)) = audio (record { media_type = "audio/wav"; bytes = b ∷ bs }) ∷ []

unfoldable pub audio_content : Option AudioReply → List Content
unfolding audio_blocks
audio_content none = []
audio_content (some a) = audio_blocks a.bytes ++ text_blocks a.transcript

unfoldable pub call_blocks : List ToolCall → List Content
call_blocks [] = []
call_blocks (c ∷ cs) =
    tool_use (record { id = c.id; name = c.name; input = or_object c.arguments }) ∷ call_blocks cs

unfoldable pub first_choice : List Choice → ApiUsage → Result Response
unfolding audio_content call_blocks
first_choice [] u = err "openai: empty choices"
first_choice (c ∷ cs) u = ok (record {
  message = record {
    role = assistant;
    content = text_blocks c.content ++ audio_content c.audio ++ call_blocks c.calls;
  };
  stop_reason = stop_reason_of c.finish_reason;
  usage = to_usage u;
})

unfoldable pub complete {ℓ} :
    {B : Type ℓ}
    → (ApiRequest → Result (HttpReply B))
    → (B → Result ApiResponse)
    → Request
    → Result Response
unfolding post first_choice
complete exchange decode req = guarded (system_text_only req.messages) (
    bind (post (exchange (build_request req false)))
      (λ b. bind (decode b) (λ r. first_choice r.choices r.usage)))

-- A fragment of a tool call; an index that is absent is 0.
pub record CallDelta : Type 0 where
  pub index : ℤ
  pub id : String
  pub name : String
  pub arguments : String

pub record ChoiceDelta : Type 0 where
  pub content : String
  pub calls : List CallDelta
  pub finish_reason : String

pub record Chunk : Type 0 where
  pub error : Option (String × String)
  pub usage : Option ApiUsage
  pub choice : Option ChoiceDelta

pub data Frame : Type 0 where
  no_data done_marker : Frame
  undecodable : String → Frame
  chunk : Chunk → Frame

pub data Ending : Type 0 where
  at_eof : Ending
  read_error : String → Ending

pub record ToolAcc : Type 0 where
  pub id : String
  pub name : String
  pub args : String
  pub started : Bool

pub record StreamState : Type 0 where
  pub text : String
  pub tools : List (ℤ × ToolAcc)
  pub stop_reason : StopReason
  pub usage : Usage
  pub sent : List StreamEvent

abbrev pub start_state : StreamState
start_state = record {
  text = "";
  tools = [];
  stop_reason = other_stop "";
  usage = zero_usage;
  sent = [];
}

abbrev pub new_acc : ToolAcc
new_acc = record { id = ""; name = ""; args = ""; started = false }

abbrev pub int_eq : ℤ → ℤ → Bool
int_eq (pos a) (pos b) = a == b
int_eq (negsuc a) (negsuc b) = a == b
int_eq _ _ = false

unfoldable pub acc_at : ℤ → List (ℤ × ToolAcc) → ToolAcc
acc_at i [] = new_acc
acc_at i ((j, a) ∷ ts) = let rest = acc_at i ts in if int_eq j i then a else rest

unfoldable pub put_acc : ℤ → ToolAcc → List (ℤ × ToolAcc) → List (ℤ × ToolAcc)
put_acc i a [] = (i, a) ∷ []
put_acc i a ((j, b) ∷ ts) =
    let rest = put_acc i a ts in if int_eq j i then (j, a) ∷ ts else (j, b) ∷ rest

-- The id is frozen once the start is sent.
unfoldable pub merge : CallDelta → ToolAcc → ToolAcc
merge d a = record a {
  id = if not (is_empty d.id) && not a.started then d.id else a.id;
  name = if is_empty d.name then a.name else d.name;
  args = append a.args d.arguments;
}

abbrev pub or_id : String → String → String
or_id d s = if is_empty s then d else s

-- `fmt.Sprintf("call_%d", idx)`.
abbrev pub call_id : (ℤ → String) → ℤ → String
call_id decimal i = append "call_" (decimal i)

unfoldable pub set_finish : String → StreamState → StreamState
set_finish f s = record s { stop_reason = if is_empty f then s.stop_reason else stop_reason_of f }

unfoldable pub set_usage : Option ApiUsage → StreamState → StreamState
set_usage none s = s
set_usage (some u) s = record s { usage = to_usage u }

unfoldable pub is_unset : StopReason → Bool
is_unset (other_stop s) = is_empty s
is_unset _ = false

module _ (fn : List StreamEvent → StreamEvent → Option String) where
  abbrev delivered : Option String → StreamEvent → List StreamEvent → Result (List StreamEvent)
  delivered none e sent = ok (sent ++ e ∷ [])
  delivered (some x) e sent = err x

  unfoldable pub send : StreamEvent → List StreamEvent → Result (List StreamEvent)
  send e sent = delivered (fn sent e) e sent

  unfoldable pub send_if : Bool → StreamEvent → List StreamEvent → Result (List StreamEvent)
  send_if true e sent = send e sent
  send_if false e sent = ok sent

  unfoldable pub on_text : String → StreamState → Result StreamState
  unfolding send_if
  on_text t s =
      bind (send_if (not (is_empty t)) (text_event t) s.sent)
        (λ sent. ok (record s { text = append s.text t; sent = sent }))

module _ (decimal : ℤ → String) (fn : List StreamEvent → StreamEvent → Option String) where
  -- The start of a call, with the arguments that came before it.
  unfoldable pub begin_call : ℤ → ToolAcc → StreamState → Result StreamState
  unfolding send_if
  begin_call i a s =
      let id = or_id (call_id decimal i) a.id in
      bind (send fn (tool_start id a.name) s.sent) (λ sent.
        bind (send_if fn (not (is_empty a.args)) (tool_delta a.args) sent) (λ sent'. ok (record s {
          tools = put_acc i (record a { id = id; started = true }) s.tools;
          sent = sent';
        })))

  unfoldable pub continue_call : CallDelta → ToolAcc → StreamState → Result StreamState
  unfolding send_if
  continue_call d a s =
      bind (send_if fn (a.started && not (is_empty d.arguments)) (tool_delta d.arguments) s.sent)
        (λ sent. ok (record s { tools = put_acc d.index a s.tools; sent = sent }))

  unfoldable pub merged_call : CallDelta → ToolAcc → StreamState → Result StreamState
  unfolding begin_call continue_call
  merged_call d a s =
      if not a.started && not (is_empty a.name) then begin_call d.index a s else continue_call d a s

  unfoldable pub on_call : CallDelta → StreamState → Result StreamState
  unfolding merged_call merge acc_at
  on_call d s = merged_call d (merge d (acc_at d.index s.tools)) s

  unfoldable pub on_calls : List CallDelta → StreamState → Result StreamState
  on_calls [] s = ok s
  on_calls (d ∷ ds) s = bind (on_call d s) (on_calls ds)

  unfoldable pub on_choice : Option ChoiceDelta → StreamState → Result StreamState
  unfolding on_text set_finish
  on_choice none s = ok s
  on_choice (some c) s =
      bind (on_text fn c.content s)
        (λ s'. bind (on_calls c.calls s') (λ s''. ok (set_finish c.finish_reason s'')))

  unfoldable pub on_chunk : Option (String × String) → Chunk → StreamState → Result StreamState
  unfolding on_choice set_usage
  on_chunk (some (t, m)) c s = err (append "openai: stream error: " (append t (append ": " m)))
  on_chunk none c s = on_choice c.choice (set_usage c.usage s)

  -- The event loop, to its end or its break.
  unfoldable pub run : List Frame → Ending → StreamState → Result StreamState
  unfolding on_chunk
  run [] at_eof s = ok s
  run [] (read_error e) s = err e
  run (no_data ∷ fs) end s = run fs end s
  run (done_marker ∷ fs) end s = ok s
  run (undecodable e ∷ fs) end s = err e
  run (chunk c ∷ fs) end s = bind (on_chunk c.error c s) (run fs end)

  -- The tool calls of the response, with their stop events; one without a name is left out.
  unfoldable pub close_call :
      ℤ
      → ToolAcc
      → (List StreamEvent → Result (List Content × List StreamEvent))
      → List StreamEvent
      → Result (List Content × List StreamEvent)
  close_call i a rest sent =
      let id = or_id (call_id decimal i) a.id in
      if is_empty a.name
      then rest sent
      else bind (send fn (tool_stop id) sent) (λ sent'. bind (rest sent') (λ (cs, sent'').
        ok (tool_use (record { id = id; name = a.name; input = or_object a.args }) ∷ cs, sent'')))

  unfoldable pub close_calls :
      List (ℤ × ToolAcc) → List StreamEvent → Result (List Content × List StreamEvent)
  unfolding close_call
  close_calls [] sent = ok ([], sent)
  close_calls ((i, a) ∷ ts) sent = close_call i a (close_calls ts) sent

  -- The response, with all events that the callback got.
  unfoldable pub finish : StreamState → Result (Response × List StreamEvent)
  unfolding is_unset close_calls
  finish s =
      if is_unset s.stop_reason
      then err "openai: stream ended unexpectedly (no finish_reason)"
      else bind (close_calls s.tools s.sent) (λ (cs, sent).
        bind (send fn (stream_done s.usage) sent) (λ sent'. ok (
          record {
            message = record { role = assistant; content = text_blocks s.text ++ cs };
            stop_reason = s.stop_reason;
            usage = s.usage;
          },
          sent',
        )))

  unfoldable pub stream_frames : List Frame → Ending → Result (Response × List StreamEvent)
  unfolding run finish
  stream_frames fs end = bind (run fs end start_state) finish

  unfoldable pub stream :
      (ApiRequest → Result (HttpReply (List Frame × Ending))) → Request → Result Response
  unfolding post stream_frames
  stream exchange req = guarded (system_text_only req.messages) (
      bind (post (exchange (build_request req true)))
        (λ (fs, end). bind (stream_frames fs end) (λ (r, sent). ok r)))
