-- ===== src/A2a/Stream/Client.antt =====
-- a2a/client.go: the texts of tasks, their failures, and the loop over a stream's frames.
pub mod Answer
use gori.Prelude.{
  if◌then◌else◌, append, is_empty, Result, ok, err, String, Bool, true, false, Option, none, some,
  List, [], ◌∷◌,
}
use gori.A2a.{
  TaskState, submitted, working, input_required, auth_required, completed, failed, canceled,
  rejected, Message, parts_text, TaskStatus, Artifact, Task, Assembler, add_delta, set_final,
  result,
}
use gori.A2a.Stream.{TaskEvent, status_event, artifact_event}

-- A decoded frame, by its kind; `other` is a frame that the client skips.
pub data Frame : Type 0 where
  rpc_error : String → Frame
  message_frame : Message → Frame
  task_frame : Task → Frame
  status_frame : TaskStatus → Frame
  artifact_frame : Artifact → Bool → Bool → Frame
  other : Frame

abbrev pub state_text : TaskState → String
state_text submitted = "submitted"
state_text working = "working"
state_text input_required = "input-required"
state_text auth_required = "auth-required"
state_text completed = "completed"
state_text failed = "failed"
state_text canceled = "canceled"
state_text rejected = "rejected"

abbrev pub message_text : Option Message → String
message_text none = ""
message_text (some m) = parts_text m.parts

-- `statusFailure`'s error.
abbrev pub failure_text : TaskState → Option Message → String
failure_text st m = append "a2a: task " (append (state_text st) (append ": " (message_text m)))

unfoldable pub failure_of : TaskState → Option Message → Option String
failure_of failed m = some (failure_text failed m)
failure_of canceled m = some (failure_text canceled m)
failure_of rejected m = some (failure_text rejected m)
failure_of _ m = none

unfoldable pub status_failure : TaskStatus → Option String
status_failure st = failure_of st.state st.message

unfoldable pub task_failure : Task → Option String
task_failure t = status_failure t.status

unfoldable pub artifacts_text : List Artifact → String
artifacts_text [] = ""
artifacts_text (a ∷ rest) = append (parts_text a.parts) (artifacts_text rest)

unfoldable pub task_text : Task → String
task_text t =
    if is_empty (artifacts_text t.artifacts)
    then message_text t.status.message
    else artifacts_text t.artifacts

-- The decoded result of `message/send`.
pub data SendResult : Type 0 where
  message_result : Message → SendResult
  task_result : Task → SendResult

or_else : Option String → String → Result String
or_else (some e) t = err e
or_else none t = ok t

unfoldable pub send_answer : SendResult → Result String
unfolding or_else
send_answer (message_result m) = ok (parts_text m.parts)
send_answer (task_result t) = or_else (task_failure t) (task_text t)

-- What a `task` frame gives the assembler.
unfoldable pub take_task : TaskState → String → Assembler → Assembler
take_task completed t a = set_final t a
take_task input_required t a = set_final t a
take_task auth_required t a = set_final t a
take_task _ t a = a

-- The rest of the loop, unless the status is a failure.
unfoldable pub unless_failed :
    Option String → Result String × List String → Result String × List String
unless_failed none rest = rest
unless_failed (some e) rest = (err e, [])

-- `onDelta`, before the rest of the loop.
abbrev pub heard : String → Result String × List String → Result String × List String
heard t rest = (rest.0, t ∷ rest.1)

-- The loop of `SendMessageStream` up to the end of the stream: its result and what `onDelta` hears.
unfoldable pub consume : List Frame → Assembler → Result String × List String
consume [] a = (ok (result a), [])
consume (other ∷ fs) a = consume fs a
consume (rpc_error e ∷ fs) a = (err e, [])
consume (message_frame m ∷ fs) a =
    heard (parts_text m.parts) (consume fs (add_delta (parts_text m.parts) true a))
consume (task_frame t ∷ fs) a =
    unless_failed (task_failure t) (consume fs (take_task t.status.state (task_text t) a))
consume (status_frame st ∷ fs) a = unless_failed (status_failure st) (consume fs a)
consume (artifact_frame art app last ∷ fs) a = elim last [
  | true ↦ consume fs (set_final (parts_text art.parts) a)
  | false ↦ heard (parts_text art.parts) (consume fs (add_delta (parts_text art.parts) app a))
]

-- The frames of the server's `sseSink`.
unfoldable pub frame_of : TaskEvent → Frame
frame_of (status_event st final_) = status_frame st
frame_of (artifact_event a append_chunk last) = artifact_frame a append_chunk last
