-- ===== src/A2a/Grpc/Tasks.antt =====
-- a2a/grpc/convert.go: the statuses, artifacts and tasks of a2a/protocol.go as messages and back.
use mathlib.Core.Option as Opt
use gori.Prelude.{ℕ, String, Option, none, some, List, [], ◌∷◌}
use gori.A2a.{TaskState, Message, TaskStatus, Artifact, Task}
use gori.A2a.Grpc.{
  PbMessage, PbStatus, PbArtifact, PbTask, Codec, state_to_pb, state_from_pb, to_parts,
  parts_from_pb, message_to_pb, message_from_pb,
}

-- A status and a task as they are read; `none` is the state of the empty text.
pub record ReadStatus : Type 0 where
  pub state : Option TaskState
  pub message : Option Message
  pub timestamp : Option ℕ

pub record ReadTask : Type 0 where
  pub id : ℕ
  pub context_id : String
  pub status : ReadStatus
  pub artifacts : List Artifact
  pub history : List Message
  pub kind : String

module _ {R V : Type 0} (c : Codec R V) where
  unfoldable pub status_to_pb : TaskStatus → PbStatus R V
  unfolding state_to_pb message_to_pb
  status_to_pb st = record {
    state = state_to_pb st.state;
    message = Opt.map (message_to_pb c) st.message;
    timestamp = st.timestamp;
  }

  unfoldable pub artifact_to_pb : Artifact → PbArtifact R V
  unfolding to_parts
  artifact_to_pb a = record {
    artifact_id = a.artifact_id;
    name = a.name;
    description = a.description;
    parts = to_parts c a.parts;
  }

  unfoldable pub artifacts_to_pb : List Artifact → List (Option (PbArtifact R V))
  unfolding artifact_to_pb
  artifacts_to_pb [] = []
  artifacts_to_pb (a ∷ as') = some (artifact_to_pb a) ∷ artifacts_to_pb as'

  unfoldable pub history_to_pb : List Message → List (Option (PbMessage R V))
  unfolding message_to_pb
  history_to_pb [] = []
  history_to_pb (m ∷ ms) = some (message_to_pb c m) ∷ history_to_pb ms

  unfoldable pub task_to_pb : Task → PbTask R V
  unfolding status_to_pb artifacts_to_pb history_to_pb
  task_to_pb t = record {
    id = t.id;
    context_id = t.context_id;
    status = some (status_to_pb t.status);
    artifacts = artifacts_to_pb t.artifacts;
    history = history_to_pb t.history;
  }

  unfoldable pub status_from_pb : Option (PbStatus R V) → ReadStatus
  unfolding state_from_pb message_from_pb
  status_from_pb none = record { state = none; message = none; timestamp = none }
  status_from_pb (some st) = record {
    state = state_from_pb st.state;
    message = Opt.map (message_from_pb c) st.message;
    timestamp = st.timestamp;
  }

  unfoldable pub artifact_from_pb : Option (PbArtifact R V) → Artifact
  unfolding parts_from_pb
  artifact_from_pb none = record { artifact_id = 0; name = ""; description = ""; parts = [] }
  artifact_from_pb (some a) = record {
    artifact_id = a.artifact_id;
    name = a.name;
    description = a.description;
    parts = parts_from_pb c a.parts;
  }

  unfoldable pub artifacts_from_pb : List (Option (PbArtifact R V)) → List Artifact
  unfolding artifact_from_pb
  artifacts_from_pb [] = []
  artifacts_from_pb (a ∷ as') = artifact_from_pb a ∷ artifacts_from_pb as'

  -- `if mm := msgFromPB(m); mm != nil`.
  unfoldable pub history_from_pb : List (Option (PbMessage R V)) → List Message
  unfolding message_from_pb
  history_from_pb [] = []
  history_from_pb (none ∷ ms) = history_from_pb ms
  history_from_pb (some m ∷ ms) = message_from_pb c m ∷ history_from_pb ms

  unfoldable pub task_from_pb : Option (PbTask R V) → ReadTask
  unfolding status_from_pb artifacts_from_pb history_from_pb
  task_from_pb none = record {
    id = 0;
    context_id = "";
    status = record { state = none; message = none; timestamp = none };
    artifacts = [];
    history = [];
    kind = "";
  }
  task_from_pb (some t) = record {
    id = t.id;
    context_id = t.context_id;
    status = status_from_pb t.status;
    artifacts = artifacts_from_pb t.artifacts;
    history = history_from_pb t.history;
    kind = "task";
  }
