-- ===== src/A2a/Grpc.antt =====
-- a2a/grpc/convert.go and the parts of a2a/grpc/grpc.go: tasks as messages of the generated package.
-- `R` is the raw bytes of a file, `V` a structpb.Value. A timestamp of either side is its second. A
-- pointer that may be nil is an Option.
pub mod Tasks
pub mod Calls
pub mod Sorted
pub mod Listed
pub mod Paging
pub mod Carried
use mathlib.Core.Option as Opt
use gori.Prelude.{
  if◌then◌else◌, str_eq, is_empty, ℕ, String, Bool, Option, none, some, List, [], ◌∷◌,
}
use gori.A2a.{
  TaskState, submitted, working, input_required, auth_required, completed, failed, canceled,
  rejected, FilePart, Part, text_part, Message,
}

pub data PbState : Type 0 where
  task_state_unspecified task_state_submitted task_state_working task_state_input_required : PbState
  task_state_completed task_state_failed task_state_canceled task_state_rejected : PbState
  task_state_auth_required : PbState

pub data PbRole : Type 0 where
  role_unspecified role_user role_agent : PbRole

-- The content of a part; `unset` is a part without one.
pub data PbContent (R V : Type 0) : Type 0 where
  text : String → PbContent R V
  raw : R → PbContent R V
  url : String → PbContent R V
  value : Option V → PbContent R V
  unset : PbContent R V

pub record PbPart (R V : Type 0) : Type 0 where
  pub content : PbContent R V
  pub filename : String
  pub media_type : String

pub record PbMessage (R V : Type 0) : Type 0 where
  pub role : PbRole
  pub parts : List (PbPart R V)
  pub message_id : String
  pub context_id : String
  pub task_id : String

pub record PbStatus (R V : Type 0) : Type 0 where
  pub state : PbState
  pub message : Option (PbMessage R V)
  pub timestamp : Option ℕ

pub record PbArtifact (R V : Type 0) : Type 0 where
  pub artifact_id : ℕ
  pub name : String
  pub description : String
  pub parts : List (PbPart R V)

pub record PbTask (R V : Type 0) : Type 0 where
  pub id : ℕ
  pub context_id : String
  pub status : Option (PbStatus R V)
  pub artifacts : List (Option (PbArtifact R V))
  pub history : List (Option (PbMessage R V))

-- encoding/base64 on raw bytes, whether there are any, and the JSON of structpb.Value.
pub record Codec (R V : Type 0) : Type 0 where
  pub decode : String → Option R
  pub encode : R → String
  pub no_bytes : R → Bool
  pub parse : String → Option V
  pub print : V → Option String

unfoldable pub state_to_pb : TaskState → PbState
state_to_pb submitted = task_state_submitted
state_to_pb working = task_state_working
state_to_pb input_required = task_state_input_required
state_to_pb completed = task_state_completed
state_to_pb failed = task_state_failed
state_to_pb canceled = task_state_canceled
state_to_pb rejected = task_state_rejected
state_to_pb auth_required = task_state_unspecified

unfoldable pub state_from_pb : PbState → Option TaskState
state_from_pb task_state_submitted = some submitted
state_from_pb task_state_working = some working
state_from_pb task_state_input_required = some input_required
state_from_pb task_state_completed = some completed
state_from_pb task_state_failed = some failed
state_from_pb task_state_canceled = some canceled
state_from_pb task_state_rejected = some rejected
state_from_pb task_state_unspecified = none
state_from_pb task_state_auth_required = none

unfoldable pub role_to_pb : String → PbRole
role_to_pb r =
    if str_eq r "agent" then role_agent else if str_eq r "user" then role_user else role_unspecified

unfoldable pub role_from_pb : PbRole → String
role_from_pb role_agent = "agent"
role_from_pb role_user = "user"
role_from_pb role_unspecified = ""

unfoldable pub data_from_pb : Option String → List Part → List Part
data_from_pb none rest = rest
data_from_pb (some b) rest = record { text = ""; file = none; raw = b } ∷ rest

module _ {R V : Type 0} where
  unfoldable pub pb_text : String → PbPart R V
  pb_text s = record { content = text s; filename = ""; media_type = "" }

  unfoldable pub raw_part : Codec R V → Part → FilePart → Option R → PbPart R V
  unfolding pb_text
  raw_part c p f none = pb_text p.text
  raw_part c p f (some r) =
      if c.no_bytes r
      then pb_text p.text
      else record { content = raw r; filename = f.name; media_type = f.mime_type }

  unfoldable pub value_part : Part → Option V → PbPart R V
  unfolding pb_text
  value_part p none = pb_text p.text
  value_part p (some v) = record { content = value (some v); filename = ""; media_type = "" }

  unfoldable pub to_part : Codec R V → Part → Option FilePart → PbPart R V
  unfolding pb_text raw_part value_part
  to_part c p none = if is_empty p.raw then pb_text p.text else value_part p (c.parse p.raw)
  to_part c p (some f) =
      if is_empty f.uri
      then raw_part c p f (c.decode f.bytes)
      else record { content = url f.uri; filename = f.name; media_type = f.mime_type }

  unfoldable pub to_parts : Codec R V → List Part → List (PbPart R V)
  unfolding to_part
  to_parts c [] = []
  to_parts c (p ∷ ps) = to_part c p p.file ∷ to_parts c ps

  unfoldable pub part_from_pb : Codec R V → PbPart R V → PbContent R V → List Part → List Part
  unfolding data_from_pb text_part
  part_from_pb c p (text s) rest = text_part s ∷ rest
  part_from_pb c p (raw r) rest =
      record {
        text = "";
        file =
            some (record {
              name = p.filename;
              mime_type = p.media_type;
              uri = "";
              bytes = c.encode r;
            });
        raw = "";
      }
      ∷ rest
  part_from_pb c p (url u) rest =
      record {
        text = "";
        file = some (record { name = p.filename; mime_type = p.media_type; uri = u; bytes = "" });
        raw = "";
      }
      ∷ rest
  part_from_pb c p (value none) rest = rest
  part_from_pb c p (value (some v)) rest = data_from_pb (c.print v) rest
  part_from_pb c p unset rest = rest

  unfoldable pub parts_from_pb : Codec R V → List (PbPart R V) → List Part
  unfolding part_from_pb
  parts_from_pb c [] = []
  parts_from_pb c (p ∷ ps) = part_from_pb c p p.content (parts_from_pb c ps)

  unfoldable pub message_to_pb : Codec R V → Message → PbMessage R V
  unfolding to_parts role_to_pb
  message_to_pb c m = record {
    role = role_to_pb m.role;
    parts = to_parts c m.parts;
    message_id = m.message_id;
    context_id = m.context_id;
    task_id = m.task_id;
  }

  unfoldable pub message_from_pb : Codec R V → PbMessage R V → Message
  unfolding parts_from_pb role_from_pb
  message_from_pb c m = record {
    role = role_from_pb m.role;
    parts = parts_from_pb c m.parts;
    message_id = m.message_id;
    task_id = m.task_id;
    context_id = m.context_id;
    kind = "";
  }
