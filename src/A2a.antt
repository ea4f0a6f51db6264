-- ===== src/A2a.antt =====
-- a2a/protocol.go: tasks, messages and the stream assembler. A task's id is the number n of the text
-- "task-n"; its artifact's id, "task-n-artifact", is that number too. A timestamp is the second that
-- its RFC 3339 text names, or `none` for a text that does not parse.
pub mod Store
pub mod Stream
pub mod Lifecycle
pub mod Eviction
pub mod Server
pub mod Grpc
use gori.Prelude.{
  if◌then◌else◌, append, is_empty, ℕ, String, Bool, true, false, not, ◌&&◌, Option, none, List, [],
  ◌∷◌,
}

pub data TaskState : Type 0 where
  submitted working input_required auth_required completed failed canceled rejected : TaskState

pub record FilePart : Type 0 where
  pub name : String
  pub mime_type : String
  pub uri : String
  pub bytes : String

pub record Part : Type 0 where
  pub text : String
  pub file : Option FilePart
  pub raw : String

unfoldable pub text_part : String → Part
text_part s = record { text = s; file = none; raw = "" }

pub record Message : Type 0 where
  pub role : String
  pub parts : List Part
  pub message_id : String
  pub task_id : String
  pub context_id : String
  pub kind : String

-- The loop of `Message.Text` and of `partsText`.
unfoldable pub parts_text : List Part → String
parts_text [] = ""
parts_text (p ∷ ps) = append p.text (parts_text ps)

pub record TaskStatus : Type 0 where
  pub state : TaskState
  pub message : Option Message
  pub timestamp : Option ℕ

pub record Artifact : Type 0 where
  pub artifact_id : ℕ
  pub name : String
  pub description : String
  pub parts : List Part

pub record Task : Type 0 where
  pub id : ℕ
  pub context_id : String
  pub status : TaskStatus
  pub artifacts : List Artifact
  pub history : List Message
  pub kind : String

unfoldable pub is_terminal : TaskState → Bool
is_terminal completed = true
is_terminal failed = true
is_terminal canceled = true
is_terminal rejected = true
is_terminal _ = false

pub record Assembler : Type 0 where
  pub full : String
  pub final : String
  pub saw_delta : Bool
  pub saw_final : Bool

abbrev pub new_assembler : Assembler
new_assembler = record { full = ""; final = ""; saw_delta = false; saw_final = false }

unfoldable pub add_delta : String → Bool → Assembler → Assembler
add_delta t append_chunk a = record a {
  full = append (if append_chunk then a.full else "") t;
  saw_delta = true;
}

unfoldable pub set_final : String → Assembler → Assembler
set_final t a = record a { final = t; saw_final = true }

unfoldable pub result : Assembler → String
result a =
    if a.saw_final && not (is_empty a.final)
    then a.final
    else if a.saw_delta
    then a.full
    else a.final
