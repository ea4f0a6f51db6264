-- ===== src/Message.antt =====
-- content.go and the plain operations of message.go: roles, content blocks and messages.
pub mod Envelope
pub mod RoundTrip
use gori.Prelude.{ℕ, Bool, String, List, [], ◌∷◌, Option, none, some, append}

-- `other` is a role text that is none of the four constants.
pub data Role : Type 0 where
  system user assistant tool : Role
  other_role : String → Role

pub record Text : Type 0 where
  pub text : String

pub record Thinking : Type 0 where
  pub text : String
  pub signature : String

pub record Plan : Type 0 where
  pub steps : List String

pub record Image : Type 0 where
  pub media_type : String
  pub bytes : List ℕ
  pub url : String

pub record Audio : Type 0 where
  pub media_type : String
  pub bytes : List ℕ

pub record ToolUse : Type 0 where
  pub id : String
  pub name : String
  pub input : String

pub record ToolResult : Type 0 where
  pub tool_use_id : String
  pub name : String
  pub content : String
  pub is_error : Bool

-- The interface `Content`: the package's seven types, and a type of another package by its kind.
pub data Content : Type 0 where
  text : Text → Content
  thinking : Thinking → Content
  plan : Plan → Content
  image : Image → Content
  audio : Audio → Content
  tool_use : ToolUse → Content
  tool_result : ToolResult → Content
  foreign : String → Content

unfoldable pub kind : Content → String
kind (text _) = "text"
kind (thinking _) = "thinking"
kind (plan _) = "plan"
kind (image _) = "image"
kind (audio _) = "audio"
kind (tool_use _) = "tool_use"
kind (tool_result _) = "tool_result"
kind (foreign k) = k

pub record Message : Type 0 where
  pub role : Role
  pub content : List Content

unfoldable pub user_text : String → Message
user_text s = record { role = user; content = text (record { text = s }) ∷ [] }

unfoldable pub assistant_text : String → Message
assistant_text s = record { role = assistant; content = text (record { text = s }) ∷ [] }

-- The loop of `Message.Text`.
unfoldable pub text_of : List Content → String
text_of [] = ""
text_of (text t ∷ cs) = append t.text (text_of cs)
text_of (_ ∷ cs) = text_of cs

abbrev pub message_text : Message → String
message_text m = text_of m.content

-- The loop of `Message.ToolUses`.
unfoldable pub uses_of : List Content → List ToolUse
uses_of [] = []
uses_of (tool_use u ∷ cs) = u ∷ uses_of cs
uses_of (_ ∷ cs) = uses_of cs

abbrev pub tool_uses : Message → List ToolUse
tool_uses m = uses_of m.content

-- The inner loop of `SystemTextOnly`: the kind of the first block that is no text.
unfoldable pub first_non_text : List Content → Option String
unfolding kind
first_non_text [] = none
first_non_text (text _ ∷ cs) = first_non_text cs
first_non_text (c ∷ cs) = some (kind c)

-- One round of the outer loop, with the result of the later rounds.
unfoldable pub check_role : Role → Option String → Option String → Option String
check_role system (some k) rest = some k
check_role system none rest = rest
check_role _ _ rest = rest

-- `none` is the nil error. The error names the block's type, which is given here by its kind.
unfoldable pub system_text_only : List Message → Option String
unfolding check_role first_non_text
system_text_only [] = none
system_text_only (m ∷ ms) = check_role m.role (first_non_text m.content) (system_text_only ms)
