-- ===== src/Provider/Openai.antt =====
-- provider/openai/openai.go: requests of the Chat Completions API and the replies to them. The maps
-- that become JSON objects are a data type, and raw JSON is its text.
pub mod Events
pub mod Told
pub mod Announced
pub mod Closed
use Prim.Native.String.{find, slice, len}
use gori.Prelude.{
  ltb, if◌then◌else◌, starts_with, str_eq, append, is_empty, join_lines, ℕ, zero, suc, ◌-◌, String,
  Bool, true, false, ◌||◌, Option, none, some, List, [], ◌∷◌, ◌++◌,
}
use gori.Prelude.Int.{ℤ, pos}
use gori.Message.{
  Role, system, assistant, tool, Image, ToolUse, ToolResult, Content, text, thinking, plan, image,
  audio, tool_result, Message, text_of, uses_of,
}
use gori.Provider.{
  StopReason, end_turn, stop_tool_use, max_tokens, stop_other, Usage, ThinkingMode, thinking_off,
  thinking_auto, thinking_budget, ToolDef, Request,
}

pub record ToolCall : Type 0 where
  pub id : String
  pub name : String
  pub arguments : String

-- `data` URLs and base64 are kept as the bytes and the media type that they are made of.
pub data ContentPart : Type 0 where
  text_part : String → ContentPart
  image_url_part : String → ContentPart
  image_data_part : String → List ℕ → ContentPart
  audio_part : List ℕ → String → ContentPart

-- The field `Content`: absent, a text, or parts.
pub data MessageContent : Type 0 where
  no_content : MessageContent
  text_content : String → MessageContent
  parts_content : List ContentPart → MessageContent

pub record ApiMessage : Type 0 where
  pub role : String
  pub content : MessageContent
  pub tool_calls : List ToolCall
  pub tool_call_id : String

unfoldable pub has_non_text : List Content → Bool
has_non_text [] = false
has_non_text (text _ ∷ cs) = has_non_text cs
has_non_text (plan _ ∷ cs) = has_non_text cs
has_non_text (_ ∷ cs) = true

-- The texts of `userContent` where there is nothing but texts and plans.
unfoldable pub plain_text : List Content → String
plain_text [] = ""
plain_text (text t ∷ cs) = append t.text (plain_text cs)
plain_text (plan p ∷ cs) = append (join_lines p.steps) (plain_text cs)
plain_text (_ ∷ cs) = plain_text cs

abbrev image_part : Image → ContentPart
image_part i = if is_empty i.url then image_data_part i.media_type i.bytes else image_url_part i.url

-- The loop of `strings.LastIndex`: each round drops the text up to the next slash.
unfoldable pub after_slashes : ℕ → String → String
after_slashes zero s = s
after_slashes (suc n) s =
    let rest = after_slashes n (slice s (suc (find s "/")) (len s)) in
    if ltb (find s "/") (len s) then rest else s

unfoldable pub audio_format : String → String
unfolding after_slashes
audio_format m =
    if str_eq m "audio/wav" || str_eq m "audio/x-wav"
    then "wav"
    else if str_eq m "audio/mpeg" || str_eq m "audio/mp3"
    then "mp3"
    else after_slashes (len m) m

unfoldable pub add_audio : List ℕ → String → List ContentPart → List ContentPart
unfolding audio_format
add_audio [] m ps = ps
add_audio (b ∷ bs) m ps = audio_part (b ∷ bs) (audio_format m) ∷ ps

unfoldable pub content_parts : List Content → List ContentPart
unfolding add_audio
content_parts [] = []
content_parts (text t ∷ cs) = text_part t.text ∷ content_parts cs
content_parts (plan p ∷ cs) = text_part (join_lines p.steps) ∷ content_parts cs
content_parts (image i ∷ cs) = image_part i ∷ content_parts cs
content_parts (audio a ∷ cs) = add_audio a.bytes a.media_type (content_parts cs)
content_parts (_ ∷ cs) = content_parts cs

-- An empty list of parts is not sent.
unfoldable pub parts_or_empty : List ContentPart → MessageContent
parts_or_empty [] = text_content ""
parts_or_empty (p ∷ ps) = parts_content (p ∷ ps)

unfoldable pub user_content : List Content → MessageContent
unfolding parts_or_empty
user_content cs =
    if has_non_text cs then parts_or_empty (content_parts cs) else text_content (plain_text cs)

abbrev plain_message : String → MessageContent → ApiMessage
plain_message r c = record { role = r; content = c; tool_calls = []; tool_call_id = "" }

unfoldable pub system_messages : String → List ApiMessage
system_messages s = if is_empty s then [] else plain_message "system" (text_content s) ∷ []

abbrev pub tool_text : ToolResult → String
tool_text r = if r.is_error then append "Error: " r.content else r.content

-- The messages of a tool's results, one for each.
unfoldable pub tool_messages : List Content → List ApiMessage
tool_messages [] = []
tool_messages (tool_result r ∷ cs) =
    record {
      role = "tool";
      content = text_content (tool_text r);
      tool_calls = [];
      tool_call_id = r.tool_use_id;
    }
    ∷ tool_messages cs
tool_messages (_ ∷ cs) = tool_messages cs

abbrev pub or_object : String → String
or_object s = if is_empty s then "{}" else s

unfoldable pub tool_calls : List ToolUse → List ToolCall
tool_calls [] = []
tool_calls (u ∷ us) =
    record { id = u.id; name = u.name; arguments = or_object u.input } ∷ tool_calls us

-- Without a text the field is forced only where there is no call either.
unfoldable pub assistant_content : String → List ToolCall → MessageContent
assistant_content s [] = text_content s
assistant_content s (c ∷ cs) = if is_empty s then no_content else text_content s

unfoldable pub assistant_message : List Content → ApiMessage
unfolding assistant_content
assistant_message cs = record {
  role = "assistant";
  content = assistant_content (text_of cs) (tool_calls (uses_of cs));
  tool_calls = tool_calls (uses_of cs);
  tool_call_id = "";
}

-- One round of the loop of `buildMessages`.
unfoldable pub messages_of : Role → List Content → List ApiMessage
messages_of system cs = system_messages (text_of cs)
messages_of tool cs = tool_messages cs
messages_of assistant cs = assistant_message cs ∷ []
messages_of _ cs = plain_message "user" (user_content cs) ∷ []

unfoldable pub all_messages : List Message → List ApiMessage
all_messages [] = []
all_messages (m ∷ ms) = messages_of m.role m.content ++ all_messages ms

unfoldable pub build_messages : Request → List ApiMessage
build_messages req = system_messages req.system ++ all_messages req.messages

unfoldable pub effort_for : ℤ → String
effort_for (pos (suc n)) =
    if ltb (suc n) 2048 then "low" else if ltb (suc n) 8192 then "medium" else "high"
effort_for _ = "medium"

unfoldable pub reasoning_effort : ThinkingMode → ℤ → String
unfolding effort_for
reasoning_effort thinking_off b = ""
reasoning_effort thinking_budget b = effort_for b
reasoning_effort thinking_auto b = "medium"

unfoldable pub is_reasoning_model : String → Bool
is_reasoning_model m = starts_with m "o1" || starts_with m "o3" || starts_with m "o4"

-- `audio` is the object with the voice and the format, which are fixed.
pub record ApiRequest : Type 0 where
  pub model : String
  pub messages : List ApiMessage
  pub tools : List ToolDef
  pub tool_choice : Option String
  pub max_tokens : ℤ
  pub temperature : Option String
  pub effort : String
  pub modalities : List String
  pub audio : Bool
  pub stream : Bool
  pub include_usage : Bool

unfoldable pub wants_audio : List String → Bool
wants_audio [] = false
wants_audio (m ∷ ms) = str_eq m "audio" || wants_audio ms

abbrev choice_of : String → Option String
choice_of s = if is_empty s then none else some s

unfoldable pub build_request : Request → Bool → ApiRequest
unfolding reasoning_effort
build_request req stream =
    let reasoning = is_reasoning_model req.model in
    record {
      model = req.model;
      messages = build_messages req;
      tools = req.tools;
      tool_choice = choice_of req.tool_choice;
      max_tokens = req.max_tokens;
      temperature = if reasoning then none else req.temperature;
      effort = if reasoning then reasoning_effort req.thinking.mode req.thinking.budget else "";
      modalities = if wants_audio req.response_modalities then "text" ∷ "audio" ∷ [] else [];
      audio = wants_audio req.response_modalities;
      stream = stream;
      include_usage = stream;
    }

unfoldable pub stop_reason_of : String → StopReason
stop_reason_of s =
    if str_eq s "stop"
    then end_turn
    else if str_eq s "tool_calls"
    then stop_tool_use
    else if str_eq s "length"
    then max_tokens
    else stop_other

pub record ApiUsage : Type 0 where
  pub prompt : ℕ
  pub completion : ℕ
  pub cached : ℕ
  pub reasoning : ℕ

-- The reasoning is part of the completion; below zero the rest is 0.
unfoldable pub to_usage : ApiUsage → Usage
to_usage u = record {
  input_tokens = u.prompt;
  output_tokens = u.completion - u.reasoning;
  thinking_tokens = u.reasoning;
  cache_read_tokens = u.cached;
  cache_write_tokens = 0;
}
