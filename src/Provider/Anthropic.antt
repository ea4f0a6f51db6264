-- ===== src/Provider/Anthropic.antt =====
-- provider/anthropic/anthropic.go: a request of the Messages API built from a neutral one, and the
-- neutral response of a reply. The maps that become JSON objects are a data type, and raw JSON is
-- its text.
pub mod WellFormed
pub mod Events
pub mod Checked
pub mod Cut
pub mod Assembly
pub mod Streamed
pub mod Whole
use gori.Prelude.{
  ltb, leb, if◌then◌else◌, str_eq, append, is_empty, ℕ, suc, String, Bool, true, false, ◌||◌,
  Option, none, some, List, [], ◌∷◌, ◌++◌, map, join_lines,
}
use gori.Prelude.Int.{ℤ, pos, add64}
use gori.Message.{
  Role, system, assistant, Image, Content, text, thinking, plan, image, audio, tool_use,
  tool_result, Message, text_of, system_text_only,
}
use gori.Provider.{
  StopReason, end_turn, stop_tool_use, max_tokens, stop_other, Response, ThinkingMode, thinking_off,
  ToolDef, Request,
}

abbrev pub default_max_tokens : ℕ
default_max_tokens = 4096

pub data Block : Type 0 where
  text_block : String → Block
  thinking_block : String → Option String → Block
  tool_use_block : String → String → String → Block
  tool_result_block : String → String → Bool → Block
  image_url_block : String → Block
  image_base64_block : String → List ℕ → Block

pub record ApiTool : Type 0 where
  pub name : String
  pub description : String
  pub input_schema : String

pub record ApiMessage : Type 0 where
  pub role : String
  pub content : List Block

-- `thinking` is the budget of an enabled object.
pub record ApiRequest : Type 0 where
  pub model : String
  pub max_tokens : ℕ
  pub system : String
  pub messages : List ApiMessage
  pub tools : List ApiTool
  pub tool_choice : Option String
  pub thinking : Option ℕ
  pub temperature : Option String
  pub stream : Bool

unfoldable pub wire_role : Role → String
wire_role assistant = "assistant"
wire_role _ = "user"

abbrev or_default : String → String → String
or_default d s = if is_empty s then d else s

abbrev signature_of : String → Option String
signature_of s = if is_empty s then none else some s

unfoldable pub image_block : Image → Block
image_block i =
    if is_empty i.url then image_base64_block i.media_type i.bytes else image_url_block i.url

-- One round of the loop of `contentBlocks`, with the blocks of the later rounds.
unfoldable pub add_block : Content → List Block → List Block
unfolding image_block
add_block (text t) bs = if is_empty t.text then bs else text_block t.text ∷ bs
add_block (plan p) bs = text_block (join_lines p.steps) ∷ bs
add_block (thinking t) bs = thinking_block t.text (signature_of t.signature) ∷ bs
add_block (tool_use u) bs = tool_use_block u.id u.name (or_default "{}" u.input) ∷ bs
add_block (tool_result r) bs =
    tool_result_block r.tool_use_id (or_default "(no output)" r.content) r.is_error ∷ bs
add_block (image i) bs = image_block i ∷ bs
add_block _ bs = bs

unfoldable pub content_blocks : List Content → List Block
content_blocks [] = []
content_blocks (c ∷ cs) = add_block c (content_blocks cs)

unfoldable pub add_system : String → String → String
add_system out s =
    if is_empty s then out else append (if is_empty out then out else append out "\n\n") s

-- The message that a role and its blocks become, if it is sent at all.
unfoldable pub wire_message : Role → List Block → List ApiMessage
wire_message r [] = []
wire_message r (b ∷ bs) = record { role = wire_role r; content = b ∷ bs } ∷ []

-- One round of the loop on the messages: a system message joins the system text.
unfoldable pub add_message : Role → List Content → ApiRequest → ApiRequest
add_message system cs out = record out { system = add_system out.system (text_of cs) }
add_message r cs out = record out { messages = out.messages ++ wire_message r (content_blocks cs) }

unfoldable pub add_messages : List Message → ApiRequest → ApiRequest
add_messages [] out = out
add_messages (m ∷ ms) out = add_messages ms (add_message m.role m.content out)

unfoldable pub api_tool : ToolDef → ApiTool
api_tool t = record {
  name = t.name;
  description = t.description;
  input_schema = or_default "{\"type\":\"object\"}" t.schema;
}

unfoldable pub max_tokens_of : ℤ → ℕ
max_tokens_of (pos (suc n)) = suc n
max_tokens_of _ = default_max_tokens

unfoldable pub budget_of : ℤ → ℕ
budget_of (pos (suc n)) = if ltb (suc n) 1024 then 1024 else suc n
budget_of _ = 2048

-- With thinking the budget is set and needs headroom; without it a temperature may be sent.
unfoldable pub add_thinking : ThinkingMode → ℤ → Option String → ApiRequest → ApiRequest
unfolding budget_of
add_thinking thinking_off b t out = record out { temperature = t }
add_thinking _ b t out =
    let budget = budget_of b in
    record out {
      thinking = some budget;
      max_tokens =
          if leb out.max_tokens budget then add64 budget default_max_tokens else out.max_tokens;
    }

unfoldable pub build_request : Request → Bool → ApiRequest
build_request req stream =
    add_thinking req.thinking.mode req.thinking.budget req.temperature
      (record (add_messages req.messages (record {
        model = req.model;
        max_tokens = max_tokens_of req.max_tokens;
        system = req.system;
        messages = [];
        tools = [];
        tool_choice = none;
        thinking = none;
        temperature = none;
        stream = stream;
      })) { tools = map api_tool req.tools; tool_choice = signature_of req.tool_choice })

pub data Refusal : Type 0 where
  system_block : String → Refusal
  audio_block : Refusal

-- The loops of `checkContent` that look for an audio block.
unfoldable pub has_audio : List Content → Bool
has_audio [] = false
has_audio (audio _ ∷ cs) = true
has_audio (_ ∷ cs) = has_audio cs

unfoldable pub any_audio : List Message → Bool
any_audio [] = false
any_audio (m ∷ ms) = has_audio m.content || any_audio ms

abbrev refuse_audio : Bool → Option Refusal
refuse_audio b = if b then some audio_block else none

unfoldable pub refused : Option String → Bool → Option Refusal
refused (some k) b = some (system_block k)
refused none b = refuse_audio b

unfoldable pub check_content : Request → Option Refusal
unfolding refused
check_content req = refused (system_text_only req.messages) (any_audio req.messages)

pub data RespBlock : Type 0 where
  resp_text : String → RespBlock
  resp_thinking : String → String → RespBlock
  resp_tool : String → String → String → RespBlock
  resp_other : String → RespBlock

pub record ApiUsage : Type 0 where
  pub input_tokens : ℕ
  pub output_tokens : ℕ
  pub cache_creation : ℕ
  pub cache_read : ℕ

pub record ApiResponse : Type 0 where
  pub content : List RespBlock
  pub stop_reason : String
  pub usage : ApiUsage

unfoldable pub stop_reason_of : String → StopReason
stop_reason_of s =
    if str_eq s "end_turn" || str_eq s "stop_sequence"
    then end_turn
    else if str_eq s "tool_use"
    then stop_tool_use
    else if str_eq s "max_tokens"
    then max_tokens
    else stop_other

unfoldable pub to_content : List RespBlock → List Content
to_content [] = []
to_content (resp_text s ∷ bs) = text (record { text = s }) ∷ to_content bs
to_content (resp_thinking s g ∷ bs) = thinking (record { text = s; signature = g }) ∷ to_content bs
to_content (resp_tool i n j ∷ bs) =
    tool_use (record { id = i; name = n; input = j }) ∷ to_content bs
to_content (resp_other _ ∷ bs) = to_content bs

-- `input_tokens` leaves out the cached tokens: the neutral count is of the whole prompt.
unfoldable pub prompt_size : ApiUsage → ℕ
prompt_size u = add64 (add64 u.input_tokens u.cache_read) u.cache_creation

unfoldable pub to_response : ApiResponse → Response
to_response r = record {
  message = record { role = assistant; content = to_content r.content };
  stop_reason = stop_reason_of r.stop_reason;
  usage = record {
    input_tokens = prompt_size r.usage;
    output_tokens = r.usage.output_tokens;
    thinking_tokens = 0;
    cache_read_tokens = r.usage.cache_read;
    cache_write_tokens = r.usage.cache_creation;
  };
}
