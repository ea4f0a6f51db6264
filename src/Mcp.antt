-- ===== src/Mcp.antt =====
-- mcp/protocol.go, mcp/server.go and mcp/client.go: tools offered to and taken from other programs.
-- A server's and a client's own parameters are decoded and encoded by the functions of `Wire`, which
-- stand for encoding/json on the types of the protocol.
pub mod Remote
pub mod Pages
use gori.Prelude.{
  if◌then◌else◌, str_eq, append, is_empty, concat, quote, Result, ok, err, ℕ, zero, suc, String,
  Bool, true, false, ◌||◌, Option, none, some, List, [], ◌∷◌, ◌++◌, map,
}
use gori.Rpc.{version, code_invalid_params, Returned, value, coded, Handler}
use gori.Registry.{Outcome, returned, failed, panicked, Tool, get, list}

abbrev pub protocol_version : String
protocol_version = "2025-11-25"

abbrev pub supported_versions : List String
supported_versions = protocol_version ∷ []

unfoldable pub is_one_of : String → List String → Bool
is_one_of v [] = false
is_one_of v (s ∷ ss) = str_eq s v || is_one_of v ss

unfoldable pub version_supported : String → Bool
unfolding is_one_of
version_supported v = is_one_of v supported_versions

pub record Implementation : Type 0 where
  pub name : String
  pub version : String

pub record InitializeResult : Type 0 where
  pub protocol_version : String
  pub server_info : Implementation

pub record ToolInfo : Type 0 where
  pub name : String
  pub description : String
  pub input_schema : String

pub record ListToolsResult : Type 0 where
  pub tools : List ToolInfo
  pub next_cursor : String

pub record CallToolParams : Type 0 where
  pub name : String
  pub arguments : String

pub record Block : Type 0 where
  pub type_name : String
  pub text : String
  pub mime_type : String

pub record CallToolResult : Type 0 where
  pub content : List Block
  pub is_error : Bool

unfoldable pub text_result : String → Bool → CallToolResult
text_result s e = record {
  content = record { type_name = "text"; text = s; mime_type = "" } ∷ [];
  is_error = e;
}

-- `read_init` gives the version that the client asks for.
pub record Wire (J : Type 0) : Type 0 where
  pub read_init : J → Option String
  pub write_init : InitializeResult → J
  pub write_cursor : String → J
  pub write_tools : ListToolsResult → J
  pub read_tools : J → Option ListToolsResult
  pub write_call : CallToolParams → J
  pub read_call : J → Option CallToolParams
  pub write_result : CallToolResult → J
  pub read_result : J → Option CallToolResult
  pub null_value : J
  pub empty_object : J

abbrev or_object : String → String → String
or_object d s = if is_empty s then d else s

-- `safeExecute` and the result that `handleCallTool` makes of it.
unfoldable pub tool_result_of : Outcome → CallToolResult
unfolding text_result
tool_result_of (returned out) = text_result out false
tool_result_of (failed e) = text_result e true
tool_result_of (panicked v) = text_result (append "tool panicked: " v) true

abbrev agreed_version : Option String → String
agreed_version none = protocol_version
agreed_version (some v) = if version_supported v then v else protocol_version

module _ {W : Type 0} where
  unfoldable pub tool_info : Tool W → ToolInfo
  tool_info t = record {
    name = t.name;
    description = t.description;
    input_schema = or_object "{\"type\":\"object\"}" t.schema;
  }

  unfoldable pub call_found : CallToolParams → Option (Tool W) → W → CallToolResult × W
  unfolding tool_result_of
  call_found p none w = (text_result (append "unknown tool " (quote p.name)) true, w)
  call_found p (some t) w =
      let (out, w') = t.execute (or_object "{}" p.arguments) w in (tool_result_of out, w')

  module _ {J : Type 0} (wire : Wire J) where
    unfoldable pub handle_initialize : Implementation → Handler J W
    handle_initialize info params w = (
      value (
          wire.write_init (record {
            protocol_version = agreed_version (wire.read_init params);
            server_info = info;
          })),
      w,
    )

    unfoldable pub handle_list_tools : List (Tool W) → Handler J W
    unfolding tool_info
    handle_list_tools tools params w = (
      value (wire.write_tools (record { tools = map tool_info (list tools); next_cursor = "" })),
      w,
    )

    unfoldable pub call_with : List (Tool W) → Option CallToolParams → W → Returned J × W
    unfolding call_found
    call_with tools none w =
        (coded (record { code = code_invalid_params; message = "invalid tools/call params" }), w)
    call_with tools (some p) w =
        let (r, w') = call_found p (get p.name tools) w in (value (wire.write_result r), w')

    unfoldable pub handle_call_tool : List (Tool W) → Handler J W
    unfolding call_with
    handle_call_tool tools params w = call_with tools (wire.read_call params) w

    -- `NewServer` and the tools that were added.
    abbrev pub server : Implementation → List (Tool W) → List (String × Handler J W)
    server info tools =
        ("initialize", handle_initialize info)
        ∷ ("notifications/initialized", λ params w. (value wire.null_value, w))
        ∷ ("ping", λ params w. (value wire.empty_object, w))
        ∷ ("tools/list", handle_list_tools tools)
        ∷ ("tools/call", handle_call_tool tools)
        ∷ []

-- The text of one block in `CallTool`.
unfoldable pub block_text : Block → String
block_text b =
    if str_eq b.type_name "text" || is_empty b.type_name
    then b.text
    else if is_empty b.mime_type
    then append "[" (append b.type_name "]")
    else append "[" (append b.type_name (append " " (append b.mime_type "]")))

unfoldable pub result_text : List Block → String
unfolding block_text
result_text bs = concat (map block_text bs)

abbrev pub decode_error : String
decode_error = "json: cannot unmarshal"

-- `Call` decodes the result into the caller's type.
abbrev pub or_error {ℓ} : {A : Type ℓ} → Option A → Result A
or_error none = err decode_error
or_error (some a) = ok a

-- `Call` decodes the result into the caller's type.
abbrev pub decode_as {ℓ} : {J : Type 0} {A : Type ℓ} → (J → Option A) → Result J → Result A
decode_as f (err e) = err e
decode_as f (ok j) = or_error (f j)

unfoldable pub shown : Result CallToolResult → Result (String × Bool)
unfolding result_text
shown (err e) = err e
shown (ok r) = ok (result_text r.content, r.is_error)

unfoldable pub outcome_of : Result (String × Bool) → Outcome
outcome_of (err e) = failed e
outcome_of (ok (s, is_error)) = if is_error then failed s else returned s

-- What one page leads to in `ListTools`: an error, the end, or the next page by `next`.
unfoldable pub turn_page :
    {W : Type 0}
    → Result ListToolsResult
    → (String → List ToolInfo → W → Option (Result (List ToolInfo) × W))
    → String
    → List ToolInfo
    → W
    → Option (Result (List ToolInfo) × W)
turn_page (err e) next cursor all w = some (err e, w)
turn_page (ok page) next cursor all w =
    if is_empty page.next_cursor || str_eq page.next_cursor cursor
    then some (ok (all ++ page.tools), w)
    else next page.next_cursor (all ++ page.tools) w

module _ {W J : Type 0} (wire : Wire J) (rpc : String → J → W → Result J × W) where
  unfoldable pub call_tool : String → String → W → Result (String × Bool) × W
  unfolding shown
  call_tool name args w =
      let (r, w') =
        rpc "tools/call" (wire.write_call (record { name = name; arguments = args })) w in
      (shown (decode_as wire.read_result r), w')

  -- A tool of the server as a tool of the client's agents, one round of the loop of `Tools`.
  unfoldable pub remote_tool : ToolInfo → Tool W
  unfolding call_tool outcome_of
  remote_tool i = record {
    name = i.name;
    description = i.description;
    schema = i.input_schema;
    execute = λ input w. let (r, w') = call_tool i.name input w in (outcome_of r, w');
  }

  -- The loop of `ListTools`, on as many pages as the number says; `none` is a loop that goes on.
  unfoldable pub list_pages : ℕ → String → List ToolInfo → W → Option (Result (List ToolInfo) × W)
  list_pages zero cursor all w = none
  list_pages (suc n) cursor all w =
      let (r, w') = rpc "tools/list" (wire.write_cursor cursor) w in
      turn_page (decode_as wire.read_tools r) (list_pages n) cursor all w'

  -- `Tools`, on the list that `ListTools` gave.
  unfoldable pub remote_tools : List ToolInfo → List (Tool W)
  unfolding remote_tool
  remote_tools is = map remote_tool is
