-- ===== src/Tests/Remotes.antt =====
-- JSON-RPC and MCP: requests that are answered, a tool that is called over a transport, and pages.
use gori.Prelude.{
  if◌then◌else◌, str_eq, is_empty, Result, ok, err, ℕ, zero, suc, String, ◌≡◌, refl, inr, false,
  Option, none, some, List, [], ◌∷◌, ◌++◌, map, ◌⊎◌,
}
use gori.Registry.{returned, panicked, Tool, list, insert_sorted}
use gori.Message.{ToolUse}
use gori.Agent.Tools.{exec_in}
use gori.Rpc.{Handler, call}
use gori.Rpc.Server.{
  max_concurrent, Incoming, malformed, request, Serving, Action, read, finish, start, dispatch,
  accept, finish_at, step, play, drain,
}
use gori.Rpc.Asked.{count, ids}
use gori.Rpc.Serving.{asked_in, serve_answers}
use gori.Mcp.{
  Implementation, InitializeResult, ToolInfo, ListToolsResult, CallToolParams, CallToolResult, Wire,
  tool_info, server, turn_page, list_pages, remote_tools,
}
use gori.Mcp.Remote.{ReadsBack, remote_as_local}
use gori.Mcp.Pages.{Pages, next_page, last_page, list_pages_all}

-- Values of the protocol, in place of their JSON texts.
data Value : Type 0 where
  null_json empty_json : Value
  init_json : InitializeResult → Value
  cursor_json : String → Value
  tools_json : ListToolsResult → Value
  call_json : CallToolParams → Value
  result_json : CallToolResult → Value

abbrev tools_of : Value → Option ListToolsResult
tools_of (tools_json l) = some l
tools_of _ = none

abbrev call_of : Value → Option CallToolParams
call_of (call_json p) = some p
call_of _ = none

abbrev result_in : Value → Option CallToolResult
result_in (result_json r) = some r
result_in _ = none

abbrev plain_wire : Wire Value
plain_wire = record {
  read_init = λ j. none;
  write_init = init_json;
  write_cursor = cursor_json;
  write_tools = tools_json;
  read_tools = tools_of;
  write_call = call_json;
  read_call = call_of;
  write_result = result_json;
  read_result = result_in;
  null_value = null_json;
  empty_object = empty_json;
}

-- The raw JSON of these tests; the texts are compact, with nothing to escape.
abbrev IsPlainJson : String → Type 0
IsPlainJson s = (s ≡ "{}") ⊎ (s ≡ "{\"type\":\"object\"}")

abbrev reads_back : ReadsBack IsPlainJson plain_wire
reads_back = (λ p c. refl, λ r. refl, λ l c. refl)

-- A tool that counts its calls, and one that panics.
abbrev echo : Tool ℕ
echo = record {
  name = "echo";
  description = "";
  schema = "";
  execute = λ input n. (returned input, suc n);
}

abbrev broken : Tool ℕ
broken = record {
  name = "broken";
  description = "";
  schema = "";
  execute = λ input n. (panicked "oops", n);
}

abbrev gori_info : Implementation
gori_info = record { name = "gori"; version = "0.1" }

abbrev shelf : List (Tool ℕ)
shelf = echo ∷ broken ∷ []

abbrev remote : String → Value → ℕ → Result Value × ℕ
remote = call (server plain_wire gori_info shelf) "1"

remote_as_local_example :
    ((w : ℕ) → list_pages plain_wire remote 1 "" [] w ≡ some (ok (map tool_info (list shelf)), w))
    × ((u : ToolUse) (w : ℕ)
        → is_empty u.input ≡ false
        → IsPlainJson u.input
        → exec_in u (some (remote_tools plain_wire remote (map tool_info (list shelf)))) w
          ≡ exec_in u (some shelf) w)
unfolding list insert_sorted tool_info
remote_as_local_example =
    remote_as_local IsPlainJson plain_wire reads_back gori_info shelf "1" refl
      (inr refl, (inr refl, tt))

abbrev request_of : String → String → String → Incoming Value
request_of v i method =
    request (record { jsonrpc = v; id = i; method = method; params = null_json })

abbrev talk : List (Action Value ℕ)
talk =
    read (request_of "2.0" "7" "ping")
    ∷ read malformed
    ∷ read (request_of "2.0" "" "notifications/initialized")
    ∷ read (request_of "2.0" "8" "nothing")
    ∷ finish 1
    ∷ read (request_of "1.0" "9" "ping")
    ∷ finish 0
    ∷ []

abbrev handlers : List (String × Handler Value ℕ)
handlers = server plain_wire gori_info shelf

abbrev end_of : Option (Serving Value ℕ) → Serving Value ℕ
end_of none = start 0
end_of (some s) = s

serve_answers_example :
    ((drain handlers max_concurrent (end_of (play handlers talk (start 0)))).in_flight ≡ [])
    × ((i : String)
        → count i
            (ids (drain handlers max_concurrent (end_of (play handlers talk (start 0)))).written)
          ≡ count i (asked_in talk))
unfolding play step accept dispatch finish_at
serve_answers_example = serve_answers handlers talk 0 (end_of (play handlers talk (start 0))) refl

-- Two pages, and then the end.
abbrev paged : String → Value → ℕ → Result Value × ℕ
paged method (cursor_json c) n = (
  ok (
      tools_json
        (record { tools = tool_info echo ∷ []; next_cursor = if is_empty c then "p2" else "" })),
  n,
)
paged method v n = (err "bad request", n)

echo_list : Pages plain_wire paged 2 "" 0 (tool_info echo ∷ tool_info echo ∷ []) 0
echo_list = next_page refl refl refl refl (last_page refl refl refl)

list_pages_all_example :
    list_pages plain_wire paged 5 "" [] 0 ≡ some (ok (tool_info echo ∷ tool_info echo ∷ []), 0)
list_pages_all_example =
    list_pages_all plain_wire paged 2 3 0 0 (tool_info echo ∷ tool_info echo ∷ []) echo_list

-- A server whose two cursors lead to each other.
abbrev turning : String → Value → ℕ → Result Value × ℕ
turning method (cursor_json c) n =
    (ok (tools_json (record { tools = []; next_cursor = if str_eq c "a" then "b" else "a" })), n)
turning method v n = (err "bad request", n)

-- The loop does not end on it, with any number of calls.
turning_forever :
    (n : ℕ) (all : List ToolInfo)
    → (list_pages plain_wire turning n "a" all 0 ≡ none)
      × (list_pages plain_wire turning n "b" all 0 ≡ none)
unfolding list_pages turn_page
turning_forever zero all = (refl, refl)
turning_forever (suc n) all = ((turning_forever n (all ++ [])).1, (turning_forever n (all ++ [])).0)
