-- ===== src/Tests/Chunks.antt =====
-- The OpenAI adapter: two tool calls whose fragments are mixed, one of them without an id.
use gori.Prelude.{ok, ℕ, zero, String, ◌≡◌, refl, Option, none, some, List, [], ◌∷◌}
use gori.Prelude.Int.{ℤ, pos}
use gori.Message.{assistant, Content, tool_use}
use gori.Provider.{
  stop_tool_use, zero_usage, Response, StreamEvent, tool_start, tool_delta, tool_stop, stream_done,
}
use gori.Provider.Openai.{stop_reason_of}
use gori.Provider.Openai.Events.{
  CallDelta, Frame, no_data, done_marker, chunk, at_eof, put_acc, send, on_call, on_calls,
  stream_frames,
}
use gori.Provider.Openai.Closed.{Announces, stream-Announces}

abbrev number : ℤ → String
number (pos zero) = "0"
number _ = "1"

abbrev no_error : List StreamEvent → StreamEvent → Option String
no_error sent e = none

abbrev fragment : ℕ → String → String → String → CallDelta
fragment i id name args = record { index = pos i; id = id; name = name; arguments = args }

abbrev calls_chunk : List CallDelta → String → Frame
calls_chunk ds f = chunk (record {
  error = none;
  usage = none;
  choice = some (record { content = ""; calls = ds; finish_reason = f });
})

abbrev mixed : List Frame
mixed =
    calls_chunk (fragment 0 "a" "" "{" ∷ []) ""
    ∷ calls_chunk (fragment 1 "" "sum" "" ∷ fragment 0 "b" "add" "" ∷ []) ""
    ∷ no_data
    ∷ calls_chunk (fragment 0 "c" "" "}" ∷ fragment 1 "" "" "{}" ∷ []) "tool_calls"
    ∷ done_marker
    ∷ []

abbrev use_of : String → String → Content
use_of i n = tool_use (record { id = i; name = n; input = "{}" })

abbrev mixed_response : Response
mixed_response = record {
  message = record { role = assistant; content = use_of "b" "add" ∷ use_of "call_1" "sum" ∷ [] };
  stop_reason = stop_tool_use;
  usage = zero_usage;
}

abbrev mixed_events : List StreamEvent
mixed_events =
    tool_start "call_1" "sum"
    ∷ tool_start "b" "add"
    ∷ tool_delta "{"
    ∷ tool_delta "}"
    ∷ tool_delta "{}"
    ∷ tool_stop "b"
    ∷ tool_stop "call_1"
    ∷ stream_done zero_usage
    ∷ []

mixed_run : stream_frames number no_error mixed at_eof ≡ ok (mixed_response, mixed_events)
unfolding stream_frames on_calls on_call put_acc send stop_reason_of
mixed_run = refl

stream-Announces_example :
    (during : List StreamEvent) × Announces during mixed_response.message.content mixed_events
stream-Announces_example =
    stream-Announces number no_error mixed at_eof mixed_response mixed_events mixed_run
