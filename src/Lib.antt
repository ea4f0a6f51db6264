-- ===== src/Lib.antt =====
-- gori: a library for agents that run on language models. A provider answers a conversation, an agent
-- lets it call tools until it is done, and events, sessions and tasks are shared over buses, files and
-- networks. This development models the parts below, translated from the Go sources, and proves what
-- the entries at the end state.
--
-- The parts and their files, with the paths of the sources from the repository's root:
-- - Message (content.go, message.go): messages and their content; Message/Envelope is the JSON envelope of
--   `MarshalJSON` and `UnmarshalJSON` as a record per entry, `Message/RoundTrip` reads it back.
-- - Provider (provider.go): stop reasons, usage accounts, requests and responses.
-- - Provider/Anthropic (provider/anthropic/anthropic.go): requests, replies and `checkContent`;
--   Provider/Anthropic/Events has `Complete` and `Stream`, Provider/Anthropic/WellFormed is about the request,
--   Provider/Anthropic/Checked and Provider/Anthropic/Cut about errors, Provider/Anthropic/Assembly,
--   Provider/Anthropic/Streamed and Provider/Anthropic/Whole about the assembly of a streamed reply.
-- - Provider/Openai (provider/openai/openai.go): messages and requests; Provider/Openai/Events has `Complete`
--   and `Stream`, Provider/Openai/Told, Provider/Openai/Announced and Provider/Openai/Closed are about the
--   events of the tool calls.
-- - Channel: Go's buffered channels as the buses use them, with the capacity 64 that both buses give them.
-- - Bus (bus.go): `Subscribe`, the function that it returns, `Publish` and `Close`; Bus/Publish and
--   Bus/Safety have one call each, Bus/Traces whole histories of calls.
-- - Session (session.go): the history, `Trim`, `DropBefore`, the state map; Session/Window is about the cut,
--   Session/Storage has `Save` and `Load`, Session/Storage/Stored is about a session that is saved and loaded.
-- - Registry (tool.go): `Register`, `Get`, `List`, `Defs`.
-- - Agent (agent.go): Agent/Tools has `execTool`, `observe` and `answerTruncatedTools`, Agent/Loop has `drive`
--   and `RunMessage`; Agent/Answers is about the calls' answers, Agent/Course says what the loop asks
--   the context, the provider and the tools, step by step, Agent/Turns is about the loop's iterations,
--   Agent/Truncated about responses that were cut off, Agent/Runs about whole runs.
-- - Orchestrator (orchestrator.go): the table of agents, the delegation tools and their usage.
-- - Rpc (internal/jsonrpc/jsonrpc.go, internal/rpc/server.go, internal/rpc/client.go): requests, responses
--   and `handle`; Rpc/Server has `Serve` and its goroutines, Rpc/Asked and Rpc/Serving are about the answers;
--   Rpc/Client has the read loop and `Call`, Rpc/Calls and Rpc/CallHistory are about the calls' ends.
--   Rpc/Framing (internal/rpc/transport.go) has messages as lines of a stream, Rpc/Framing/Received is about
--   messages that are sent and received.
-- - Mcp (mcp/protocol.go, mcp/server.go, mcp/client.go): the handlers of a server, and a client's tools;
--   Mcp/Remote is about a tool that is called over MCP, Mcp/Pages about the pagination.
-- - Config (config.go): `Validate` and what an accepted configuration is good for.
-- - Retry (httpretry/httpretry.go): the retry loop and its delays.
-- - A2a (a2a/protocol.go), A2a/Store (a2a/taskstore.go): tasks, their store, eviction; A2a/Eviction is what
--   eviction may take and its limit, A2a/Lifecycle histories of calls, A2a/Stream the events of
--   a streamed task, A2a/Stream/Broker their subscribers and A2a/Stream/Client the client of a2a/client.go.
-- - A2a/Server (a2a/server.go): the JSON-RPC dispatch and the messages for the agent; A2a/Server/Found is about
--   the task of a message, A2a/Server/Parts about a message's parts.
-- - A2a/Grpc (a2a/grpc/convert.go, `toParts` of a2a/grpc/grpc.go): parts and messages as those of the generated
--   package and back; A2a/Grpc/Tasks has the tasks, A2a/Grpc/Carried is about a task that goes over it;
--   A2a/Grpc/Calls has `GetTask`, `CancelTask` and `ListTasks`, A2a/Grpc/Sorted and A2a/Grpc/Listed are about the
--   order and the filters, A2a/Grpc/Paging is about the pages.
-- - Sse (internal/sse/sse.go): lines, fields and events of a stream of bytes; Sse/Frames is about the frames
--   of the hub, Sse/Ends about the end of the loop.
-- - Netbus (netbus/hub.go, netbus/client.go): the event ring, the hub, the replay to a subscriber and the
--   client's loop; Netbus/Window, Netbus/Replay and Netbus/Resume are about the ids of the events,
--   Netbus/Echo about their origins.
-- - Tests: runs of the model at concrete inputs, most of them after the repository's tests.
--
-- An agent publishes on its bus, appends to its session and looks its tools up in its registry; these are
-- calls of the modules above. The orchestrator's tools run clones of agents. The task store runs a
-- handler, whose texts and result are parameters here; the hub's and the store's channels are those of Channel.
--
-- How the code is rendered:
-- - A Go `int` or `int64` that only counts up from 0 (ids, `seq`) is a natural number and does not wrap. Usage
--   accounts are 64-bit patterns, with the wrap-around of their sums. Settings that may be negative are ℤ.
-- - `none` as the result of an operation that can panic is that panic. An error is a value of the result.
-- - A mutex makes a call one step; what goroutines do is an arbitrary sequence of such steps. In `observe` the
--   goroutines' steps are interleaved by any schedule; a call of a tool is one step there.
-- - A map is a list of keys, or an association list, in the order of its iteration, which is arbitrary; where
--   a list is sorted by something, ties keep that order.
-- - `W` is the world outside the library: the provider, the tools and the contexts act on it.
-- - A session's values are texts that stand for Go values; what encoding/json makes of them, and of raw JSON, is
--   a parameter. A temperature is its text. A text under `%q` is put in quotes, which is
--   what the verb does for texts without characters to escape.
-- - Loops are structural recursions. `Trim`'s second loop runs on the distance to the history's end, which it
--   cannot exceed; the agent's loop runs on `maxSteps`, the retry loop on its attempts, as in the code. The
--   scanner of events and `ReadMessage` run on a number of lines; one more than the bytes is enough for the
--   scanner, and one line for a message that follows no blank line. `ListTools` runs on a number of pages, and
--   `none` is a loop that goes on beyond it; the server's handlers in flight are at most 64, so as many steps
--   finish them.
--
-- Not modelled: JSON and base64 texts themselves (a decoded value or a failure stands for them), HTTP
-- connections, timers, files and processes; the adapters of Google and of the command line tools
-- (provider/google, provider/clibackend), the pipes of internal/rpc/transport.go, files of
-- configurations, the command line, the terminal interface and the streams and client calls of the
-- gRPC binding.
pub mod Prelude
pub mod Channel
pub mod Message
pub mod Provider
pub mod Bus
pub mod Session
pub mod Registry
pub mod Agent
pub mod A2a
pub mod Netbus
pub mod Retry
pub mod Orchestrator
pub mod Config
pub mod Rpc
pub mod Mcp
pub mod Sse
mod Tests
