-- ===== src/Mcp/Remote.antt =====
-- A tool that is called over MCP, against the same tool called in place (mcp/server.go,
-- mcp/client.go, internal/rpc/server.go).
use mathlib.Core.Option as Opt
use package.text.Mathlib.TextLemmas.{append-nil}
use gori.Prelude.{
  All, Bool-cases, str_eq, is_empty, Result, ok, String, ◌≡◌, refl, ap, ◌∙◌, inl, inr, false,
  Option, none, some, List, [], ◌∷◌, map,
}
use gori.Rpc.{
  result_response, response_to, find_handler, run_handler, handle, call_result, answer_result, call,
}
use gori.Registry.{Outcome, returned, failed, panicked, Tool, get, list}
use gori.Registry.Sorted.{get_name, get-list}
use gori.Mcp.{
  Implementation, ListToolsResult, CallToolParams, CallToolResult, text_result, Wire,
  tool_result_of, tool_info, call_found, handle_list_tools, call_with, handle_call_tool, server,
  block_text, result_text, or_error, decode_as, shown, outcome_of, turn_page, call_tool,
  remote_tool, list_pages, remote_tools,
}
use gori.Message.{ToolUse}
use gori.Agent.Tools.{result_of, exec_found, exec_in}

-- encoding/json reads back the results of calls as they were written, since these hold texts only;
-- and the calls and the list of tools, if their raw JSON is canonical. A raw JSON text is canonical if
-- json.Marshal writes it as it is: valid, compact and with its HTML characters escaped.
abbrev pub ReadsBack : {J : Type 0} → (String → Type 0) → Wire J → Type 0
ReadsBack IsCanonical wire =
    ((p : CallToolParams) → IsCanonical p.arguments → wire.read_call (wire.write_call p) ≡ some p)
    × ((r : CallToolResult) → wire.read_result (wire.write_result r) ≡ some r)
    × ((l : ListToolsResult)
        → All (λ t. IsCanonical t.input_schema) l.tools
        → wire.read_tools (wire.write_tools l) ≡ some l)

shown_outcome :
    (out : Outcome) (u : ToolUse)
    → result_of u (outcome_of (shown (ok (tool_result_of out)))) ≡ result_of u out
unfolding result_of outcome_of shown tool_result_of result_text block_text text_result
shown_outcome (returned s) u = rw append-nil
shown_outcome (failed e) u = rw append-nil
shown_outcome (panicked v) u = rw append-nil

module _ {W J : Type 0} (IsCanonical : String → Type 0) (wire : Wire J)
    (reads : ReadsBack IsCanonical wire) where
  -- The handler that `tools/call` reaches.
  call_reaches :
      (info : Implementation) (tools : List (Tool W)) (key : String) (p : CallToolParams) (w : W)
      → is_empty key ≡ false
      → IsCanonical p.arguments
      → call (server wire info tools) key "tools/call" (wire.write_call p) w ≡ (
        ok (wire.write_result (call_found p (get p.name tools) w).0),
        (call_found p (get p.name tools) w).1,
      )
  unfolding call handle run_handler find_handler handle_call_tool call_with answer_result
      call_result response_to result_response
  call_reaches info tools key p w h c = rw (h, reads.0 p c)

  remote_call :
      (info : Implementation) (tools : List (Tool W)) (key : String) (p : CallToolParams) (w : W)
      → is_empty key ≡ false
      → IsCanonical p.arguments
      → call_tool wire (call (server wire info tools) key) p.name p.arguments w
        ≡ (shown (ok (call_found p (get p.name tools) w).0), (call_found p (get p.name tools) w).1)
  unfolding call_tool
  remote_call info tools key p w h c =
      ap (λ x. (shown (decode_as wire.read_result x.0), x.1)) (call_reaches info tools key p w h c)
      ∙ ap (λ o. (shown (or_error o), (call_found p (get p.name tools) w).1)) (reads.1 _)

  found_outcome :
      (u : ToolUse) (p : CallToolParams) (t : Tool W) (o : Option (Tool W)) (w : W)
      → p.arguments ≡ u.input
      → is_empty u.input ≡ false
      → o ≡ some t
      → (result_of u (outcome_of (shown (ok (call_found p o w).0))), (call_found p o w).1)
        ≡ exec_found u (some t) w
  unfolding call_found exec_found
  found_outcome u p t o w a h e = rw (e, a, h, shown_outcome)

  exec_remote :
      (info : Implementation) (tools : List (Tool W)) (key : String) (u : ToolUse) (t : Tool W)
      (w : W)
      → is_empty key ≡ false
      → is_empty u.input ≡ false
      → IsCanonical u.input
      → get t.name tools ≡ some t
      → exec_found u (some (remote_tool wire (call (server wire info tools) key) (tool_info t))) w
        ≡ exec_found u (some t) w
  unfolding exec_found remote_tool tool_info
  exec_remote info tools key u t w h k c e =
      ap (λ x. (result_of u (outcome_of x.0), x.1))
        (remote_call info tools key (record { name = t.name; arguments = u.input }) w h c)
      ∙ found_outcome u (record { name = t.name; arguments = u.input }) t (get t.name tools) w refl
          k e

  get_remote :
      (rpc : String → J → W → Result J × W) (n : String) (ts : List (Tool W))
      → get n (remote_tools wire rpc (map tool_info ts))
        ≡ Opt.map (λ t. remote_tool wire rpc (tool_info t)) (get n ts)
  unfolding get remote_tools remote_tool tool_info
  get_remote rpc n [] = refl
  get_remote rpc n (t ∷ ts) = elim (Bool-cases (str_eq t.name n)) [
    | inl yes_ ↦ rw yes_
    | inr no_ ↦ rw no_ (get_remote rpc n ts)
  ]

  exec_option :
      (info : Implementation) (tools : List (Tool W)) (key : String) (u : ToolUse)
      (o : Option (Tool W)) (w : W)
      → is_empty key ≡ false
      → is_empty u.input ≡ false
      → IsCanonical u.input
      → get u.name tools ≡ o
      → exec_found u
          (Opt.map (λ t. remote_tool wire (call (server wire info tools) key) (tool_info t)) o)
          w
        ≡ exec_found u o w
  exec_option info tools key u none w h k c e = refl
  exec_option info tools key u (some t) w h k c e =
      exec_remote info tools key u t w h k c (ap (λ n. get n tools) (get_name u.name tools t e) ∙ e)

  one_page :
      (info : Implementation) (tools : List (Tool W)) (key : String) (w : W)
      → is_empty key ≡ false
      → All (λ t. IsCanonical t.input_schema) (map tool_info (list tools))
      → list_pages wire (call (server wire info tools) key) 1 "" [] w
        ≡ some (ok (map tool_info (list tools)), w)
  unfolding list_pages turn_page call handle run_handler find_handler handle_list_tools
      answer_result call_result response_to result_response
  one_page info tools key w h c =
      rw (h, reads.2 (record { tools = map tool_info (list tools); next_cursor = "" }) c)

  -- A client that lists the tools of a server gets them all in one page, if their schemas are canonical
  -- JSON. An agent that holds the tools made from this list answers a call whose input is canonical JSON
  -- with the result, and leaves the world, that an agent does which holds the server's tools
  -- themselves, also when the tool fails, panics or does not exist. It is asked that the id of the calls
  -- is not empty, and that encoding/json reads back what it has written where raw JSON is canonical.
  pub remote_as_local :
      (info : Implementation) (tools : List (Tool W)) (key : String)
      → is_empty key ≡ false
      → All (λ t. IsCanonical t.input_schema) (map tool_info (list tools))
      → ((w : W)
          → list_pages wire (call (server wire info tools) key) 1 "" [] w
            ≡ some (ok (map tool_info (list tools)), w))
        × ((u : ToolUse) (w : W)
            → is_empty u.input ≡ false
            → IsCanonical u.input
            → exec_in u
                (some (
                  remote_tools wire
                    (call (server wire info tools) key)
                    (map tool_info (list tools))))
                w
              ≡ exec_in u (some tools) w)
  unfolding exec_in
  remote_as_local info tools key h schemas = (
    λ w. one_page info tools key w h schemas,
    λ u w k c.
        ap (λ o. exec_found u o w)
          (get_remote (call (server wire info tools) key) u.name (list tools)
            ∙ ap (Opt.map _) (get-list u.name tools))
        ∙ exec_option info tools key u (get u.name tools) w h k c refl,
  )
