-- ===== src/Agent/Tools.antt =====
-- `execTool`, `observe` and `answerTruncatedTools`.
use gori.Prelude.{
  ltb, if◌then◌else◌, length, append, quote, ℕ, zero, suc, String, true, false, ◌&&◌, Option, none,
  some, List, [], ◌∷◌, map,
}
use gori.Message.{tool, ToolUse, ToolResult, tool_result, Message, tool_uses}
use gori.Provider.{
  StopReason, end_turn, stop_tool_use, max_tokens, stop_other, other_stop, Response,
}
use gori.Bus.{tool_call_data, tool_result_data}
use gori.Registry.{Outcome, returned, failed, panicked, Tool, get}
use gori.Agent.{Agent, Host, Run, executable_stop, emit}

abbrev pub error_result : ToolUse → String → ToolResult
error_result u c = record { tool_use_id = u.id; name = u.name; content = c; is_error = true }

-- What the deferred functions of `execTool` make of a tool's outcome: the name is stamped on every
-- path, and a panic is an error.
unfoldable pub result_of : ToolUse → Outcome → ToolResult
result_of u (returned out) = record {
  tool_use_id = u.id;
  name = u.name;
  content = out;
  is_error = false;
}
result_of u (failed e) = error_result u e
result_of u (panicked v) = error_result u (append "tool panicked: " v)

-- A goroutine of `observe` is before its `tool` event, before the call, before its `tool_result`
-- event, or done.
pub data Worker : Type 0 where
  waiting called : ToolUse → Worker
  answered finished : ToolUse → ToolResult → Worker

unfoldable pub stop_text : StopReason → String
stop_text end_turn = "end_turn"
stop_text stop_tool_use = "tool_use"
stop_text max_tokens = "max_tokens"
stop_text stop_other = "other"
stop_text (other_stop s) = s

-- `fmt.Sprintf("tool call not executed: …", resp.StopReason)`.
unfoldable pub truncated_text : StopReason → String
truncated_text reason =
    append "tool call not executed: response stopped with reason "
      (append (quote (stop_text reason)) ", input may be incomplete")

unfoldable pub truncated_result : StopReason → ToolUse → ToolResult
truncated_result reason u = error_result u (truncated_text reason)

-- `answerTruncatedTools` on the calls of the message.
unfoldable pub truncated_reply : StopReason → List ToolUse → Option Message
truncated_reply reason [] = none
truncated_reply reason (u ∷ us) =
    if executable_stop reason
    then none
    else some
        (record { role = tool; content = map tool_result (map (truncated_result reason) (u ∷ us)) })

unfoldable pub answer_truncated : Response → Option Message
unfolding truncated_reply
answer_truncated resp = truncated_reply resp.stop_reason (tool_uses resp.message)

module _ {W : Type 0} where
  unfoldable pub exec_found : ToolUse → Option (Tool W) → W → ToolResult × W
  unfolding result_of
  exec_found u none w = (error_result u (append "unknown tool " (quote u.name)), w)
  exec_found u (some t) w = let (o, w') = t.execute u.input w in (result_of u o, w')

  unfoldable pub exec_in : ToolUse → Option (List (Tool W)) → W → ToolResult × W
  exec_in u none w =
      (error_result u (append "no tools registered (requested " (append (quote u.name) ")")), w)
  exec_in u (some ts) w = exec_found u (get u.name ts) w

  unfoldable pub exec_tool : ToolUse → Agent W → W → ToolResult × W
  unfolding exec_found exec_in
  exec_tool u a w = exec_in u a.tools w

  unfoldable pub emit_call : ToolUse → Run W → Run W
  emit_call u = emit "tool" (tool_call_data u.name u.id u.input)

  unfoldable pub emit_result : ToolResult → Run W → Run W
  emit_result x = emit "tool_result" (tool_result_data x.name x.tool_use_id x.is_error x.content)

  unfoldable pub execute : ToolUse → Run W → ToolResult × Run W
  execute u r = let (x, w) = exec_tool u r.agent r.world in (x, record r { world = w })

  -- `runOne`.
  unfoldable pub run_one : ToolUse → Run W → ToolResult × Run W
  run_one u r = let (x, r') = execute u (emit_call u r) in (x, emit_result x r')

  -- The sequential loop of `observe`.
  unfoldable pub run_each : List ToolUse → Run W → List ToolResult × Run W
  run_each [] r = ([], r)
  run_each (u ∷ us) r = let (x, r₁) = run_one u r in let (xs, r₂) = run_each us r₁ in (x ∷ xs, r₂)

  -- One step of a goroutine of the parallel branch.
  unfoldable pub advance : Worker → Run W → Worker × Run W
  advance (waiting u) r = (called u, emit_call u r)
  advance (called u) r = let (x, r') = execute u r in (answered u x, r')
  advance (answered u x) r = (finished u x, emit_result x r)
  advance (finished u x) r = (finished u x, r)

  -- The scheduler runs the goroutine at an index; an index with none there is passed over.
  unfoldable pub advance_at : ℕ → List Worker → Run W → List Worker × Run W
  advance_at i [] r = ([], r)
  advance_at zero (k ∷ ks) r = let (k', r') = advance k r in (k' ∷ ks, r')
  advance_at (suc i) (k ∷ ks) r = let (ks', r') = advance_at i ks r in (k ∷ ks', r')

  unfoldable pub interleave : List ℕ → List Worker → Run W → List Worker × Run W
  interleave [] ks r = (ks, r)
  interleave (i ∷ is) ks r = let (ks', r') = advance_at i ks r in interleave is ks' r'

  -- The rest of a goroutine, with no other in between.
  unfoldable pub complete : Worker → Run W → ToolResult × Run W
  complete (waiting u) r = run_one u r
  complete (called u) r = let (x, r') = execute u r in (x, emit_result x r')
  complete (answered u x) r = (x, emit_result x r)
  complete (finished u x) r = (x, r)

  -- `wg.Wait()`: what the schedule has left over is run to its end.
  unfoldable pub wait : List Worker → Run W → List ToolResult × Run W
  wait [] r = ([], r)
  wait (k ∷ ks) r = let (x, r₁) = complete k r in let (xs, r₂) = wait ks r₁ in (x ∷ xs, r₂)

  unfoldable pub run_parallel : List ℕ → List ToolUse → Run W → List ToolResult × Run W
  run_parallel schedule us r = let (ks, r') = interleave schedule (map waiting us) r in wait ks r'

  unfoldable pub run_uses : Host W → List ToolUse → Run W → List ToolResult × Run W
  run_uses h us r =
      if r.agent.parallel_tools && ltb 1 (length us)
      then run_parallel (h.schedule r.world) us r
      else run_each us r

  -- `observe` on the calls of the message: a message of role `tool` if the loop is to go on.
  unfoldable pub observe_uses : Host W → StopReason → List ToolUse → Run W → Option Message × Run W
  observe_uses h reason [] r = (none, r)
  observe_uses h reason (u ∷ us) r =
      if executable_stop reason
      then (let (xs, r') = run_uses h (u ∷ us) r in
          (some (record { role = tool; content = map tool_result xs }), r'))
      else (none, r)

  unfoldable pub observe : Host W → Response → Run W → Option Message × Run W
  unfolding observe_uses
  observe h resp r = observe_uses h resp.stop_reason (tool_uses resp.message) r
