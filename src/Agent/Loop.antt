-- ===== src/Agent/Loop.antt =====
-- `drive`, `RunMessage` and `StreamMessage`: the two differ in the provider's call only.
use gori.Prelude.{
  ◌>>=◌, Result, ok, err, ℕ, zero, suc, ◌+◌, String, Option, none, some, [], ◌∷◌, ◌++◌,
}
use gori.Prelude.Int.{ℤ, pos, negsuc}
use gori.Message.{other_role, Message, user_text, message_text}
use gori.Provider.{Usage, zero_usage, add_usage, Response}
use gori.Bus.{text_data, step_data}
use gori.Session.{trim}
use gori.Agent.{
  Agent, Host, Run, RunError, context_error, provider_error, max_steps_reached, session_of, ensure,
  max_steps, emit, request, remember,
}
use gori.Agent.Tools.{answer_truncated, observe}

-- Go's zero `Message`.
abbrev pub no_message : Message
no_message = record { role = other_role ""; content = [] }

-- `(Message, error)`, with `none` for the nil error.
abbrev pub Answer : Type 0
Answer = Message × Option RunError

module _ {W : Type 0} where
  -- The accounting of one response.
  unfoldable pub account : Usage → Run W → Run W
  account u r = record r {
    agent = record (r.agent) {
      total_usage = add_usage r.agent.total_usage u;
      session_usage = add_usage r.agent.session_usage u;
      step_usage = r.agent.step_usage ++ u ∷ [];
    };
  }

  -- From the response to the tools' turn: the events `step` and `message` and the new history.
  unfoldable pub take_response : ℕ → Response → Run W → Run W
  take_response i resp r = emit "message" (text_data (message_text resp.message)) (
      remember resp.message
        (emit "step" (step_data (i + 1) resp.stop_reason resp.usage) (account resp.usage r)))

  unfoldable pub or_truncated : Option Message → Option Message × Run W → Option Message × Run W
  or_truncated recovered (some m, r) = (some m, r)
  or_truncated recovered (none, r) = (recovered, r)

  -- The rest of an iteration: `some` message answers the calls and the loop goes on, `none` ends it.
  unfoldable pub react : Host W → Response → Run W → Option Message × Run W
  unfolding or_truncated
  react h resp r = or_truncated (answer_truncated resp) (observe h resp r)

  -- The end of an iteration; `go` is the next one, on the last message and the state.
  unfoldable pub finish_turn :
      (Message → Run W → Answer × Run W) → Response → Option Message × Run W → Answer × Run W
  finish_turn go resp (some m, r) = go resp.message (remember m r)
  finish_turn go resp (none, r) =
      ((resp.message, none), emit "done" (text_data (message_text resp.message)) r)

  -- An iteration from the provider's result on.
  unfoldable pub on_result :
      Host W
      → ℕ
      → (Message → Run W → Answer × Run W)
      → Message
      → Result Response
      → Run W
      → Answer × Run W
  on_result h i go last (err e) r = ((last, some (provider_error e)), emit "error" (text_data e) r)
  on_result h i go last (ok resp) r = finish_turn go resp (react h resp (take_response i resp r))

  -- An iteration, from the test of the context on.
  unfoldable pub on_context :
      Host W
      → ℕ
      → (Message → Run W → Answer × Run W)
      → Message
      → Option String
      → Run W
      → Answer × Run W
  on_context h i go last (some e) r = ((last, some (context_error e)), emit "error" (text_data e) r)
  on_context h i go last none r =
      let (result, w) = h.call (request r.agent) r.world in
      on_result h i go last result (record r { world = w })

  -- The loop of `drive`, with so many steps left.
  unfoldable pub loop : Host W → ℕ → ℕ → Message → Run W → Answer × Run W
  loop h zero i last r = (
    (last, some (max_steps_reached (max_steps r.agent))),
    emit "error" (text_data "max steps reached") r,
  )
  loop h (suc left) i last r = on_context h i (loop h left (i + 1)) last (h.cancelled r.world) r

  -- The deferred `Trim`, if `KeepLast` is positive; `none` is an index out of range in it.
  unfoldable pub trim_by : ℤ → Run W → Option (Run W)
  trim_by (negsuc n) r = some r
  trim_by (pos zero) r = some r
  trim_by (pos (suc n)) r = trim (pos (suc n)) (session_of r.agent) >>= λ s.
      some (record r { agent = record (r.agent) { session = some s } })

  unfoldable pub trim_on_exit : Run W → Option (Run W)
  unfolding trim_by
  trim_on_exit r = trim_by r.agent.keep_last r

  unfoldable pub drive : Host W → Run W → Option (Answer × Run W)
  drive h r =
      let (answer, r') = loop h (max_steps r.agent) 0 no_message r in
      trim_on_exit r' >>= λ r''. some (answer, r'')

  abbrev pub fresh_usage : Agent W → Agent W
  fresh_usage a = record a { total_usage = zero_usage; step_usage = [] }

  -- The state in which the loop starts.
  unfoldable pub begin : Message → Run W → Run W
  begin m r =
      remember m
        (emit "start" (text_data (message_text m)) (record r { agent = fresh_usage r.agent }))

  unfoldable pub run_message : Host W → Message → Run W → Option (Answer × Run W)
  run_message h m r =
      let r₀ : Run W = record r { agent = ensure r.agent } in
      elim (h.cancelled r₀.world) [
        | some e ↦ some ((no_message, some (context_error e)), r₀)
        | none ↦ drive h (begin m r₀)
      ]

  -- `Run`.
  unfoldable pub run : Host W → String → Run W → Option (Answer × Run W)
  run h input = run_message h (user_text input)
