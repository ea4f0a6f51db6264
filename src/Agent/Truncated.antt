-- ===== src/Agent/Truncated.antt =====
-- The tool calls of a response that stopped for another reason than its end.
use gori.Prelude.{◌≡◌, refl, ◌≢◌, false, some, List, [], ◌∷◌, map}
use gori.Message.{tool, ToolUse, tool_result, Message, tool_uses}
use gori.Provider.{StopReason, Response}
use gori.Agent.{Host, Run, executable_stop}
use gori.Agent.Tools.{truncated_result, truncated_reply, answer_truncated, observe_uses, observe}
use gori.Agent.Loop.{or_truncated, react}
use gori.Agent.Answers.{Replies}
use gori.Agent.Turns.{truncated_answers}

module _ {W : Type 0} where
  not_run :
      (h : Host W) (reason : StopReason) (us : List ToolUse) (r : Run W)
      → executable_stop reason ≡ false
      → ((or_truncated (truncated_reply reason us) (observe_uses h reason us r)).1 ≡ r)
        × (us ≢ []
            → (m : Message) × ((or_truncated
                  (truncated_reply reason us)
                  (observe_uses h reason us r)).0
                ≡ some m)
              × Replies us m)
  unfolding or_truncated observe_uses truncated_reply
  not_run h reason [] r e = (refl, λ ne. elim (ne refl) [ ])
  not_run h reason (u ∷ us) r e = (
    rw e refl,
    λ ne. (
      record { role = tool; content = map tool_result (map (truncated_result reason) (u ∷ us)) },
      rw e refl,
      record {
        results = map (truncated_result reason) (u ∷ us);
        is_tool_message = refl;
        answers = truncated_answers reason (u ∷ us);
      },
    ),
  )

  -- The tool calls of a response that was cut off, or that stopped for an unknown reason, are not run: the world, the
  -- events and the agent stay as they are, and if there are calls the loop goes on with a message that answers
  -- every one of them, in order.
  pub truncated_not_run :
      (h : Host W) (resp : Response) (r : Run W)
      → executable_stop resp.stop_reason ≡ false
      → ((react h resp r).1 ≡ r)
        × (tool_uses resp.message ≢ []
            → (m : Message) × ((react h resp r).0 ≡ some m) × Replies (tool_uses resp.message) m)
  unfolding react observe answer_truncated
  truncated_not_run h resp r e = not_run h resp.stop_reason (tool_uses resp.message) r e
