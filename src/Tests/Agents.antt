-- ===== src/Tests/Agents.antt =====
-- agent_test.go: a tool call, its answer, and the final message. The world counts the provider's calls.
use gori.Prelude.{◌==◌, if◌then◌else◌, ok, ℕ, ◌+◌, ◌≡◌, refl, ◌≢◌, true, none, some, [], ◌∷◌}
use gori.Prelude.Int.{pos}
use gori.Message.{assistant, ToolUse, text, tool_use, Message, user_text, tool_uses}
use gori.Provider.{end_turn, stop_tool_use, Usage, zero_usage, Response, thinking_off, max_tokens}
use gori.Registry.{returned, Tool}
use gori.Agent.{Agent, Host, Run, executable_stop}
use gori.Agent.Tools.{run_parallel}
use gori.Agent.Loop.{no_message, Answer, react, loop, run_message}
use gori.Agent.Answers.{AnswersAll, Replies, run_parallel_answers}
use gori.Agent.Turns.{Went, loop-Went}
use gori.Agent.Runs.{Ran, run_message-Ran}
use gori.Agent.Truncated.{truncated_not_run}

abbrev echo : Tool ℕ
echo = record { name = "echo"; description = ""; schema = ""; execute = λ i w. (returned i, w) }

abbrev use_echo : ToolUse
use_echo = record { id = "c1"; name = "echo"; input = "hi" }

abbrev one_token : Usage
one_token = record zero_usage { input_tokens = 1; output_tokens = 1 }

abbrev calls_echo : Response
calls_echo = record {
  message = record { role = assistant; content = tool_use use_echo ∷ [] };
  stop_reason = stop_tool_use;
  usage = one_token;
}

abbrev final : Response
final = record {
  message = record { role = assistant; content = text (record { text = "done" }) ∷ [] };
  stop_reason = end_turn;
  usage = one_token;
}

abbrev pub scripted : Host ℕ
scripted = record {
  cancelled = λ w. none;
  call = λ q w. (ok (if w == 0 then calls_echo else final), w + 1);
  schedule = λ w. 1 ∷ 0 ∷ 1 ∷ [];
}

abbrev pub idle_agent : Agent ℕ
idle_agent = record {
  model = "m";
  system = "";
  tools = some (echo ∷ []);
  session = none;
  max_tokens = pos 0;
  temperature = none;
  thinking = record { mode = thinking_off; budget = pos 0 };
  response_modalities = [];
  max_steps = pos 0;
  keep_last = pos 0;
  name = "main";
  has_bus = true;
  parallel_tools = true;
  total_usage = zero_usage;
  session_usage = zero_usage;
  step_usage = [];
}

abbrev start : Run ℕ
start = record { agent = idle_agent; world = 0; events = [] }

run_message-Ran_example :
    (a : Answer) × (r : Run ℕ) × (run_message scripted (user_text "hello") start ≡ some (a, r))
    × Ran scripted (user_text "hello") start a r
run_message-Ran_example = run_message-Ran scripted (user_text "hello") start refl

loop-Went_example :
    Went scripted 8 no_message start
      (loop scripted 8 0 no_message start).0
      (loop scripted 8 0 no_message start).1
loop-Went_example = loop-Went scripted 8 0 no_message start

run_parallel_answers_example :
    AnswersAll
      (use_echo ∷ use_echo ∷ [])
      (run_parallel (1 ∷ 0 ∷ 1 ∷ []) (use_echo ∷ use_echo ∷ []) start).0
    × ((run_parallel (1 ∷ 0 ∷ 1 ∷ []) (use_echo ∷ use_echo ∷ []) start).1.agent ≡ idle_agent)
run_parallel_answers_example =
    run_parallel_answers (1 ∷ 0 ∷ 1 ∷ []) (use_echo ∷ use_echo ∷ []) start

abbrev cut_off : Response
cut_off = record calls_echo { stop_reason = max_tokens }

truncated_not_run_example :
    ((react scripted cut_off start).1 ≡ start)
    × (tool_uses cut_off.message ≢ []
        → (m : Message) × ((react scripted cut_off start).0 ≡ some m)
          × Replies (tool_uses cut_off.message) m)
unfolding executable_stop
truncated_not_run_example = truncated_not_run scripted cut_off start refl
