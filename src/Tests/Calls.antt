-- ===== src/Tests/Calls.antt =====
-- The client of JSON-RPC, with numbers for its results.
use gori.Prelude.{◌==◌, if◌then◌else◌, ℕ, String, ◌≡◌, refl, none, some, List, [], ◌∷◌, ◌++◌, map}
use gori.Rpc.{result_payload, Response}
use gori.Rpc.Client.{
  client_closed, read_failed, responded, server_request, response, Step, begin, wrote, take_box,
  receive, fail_read, new_client, register, is_live, on_write, on_take, put_box, close_box, on_key,
  receive_on, fail_on, step, steps,
}
use gori.Rpc.CallHistory.{AllKept, calls_answered}

-- Two calls: the second is answered, the first is still waiting when reading fails.
abbrev number_text : ℕ → String
number_text n = if n == 1 then "1" else "2"

abbrev pong : Response ℕ
pong = record { jsonrpc = "2.0"; id = "2"; payload = result_payload 7 }

abbrev two_calls : List (Step ℕ)
two_calls =
    begin
    ∷ begin
    ∷ wrote "2" none
    ∷ receive server_request
    ∷ receive (response pong)
    ∷ wrote "1" none
    ∷ take_box "2"
    ∷ fail_read "EOF"
    ∷ begin
    ∷ []

calls_answered_example : AllKept (steps number_text two_calls new_client)
calls_answered_example = calls_answered number_text two_calls

first_fails :
    map (λ c. c.outcome) (steps number_text (two_calls ++ take_box "1" ∷ []) new_client).calls
    ≡ some (read_failed "EOF") ∷ some (responded pong) ∷ some client_closed ∷ []
unfolding steps step register on_key on_write on_take receive_on fail_on put_box close_box is_live
first_fails = refl
