-- ===== src/Tests/Servers.antt =====
-- The A2A server: a message is sent and its task fetched; the parts of a message.
use gori.Prelude.{
  if◌then◌else◌, str_eq, ok, ℕ, String, ◌≡◌, refl, true, Option, none, some, List, [], ◌∷◌,
}
use gori.Message.{user, text, image, kind}
use gori.Message as Neutral
use gori.A2a.{Message, text_part, Task, is_terminal}
use gori.A2a.Store.{
  begin, evict, cap_tasks, expire_all, enter, new_task, expire, evictable, set_status, new_store,
  cancel,
}
use gori.A2a.Lifecycle.{cancels, stop, step, send_start}
use gori.A2a.Lifecycle.Validity.{new_store-IsValid}
use gori.A2a.Server.{Wire, Surroundings, handle_rpc}
use gori.A2a.Server.Found.{asks, Shows, send_get}

-- The values of the protocol, in place of their JSON texts.
data Value : Type 0 where
  nothing : Value
  message_json : Message → Value
  query_json : ℕ → Value
  task_json : Task → Value

abbrev message_of : Value → Option Message
message_of (message_json m) = some m
message_of _ = none

abbrev query_of : Value → Option ℕ
query_of (query_json n) = some n
query_of _ = none

abbrev plain_wire : Wire Value
plain_wire = record {
  read_send = message_of;
  read_query = query_of;
  write_task = λ t. ok (task_json t);
}

abbrev hello : Message
hello = record {
  role = "user";
  parts = text_part "hi" ∷ [];
  message_id = "m";
  task_id = "";
  context_id = "c";
  kind = "message";
}

-- The handler answers; meanwhile its task is canceled.
abbrev canceled_meanwhile : Surroundings
canceled_meanwhile = record {
  handler = λ m. ok (text_part "hello" ∷ []);
  meanwhile = λ s. (cancel 1 7 s).1;
  send_stream = λ m s. s;
  now = 5;
  later = 9;
}

send_get_example :
    (t : Task) × (t.id ≡ 1)
    × (is_terminal t.status.state ≡ true)
    × Shows plain_wire
        (handle_rpc plain_wire canceled_meanwhile
          (asks plain_wire "r1" "message/send" (message_json hello))
          new_store).0
        "r1"
        t
    × Shows plain_wire
        (handle_rpc plain_wire canceled_meanwhile
          (asks plain_wire "r2" "tasks/get" (query_json 1))
          (handle_rpc plain_wire canceled_meanwhile
            (asks plain_wire "r1" "message/send" (message_json hello))
            new_store).1).0
        "r2"
        t
unfolding new_store send_start cancel begin evict cap_tasks expire_all enter new_task expire
    evictable set_status is_terminal
send_get_example =
    send_get plain_wire canceled_meanwhile canceled_meanwhile "r1" "r2" (message_json hello)
      (query_json 1) hello new_store new_store-IsValid refl refl (step (cancels 1 7) stop) refl

abbrev decode : String → Option (List ℕ)
decode s = if str_eq s "AQ==" then some (1 ∷ []) else none

abbrev shown : Message
shown = record hello {
  parts =
      text_part "look"
      ∷ record {
        text = "";
        file = some (record { name = "a"; mime_type = "image/png"; uri = ""; bytes = "AQ==" });
        raw = "";
      }
      ∷ [];
}

abbrev shown_content : Neutral.Message
shown_content = record {
  role = user;
  content =
      text (record { text = "look" })
      ∷ image (record { media_type = "image/png"; bytes = 1 ∷ []; url = "" })
      ∷ [];
}
