-- ===== src/Tests/Tasks.antt =====
-- The theorems about tasks at concrete inputs: a store that holds two tasks at most, with a task
-- that has just been sent, and a store of three tasks of which two are final.
use gori.Prelude.{
  update, length, ok, ℕ, ◌≤◌, ◌≡◌, refl, ◌⊎◌, true, false, none, some, List, [], ◌∷◌, arith,
}
use gori.Prelude.Int.{pos}
use gori.A2a.{
  TaskState, working, completed, failed, canceled, Part, text_part, Message, Task, is_terminal,
}
use gori.A2a.Store.{
  default_max_tasks, Store, member, status_at, no_task, new_store, parse_time, or_parse,
  terminal_time, forget, evictable, drop_old, expire, expire_all, collect_one, collect, insert_aged,
  sort_aged, drop_oldest, limit_or, cap_tasks, evict, new_task, set_status, enter, begin, end_task,
  complete, cancel,
}
use gori.A2a.Eviction.Bound.{evict_bound}
use gori.A2a.Lifecycle.{send_start, finish, finishes, ends, stop, step}
use gori.A2a.Lifecycle.Records.{settled_forever}
use gori.A2a.Lifecycle.Outcomes.{outcome, finish_forever, cancel_wins}

abbrev hello : Message
hello = record {
  role = "user";
  parts = text_part "hi" ∷ [];
  message_id = "m-1";
  task_id = "";
  context_id = "ctx";
  kind = "message";
}

abbrev fresh : Store
fresh = send_start hello 5000000000 new_store

abbrev ended : ℕ → TaskState → Task
ended i st = record no_task {
  id = i;
  status = record { state = st; message = none; timestamp = some i };
}

abbrev crowded : Store
crowded = record new_store {
  max_tasks = pos 1;
  heap =
      update (update (update (λ i. no_task) 1 (ended 1 failed)) 2 (ended 2 completed)) 3
        (ended 3 working);
  tasks = 2 ∷ 3 ∷ 1 ∷ [];
  in_flight = 3 ∷ [];
  seq = 3;
}

abbrev reply : List Part
reply = text_part "he" ∷ text_part "llo" ∷ []

evict_bound_example :
    (length (evict 9000000000 crowded).tasks ≤ limit_or default_max_tasks crowded.max_tasks)
    ⊎ ((j : ℕ) → member j (evict 9000000000 crowded).tasks ≡ true → evictable crowded j ≡ false)
evict_bound_example = evict_bound 9000000000 crowded

-- The store is over its limit; the task in flight alone survives.
crowded_after : (evict 9000000000 crowded).tasks ≡ 3 ∷ []
unfolding new_store evict expire_all expire evictable cap_tasks is_terminal terminal_time or_parse
    parse_time drop_old collect collect_one sort_aged insert_aged drop_oldest forget
crowded_after = refl

settled_forever_example :
    (complete 1 reply 9000000000 (cancel 1 6000000000 fresh).1).heap 1
    ≡ (cancel 1 6000000000 fresh).1.heap 1
unfolding new_store send_start begin enter new_task set_status evict expire_all expire evictable
    cap_tasks cancel is_terminal finish
settled_forever_example =
    settled_forever (step (finishes 1 (ok reply) 9000000000 refl) stop) 1 (omega arith) refl

finish_forever_example :
    (end_task 1 (finish 1 (ok reply) 6000000000 fresh)).heap 1
    ≡ outcome (ok reply) 6000000000 (fresh.heap 1)
unfolding new_store send_start begin enter new_task set_status evict expire_all expire evictable
    cap_tasks is_terminal
finish_forever_example =
    finish_forever 1 (ok reply) 6000000000 fresh (omega arith) refl (step (ends 1) stop)

abbrev stopped : Task
stopped = record (fresh.heap 1) { status = status_at canceled none 6000000000 }

cancel_wins_example :
    (stopped.status.state ≡ canceled)
    × ((finish 1 (ok reply) 9000000000 (cancel 1 6000000000 fresh).1).heap 1 ≡ stopped)
unfolding new_store send_start begin enter new_task set_status evict expire_all expire evictable
    cap_tasks cancel is_terminal
cancel_wins_example =
    cancel_wins 1 6000000000 fresh stopped (omega arith) refl
      (step (finishes 1 (ok reply) 9000000000 refl) stop)
