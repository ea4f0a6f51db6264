-- ===== src/Tests/Grpcs.antt =====
-- Tasks over the gRPC binding. The bytes of a file and the JSON of a value are texts.
use mathlib.Core.List.{Memᴰ}
use gori.Prelude.{
  ltb, length, All, is_empty, ℕ, zero, suc, String, ◌≡◌, refl, inr, Bool, true, false, none, some,
  List, [], ◌∷◌, map, arith,
}
use gori.Prelude.Int.{pos}
use gori.A2a.{auth_required, completed, Part, Message, Task}
use gori.A2a.Store.{Store, new_store}
use gori.A2a.Grpc.{task_state_completed, PbTask, Codec, state_to_pb, state_from_pb}
use gori.A2a.Grpc.Tasks.{status_to_pb, task_to_pb, status_from_pb, task_from_pb}
use gori.A2a.Grpc.Carried.{
  Carried, text_carried, url_carried, bytes_carried, data_carried, seen, task_from_pb-task_to_pb,
}
use gori.A2a.Grpc.Calls.{
  list_tasks, ListRequest, number, is_wanted, page_size_of, start_of, end_of, next_token, page,
  wanted_tasks, insert_task, sort_tasks,
}
use gori.A2a.Grpc.Sorted.{IsOrder, Separate}
use gori.A2a.Grpc.Listed.{Lists}
use gori.A2a.Grpc.Paging.{follow, list_tasks_pages}
use gori.A2a.Store as Stored

abbrev texts : Codec String String
texts = record {
  decode = λ s. some s;
  encode = λ s. s;
  no_bytes = is_empty;
  parse = λ s. some s;
  print = λ s. some s;
}

abbrev mixed_parts : List Part
mixed_parts =
    record { text = "hello"; file = none; raw = "" }
    ∷ record {
      text = "";
      file = some (record { name = "a"; mime_type = "b"; uri = "c"; bytes = "" });
      raw = "";
    }
    ∷ record {
      text = "";
      file = some (record { name = "a"; mime_type = "b"; uri = ""; bytes = "d" });
      raw = "";
    }
    ∷ record { text = ""; file = none; raw = "{}" }
    ∷ []

abbrev asked : Message
asked = record {
  role = "user";
  parts = mixed_parts;
  message_id = "m1";
  task_id = "task-1";
  context_id = "ctx";
  kind = "message";
}

abbrev done : Task
done = record {
  id = 1;
  context_id = "ctx";
  status = record { state = completed; message = some asked; timestamp = some 5 };
  artifacts = record { artifact_id = 1; name = "n"; description = ""; parts = mixed_parts } ∷ [];
  history = asked ∷ [];
  kind = "task";
}

mixed_parts-Carried : All (Carried texts) mixed_parts
mixed_parts-Carried =
    (text_carried, (url_carried refl, (bytes_carried refl refl, (data_carried refl refl refl, tt))))

task_from_pb-task_to_pb_example : task_from_pb texts (some (task_to_pb texts done)) ≡ seen done
task_from_pb-task_to_pb_example =
    task_from_pb-task_to_pb texts done (λ h. cc) (inr refl, mixed_parts-Carried)
      (mixed_parts-Carried, tt) ((inr refl, mixed_parts-Carried), tt)

-- Over the binding a task that waits for authentication has the empty state.
waiting_run :
    (task_from_pb texts (
      some (
        task_to_pb texts
          (record done { status = record done.status { state = auth_required } })))).status.state
    ≡ none
unfolding task_from_pb task_to_pb status_from_pb status_to_pb state_to_pb state_from_pb
waiting_run = refl

abbrev three_tasks : Store
three_tasks = record new_store { heap = λ i. record done { id = i }; tasks = 2 ∷ 1 ∷ 3 ∷ [] }

abbrev two_a_page : ListRequest
two_a_page = record {
  context_id = "ctx";
  status = task_state_completed;
  page_size = pos 2;
  page_token = 0;
}

pages_run :
    map (λ t. t.id) (list_tasks texts ltb (record two_a_page { page_token = 2 }) three_tasks).tasks
    ≡ 3 ∷ []
unfolding list_tasks wanted_tasks is_wanted number state_to_pb page_size_of sort_tasks insert_task
    page start_of end_of next_token task_to_pb status_to_pb gori.A2a.Store.list_tasks
pages_run = refl

-- The store as the calls see it: its map is iterated in two orders.
abbrev seen_store : ℕ → Store
seen_store zero = three_tasks
seen_store (suc n) = record three_tasks { tasks = 3 ∷ 2 ∷ 1 ∷ [] }

ltb-IsOrder : IsOrder ltb
ltb-IsOrder = record {
  irreflexive = λ i. ground arith;
  transitive = λ i j k a b. ground (arith, a, b);
  total = λ i j h apart. later i j (ltb j i) refl h apart;
}
  where
    later : (i j : ℕ) (b : Bool) → ltb j i ≡ b → ltb i j ≡ false → (j ≡ i → ⊥) → ltb j i ≡ true
    later i j true e h apart = e
    later i j false e h apart = absurd (apart (ground (arith, e, h)))

seen_store-Separate : (n : ℕ) → Separate (Stored.list_tasks (seen_store n))
unfolding gori.A2a.Store.list_tasks
seen_store-Separate zero =
    ((λ e. omega (arith, e), (λ e. omega (arith, e), tt)), ((λ e. omega (arith, e), tt), (tt, tt)))
seen_store-Separate (suc n) =
    ((λ e. omega (arith, e), (λ e. omega (arith, e), tt)), ((λ e. omega (arith, e), tt), (tt, tt)))

reordered : {A : Type 0} (x y z t : A) → Memᴰ t (x ∷ y ∷ z ∷ []) → Memᴰ t (z ∷ x ∷ y ∷ [])
reordered x y z t (Memᴰ.head e) = Memᴰ.tail (Memᴰ.head e)
reordered x y z t (Memᴰ.tail (Memᴰ.head e)) = Memᴰ.tail (Memᴰ.tail (Memᴰ.head e))
reordered x y z t (Memᴰ.tail (Memᴰ.tail (Memᴰ.head e))) = Memᴰ.head e
reordered x y z t (Memᴰ.tail (Memᴰ.tail (Memᴰ.tail m))) = elim m [ ]

seen_store_tasks :
    (n m : ℕ) (t : Task)
    → Memᴰ t (Stored.list_tasks (seen_store n))
    → Memᴰ t (Stored.list_tasks (seen_store m))
unfolding gori.A2a.Store.list_tasks
seen_store_tasks zero zero t h = h
seen_store_tasks zero (suc m) t h = reordered _ _ _ t h
seen_store_tasks (suc n) zero t h = reordered _ _ _ t (reordered _ _ _ t h)
seen_store_tasks (suc n) (suc m) t h = h

list_tasks_pages_example :
    (xs : List (PbTask String String)) × Lists texts ltb ltb-IsOrder two_a_page
      (Stored.list_tasks (seen_store 0))
      xs
    × (follow
          (λ n token.
            list_tasks texts ltb (record two_a_page { page_token = token }) (seen_store n))
          (suc (length xs))
          0
        ≡ some xs)
list_tasks_pages_example =
    list_tasks_pages texts ltb ltb-IsOrder two_a_page seen_store seen_store-Separate
      seen_store_tasks
