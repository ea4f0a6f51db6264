-- ===== src/A2a/Store.antt =====
-- a2a/taskstore.go: the task store. The tasks' records live on a heap, since a handler goroutine and
-- the store's map share them. Each call is one step, under the store's lock, at a time `now` in
-- nanoseconds. The maps are lists of ids. `seq` does not wrap here.
use gori.Prelude.{
  ltb, leb, ◌==◌, if◌then◌else◌, update, length, ℕ, suc, ◌-◌, ◌*◌, ◌/◌, String, Bool, false, not,
  ◌&&◌, ◌||◌, Option, none, some, List, [], ◌∷◌, map, ◌++◌,
}
use gori.Prelude.Int.{ℤ, pos, negsuc}
use gori.A2a.{
  TaskState, submitted, working, completed, failed, canceled, Part, text_part, Message, TaskStatus,
  Task, is_terminal,
}

abbrev pub second : ℕ
second = 1000000000

abbrev pub default_max_age : ℕ
default_max_age = 3600 * 1000000000

abbrev pub default_max_tasks : ℕ
default_max_tasks = 1024

pub record Store : Type 0 where
  pub max_age : ℤ
  pub max_tasks : ℤ
  pub heap : ℕ → Task
  pub tasks : List ℕ
  pub in_flight : List ℕ
  pub terminal_at : List (ℕ × ℕ)
  pub interrupted : List ℕ
  pub seq : ℕ

abbrev pub member : ℕ → List ℕ → Bool
member i [] = false
member i (j ∷ js) = j == i || member i js

-- `delete(m, i)`.
abbrev pub without : ℕ → List ℕ → List ℕ
without i [] = []
without i (j ∷ js) = let rest = without i js in if j == i then rest else j ∷ rest

-- `m[i] = …`, on the keys.
abbrev pub with_key : ℕ → List ℕ → List ℕ
with_key i js = if member i js then js else i ∷ js

abbrev pub time_of : ℕ → List (ℕ × ℕ) → Option ℕ
time_of i [] = none
time_of i ((j, t) ∷ ts) = if j == i then some t else time_of i ts

abbrev pub without_time : ℕ → List (ℕ × ℕ) → List (ℕ × ℕ)
without_time i [] = []
without_time i ((j, t) ∷ ts) =
    let rest = without_time i ts in if j == i then rest else (j, t) ∷ rest

abbrev pub status_at : TaskState → Option Message → ℕ → TaskStatus
status_at s m now = record { state = s; message = m; timestamp = some (now / second) }

abbrev pub no_task : Task
no_task = record {
  id = 0;
  context_id = "";
  status = record { state = submitted; message = none; timestamp = none };
  artifacts = [];
  history = [];
  kind = "";
}

unfoldable pub new_store : Store
new_store = record {
  max_age = pos default_max_age;
  max_tasks = pos default_max_tasks;
  heap = λ i. no_task;
  tasks = [];
  in_flight = [];
  terminal_at = [];
  interrupted = [];
  seq = 0;
}

-- Whether the task's state is final.
abbrev pub settled : Store → ℕ → Bool
settled s i = is_terminal (s.heap i).status.state

-- `terminalTime` with a parsed time, which is cached.
unfoldable pub parse_time : ℕ → Option ℕ → Store → Option ℕ × Store
parse_time i none s = (none, s)
parse_time i (some sec) s =
    (some (sec * second), record s { terminal_at = (i, sec * second) ∷ s.terminal_at })

unfoldable pub or_parse : ℕ → Option ℕ → Store → Option ℕ × Store
unfolding parse_time
or_parse i (some t) s = (some t, s)
or_parse i none s = parse_time i (s.heap i).status.timestamp s

-- `terminalTime`, with the store in which the time is cached.
unfoldable pub terminal_time : ℕ → Store → Option ℕ × Store
unfolding or_parse
terminal_time i s = or_parse i (time_of i s.terminal_at) s

unfoldable pub forget : ℕ → Store → Store
forget i s = record s { tasks = without i s.tasks; terminal_at = without_time i s.terminal_at }

-- Whether eviction may take the task: no handler may still run, and its state is final.
unfoldable pub evictable : Store → ℕ → Bool
evictable s i = not (member i s.in_flight) && settled s i

unfoldable pub drop_old : ℕ → ℕ → Option ℕ × Store → Store
drop_old cutoff i (none, s) = s
drop_old cutoff i (some t, s) = if ltb t cutoff then forget i s else s

-- One round of the first loop of `evictLocked`.
unfoldable pub expire : ℕ → ℕ → Store → Store
unfolding drop_old
expire cutoff i s = if evictable s i then drop_old cutoff i (terminal_time i s) else s

unfoldable pub expire_all : ℕ → List ℕ → Store → Store
expire_all cutoff [] s = s
expire_all cutoff (i ∷ is) s = expire_all cutoff is (expire cutoff i s)

-- An unparseable time is Go's zero time, before all others.
abbrev pub age_key : Option ℕ → ℕ
age_key none = 0
age_key (some t) = t

-- One round of the loop that collects `terms`, before the rest of them.
unfoldable pub collect_one : ℕ → Store → List (ℕ × ℕ) × Store
collect_one i s =
    if evictable s i
    then (let (t, s') = terminal_time i s in ((i, age_key t) ∷ [], s'))
    else ([], s)

unfoldable pub collect : List ℕ → Store → List (ℕ × ℕ) × Store
collect [] s = ([], s)
collect (i ∷ is) s =
    let (first, s₁) = collect_one i s in let (rest, s₂) = collect is s₁ in (first ++ rest, s₂)

-- `sort.Slice` by the times; the order of equal times is that of the map.
unfoldable pub insert_aged : ℕ × ℕ → List (ℕ × ℕ) → List (ℕ × ℕ)
insert_aged (i, t) [] = (i, t) ∷ []
insert_aged (i, t) ((j, u) ∷ rest) =
    if leb t u then (i, t) ∷ (j, u) ∷ rest else (j, u) ∷ insert_aged (i, t) rest

unfoldable pub sort_aged : List (ℕ × ℕ) → List (ℕ × ℕ)
sort_aged [] = []
sort_aged (a ∷ rest) = insert_aged a (sort_aged rest)

-- The loop that drops the oldest ones, down to the limit.
unfoldable pub drop_oldest : ℕ → List (ℕ × ℕ) → Store → Store
drop_oldest limit [] s = s
drop_oldest limit ((i, t) ∷ rest) s =
    let after = drop_oldest limit rest (forget i s) in
    if leb (length s.tasks) limit then s else after

abbrev pub limit_or : ℕ → ℤ → ℕ
limit_or d (negsuc n) = d
limit_or d (pos n) = if n == 0 then d else n

-- The second half of `evictLocked`.
unfoldable pub cap_tasks : ℕ → Store → Store
cap_tasks limit s =
    if leb (length s.tasks) limit
    then s
    else (let (terms, s') = collect s.tasks s in drop_oldest limit (sort_aged terms) s')

-- `evictLocked`. A negative cutoff is before every time, as 0 is.
unfoldable pub evict : ℕ → Store → Store
evict now s =
    cap_tasks (limit_or default_max_tasks s.max_tasks)
      (expire_all (now - limit_or default_max_age s.max_age) s.tasks s)

-- `newTask`; the id is `seq` after the increment.
unfoldable pub new_task : Message → ℕ → Store → Store
new_task m now s =
    let id = suc s.seq in
    record s {
      seq = id;
      heap = update s.heap id (record {
        id = id;
        context_id = m.context_id;
        status = status_at submitted none now;
        artifacts = [];
        history = m ∷ [];
        kind = "task";
      });
    }

unfoldable pub set_status : ℕ → TaskStatus → Store → Store
set_status i st s = record s { heap = update s.heap i (record (s.heap i) { status = st }) }

-- `begin` before the eviction.
unfoldable pub enter : ℕ → ℕ → Store → Store
enter i now s =
    let s' : Store = set_status i (status_at working none now) s in
    record s' { tasks = with_key i s.tasks; in_flight = with_key i s.in_flight }

unfoldable pub begin : ℕ → ℕ → Store → Store
begin i now s = evict now (enter i now s)

unfoldable pub end_task : ℕ → Store → Store
end_task i s = record s { in_flight = without i s.in_flight }

abbrev pub truncate : ℕ → ℕ
truncate now = now / second * second

unfoldable pub complete : ℕ → List Part → ℕ → Store → Store
complete i parts now s = if settled s i then s else record s {
  heap = update s.heap i (record (s.heap i) {
    status = status_at completed none now;
    artifacts =
        record { artifact_id = (s.heap i).id; name = ""; description = ""; parts = parts } ∷ [];
  });
  terminal_at = (i, truncate now) ∷ without_time i s.terminal_at;
}

abbrev pub error_message : String → Message
error_message e = record {
  role = "agent";
  parts = text_part e ∷ [];
  message_id = "";
  task_id = "";
  context_id = "";
  kind = "message";
}

unfoldable pub fail : ℕ → String → ℕ → Store → Store
fail i e now s = if settled s i then s else record s {
  heap =
      update s.heap i
        (record (s.heap i) { status = status_at failed (some (error_message e)) now });
  terminal_at = (i, truncate now) ∷ without_time i s.terminal_at;
}

pub data CancelResult : Type 0 where
  not_found : CancelResult
  not_cancelable cancelled : Task → CancelResult

unfoldable pub cancel : ℕ → ℕ → Store → CancelResult × Store
cancel i now s =
    if not (member i s.tasks)
    then (not_found, s)
    else if settled s i
    then (not_cancelable (s.heap i), s)
    else (
      cancelled (record (s.heap i) { status = status_at canceled none now }),
      record s {
        heap = update s.heap i (record (s.heap i) { status = status_at canceled none now });
        interrupted = if member i s.in_flight then with_key i s.interrupted else s.interrupted;
      },
    )

unfoldable pub get : ℕ → Store → Option Task
get i s = if member i s.tasks then some (s.heap i) else none

unfoldable pub list_tasks : Store → List Task
list_tasks s = map s.heap s.tasks
