-- ===== src/A2a/Grpc/Calls.antt =====
-- a2a/grpc/grpc.go: the calls that read and cancel stored tasks, and the list of the client. `before` is
-- the order of the texts of two ids. A page token is the number it names, and 0 if it is empty or names
-- no positive number.
use gori.Prelude.{
  ltb, ◌==◌, if◌then◌else◌, length, take, drop, str_eq, is_empty, ℕ, ◌+◌, ◌-◌, String, Bool, ◌&&◌,
  ◌||◌, Option, none, some, List, [], ◌∷◌,
}
use gori.Prelude.Int.{ℤ, pos, negsuc}
use gori.A2a.{Task}
use gori.A2a.Store.{Store, CancelResult, not_found, not_cancelable, cancelled, cancel, get}
use gori.A2a.Grpc.{
  PbState, task_state_unspecified, task_state_submitted, task_state_working,
  task_state_input_required, task_state_completed, task_state_failed, task_state_canceled,
  task_state_rejected, task_state_auth_required, PbTask, Codec, state_to_pb,
}
use gori.A2a.Grpc.Tasks.{ReadTask, task_to_pb, task_from_pb}
use gori.A2a.Store as Stored

pub data Code : Type 0 where
  code_not_found code_failed_precondition : Code

pub data Replied (A : Type 0) : Type 0 where
  replied : A → Replied A
  refused : Code → String → Replied A

pub record ListRequest : Type 0 where
  pub context_id : String
  pub status : PbState
  pub page_size : ℤ
  pub page_token : ℕ

pub record ListReply (A : Type 0) : Type 0 where
  pub tasks : List A
  pub total_size : ℕ
  pub page_size : ℕ
  pub next_page_token : ℕ

-- The number of a state in the generated package.
unfoldable pub number : PbState → ℕ
number task_state_unspecified = 0
number task_state_submitted = 1
number task_state_working = 2
number task_state_completed = 3
number task_state_failed = 4
number task_state_canceled = 5
number task_state_input_required = 6
number task_state_rejected = 7
number task_state_auth_required = 8

-- Whether neither filter passes over the task.
unfoldable pub is_wanted : String → PbState → Task → Bool
unfolding number state_to_pb
is_wanted ctx status t =
    (is_empty ctx || str_eq t.context_id ctx)
    && (number status == 0 || number (state_to_pb t.status.state) == number status)

unfoldable pub page_size_of : ℤ → ℕ
page_size_of (negsuc n) = 50
page_size_of (pos n) = if n == 0 || ltb 100 n then 50 else n

module _ {A : Type 0} where
  unfoldable pub start_of : ℕ → List A → ℕ
  start_of token all = if ltb (length all) token then length all else token

  unfoldable pub end_of : ℕ → ℕ → List A → ℕ
  end_of start size all = if ltb (length all) (start + size) then length all else start + size

  unfoldable pub next_token : ℕ → List A → ℕ
  next_token end all = if ltb end (length all) then end else 0

  -- The page of `ListTasks`, of tasks that are filtered and in order.
  unfoldable pub page : ℕ → ℕ → List A → ListReply A
  unfolding start_of end_of next_token
  page size token all =
      let start = start_of token all in
      let end = end_of start size all in
      record {
        tasks = take (end - start) (drop start all);
        total_size = length all;
        page_size = size;
        next_page_token = next_token end all;
      }

module _ {R V : Type 0} (c : Codec R V) where
  unfoldable pub wanted_tasks : String → PbState → List Task → List (PbTask R V)
  unfolding is_wanted task_to_pb
  wanted_tasks ctx status [] = []
  wanted_tasks ctx status (t ∷ ts) =
      let rest = wanted_tasks ctx status ts in
      if is_wanted ctx status t then task_to_pb c t ∷ rest else rest

  unfoldable pub found_task : Option Task → Replied (PbTask R V)
  unfolding task_to_pb
  found_task none = refused code_not_found "task not found"
  found_task (some t) = replied (task_to_pb c t)

  unfoldable pub get_task : ℕ → Store → Replied (PbTask R V)
  unfolding found_task
  get_task i s = found_task (get i s)

  unfoldable pub cancel_outcome : CancelResult → Replied (PbTask R V)
  unfolding task_to_pb
  cancel_outcome not_found = refused code_not_found "task not found"
  cancel_outcome (not_cancelable t) = refused code_failed_precondition "task cannot be canceled"
  cancel_outcome (cancelled t) = replied (task_to_pb c t)

  unfoldable pub cancel_task : ℕ → ℕ → Store → Replied (PbTask R V) × Store
  unfolding cancel_outcome
  cancel_task i now s = let (r, s') = cancel i now s in (cancel_outcome r, s')

  -- The loop of the client's `ListTasks`.
  unfoldable pub read_tasks : List (PbTask R V) → List ReadTask
  unfolding task_from_pb
  read_tasks [] = []
  read_tasks (t ∷ ts) = task_from_pb c (some t) ∷ read_tasks ts

module _ {R V : Type 0} (before : ℕ → ℕ → Bool) where
  unfoldable pub insert_task : PbTask R V → List (PbTask R V) → List (PbTask R V)
  insert_task t [] = t ∷ []
  insert_task t (u ∷ us) =
      let rest = insert_task t us in if before u.id t.id then u ∷ rest else t ∷ u ∷ us

  unfoldable pub sort_tasks : List (PbTask R V) → List (PbTask R V)
  unfolding insert_task
  sort_tasks [] = []
  sort_tasks (t ∷ ts) = insert_task t (sort_tasks ts)

module _ {R V : Type 0} (c : Codec R V) (before : ℕ → ℕ → Bool) where
  unfoldable pub list_tasks : ListRequest → Store → ListReply (PbTask R V)
  unfolding wanted_tasks sort_tasks page_size_of page
  list_tasks r s =
      page (page_size_of r.page_size) r.page_token
        (sort_tasks before (wanted_tasks c r.context_id r.status (Stored.list_tasks s)))
