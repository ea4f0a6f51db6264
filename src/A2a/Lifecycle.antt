-- ===== src/A2a/Lifecycle.antt =====
-- a2a/taskstore.go: histories of the store's calls, from the transports and from handler goroutines.
-- A handler's calls come while its task is in flight: between `begin` and `end` (`finishAsync`).
pub mod Records
pub mod Validity
pub mod Outcomes
use gori.Prelude.{Result, ok, err, ℕ, suc, ◌≡◌, true, List}
use gori.A2a.Store.{Store, member, new_task, begin, end_task, complete, fail, cancel}
use gori.A2a.{Part, Message}

-- `newTask` and `begin`, the start of each `Send`; what runs between them does not see the task.
unfoldable pub send_start : Message → ℕ → Store → Store
send_start m now s = begin (suc s.seq) now (new_task m now s)

-- What `Send` does with the handler's result.
unfoldable pub finish : ℕ → Result (List Part) → ℕ → Store → Store
finish i (ok parts) now s = complete i parts now s
finish i (err e) now s = fail i e now s

pub data Step : Store → Store → Type 0 where
  sends : (m : Message) (now : ℕ) {s : Store} → Step s (send_start m now s)
  finishes :
      (i : ℕ) (r : Result (List Part)) (now : ℕ) {s : Store}
      → member i s.in_flight ≡ true
      → Step s (finish i r now s)
  ends : (i : ℕ) {s : Store} → Step s (end_task i s)
  cancels : (i : ℕ) (now : ℕ) {s : Store} → Step s (cancel i now s).1

pub data Steps : Store → Store → Type 0 where
  stop : {s : Store} → Steps s s
  step : {s t u : Store} → Step s t → Steps t u → Steps s u
