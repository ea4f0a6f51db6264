-- ===== src/A2a/Lifecycle/Outcomes.antt =====
-- What `Cancel` and the end of a handler make of a task, in either order.
use gori.Prelude.{
  Bool-cases, update, Result, ok, err, ℕ, ◌≤◌, ◌≡◌, refl, sym, ap, ◌∙◌, inl, inr, true, false, none,
  some, List, [], ◌∷◌, arith,
}
use gori.A2a.Store.{
  Store, member, status_at, settled, complete, error_message, fail, cancelled, cancel,
}
use gori.A2a.{completed, failed, canceled, Part, Task, is_terminal}
use gori.A2a.Lifecycle.{finish, Steps}
use gori.A2a.Lifecycle.Records.{finish-Changes, cancel-Changes, settled_forever}

-- What the record of a live task becomes when its handler returns.
unfoldable pub outcome : Result (List Part) → ℕ → Task → Task
outcome (ok parts) now t = record t {
  status = status_at completed none now;
  artifacts = record { artifact_id = t.id; name = ""; description = ""; parts = parts } ∷ [];
}
outcome (err e) now t = record t { status = status_at failed (some (error_message e)) now }

pub outcome-is_terminal :
    (r : Result (List Part)) (now : ℕ) (t : Task)
    → is_terminal (outcome r now t).status.state ≡ true
unfolding outcome is_terminal
outcome-is_terminal (ok parts) now t = refl
outcome-is_terminal (err e) now t = refl

pub finish_live :
    (i : ℕ) (r : Result (List Part)) (now : ℕ) (s : Store)
    → settled s i ≡ false
    → (finish i r now s).heap i ≡ outcome r now (s.heap i)
unfolding finish outcome complete fail
finish_live i (ok parts) now s e = rw e (ground arith)
finish_live i (err m) now s e = rw e (ground arith)

-- When the handler of a live task returns, the task's record is completed with the handler's parts as
-- its one artifact, or failed with the error's text, and so it is in every later state of the store.
pub finish_forever :
    (i : ℕ) (r : Result (List Part)) (now : ℕ) (s : Store) {t : Store}
    → i ≤ s.seq
    → settled s i ≡ false
    → Steps (finish i r now s) t
    → t.heap i ≡ outcome r now (s.heap i)
finish_forever i r now s {t} le e h =
    settled_forever h i (omega (arith, le, (finish-Changes i r now s).seq_kept)) final_
    ∙ finish_live i r now s e
  where
    final_ : settled (finish i r now s) i ≡ true
    final_ =
        ap (λ k. is_terminal k.status.state) (finish_live i r now s e)
        ∙ outcome-is_terminal r now (s.heap i)

canceled-is_terminal : is_terminal canceled ≡ true
unfolding is_terminal
canceled-is_terminal = refl

cancel_record :
    (i now : ℕ) (s : Store) (t : Task)
    → (cancel i now s).0 ≡ cancelled t
    → ((cancel i now s).1.heap i ≡ t) × (t.status.state ≡ canceled)
unfolding cancel
cancel_record i now s t = elim (Bool-cases (member i s.tasks)) [
  | inr no_ ↦ rw no_ (λ e. cc e)
  | inl here ↦ elim (Bool-cases (settled s i)) [
    | inl yes_ ↦ rw (here, yes_) (λ e. cc e)
    | inr no_ ↦
        rw (here, no_)
          (λ e. (
            cc (at_key i (record (s.heap i) { status = status_at canceled none now }) s, task_of e),
            ap (λ k. k.status.state) (sym (task_of e)),
          ))
  ]
]
  where
    task_of : {a b : Task} → cancelled a ≡ cancelled b → a ≡ b
    task_of e = cc e

    at_key : (j : ℕ) (a : Task) (r : Store) → update r.heap j a j ≡ a
    at_key j a r = ground arith

-- A cancellation that succeeds returns the task as canceled, and the task's record is the returned one in
-- every later state of the store: a handler that still returns does not overwrite it.
pub cancel_wins :
    (i now : ℕ) (s : Store) (t : Task) {u : Store}
    → i ≤ s.seq
    → (cancel i now s).0 ≡ cancelled t
    → Steps (cancel i now s).1 u
    → (t.status.state ≡ canceled) × (u.heap i ≡ t)
cancel_wins i now s t {u} le e h = (
  (cancel_record i now s t e).1,
  settled_forever h i (omega (arith, le, (cancel-Changes i now s).seq_kept)) final_
      ∙ (cancel_record i now s t e).0,
)
  where
    final_ : settled (cancel i now s).1 i ≡ true
    final_ =
        ap (λ k. is_terminal k.status.state) (cancel_record i now s t e).0
        ∙ ap is_terminal (cancel_record i now s t e).1
        ∙ canceled-is_terminal
