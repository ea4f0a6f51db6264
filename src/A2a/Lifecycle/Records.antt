-- ===== src/A2a/Lifecycle/Records.antt =====
-- What the store's calls change of the records of its tasks.
use gori.Prelude.{
  ◌==◌, ==_iff, Bool-cases, update, Result, ok, err, ℕ, suc, ◌≤◌, String, ◌≡◌, refl, sym, ap, subst,
  ◌∙◌, inl, inr, true, false, List, arith,
}
use gori.A2a.Store.{
  Store, member, settled, new_task, set_status, enter, begin, end_task, complete, fail, cancel,
}
use gori.A2a.{Part, Message, TaskStatus, Artifact, is_terminal}
use gori.A2a.Eviction.{Evicts}
use gori.A2a.Eviction.Bound.{evict-Evicts}
use gori.A2a.Lifecycle.{send_start, finish, Step, sends, finishes, ends, cancels, Steps, stop, step}

-- A call that may change the record of task `i`, while that is not final, and no key.
pub record Changes (i : ℕ) (s t : Store) : Type 0 where
  pub elsewhere : (j : ℕ) → (j == i) ≡ false → t.heap j ≡ s.heap j
  pub only_live : settled s i ≡ true → t.heap i ≡ s.heap i
  pub id_kept : (t.heap i).id ≡ (s.heap i).id
  pub tasks_kept : t.tasks ≡ s.tasks
  pub in_flight_kept : t.in_flight ≡ s.in_flight
  pub seq_kept : t.seq ≡ s.seq

Changes-refl : (i : ℕ) (s : Store) → Changes i s s
Changes-refl i s = record {
  elsewhere = λ j e. refl;
  only_live = λ e. refl;
  id_kept = refl;
  tasks_kept = refl;
  in_flight_kept = refl;
  seq_kept = refl;
}

-- A write of the record of a task that is not final.
put-Changes :
    (i : ℕ) (s : Store) (st : TaskStatus) (arts : List Artifact) (ts : List (ℕ × ℕ)) (is : List ℕ)
    → settled s i ≡ false
    → Changes i s (record s {
      heap = update s.heap i (record (s.heap i) { status = st; artifacts = arts });
      terminal_at = ts;
      interrupted = is;
    })
put-Changes i s st arts ts is e = record {
  elsewhere = λ j f. rw f;
  only_live = λ f. cc (e, f);
  id_kept = ground arith;
  tasks_kept = refl;
  in_flight_kept = refl;
  seq_kept = refl;
}

complete-Changes :
    (i : ℕ) (parts : List Part) (now : ℕ) (s : Store) → Changes i s (complete i parts now s)
unfolding complete
complete-Changes i parts now s = elim (Bool-cases (settled s i)) [
  | inl yes_ ↦ rw yes_ (Changes-refl i s)
  | inr no_ ↦ rw no_ (put-Changes i s _ _ _ s.interrupted no_)
]

fail-Changes : (i : ℕ) (e : String) (now : ℕ) (s : Store) → Changes i s (fail i e now s)
unfolding fail
fail-Changes i e now s = elim (Bool-cases (settled s i)) [
  | inl yes_ ↦ rw yes_ (Changes-refl i s)
  | inr no_ ↦ rw no_ (put-Changes i s _ (s.heap i).artifacts _ s.interrupted no_)
]

pub finish-Changes :
    (i : ℕ) (r : Result (List Part)) (now : ℕ) (s : Store) → Changes i s (finish i r now s)
unfolding finish
finish-Changes i (ok parts) now s = complete-Changes i parts now s
finish-Changes i (err e) now s = fail-Changes i e now s

pub cancel-Changes : (i now : ℕ) (s : Store) → Changes i s (cancel i now s).1
unfolding cancel
cancel-Changes i now s = elim (Bool-cases (member i s.tasks)) [
  | inr no_ ↦ rw no_ (Changes-refl i s)
  | inl here ↦ elim (Bool-cases (settled s i)) [
    | inl yes_ ↦ rw (here, yes_) (Changes-refl i s)
    | inr no_ ↦ rw (here, no_) (put-Changes i s _ (s.heap i).artifacts s.terminal_at _ no_)
  ]
]

-- What a call leaves of the records that existed before it.
pub record Keeps (s t : Store) : Type 0 where
  pub seq_le : s.seq ≤ t.seq
  pub final_kept : (i : ℕ) → i ≤ s.seq → settled s i ≡ true → t.heap i ≡ s.heap i

end_task-Keeps : (i : ℕ) (s : Store) → Keeps s (end_task i s)
unfolding end_task
end_task-Keeps i s = record { seq_le = omega arith; final_kept = λ j le e. refl }

Changes-Keeps : (i : ℕ) (s t : Store) → Changes i s t → Keeps s t
Changes-Keeps i s t h = record {
  seq_le = omega (arith, h.seq_kept);
  final_kept = λ j le e. elim (Bool-cases (j == i)) [
    | inr no_ ↦ h.elsewhere j no_
    | inl eq ↦
        subst (λ k. t.heap k ≡ s.heap k) (sym ((==_iff j i).0 eq))
          (h.only_live (ap (settled s) (sym ((==_iff j i).0 eq)) ∙ e))
  ];
}

-- The store of `send_start` before the eviction.
abbrev pub entered : Message → ℕ → Store → Store
entered m now s = enter (suc s.seq) now (new_task m now s)

pub entered_heap :
    (m : Message) (now : ℕ) (s : Store) (i : ℕ) → i ≤ s.seq → (entered m now s).heap i ≡ s.heap i
unfolding enter new_task set_status
entered_heap m now s i le = ground arith

pub entered_seq : (m : Message) (now : ℕ) (s : Store) → (entered m now s).seq ≡ suc s.seq
unfolding enter new_task set_status
entered_seq m now s = refl

pub send_start-Evicts :
    (m : Message) (now : ℕ) (s : Store) → Evicts (entered m now s) (send_start m now s)
unfolding send_start begin
send_start-Evicts m now s = evict-Evicts now (entered m now s)

send_start-Keeps : (m : Message) (now : ℕ) (s : Store) → Keeps s (send_start m now s)
send_start-Keeps m now s = record {
  seq_le = omega (arith, (send_start-Evicts m now s).same_seq, entered_seq m now s);
  final_kept =
      λ i le e. ap (λ h. h i) (send_start-Evicts m now s).same_heap ∙ entered_heap m now s i le;
}

Step-Keeps : {s t : Store} → Step s t → Keeps s t
Step-Keeps (sends m now {s}) = send_start-Keeps m now s
Step-Keeps (finishes i r now {s} h) = Changes-Keeps i s _ (finish-Changes i r now s)
Step-Keeps (ends i {s}) = end_task-Keeps i s
Step-Keeps (cancels i now {s}) = Changes-Keeps i s _ (cancel-Changes i now s)

-- Once a task's state is final its record never changes again, whatever calls follow: not by the
-- handler that finishes late, not by a cancellation, not by eviction.
pub settled_forever :
    {s t : Store} → Steps s t → (i : ℕ) → i ≤ s.seq → settled s i ≡ true → t.heap i ≡ s.heap i
settled_forever stop i le e = refl
settled_forever (step {s} {t} {u} st rest) i le e =
    settled_forever rest i (omega (arith, le, k.seq_le))
      (ap (λ r. is_terminal r.status.state) same ∙ e)
    ∙ same
  where
    k : Keeps s t
    k = Step-Keeps st

    same : t.heap i ≡ s.heap i
    same = k.final_kept i le e
