-- ===== src/A2a/Lifecycle/Validity.antt =====
-- The keys and records of the store fit together, in every history of calls.
use gori.Prelude.{
  ◌==◌, ==_iff, Bool-cases, ℕ, suc, ◌≤◌, ◌≡◌, refl, sym, ap, subst, ◌∙◌, inl, inr, true, false,
  ◌||◌, List, arith,
}
use gori.A2a.Store.{
  Store, member, with_key, new_store, evictable, new_task, set_status, enter, end_task,
}
use gori.A2a.{Message}
use gori.A2a.Eviction.{Evicts, member-without}
use gori.A2a.Lifecycle.{Step, sends, finishes, ends, cancels, Steps, stop, step}
use gori.A2a.Lifecycle.Records.{
  Changes, finish-Changes, cancel-Changes, entered, entered_heap, send_start-Evicts,
}

-- The store's keys and records fit together.
pub record IsValid (s : Store) : Type 0 where
  pub flying_stored : (i : ℕ) → member i s.in_flight ≡ true → member i s.tasks ≡ true
  pub stored_old : (i : ℕ) → member i s.tasks ≡ true → i ≤ s.seq
  pub stored_id : (i : ℕ) → member i s.tasks ≡ true → (s.heap i).id ≡ i

pub new_store-IsValid : IsValid new_store
unfolding new_store
new_store-IsValid = record {
  flying_stored = λ i h. cc;
  stored_old = λ i h. cc;
  stored_id = λ i h. cc;
}

Changes-IsValid : (i : ℕ) (s t : Store) → Changes i s t → IsValid s → IsValid t
Changes-IsValid i s t h v = record {
  flying_stored = λ j m.
      ap (member j) h.tasks_kept ∙ v.flying_stored j (sym (ap (member j) h.in_flight_kept) ∙ m);
  stored_old = λ j m. omega (arith, h.seq_kept, v.stored_old j (stored j m));
  stored_id = λ j m. elim (Bool-cases (j == i)) [
    | inr no_ ↦ ap (λ r. r.id) (h.elsewhere j no_) ∙ v.stored_id j (stored j m)
    | inl eq ↦ at_i j m ((==_iff j i).0 eq)
  ];
}
  where
    stored : (j : ℕ) → member j t.tasks ≡ true → member j s.tasks ≡ true
    stored j m = sym (ap (member j) h.tasks_kept) ∙ m

    at_i : (j : ℕ) → member j t.tasks ≡ true → j ≡ i → (t.heap j).id ≡ j
    at_i j m eq =
        subst (λ k. member k s.tasks ≡ true → (t.heap k).id ≡ k) (sym eq)
          (λ n. h.id_kept ∙ v.stored_id i n) (stored j m)

Evicts-IsValid : (s t : Store) → Evicts s t → IsValid s → IsValid t
unfolding evictable
Evicts-IsValid s t h v = record {
  flying_stored = λ i m. h.keeps i (ground (arith, flying i m)) (v.flying_stored i (flying i m));
  stored_old = λ i m. omega (arith, h.same_seq, v.stored_old i (h.none_new i m));
  stored_id = λ i m. ap (λ f. (f i).id) h.same_heap ∙ v.stored_id i (h.none_new i m);
}
  where
    flying : (i : ℕ) → member i t.in_flight ≡ true → member i s.in_flight ≡ true
    flying i m = sym (ap (member i) h.same_in_flight) ∙ m

member-with_key : (i j : ℕ) (js : List ℕ) → member j (with_key i js) ≡ (i == j || member j js)
member-with_key i j js = elim (Bool-cases (member i js)) [
  | inr no_ ↦ simp no_ refl
  | inl yes_ ↦ ground (arith, there yes_)
]
  where
    there : member i js ≡ true → (i == j) ≡ true → member j js ≡ true
    there yes_ eq = subst (λ k. member k js ≡ true) ((==_iff i j).0 eq) yes_

entered-IsValid : (m : Message) (now : ℕ) (s : Store) → IsValid s → IsValid (entered m now s)
unfolding enter new_task set_status
entered-IsValid m now s v = record {
  flying_stored = λ i h. ground (
    arith,
    member-with_key (suc s.seq) i s.tasks,
    member-with_key (suc s.seq) i s.in_flight,
    v.flying_stored i,
  );
  stored_old = λ i h. elim (Bool-cases (suc s.seq == i)) [
    | inl eq ↦ omega (arith, (==_iff (suc s.seq) i).0 eq)
    | inr no_ ↦ omega (arith, v.stored_old i (old i h no_))
  ];
  stored_id = λ i h. elim (Bool-cases (suc s.seq == i)) [
    | inl eq ↦ fresh i ((==_iff (suc s.seq) i).0 eq)
    | inr no_ ↦
        ap (λ r. r.id) (entered_heap m now s i (v.stored_old i (old i h no_)))
        ∙ v.stored_id i (old i h no_)
  ];
}
  where
    old :
        (i : ℕ)
        → member i (with_key (suc s.seq) s.tasks) ≡ true
        → (suc s.seq == i) ≡ false
        → member i s.tasks ≡ true
    old i h no_ = ground (arith, member-with_key (suc s.seq) i s.tasks)

    fresh : (i : ℕ) → suc s.seq ≡ i → ((entered m now s).heap i).id ≡ i
    fresh i eq = subst (λ k. ((entered m now s).heap k).id ≡ k) eq (ground arith)

end_task-IsValid : (i : ℕ) (s : Store) → IsValid s → IsValid (end_task i s)
unfolding end_task
end_task-IsValid i s v = record {
  flying_stored = λ j h. v.flying_stored j (ground (arith, member-without i j s.in_flight));
  stored_old = v.stored_old;
  stored_id = v.stored_id;
}

pub Step-IsValid : {s t : Store} → Step s t → IsValid s → IsValid t
Step-IsValid (sends m now {s}) v =
    Evicts-IsValid (entered m now s) _ (send_start-Evicts m now s) (entered-IsValid m now s v)
Step-IsValid (finishes i r now {s} h) v = Changes-IsValid i s _ (finish-Changes i r now s) v
Step-IsValid (ends i {s}) v = end_task-IsValid i s v
Step-IsValid (cancels i now {s}) v = Changes-IsValid i s _ (cancel-Changes i now s) v

pub Steps-IsValid : {s t : Store} → Steps s t → IsValid s → IsValid t
Steps-IsValid stop v = v
Steps-IsValid (step st rest) v = Steps-IsValid rest (Step-IsValid st v)
