-- ===== src/A2a/Grpc/Sorted.antt =====
-- The tasks that `ListTasks` of a2a/grpc/grpc.go filters and sorts, before it cuts out a page.
use mathlib.Core.List.{Memᴰ}
use gori.Prelude.{
  ◌==◌, Bool-cases, All, eq_iff, is_empty, ℕ, ◌≡◌, refl, sym, ◌⊎◌, inl, inr, Bool, true, false,
  List, [], ◌∷◌, arith,
}
use gori.A2a.{Task}
use gori.A2a.Grpc.{PbTask, state_to_pb}
use gori.A2a.Grpc.Calls.{ListRequest, number, is_wanted, insert_task, sort_tasks}

-- A strict and total order, as that of the texts of ids.
pub record IsOrder (before : ℕ → ℕ → Bool) : Type 0 where
  pub irreflexive : (i : ℕ) → before i i ≡ false
  pub transitive : (i j k : ℕ) → before i j ≡ true → before j k ≡ true → before i k ≡ true
  pub total : (i j : ℕ) → before i j ≡ false → (j ≡ i → ⊥) → before j i ≡ true

-- Whether a task passes the filters of a request.
abbrev pub Passes : ListRequest → Task → Type 0
Passes r t =
    ((is_empty r.context_id ≡ true) ⊎ (t.context_id ≡ r.context_id))
    × ((number r.status ≡ 0) ⊎ (number (state_to_pb t.status.state) ≡ number r.status))

-- No two tasks have the same id.
abbrev pub Separate : List Task → Type 0
Separate [] = Unit
Separate (t ∷ ts) = All (λ u. u.id ≡ t.id → ⊥) ts × Separate ts

pub is_wanted-Passes :
    (r : ListRequest) (t : Task) → is_wanted r.context_id r.status t ≡ true → Passes r t
unfolding is_wanted
is_wanted-Passes r t h = (
  elim (Bool-cases (is_empty r.context_id)) [
    | inl yes_ ↦ inl yes_
    | inr no_ ↦ inr (ground (arith, h, no_, eq_iff t.context_id r.context_id))
  ],
  elim (Bool-cases (number r.status == 0)) [
    | inl yes_ ↦ inl (ground (arith, yes_))
    | inr no_ ↦ inr (ground (arith, h, no_))
  ],
)

pub Passes-is_wanted :
    (r : ListRequest) (t : Task) → Passes r t → is_wanted r.context_id r.status t ≡ true
unfolding is_wanted
Passes-is_wanted r t (inl a, inl b) = ground (arith, a, b)
Passes-is_wanted r t (inl a, inr b) = ground (arith, a, b)
Passes-is_wanted r t (inr a, inl b) = ground (arith, (eq_iff t.context_id r.context_id).1 a, b)
Passes-is_wanted r t (inr a, inr b) = ground (arith, (eq_iff t.context_id r.context_id).1 a, b)

module _ {R V : Type 0} (before : ℕ → ℕ → Bool) (order : IsOrder before) where
  -- Each id is before all the later ones.
  abbrev pub Ascending : List (PbTask R V) → Type 0
  Ascending [] = Unit
  Ascending (x ∷ xs) = All (λ y. before x.id y.id ≡ true) xs × Ascending xs

  abbrev pub Apart : List (PbTask R V) → Type 0
  Apart [] = Unit
  Apart (x ∷ xs) = All (λ y. y.id ≡ x.id → ⊥) xs × Apart xs

  insert-All :
      (P : PbTask R V → Type 0) (t : PbTask R V) (us : List (PbTask R V))
      → P t
      → All P us
      → All P (insert_task before t us)
  unfolding insert_task
  insert-All P t [] p h = (p, tt)
  insert-All P t (u ∷ us) p h = elim (Bool-cases (before u.id t.id)) [
    | inl yes_ ↦ rw yes_ (h.0, insert-All P t us p h.1)
    | inr no_ ↦ rw no_ (p, h)
  ]

  pub sort-All :
      (P : PbTask R V → Type 0) (ts : List (PbTask R V)) → All P ts → All P (sort_tasks before ts)
  unfolding sort_tasks
  sort-All P [] h = tt
  sort-All P (t ∷ ts) h = insert-All P t (sort_tasks before ts) h.0 (sort-All P ts h.1)

  All-later :
      (i j : ℕ) (us : List (PbTask R V))
      → before i j ≡ true
      → All (λ y. before j y.id ≡ true) us
      → All (λ y. before i y.id ≡ true) us
  All-later i j [] e h = tt
  All-later i j (u ∷ us) e h = (order.transitive i j u.id e h.0, All-later i j us e h.1)

  insert-Ascending :
      (t : PbTask R V) (us : List (PbTask R V))
      → All (λ u. u.id ≡ t.id → ⊥) us
      → Ascending us
      → Ascending (insert_task before t us)
  unfolding insert_task
  insert-Ascending t [] fresh h = (tt, tt)
  insert-Ascending t (u ∷ us) fresh h = elim (Bool-cases (before u.id t.id)) [
    | inl yes_ ↦
        rw yes_ (
          insert-All (λ y. before u.id y.id ≡ true) t us yes_ h.0,
          insert-Ascending t us fresh.1 h.1,
        )
    | inr no_ ↦
        let first = order.total u.id t.id no_ (λ e. fresh.0 (sym e)) in
        rw no_ ((first, All-later t.id u.id us first h.0), h)
  ]

  pub sort-Ascending : (ts : List (PbTask R V)) → Apart ts → Ascending (sort_tasks before ts)
  unfolding sort_tasks
  sort-Ascending [] h = tt
  sort-Ascending (t ∷ ts) h =
      insert-Ascending t (sort_tasks before ts) (sort-All (λ u. u.id ≡ t.id → ⊥) ts h.0)
        (sort-Ascending ts h.1)

  insert-new : (t : PbTask R V) (us : List (PbTask R V)) → Memᴰ t (insert_task before t us)
  unfolding insert_task
  insert-new t [] = Memᴰ.head refl
  insert-new t (u ∷ us) = elim (Bool-cases (before u.id t.id)) [
    | inl yes_ ↦ rw yes_ (Memᴰ.tail (insert-new t us))
    | inr no_ ↦ rw no_ (Memᴰ.head refl)
  ]

  insert-old :
      (x t : PbTask R V) (us : List (PbTask R V)) → Memᴰ x us → Memᴰ x (insert_task before t us)
  unfolding insert_task
  insert-old x t [] m = elim m [ ]
  insert-old x t (u ∷ us) (Memᴰ.head e) = elim (Bool-cases (before u.id t.id)) [
    | inl yes_ ↦ rw yes_ (Memᴰ.head e)
    | inr no_ ↦ rw no_ (Memᴰ.tail (Memᴰ.head e))
  ]
  insert-old x t (u ∷ us) (Memᴰ.tail m) =
      let kept = insert-old x t us m in
      elim (Bool-cases (before u.id t.id)) [
        | inl yes_ ↦ rw yes_ (Memᴰ.tail kept)
        | inr no_ ↦ rw no_ (Memᴰ.tail (Memᴰ.tail m))
      ]

  pub sort-mem :
      (x : PbTask R V) (ts : List (PbTask R V)) → Memᴰ x ts → Memᴰ x (sort_tasks before ts)
  unfolding sort_tasks
  sort-mem x [] m = elim m [ ]
  sort-mem x (t ∷ ts) (Memᴰ.head e) = rw e (insert-new t (sort_tasks before ts))
  sort-mem x (t ∷ ts) (Memᴰ.tail m) = insert-old x t (sort_tasks before ts) (sort-mem x ts m)

  pub later-mem :
      (P : PbTask R V → Type 0) (x : PbTask R V) (ts : List (PbTask R V))
      → All P ts
      → Memᴰ x ts
      → P x
  later-mem P x [] h m = elim m [ ]
  later-mem P x (t ∷ ts) h (Memᴰ.head e) = rw e h.0
  later-mem P x (t ∷ ts) h (Memᴰ.tail m) = later-mem P x ts h.1 m
