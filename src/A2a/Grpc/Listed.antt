-- ===== src/A2a/Grpc/Listed.antt =====
-- The list that `ListTasks` of a2a/grpc/grpc.go takes its pages from, against what it is to hold.
use mathlib.Core.List.{Memᴰ}
use mathlib.Core.List.Memᴰ
use gori.Prelude.{
  Bool-cases, All, ℕ, ◌≡◌, refl, sym, ap, subst, ◌∙◌, inl, inr, Bool, true, List, [], ◌∷◌,
}
use gori.A2a.{Task}
use gori.A2a.Grpc.{PbTask, Codec}
use gori.A2a.Grpc.Tasks.{task_to_pb}
use gori.A2a.Grpc.Calls.{ListRequest, is_wanted, wanted_tasks, sort_tasks}
use gori.A2a.Grpc.Sorted.{
  IsOrder, Passes, Separate, is_wanted-Passes, Passes-is_wanted, Ascending, Apart, sort-All,
  sort-Ascending, sort-mem, later-mem,
}

module _ {R V : Type 0} (c : Codec R V) where
  -- The message of a stored task that passes the filters.
  abbrev pub IsListed : ListRequest → List Task → PbTask R V → Type 0
  IsListed r ts x = (t : Task) × Memᴰ t ts × Passes r t × (x ≡ task_to_pb c t)

  IsListed-mono :
      (r : ListRequest) (t : Task) (ts : List Task) (xs : List (PbTask R V))
      → All (IsListed r ts) xs
      → All (IsListed r (t ∷ ts)) xs
  IsListed-mono r t ts [] h = tt
  IsListed-mono r t ts (x ∷ xs) h =
      let (u, m, p, e) = h.0 in ((u, Memᴰ.tail m, p, e), IsListed-mono r t ts xs h.1)

  wanted-IsListed :
      (r : ListRequest) (ts : List Task)
      → All (IsListed r ts) (wanted_tasks c r.context_id r.status ts)
  unfolding wanted_tasks
  wanted-IsListed r [] = tt
  wanted-IsListed r (t ∷ ts) =
      let rest = IsListed-mono r t ts _ (wanted-IsListed r ts) in
      elim (Bool-cases (is_wanted r.context_id r.status t)) [
        | inl yes_ ↦ rw yes_ ((t, Memᴰ.head refl, is_wanted-Passes r t yes_, refl), rest)
        | inr no_ ↦ rw no_ rest
      ]

  wanted-mem :
      (r : ListRequest) (t : Task) (ts : List Task)
      → Memᴰ t ts
      → Passes r t
      → Memᴰ (task_to_pb c t) (wanted_tasks c r.context_id r.status ts)
  unfolding wanted_tasks
  wanted-mem r t [] m p = elim m [ ]
  wanted-mem r t (u ∷ ts) (Memᴰ.head e) p = rw (sym e, Passes-is_wanted r t p) (Memᴰ.head refl)
  wanted-mem r t (u ∷ ts) (Memᴰ.tail m) p =
      let rest = wanted-mem r t ts m p in
      elim (Bool-cases (is_wanted r.context_id r.status u)) [
        | inl yes_ ↦ rw yes_ (Memᴰ.tail rest)
        | inr no_ ↦ rw no_ rest
      ]

  wanted-other :
      (r : ListRequest) (i : ℕ) (ts : List Task)
      → All (λ u. u.id ≡ i → ⊥) ts
      → All (λ u. u.id ≡ i → ⊥) (wanted_tasks c r.context_id r.status ts)
  unfolding wanted_tasks task_to_pb
  wanted-other r i [] h = tt
  wanted-other r i (t ∷ ts) h =
      let rest = wanted-other r i ts h.1 in
      elim (Bool-cases (is_wanted r.context_id r.status t)) [
        | inl yes_ ↦ rw yes_ (h.0, rest)
        | inr no_ ↦ rw no_ rest
      ]

  module _ (before : ℕ → ℕ → Bool) (order : IsOrder before) where
    wanted-Apart :
        (r : ListRequest) (ts : List Task)
        → Separate ts
        → Apart before order (wanted_tasks c r.context_id r.status ts)
    unfolding wanted_tasks task_to_pb
    wanted-Apart r [] h = tt
    wanted-Apart r (t ∷ ts) h =
        let rest = wanted-Apart r ts h.1 in
        let others = wanted-other r t.id ts h.0 in
        elim (Bool-cases (is_wanted r.context_id r.status t)) [
          | inl yes_ ↦ rw yes_ (others, rest)
          | inr no_ ↦ rw no_ rest
        ]

    -- All the stored tasks that pass the filters, no others, each once and in the order of their ids.
    pub record Lists (r : ListRequest) (ts : List Task) (xs : List (PbTask R V)) : Type 0 where
      pub in_order : Ascending before order xs
      pub no_other : All (IsListed r ts) xs
      pub no_less : (t : Task) → Memᴰ t ts → Passes r t → Memᴰ (task_to_pb c t) xs

    pub sort-Lists :
        (r : ListRequest) (ts : List Task)
        → Separate ts
        → Lists r ts (sort_tasks before (wanted_tasks c r.context_id r.status ts))
    sort-Lists r ts h = record {
      in_order = sort-Ascending before order _ (wanted-Apart r ts h);
      no_other = sort-All before order (IsListed r ts) _ (wanted-IsListed r ts);
      no_less = λ t m p. sort-mem before order _ _ (wanted-mem r t ts m p);
    }

    not_both : (i j : ℕ) → before i j ≡ true → before j i ≡ true → ⊥
    not_both i j h k = cc (order.irreflexive i, order.transitive i j i h k)

    abbrev Within : List (PbTask R V) → List (PbTask R V) → Type 0
    Within xs ys = (z : PbTask R V) → Memᴰ z xs → Memᴰ z ys

    heads :
        (x y : PbTask R V) (xs ys : List (PbTask R V))
        → Ascending before order (x ∷ xs)
        → Ascending before order (y ∷ ys)
        → Memᴰ x (y ∷ ys)
        → Memᴰ y (x ∷ xs)
        → x ≡ y
    heads x y xs ys h k (Memᴰ.head e) m = e
    heads x y xs ys h k (Memᴰ.tail n) (Memᴰ.head e) = sym e
    heads x y xs ys h k (Memᴰ.tail n) (Memᴰ.tail m) = absurd (
        not_both y.id x.id (later-mem before order (λ z. before y.id z.id ≡ true) x ys k.0 n)
          (later-mem before order (λ z. before x.id z.id ≡ true) y xs h.0 m))

    Within-tail :
        (x y z : PbTask R V) (xs ys : List (PbTask R V))
        → Ascending before order (x ∷ xs)
        → x ≡ y
        → Memᴰ z xs
        → Memᴰ z (y ∷ ys)
        → Memᴰ z ys
    Within-tail x y z xs ys h e m (Memᴰ.tail n) = n
    Within-tail x y z xs ys h e m (Memᴰ.head f) =
        absurd (below (later-mem before order (λ z. before x.id z.id ≡ true) z xs h.0 m))
      where
        below : before x.id z.id ≡ true → ⊥
        below l = cc (order.irreflexive x.id, ap (λ u. before x.id u.id) (f ∙ sym e), l)

    Ascending-unique :
        (xs ys : List (PbTask R V))
        → Ascending before order xs
        → Ascending before order ys
        → Within xs ys
        → Within ys xs
        → xs ≡ ys
    Ascending-unique [] [] h k w v = refl
    Ascending-unique [] (y ∷ ys) h k w v = absurd (Memᴰ.not-nil (v y (Memᴰ.head refl)))
    Ascending-unique (x ∷ xs) [] h k w v = absurd (Memᴰ.not-nil (w x (Memᴰ.head refl)))
    Ascending-unique (x ∷ xs) (y ∷ ys) h k w v =
        let e = heads x y xs ys h k (w x (Memᴰ.head refl)) (v y (Memᴰ.head refl)) in
        let rest =
          Ascending-unique xs ys h.1 k.1 (λ z m. Within-tail x y z xs ys h e m (w z (Memᴰ.tail m)))
            (λ z m. Within-tail y x z ys xs k (sym e) m (v z (Memᴰ.tail m))) in
        rw (e, rest) refl

    listed-Within :
        (r : ListRequest) (ts us : List Task) (xs ys : List (PbTask R V))
        → ((t : Task) → Memᴰ t ts → Memᴰ t us)
        → Lists r ts xs
        → Lists r us ys
        → Within xs ys
    listed-Within r ts us xs ys w a b z m =
        let (t, n, p, e) = later-mem before order (IsListed r ts) z xs a.no_other m in
        subst (λ x. Memᴰ x ys) (sym e) (b.no_less t (w t n) p)

    -- The list does not depend on the order of the stored tasks.
    pub Lists-unique :
        (r : ListRequest) (ts us : List Task) (xs ys : List (PbTask R V))
        → ((t : Task) → Memᴰ t ts → Memᴰ t us)
        → ((t : Task) → Memᴰ t us → Memᴰ t ts)
        → Lists r ts xs
        → Lists r us ys
        → xs ≡ ys
    Lists-unique r ts us xs ys w v a b =
        Ascending-unique xs ys a.in_order b.in_order (listed-Within r ts us xs ys w a b)
          (listed-Within r us ts ys xs v b a)
