-- ===== src/A2a/Eviction/Bound.antt =====
-- The limit that eviction keeps.
use gori.Prelude.{
  leb, ◌==◌, leb→le, Bool-cases, length, ℕ, ◌-◌, ◌≤◌, ◌≡◌, sym, ◌∙◌, ◌⊎◌, inl, inr, true, false,
  List, [], ◌∷◌, arith,
}
use gori.A2a.Store.{
  default_max_age, default_max_tasks, Store, member, forget, evictable, expire_all, collect,
  sort_aged, drop_oldest, limit_or, cap_tasks, evict,
}
use gori.A2a.Eviction.{
  Evicts, Evicts-refl, evictable-Evicts, Evicts-trans, member-without, forget-Evicts,
  expire_all-Evicts,
}
use gori.A2a.Eviction.Terms.{
  has_key, KeysIsEvictable, collect-Evicts, collect_keys, collect_covers, has_key-sort_aged,
  sort_aged_keys, keys-Evicts,
}

drop_oldest-Evicts :
    (limit : ℕ) (terms : List (ℕ × ℕ)) (s : Store)
    → KeysIsEvictable s terms
    → Evicts s (drop_oldest limit terms s)
unfolding drop_oldest
drop_oldest-Evicts limit [] s h = Evicts-refl s
drop_oldest-Evicts limit ((i, t) ∷ rest) s h = elim (Bool-cases (leb (length s.tasks) limit)) [
  | inl yes_ ↦ rw yes_ (Evicts-refl s)
  | inr no_ ↦ rw no_ (
      Evicts-trans (forget-Evicts i s h.0) (
        drop_oldest-Evicts limit rest (forget i s)
          (keys-Evicts s (forget i s) rest (forget-Evicts i s h.0) h.1)))
]

none-new-false :
    {s t : Store} → Evicts s t → (j : ℕ) → member j s.tasks ≡ false → member j t.tasks ≡ false
none-new-false {s} {t} h j e = elim (Bool-cases (member j t.tasks)) [
  | inr no_ ↦ no_
  | inl yes_ ↦ cc (h.none_new j yes_, e)
]

forgotten : (i j : ℕ) (s : Store) → (i == j) ≡ true → member j (forget i s).tasks ≡ false
unfolding forget
forgotten i j s e = ground (arith, member-without i j s.tasks)

sorted_keys : (s : Store) → KeysIsEvictable (collect s.tasks s).1 (sort_aged (collect s.tasks s).0)
sorted_keys s =
    keys-Evicts s (collect s.tasks s).1 (sort_aged (collect s.tasks s).0) (collect-Evicts s.tasks s)
      (sort_aged_keys s (collect s.tasks s).0 (collect_keys s.tasks s s (Evicts-refl s)))

-- After the loop the limit holds, or every key is gone from the map.
drop_oldest_clears :
    (limit : ℕ) (terms : List (ℕ × ℕ)) (s : Store)
    → KeysIsEvictable s terms
    → (length (drop_oldest limit terms s).tasks ≤ limit)
      ⊎ ((j : ℕ) → has_key j terms ≡ true → member j (drop_oldest limit terms s).tasks ≡ false)
unfolding drop_oldest
drop_oldest_clears limit [] s h = inr (λ j k. cc)
drop_oldest_clears limit ((i, t) ∷ rest) s h = elim (Bool-cases (leb (length s.tasks) limit)) [
  | inl yes_ ↦ inl (rw yes_ (leb→le (length s.tasks) limit yes_))
  | inr no_ ↦ rw no_ (or_clears (drop_oldest_clears limit rest (forget i s) later))
]
  where
    later : KeysIsEvictable (forget i s) rest
    later = keys-Evicts s (forget i s) rest (forget-Evicts i s h.0) h.1

    first_gone :
        (j : ℕ) → (i == j) ≡ true → member j (drop_oldest limit rest (forget i s)).tasks ≡ false
    first_gone j eq =
        none-new-false (drop_oldest-Evicts limit rest (forget i s) later) j (forgotten i j s eq)

    or_clears :
        (length (drop_oldest limit rest (forget i s)).tasks ≤ limit)
          ⊎ ((j : ℕ)
              → has_key j rest ≡ true
              → member j (drop_oldest limit rest (forget i s)).tasks ≡ false)
        → (length (drop_oldest limit rest (forget i s)).tasks ≤ limit)
          ⊎ ((j : ℕ)
              → has_key j ((i, t) ∷ rest) ≡ true
              → member j (drop_oldest limit rest (forget i s)).tasks ≡ false)
    or_clears (inl le) = inl le
    or_clears (inr all) = inr (λ j k. elim (Bool-cases (i == j)) [
      | inl yes_ ↦ first_gone j yes_
      | inr no_ ↦ all j (ground arith)
    ])

cap_tasks-Evicts : (limit : ℕ) (s : Store) → Evicts s (cap_tasks limit s)
unfolding cap_tasks
cap_tasks-Evicts limit s = elim (Bool-cases (leb (length s.tasks) limit)) [
  | inl yes_ ↦ rw yes_ (Evicts-refl s)
  | inr no_ ↦ rw no_ (
      Evicts-trans (collect-Evicts s.tasks s) (
        drop_oldest-Evicts limit (sort_aged (collect s.tasks s).0) (collect s.tasks s).1
          (sorted_keys s)))
]

-- Eviction takes tasks out of the map and fills the cache of times, and nothing else: no record, in-flight
-- mark or counter changes, no id is new in the map, and an id leaves it only when its task is final and has
-- no running handler.
pub evict-Evicts : (now : ℕ) (s : Store) → Evicts s (evict now s)
unfolding evict
evict-Evicts now s =
    Evicts-trans (expire_all-Evicts (now - limit_or default_max_age s.max_age) s.tasks s) (
      cap_tasks-Evicts (limit_or default_max_tasks s.max_tasks)
        (expire_all (now - limit_or default_max_age s.max_age) s.tasks s))

cap_tasks_bound :
    (limit : ℕ) (s : Store)
    → (length (cap_tasks limit s).tasks ≤ limit)
      ⊎ ((j : ℕ) → member j (cap_tasks limit s).tasks ≡ true → evictable s j ≡ false)
unfolding cap_tasks
cap_tasks_bound limit s = elim (Bool-cases (leb (length s.tasks) limit)) [
  | inl yes_ ↦ inl (rw yes_ (leb→le (length s.tasks) limit yes_))
  | inr no_ ↦
      rw no_
        (elim (drop_oldest_clears limit (sort_aged (collect s.tasks s).0) (collect s.tasks s).1
          (sorted_keys s)) [
            | inl le ↦ inl le
            | inr gone ↦ inr (λ j m. elim (Bool-cases (evictable s j)) [
              | inr no_ ↦ no_
              | inl yes_ ↦ cc (
                m,
                gone j (
                    has_key-sort_aged j (collect s.tasks s).0
                    ∙ collect_covers s.tasks s j (was j m) yes_),
              )
            ])
          ])
]
  where
    was :
        (j : ℕ)
        → member j (drop_oldest limit (sort_aged (collect s.tasks s).0) (collect s.tasks s).1).tasks
          ≡ true
        → member j s.tasks ≡ true
    was j m = (collect-Evicts s.tasks s).none_new j (
        (drop_oldest-Evicts limit (sort_aged (collect s.tasks s).0) (collect s.tasks s).1
            (sorted_keys s)).none_new
          j m)

-- After eviction the map holds at most the configured number of tasks, or else every task in it may not be
-- evicted: its handler may still run, or its state is not final.
pub evict_bound :
    (now : ℕ) (s : Store)
    → (length (evict now s).tasks ≤ limit_or default_max_tasks s.max_tasks)
      ⊎ ((j : ℕ) → member j (evict now s).tasks ≡ true → evictable s j ≡ false)
unfolding evict
evict_bound now s =
    elim (cap_tasks_bound (limit_or default_max_tasks s.max_tasks) (expire_all cutoff s.tasks s)) [
      | inl le ↦ inl le
      | inr h ↦ inr (λ j m.
          sym (
            evictable-Evicts s (expire_all cutoff s.tasks s) j (expire_all-Evicts cutoff s.tasks s))
          ∙ h j m)
    ]
  where
    cutoff : ℕ
    cutoff = now - limit_or default_max_age s.max_age
