-- ===== src/A2a/Eviction/Terms.antt =====
-- The terms that eviction collects and sorts: the keys of exactly the evictable tasks.
use gori.Prelude.{
  leb, ◌==◌, ==_iff, Bool-cases, All, All-append, ℕ, ◌≡◌, refl, sym, ap, subst, ◌∙◌, inl, inr, Bool,
  true, false, ◌||◌, List, [], ◌∷◌, ◌++◌, arith,
}
use gori.A2a.Store.{Store, member, evictable, collect_one, collect, insert_aged, sort_aged}
use gori.A2a.Eviction.{Evicts, Evicts-refl, evictable-Evicts, Evicts-trans, terminal_time-Evicts}

abbrev pub has_key : ℕ → List (ℕ × ℕ) → Bool
has_key j [] = false
has_key j ((i, t) ∷ rest) = i == j || has_key j rest

-- Keys of terms of which all can be evicted.
abbrev pub KeysIsEvictable : Store → List (ℕ × ℕ) → Type 0
KeysIsEvictable s terms = All (λ p. evictable s p.0 ≡ true) terms

pub collect_one-Evicts : (i : ℕ) (s : Store) → Evicts s (collect_one i s).1
unfolding collect_one
collect_one-Evicts i s = elim (Bool-cases (evictable s i)) [
  | inl yes_ ↦ rw yes_ (terminal_time-Evicts i s)
  | inr no_ ↦ rw no_ (Evicts-refl s)
]

pub collect-Evicts : (is : List ℕ) (s : Store) → Evicts s (collect is s).1
unfolding collect
collect-Evicts [] s = Evicts-refl s
collect-Evicts (i ∷ is) s =
    Evicts-trans (collect_one-Evicts i s) (collect-Evicts is (collect_one i s).1)

pub has_key-append :
    (j : ℕ) (xs ys : List (ℕ × ℕ)) → has_key j (xs ++ ys) ≡ (has_key j xs || has_key j ys)
has_key-append j [] ys = refl
has_key-append j (x ∷ xs) ys = ground (arith, has_key-append j xs ys)

pub collect_one_keys : (i : ℕ) (s t : Store) → Evicts s t → KeysIsEvictable s (collect_one i t).0
unfolding collect_one
collect_one_keys i s t h = elim (Bool-cases (evictable t i)) [
  | inl yes_ ↦ rw yes_ (sym (evictable-Evicts s t i h) ∙ yes_, tt)
  | inr no_ ↦ rw no_ tt
]

pub collect_one_covers :
    (i : ℕ) (s : Store) → evictable s i ≡ true → has_key i (collect_one i s).0 ≡ true
unfolding collect_one
collect_one_covers i s e = rw e (ground arith)

pub collect_keys : (is : List ℕ) (s t : Store) → Evicts s t → KeysIsEvictable s (collect is t).0
unfolding collect
collect_keys [] s t h = tt
collect_keys (i ∷ is) s t h =
    All-append (λ p. evictable s p.0 ≡ true) (collect_one i t).0 (collect is (collect_one i t).1).0
      (collect_one_keys i s t h)
      (collect_keys is s (collect_one i t).1 (Evicts-trans h (collect_one-Evicts i t)))

pub collect_covers :
    (is : List ℕ) (s : Store) (j : ℕ)
    → member j is ≡ true
    → evictable s j ≡ true
    → has_key j (collect is s).0 ≡ true
unfolding collect
collect_covers [] s j m e = cc
collect_covers (i ∷ is) s j m e =
    has_key-append j (collect_one i s).0 (collect is (collect_one i s).1).0
    ∙ elim (Bool-cases (i == j)) [
      | inl yes_ ↦ ground (arith, here ((==_iff i j).0 yes_))
      | inr no_ ↦ ground (
        arith,
        collect_covers is (collect_one i s).1 j (ground arith)
            (evictable-Evicts s (collect_one i s).1 j (collect_one-Evicts i s) ∙ e),
      )
    ]
  where
    here : i ≡ j → has_key j (collect_one i s).0 ≡ true
    here eq =
        subst (λ k. has_key k (collect_one i s).0 ≡ true) eq
          (collect_one_covers i s (ap (evictable s) eq ∙ e))

pub has_key-insert_aged :
    (j : ℕ) (a : ℕ × ℕ) (terms : List (ℕ × ℕ))
    → has_key j (insert_aged a terms) ≡ has_key j (a ∷ terms)
unfolding insert_aged
has_key-insert_aged j (i, t) [] = refl
has_key-insert_aged j (i, t) ((k, u) ∷ rest) = ground (arith, has_key-insert_aged j (i, t) rest)

pub has_key-sort_aged :
    (j : ℕ) (terms : List (ℕ × ℕ)) → has_key j (sort_aged terms) ≡ has_key j terms
unfolding sort_aged
has_key-sort_aged j [] = refl
has_key-sort_aged j ((i, t) ∷ rest) =
    ground (arith, has_key-insert_aged j (i, t) (sort_aged rest), has_key-sort_aged j rest)

pub insert_aged_keys :
    (s : Store) (a : ℕ × ℕ) (terms : List (ℕ × ℕ))
    → KeysIsEvictable s (a ∷ terms)
    → KeysIsEvictable s (insert_aged a terms)
unfolding insert_aged
insert_aged_keys s (i, t) [] h = h
insert_aged_keys s (i, t) ((k, u) ∷ rest) h = elim (Bool-cases (leb t u)) [
  | inl yes_ ↦ rw yes_ h
  | inr no_ ↦ rw no_ (h.1.0, insert_aged_keys s (i, t) rest (h.0, h.1.1))
]

pub sort_aged_keys :
    (s : Store) (terms : List (ℕ × ℕ))
    → KeysIsEvictable s terms
    → KeysIsEvictable s (sort_aged terms)
unfolding sort_aged
sort_aged_keys s [] h = tt
sort_aged_keys s (a ∷ rest) h =
    insert_aged_keys s a (sort_aged rest) (h.0, sort_aged_keys s rest h.1)

pub keys-Evicts :
    (s t : Store) (terms : List (ℕ × ℕ))
    → Evicts s t
    → KeysIsEvictable s terms
    → KeysIsEvictable t terms
keys-Evicts s t [] h k = tt
keys-Evicts s t (a ∷ rest) h k = (evictable-Evicts s t a.0 h ∙ k.0, keys-Evicts s t rest h k.1)
