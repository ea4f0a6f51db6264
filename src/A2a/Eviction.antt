-- ===== src/A2a/Eviction.antt =====
-- What eviction may take, and how far it goes.
pub mod Terms
pub mod Bound
use gori.Prelude.{
  ltb, ◌==◌, ==_iff, Bool-cases, ℕ, ◌≡◌, refl, ap, ◌∙◌, inl, inr, true, false, not, ◌&&◌, Option,
  none, some, List, [], ◌∷◌, arith,
}
use gori.A2a.Store.{
  Store, member, without, time_of, parse_time, or_parse, terminal_time, forget, evictable, drop_old,
  expire, expire_all,
}

-- From `s` to `s'` only evictable tasks have left the map, and caches were filled.
pub record Evicts (s s' : Store) : Type 0 where
  pub same_heap : s'.heap ≡ s.heap
  pub same_in_flight : s'.in_flight ≡ s.in_flight
  pub same_interrupted : s'.interrupted ≡ s.interrupted
  pub same_seq : s'.seq ≡ s.seq
  pub none_new : (i : ℕ) → member i s'.tasks ≡ true → member i s.tasks ≡ true
  pub keeps : (i : ℕ) → evictable s i ≡ false → member i s.tasks ≡ true → member i s'.tasks ≡ true

pub cache-Evicts : (ts : List (ℕ × ℕ)) (s : Store) → Evicts s (record s { terminal_at = ts })
cache-Evicts ts s = record {
  same_heap = refl;
  same_in_flight = refl;
  same_interrupted = refl;
  same_seq = refl;
  none_new = λ i h. h;
  keeps = λ i e h. h;
}

pub Evicts-refl : (s : Store) → Evicts s s
Evicts-refl s = cache-Evicts s.terminal_at s

pub evictable-Evicts : (s s' : Store) (i : ℕ) → Evicts s s' → evictable s' i ≡ evictable s i
unfolding evictable
evictable-Evicts s s' i e = rw (e.same_heap, e.same_in_flight)

pub Evicts-trans : {s t u : Store} → Evicts s t → Evicts t u → Evicts s u
Evicts-trans {s} {t} {u} p q = record {
  same_heap = q.same_heap ∙ p.same_heap;
  same_in_flight = q.same_in_flight ∙ p.same_in_flight;
  same_interrupted = q.same_interrupted ∙ p.same_interrupted;
  same_seq = q.same_seq ∙ p.same_seq;
  none_new = λ i h. p.none_new i (q.none_new i h);
  keeps = λ i e h. q.keeps i (evictable-Evicts s t i p ∙ e) (p.keeps i e h);
}

pub member-without :
    (i j : ℕ) (js : List ℕ) → member j (without i js) ≡ (not (i == j) && member j js)
member-without i j [] = ground arith
member-without i j (k ∷ ks) = ground (arith, member-without i j ks)

pub forget-Evicts : (i : ℕ) (s : Store) → evictable s i ≡ true → Evicts s (forget i s)
unfolding forget
forget-Evicts i s e = record {
  same_heap = refl;
  same_in_flight = refl;
  same_interrupted = refl;
  same_seq = refl;
  none_new = λ j h. ground (arith, member-without i j s.tasks);
  keeps = λ j f h. ground (arith, member-without i j s.tasks, same_evictable j f);
}
  where
    same_evictable : (j : ℕ) → evictable s j ≡ false → (i == j) ≡ false
    same_evictable j f = elim (Bool-cases (i == j)) [
      | inr no_ ↦ no_
      | inl eq ↦ cc (ap (evictable s) ((==_iff i j).0 eq), e, f)
    ]

pub parse_time-Evicts : (i : ℕ) (o : Option ℕ) (s : Store) → Evicts s (parse_time i o s).1
unfolding parse_time
parse_time-Evicts i none s = Evicts-refl s
parse_time-Evicts i (some t) s = cache-Evicts _ s

pub or_parse-Evicts : (i : ℕ) (o : Option ℕ) (s : Store) → Evicts s (or_parse i o s).1
unfolding or_parse
or_parse-Evicts i (some t) s = Evicts-refl s
or_parse-Evicts i none s = parse_time-Evicts i (s.heap i).status.timestamp s

pub terminal_time-Evicts : (i : ℕ) (s : Store) → Evicts s (terminal_time i s).1
unfolding terminal_time
terminal_time-Evicts i s = or_parse-Evicts i (time_of i s.terminal_at) s

pub drop_old-Evicts :
    (cutoff i : ℕ) (s : Store) (r : Option ℕ × Store)
    → Evicts s r.1
    → evictable s i ≡ true
    → Evicts s (drop_old cutoff i r)
unfolding drop_old
drop_old-Evicts cutoff i s (none, s') h e = h
drop_old-Evicts cutoff i s (some t, s') h e = elim (Bool-cases (ltb t cutoff)) [
  | inl yes_ ↦ rw yes_ (Evicts-trans h (forget-Evicts i s' (evictable-Evicts s s' i h ∙ e)))
  | inr no_ ↦ rw no_ h
]

pub expire-Evicts : (cutoff i : ℕ) (s : Store) → Evicts s (expire cutoff i s)
unfolding expire
expire-Evicts cutoff i s = elim (Bool-cases (evictable s i)) [
  | inl yes_ ↦
      rw yes_ (drop_old-Evicts cutoff i s (terminal_time i s) (terminal_time-Evicts i s) yes_)
  | inr no_ ↦ rw no_ (Evicts-refl s)
]

pub expire_all-Evicts : (cutoff : ℕ) (is : List ℕ) (s : Store) → Evicts s (expire_all cutoff is s)
unfolding expire_all
expire_all-Evicts cutoff [] s = Evicts-refl s
expire_all-Evicts cutoff (i ∷ is) s =
    Evicts-trans (expire-Evicts cutoff i s) (expire_all-Evicts cutoff is (expire cutoff i s))
