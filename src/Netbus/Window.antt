-- ===== src/Netbus/Window.antt =====
-- The ring of recent events: what it holds, and what a replay from it gives.
use native.Mathlib.Nat.{zero-add, suc-add}
use gori.Prelude.{
  ltb, length, drop, length-append, length-drop, select-append, ℕ, zero, suc, ◌+◌, ◌-◌, ◌≤◌, ◌≡◌,
  refl, sym, ap, subst, ◌∙◌, true, false, List, [], ◌∷◌, ◌++◌, append-nil, append_assoc, arith,
}
use gori.Netbus.{Event, Ring, new_ring, add, above, after}

-- The events that got the ids from `n + 1` on.
abbrev pub number : ℕ → List Event → List Event
number n [] = []
number n (e ∷ es) = record e { id = suc n } ∷ number (suc n) es

unfoldable pub add_all : List Event → Ring → Ring
add_all [] r = r
add_all (e ∷ es) r = add_all es (add e r).1

pub number-append :
    (n : ℕ) (es fs : List Event) → number n (es ++ fs) ≡ number n es ++ number (n + length es) fs
number-append n [] fs = ap (λ k. number k fs) (omega arith)
number-append n (e ∷ es) fs =
    rw (number-append (suc n) es fs)
      (ap (λ k. record e { id = suc n } ∷ number (suc n) es ++ number k fs) (omega arith))

length-number : (n : ℕ) (es : List Event) → length (number n es) ≡ length es
length-number n [] = refl
length-number n (e ∷ es) = ap suc (length-number (suc n) es)

pub above-append : (k : ℕ) (es fs : List Event) → above k (es ++ fs) ≡ above k es ++ above k fs
above-append k es fs = select-append (λ ev. ltb k ev.id) es fs

pub above-number : (k n : ℕ) (es : List Event) → k ≤ n → above k (number n es) ≡ number n es
above-number k n [] le = refl
above-number k n (e ∷ es) le = rw (
  let yes_ : ltb k (suc n) ≡ true = ground arith in yes_,
  above-number k (suc n) es (omega arith),
)

pub above-old : (k n : ℕ) (es : List Event) → n + length es ≤ k → above k (number n es) ≡ []
above-old k n [] le = refl
above-old k n (e ∷ es) le =
    rw (let no_ : ltb k (suc n) ≡ false = ground arith in no_, above-old k (suc n) es (omega arith))

-- The oldest events, with ids up to `n + m`, do not matter above `n + m`.
above-drop :
    (k n m : ℕ) (es : List Event)
    → n + m ≤ k
    → above k (drop m (number n es)) ≡ above k (number n es)
above-drop k n zero es le = refl
above-drop k n (suc m) [] le = refl
above-drop k n (suc m) (e ∷ es) le =
    rw (
      let no_ : ltb k (suc n) ≡ false = ground arith in no_,
      above-drop k (suc n) m es (omega arith),
    )

-- A ring into which these events have been published.
pub record Holds (es : List Event) (r : Ring) : Type 0 where
  pub seq_is : r.seq ≡ length es
  pub buf_is : r.buf ≡ drop (length es - r.cap) (number 0 es)

drop-append :
    (n m : ℕ) (xs ys : List Event)
    → n ≤ length xs
    → drop m (drop n xs ++ ys) ≡ drop (n + m) (xs ++ ys)
drop-append zero m xs ys le = ap (λ k. drop k (xs ++ ys)) (omega arith)
drop-append (suc n) m [] ys le = ground arith
drop-append (suc n) m (x ∷ xs) ys le = rw suc-add (drop-append n m xs ys (omega arith))

abbrev kept : ℕ → List Event → List Event
kept c xs = drop (length xs - c) xs

kept-push :
    (c : ℕ) (xs : List Event) (e : Event) → kept c (kept c xs ++ e ∷ []) ≡ kept c (xs ++ e ∷ [])
kept-push c xs e =
    drop-append (length xs - c) (length (kept c xs ++ e ∷ []) - c) xs (e ∷ []) (omega arith)
    ∙ ap (λ k. drop k (xs ++ e ∷ []))
        (omega (
          arith,
          length-append (kept c xs) (e ∷ []),
          length-append xs (e ∷ []),
          length-drop (length xs - c) xs,
        ))

add-Holds : (e : Event) (es : List Event) (r : Ring) → Holds es r → Holds (es ++ e ∷ []) (add e r).1
unfolding add
add-Holds e es r h = record {
  seq_is = omega (arith, h.seq_is, length-append es (e ∷ []));
  buf_is =
      rw (h.seq_is, number-append 0 es (e ∷ []), h.buf_is, zero-add)
        (ap
            (λ k.
              kept r.cap (drop (k - r.cap) (number 0 es) ++ record e { id = suc (length es) } ∷ []))
            (sym (length-number 0 es))
          ∙ kept-push r.cap (number 0 es) (record e { id = suc (length es) })
          ∙ ap (λ k. drop (k - r.cap) (number 0 es ++ record e { id = suc (length es) } ∷ []))
              (omega (
                arith,
                length-append es (e ∷ []),
                length-number 0 es,
                length-append (number 0 es) (record e { id = suc (length es) } ∷ []),
              )));
}

add_all-Holds : (fs es : List Event) (r : Ring) → Holds es r → Holds (es ++ fs) (add_all fs r)
unfolding add_all
add_all-Holds [] es r h = rw append-nil h
add_all-Holds (f ∷ fs) es r h =
    subst (λ xs. Holds xs (add_all (f ∷ fs) r)) (append_assoc es (f ∷ []) fs)
      (add_all-Holds fs (es ++ f ∷ []) (add f r).1 (add-Holds f es r h))

add_all_cap : (es : List Event) (r : Ring) → (add_all es r).cap ≡ r.cap
unfolding add_all add
add_all_cap [] r = refl
add_all_cap (e ∷ es) r = add_all_cap es (add e r).1

drop-nil : (k : ℕ) → drop {A = Event} k [] ≡ []
drop-nil zero = refl
drop-nil (suc k) = refl

-- After these events have been published through a new ring of capacity `c`, they have the ids
-- from 1 on in that order, and the ring holds the last `c` of them.
pub ring_window :
    (es : List Event) (c : ℕ)
    → ((add_all es (new_ring c)).seq ≡ length es)
      × ((add_all es (new_ring c)).buf ≡ drop (length es - c) (number 0 es))
ring_window es c = (
  h.seq_is,
  h.buf_is ∙ ap (λ k. drop (length es - k) (number 0 es)) (add_all_cap es (new_ring c)),
)
  where
    h : Holds es (add_all es (new_ring c))
    h = add_all-Holds es [] (new_ring c) (record { seq_is = refl; buf_is = sym (drop-nil (0 - c)) })

-- A client that has seen the events up to the id `last`, and has missed no more than the ring holds, is
-- replayed all the later ones.
pub replay_complete :
    (es : List Event) (c last : ℕ)
    → length es ≤ last + c
    → after last (add_all es (new_ring c)) ≡ above last (number 0 es)
unfolding after
replay_complete es c last le =
    rw ((ring_window es c).1) (above-drop last 0 (length es - c) es (omega arith))
