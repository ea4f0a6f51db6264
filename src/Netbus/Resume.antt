-- ===== src/Netbus/Resume.antt =====
-- What a client's reconnections deliver to its bus.
use native.Mathlib.Nat.{zero-add}
use gori.Prelude.{
  ltb, leb, ◌==◌, if◌then◌else◌, Bool-cases, length, select, select-append, str_eq, ℕ, suc, ◌+◌,
  ◌≤◌, min, max, String, ◌≡◌, refl, sym, ap, ◌∙◌, inl, inr, Bool, true, false, not, ◌&&◌, some,
  List, [], ◌∷◌, ◌++◌, map, arith,
}
use gori.Netbus.{Event}
use gori.Netbus.Window.{number}
use gori.Netbus.Client.{stream, receive}

-- The events with ids above `lo`, up to `hi`.
abbrev pub window : ℕ → ℕ → List Event → List Event
window lo hi = select (λ ev. ltb lo ev.id && leb ev.id hi)

abbrev pub others : String → List Event → List Event
others origin = select (λ ev. not (str_eq ev.origin origin))

window-low :
    (a b hi n : ℕ) (es : List Event)
    → a ≤ n
    → b ≤ n
    → window a hi (number n es) ≡ window b hi (number n es)
window-low a b hi n [] la lb = refl
window-low a b hi n (e ∷ es) la lb =
    ground (arith, window-low a b hi (suc n) es (omega (arith, la)) (omega (arith, lb)))

window-none : (a b n : ℕ) (es : List Event) → b ≤ n → window a b (number n es) ≡ []
window-none a b n [] le = refl
window-none a b n (e ∷ es) le = ground (arith, window-none a b (suc n) es (omega (arith, le)))

window-high :
    (a b c n : ℕ) (es : List Event)
    → c ≡ max a (min b (n + length es))
    → window a b (number n es) ≡ window a c (number n es)
window-high a b c n [] e = refl
window-high a b c n (x ∷ es) e = ground (arith, window-high a b c (suc n) es (omega (arith, e)))

window-join :
    (a b c n : ℕ) (es : List Event)
    → a ≤ b
    → b ≤ c
    → window a b (number n es) ++ window b c (number n es) ≡ window a c (number n es)
window-join a b c n [] ab bc = refl
window-join a b c n (e ∷ es) ab bc = elim (Bool-cases (leb (suc n) b)) [
  | inr no_ ↦ ground (
    arith,
    window-none a b (suc n) es (ground arith),
    window-low a b c (suc n) es (ground arith) (ground arith),
  )
  | inl yes_ ↦ ground (arith, window-join a b c (suc n) es ab bc)
]

window-empty : (a n : ℕ) (es : List Event) → window a a (number n es) ≡ []
window-empty a n [] = refl
window-empty a n (e ∷ es) = ground (arith, window-empty a (suc n) es)

stream-window :
    (origin : String) (last lo hi n : ℕ) (es : List Event)
    → lo ≤ last
    → min n hi ≤ last
    → stream origin last (map some (window lo hi (number n es)))
      ≡ (others origin (window last hi (number n es)), max last (min hi (n + length es)))
unfolding stream
stream-window origin last lo hi n [] l m = ap (λ k. ([], k)) (omega arith)
stream-window origin last lo hi n (e ∷ es) l m =
    elim (Bool-cases (ltb lo (suc n) && leb (suc n) hi)) [
      | inr out ↦
          rw (out, (let o : (ltb last (suc n) && leb (suc n) hi) ≡ false = ground arith in o))
            (stream-window origin last lo hi (suc n) es l (ground arith)
              ∙ ap (λ k. (later last, k)) (omega arith))
      | inl inside ↦ elim (Bool-cases (ltb last (suc n))) [
        | inr seen ↦
            rw
              (
                inside,
                (let o : (ltb last (suc n) && leb (suc n) hi) ≡ false = ground arith in o),
                (let d : (not (suc n == 0) && leb (suc n) last) ≡ true = ground arith in d),
              )
              (stream-window origin last lo hi (suc n) es l (ground arith)
                ∙ ap (λ k. (later last, k)) (omega arith))
        | inl new ↦
            rw
              (
                inside,
                (let o : (ltb last (suc n) && leb (suc n) hi) ≡ true = ground arith in o),
                (let d : (not (suc n == 0) && leb (suc n) last) ≡ false = ground arith in d),
                new,
              )
              (delivered (str_eq e.origin origin) (window last hi (number (suc n) es)) (
                stream-window origin (suc n) lo hi (suc n) es (ground arith) (omega arith)
                ∙ ap (λ k. (later (suc n), k)) (ground arith)
                ∙ ap (λ xs. (others origin xs, max last (min hi (n + suc (length es)))))
                    (window-low (suc n) last hi (suc n) es (omega arith) (ground arith))))
      ]
    ]
  where
    later : ℕ → List Event
    later k = others origin (window k hi (number (suc n) es))

    delivered :
        (own : Bool) (xs : List Event) {r : List Event × ℕ} {k : ℕ}
        → r ≡ (others origin xs, k)
        → (if own then r else (record e { id = suc n } ∷ r.0, r.1))
          ≡ (if not own then record e { id = suc n } ∷ others origin xs else others origin xs, k)
    delivered true xs h = h
    delivered false xs h = ap (λ r. (record e { id = suc n } ∷ r.0, r.1)) h

-- The last id that a client has seen after connections that served these windows.
unfoldable pub reach : ℕ → ℕ → List (ℕ × ℕ) → ℕ
reach total last [] = last
reach total last ((lo, hi) ∷ cs) = reach total (max last (min hi total)) cs

-- Each connection serves from an id on that the client had seen when it connected.
unfoldable pub Follows : ℕ → ℕ → List (ℕ × ℕ) → Type 0
Follows total last [] = Unit
Follows total last ((lo, hi) ∷ cs) = (lo ≤ last) × Follows total (max last (min hi total)) cs

reach_ge : (total last : ℕ) (cs : List (ℕ × ℕ)) → last ≤ reach total last cs
unfolding reach
reach_ge total last [] = omega arith
reach_ge total last ((lo, hi) ∷ cs) = omega (arith, reach_ge total (max last (min hi total)) cs)

-- Over any number of connections, of which each serves a run of the hub's events that starts no later than
-- behind the last id that the client has seen, the client's bus gets each event beyond the
-- first such id exactly once and in order, up to the last one served, without the client's own events.
pub receive_exactly_once :
    (origin : String) (es : List Event) (last : ℕ) (cs : List (ℕ × ℕ))
    → Follows (length es) last cs
    → receive origin last (map (λ c. map (λ ev. some ev) (window c.0 c.1 (number 0 es))) cs) ≡ (
      others origin (window last (reach (length es) last cs) (number 0 es)),
      reach (length es) last cs,
    )
unfolding receive reach Follows
receive_exactly_once origin es last [] f =
    ap (λ xs. (others origin xs, last)) (sym (window-empty last 0 es))
receive_exactly_once origin es last ((lo, hi) ∷ cs) f =
    rw
      (
        stream-window origin last lo hi 0 es f.0 (omega arith),
        zero-add,
        receive_exactly_once origin es (max last (min hi (length es))) cs f.1,
      )
      (ap (λ xs. (xs, reach (length es) mid cs))
        (ap
            (λ xs.
              others origin xs
              ++ others origin (window mid (reach (length es) mid cs) (number 0 es)))
            (window-high last hi mid 0 es (omega arith))
          ∙ sym (
              select-append (λ ev. not (str_eq ev.origin origin)) (window last mid (number 0 es))
                (window mid (reach (length es) mid cs) (number 0 es)))
          ∙ ap (others origin) (
              window-join last mid (reach (length es) mid cs) 0 es (omega arith)
                (reach_ge (length es) mid cs))))
  where
    mid : ℕ
    mid = max last (min hi (length es))
