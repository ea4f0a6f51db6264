-- ===== src/Netbus/Replay.antt =====
-- `handleSubscribe` of netbus/hub.go: the replay and the live stream of one subscriber. `live` is what its
-- channel gives until it is closed; a write that fails ends the loop and is not modelled.
use gori.Prelude.{
  ltb, leb, ◌==◌, if◌then◌else◌, Bool-cases, length, select, length-append, select-append, ℕ, suc,
  ◌+◌, ◌≤◌, ◌<◌, String, ◌≡◌, refl, sym, ap, ◌∙◌, inl, inr, Bool, true, false, not, ◌&&◌, ◌||◌,
  List, [], ◌∷◌, ◌++◌, map, arith,
}
use gori.Netbus.{Event, Ring, new_ring, above, after, wants}
use gori.Netbus.Window.{
  number, add_all, number-append, above-append, above-number, above-old, replay_complete,
}

abbrev pub has_id : ℕ → List ℕ → Bool
has_id i [] = false
has_id i (j ∷ js) = j == i || has_id i js

abbrev pub without_id : ℕ → List ℕ → List ℕ
without_id i [] = []
without_id i (j ∷ js) = let rest = without_id i js in if j == i then rest else j ∷ rest

-- The live loop: what it writes.
unfoldable pub serve_live : List ℕ → List Event → List Event
serve_live replayed [] = []
serve_live replayed (ev ∷ evs) =
    let skipped = serve_live (without_id ev.id replayed) evs in
    let written = ev ∷ serve_live replayed evs in if has_id ev.id replayed then skipped else written

abbrev pub event_ids : List Event → List ℕ
event_ids = map (λ ev. ev.id)

-- What a subscriber is sent: the replay from the ring, if it names an event, and then the live events.
unfoldable pub serve : ℕ → List String → Ring → List Event → List Event
serve last topics r live =
    if ltb 0 last
    then (let snapshot = after last r in
        select (wants topics) snapshot ++ serve_live (event_ids snapshot) live)
    else serve_live [] live

-- The ids beyond `n` that have been replayed are those up to `b`.
abbrev ReplayedIs : ℕ → ℕ → List ℕ → Type 0
ReplayedIs n b ids = (j : ℕ) → n < j → has_id j ids ≡ leb j b

has_id-without_id :
    (i j : ℕ) (js : List ℕ) → has_id j (without_id i js) ≡ (not (i == j) && has_id j js)
has_id-without_id i j [] = ground arith
has_id-without_id i j (k ∷ ks) = ground (arith, has_id-without_id i j ks)

serve_live-number :
    (topics : List String) (b n : ℕ) (es : List Event) (ids : List ℕ)
    → ReplayedIs n b ids
    → serve_live ids (select (wants topics) (number n es))
      ≡ select (wants topics) (above b (number n es))
unfolding serve_live
serve_live-number topics b n [] ids h = refl
serve_live-number topics b n (e ∷ es) ids h =
    elim (Bool-cases (wants topics (record e { id = suc n }))) [
      | inr no_ ↦ elim (Bool-cases (ltb b (suc n))) [
        | inl new ↦ rw (new, no_) (serve_live-number topics b (suc n) es ids (later h))
        | inr old ↦ rw (old, no_) (serve_live-number topics b (suc n) es ids (later h))
      ]
      | inl yes_ ↦ elim (Bool-cases (ltb b (suc n))) [
        | inl new ↦
            rw
              (
                new,
                yes_,
                (let fresh : has_id (suc n) ids ≡ false = h (suc n) (omega arith) ∙ ground arith in
                    fresh),
              )
              (ap (λ r. record e { id = suc n } ∷ r)
                (serve_live-number topics b (suc n) es ids (later h)))
        | inr old ↦
            rw
              (
                old,
                yes_,
                (let seen : has_id (suc n) ids ≡ true = h (suc n) (omega arith) ∙ ground arith in
                    seen),
              )
              (serve_live-number topics b (suc n) es (without_id (suc n) ids) (skip h))
      ]
    ]
  where
    later : ReplayedIs n b ids → ReplayedIs (suc n) b ids
    later f j l = f j (omega (arith, l))

    skip : ReplayedIs n b ids → ReplayedIs (suc n) b (without_id (suc n) ids)
    skip f j l = has_id-without_id (suc n) j ids ∙ ground (arith, f j (omega (arith, l)))

event_ids-append :
    (es fs : List Event) (j : ℕ)
    → has_id j (event_ids (es ++ fs)) ≡ (has_id j (event_ids es) || has_id j (event_ids fs))
event_ids-append [] fs j = refl
event_ids-append (e ∷ es) fs j = ground (arith, event_ids-append es fs j)

has_id-number :
    (n j : ℕ) (es : List Event)
    → has_id j (event_ids (number n es)) ≡ (ltb n j && leb j (n + length es))
has_id-number n j [] = ground arith
has_id-number n j (e ∷ es) = ground (arith, has_id-number (suc n) j es)

has_id-above :
    (k j : ℕ) (es : List Event)
    → has_id j (event_ids (above k es)) ≡ (ltb k j && has_id j (event_ids es))
has_id-above k j [] = ground arith
has_id-above k j (e ∷ es) = ground (arith, has_id-above k j es)

live_part :
    (before during later : List Event)
    → above (length before + length during) (number (length before) (during ++ later))
      ≡ number (length before + length during) later
live_part before during later =
    rw
      (
        number-append (length before) during later,
        above-append (length before + length during) (number (length before) during),
        above-old (length before + length during) (length before) during (omega arith),
      )
      (above-number (length before + length during) (length before + length during) later
        (omega arith))

all_parts :
    (before during later : List Event) (last : ℕ)
    → last ≤ length before
    → above last (number 0 (before ++ during ++ later))
      ≡ above last (number 0 (before ++ during)) ++ number (length before + length during) later
all_parts before during later last le =
    ap (above last) (number-append 0 (before ++ during) later)
    ∙ above-append last (number 0 (before ++ during)) (number (0 + length (before ++ during)) later)
    ∙ ap (λ xs. above last (number 0 (before ++ during)) ++ xs)
        (above-number last (0 + length (before ++ during)) later
            (omega (arith, le, length-append before during))
          ∙ ap (λ k. number k later) (omega (arith, length-append before during)))

-- A subscriber that resumes after the event `last` is sent each later event of its topics exactly once, in
-- order, however the publishing falls around its arrival: `before` is published before it registers,
-- `during` between that and the replay, and `later` after the replay. This holds if it has missed no more than the
-- ring holds and its channel took all of its events.
pub serve_resumes :
    (before during later : List Event) (c last : ℕ) (topics : List String)
    → 0 < last
    → last ≤ length before
    → length before + length during ≤ last + c
    → serve last topics
        (add_all (before ++ during) (new_ring c))
        (select (wants topics) (number (length before) (during ++ later)))
      ≡ select (wants topics) (above last (number 0 (before ++ during ++ later)))
unfolding serve
serve_resumes before during later c last topics pos_ le fits =
    rw
      (
        (let on : ltb 0 last ≡ true = ground arith in on),
        replay_complete (before ++ during) c last (omega (arith, length-append before during)),
      )
      (ap (λ xs. select (wants topics) (above last (number 0 (before ++ during))) ++ xs)
          (serve_live-number topics (length before + length during) (length before)
              (during ++ later) _ replayed
            ∙ ap (select (wants topics)) (live_part before during later))
        ∙ sym (
            select-append (wants topics) (above last (number 0 (before ++ during)))
              (number (length before + length during) later))
        ∙ ap (select (wants topics)) (sym (all_parts before during later last le)))
  where
    replayed :
        ReplayedIs
          (length before)
          (length before + length during)
          (event_ids (above last (number 0 (before ++ during))))
    replayed j l =
        has_id-above last j (number 0 (before ++ during))
        ∙ ground (arith, has_id-number 0 j (before ++ during), length-append before during)
