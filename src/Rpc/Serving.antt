-- ===== src/Rpc/Serving.antt =====
-- Which requests `Serve` of internal/rpc/server.go answers.
use mathlib.Core.Logic.{inl}
use gori.Prelude.{
  ltb, Bool-cases, >>=-eq-some, length, get_elem?, str_eq, ℕ, zero, suc, ◌+◌, ◌≤◌, String, ◌≡◌,
  refl, ap, subst, inr, Option, none, some, List, [], ◌∷◌, ◌++◌, arith,
}
use gori.Rpc.{
  version, code_parse_error, Request, Handler, is_notification, error_response, not_found,
  find_handler, run_handler, handle,
}
use gori.Rpc.Server.{
  max_concurrent, Incoming, malformed, request, Serving, Action, read, finish, remove_at,
  written_with, wrong_version, start, dispatch, accept, finish_at, step, play, drain,
}
use gori.Rpc.Asked.{
  count, count-append, asked, ids, waiting, response_to_id, ids_of, wrong_version_ids,
  count_written, count_queued, count-remove_at, length-remove_at, queued_length,
}

abbrev OnSome : {A : Type 0} → (A → Type 0) → Option A → Type 0
OnSome P none = Unit
OnSome P (some a) = P a

module _ {J W : Type 0} where
  abbrev pub asked_by : Action J W → List String
  asked_by (read m) = asked m
  asked_by (finish i) = []

  abbrev pub asked_in : List (Action J W) → List String
  asked_in [] = []
  asked_in (a ∷ as') = asked_by a ++ asked_in as'

  -- The answers that were given and those that are to come.
  abbrev tally : String → Serving J W → ℕ
  tally i s = count i (ids s.written) + count i (waiting s.in_flight)

  run_handler_ids :
      (r : Request J) (h : Option (Handler J W)) (w : W)
      → ids_of (run_handler r h w).0 ≡ asked (request r)
  unfolding run_handler not_found error_response
  run_handler_ids r none w = elim (Bool-cases (is_notification r)) [
    | inl yes_ ↦ rw yes_
    | inr no_ ↦ rw no_
  ]
  run_handler_ids r (some h) w = elim (Bool-cases (is_notification r)) [
    | inl yes_ ↦ rw yes_
    | inr no_ ↦ rw (no_, response_to_id r.id (h r.params w).0 no_)
  ]

  -- A step adds what its message asks for, and the handlers in flight keep within their limit.
  abbrev Counts : List String → Serving J W → Serving J W → Type 0
  Counts new s s' =
      ((i : String) → tally i s' ≡ tally i s + count i new) × (length s'.in_flight ≤ max_concurrent)

  refused_count :
      (i : String) (r : Request J) (s : Serving J W)
      → count i (ids (written_with (wrong_version r) s.written)) + count i (waiting s.in_flight)
        ≡ tally i s + count i (asked (request r))
  refused_count i r s =
      omega (arith, count_written i (wrong_version r) s.written, ap (count i) (wrong_version_ids r))

  module _ (hs : List (String × Handler J W)) where
    dispatch-Counts :
        (r : Request J) (s : Serving J W)
        → length s.in_flight ≤ max_concurrent
        → OnSome (Counts (asked (request r)) s) (dispatch r s)
    unfolding dispatch
    dispatch-Counts r s h = elim (Bool-cases (ltb (length s.in_flight) max_concurrent)) [
      | inl yes_ ↦
          rw yes_
            (λ i. omega (arith, count_queued i s.in_flight r), queued_length s.in_flight r yes_)
      | inr no_ ↦ rw no_ tt
    ]

    accept-Counts :
        (m : Incoming J) (s : Serving J W)
        → length s.in_flight ≤ max_concurrent
        → OnSome (Counts (asked m) s) (accept m s)
    unfolding accept dispatch error_response
    accept-Counts malformed s h = (
      λ i. omega (
        arith,
        count_written i (some (error_response "" code_parse_error "parse error")) s.written,
      ),
      h,
    )
    accept-Counts (request r) s h = elim (Bool-cases (str_eq r.jsonrpc version)) [
      | inl yes_ ↦ rw yes_ (dispatch-Counts r s h)
      | inr no_ ↦ rw no_ (λ i. refused_count i r s, h)
    ]

    finish_at-Counts :
        (k : ℕ) (o : Option (Request J)) (s : Serving J W)
        → get_elem? s.in_flight k ≡ o
        → length s.in_flight ≤ max_concurrent
        → OnSome (Counts [] s) (finish_at hs k o s)
    unfolding finish_at handle
    finish_at-Counts k none s e h = tt
    finish_at-Counts k (some r) s e h = (
      λ i. omega (
        arith,
        count_written i (run_handler r (find_handler r.method hs) s.world).0 s.written,
        ap (count i) (run_handler_ids r (find_handler r.method hs) s.world),
        count-remove_at i k s.in_flight r e,
      ),
      omega (arith, length-remove_at k s.in_flight),
    )

    step-Counts :
        (a : Action J W) (s : Serving J W)
        → length s.in_flight ≤ max_concurrent
        → OnSome (Counts (asked_by a) s) (step hs a s)
    unfolding step
    step-Counts (read m) s h = accept-Counts m s h
    step-Counts (finish k) s h = finish_at-Counts k (get_elem? s.in_flight k) s refl h

    play-Counts :
        (acts : List (Action J W)) (s t : Serving J W)
        → length s.in_flight ≤ max_concurrent
        → play hs acts s ≡ some t
        → Counts (asked_in acts) s t
    unfolding play
    play-Counts [] s t h e = subst (OnSome (Counts [] s)) e (λ i. omega arith, h)
    play-Counts (a ∷ acts) s t h e =
        let (u, e', e'') = >>=-eq-some (step hs a s) (play hs acts) e in
        let (f, g) = subst (OnSome (Counts (asked_by a) s)) e' (step-Counts a s h) in
        let (f', g') = play-Counts acts u t g e'' in
        (λ i. omega (arith, f i, f' i, count-append i (asked_by a) (asked_in acts)), g')

    finish_first :
        (s : Serving J W) (r : Request J) (rs : List (Request J))
        → s.in_flight ≡ r ∷ rs
        → (s' : Serving J W) × (step hs (finish 0) s ≡ some s') × (s'.in_flight ≡ rs)
    unfolding step finish_at
    finish_first s r rs e = (_, ap (λ q. finish_at hs 0 (get_elem? q 0) s) e, ap (remove_at 0) e)

    nothing_first : (s : Serving J W) → s.in_flight ≡ [] → step hs (finish 0) s ≡ none
    unfolding step finish_at
    nothing_first s e = ap (λ q. finish_at hs 0 (get_elem? q 0) s) e

    drain-Counts :
        (n : ℕ) (s : Serving J W) (rs : List (Request J))
        → s.in_flight ≡ rs
        → length rs ≤ n
        → length s.in_flight ≤ max_concurrent
        → ((drain hs n s).in_flight ≡ []) × ((i : String) → tally i (drain hs n s) ≡ tally i s)
    unfolding drain
    drain-Counts zero s [] e h k = (e, λ i. refl)
    drain-Counts zero s (r ∷ rs) e h k = absurd (omega arith)
    drain-Counts (suc n) s [] e h k = rw (nothing_first s e) (e, λ i. refl)
    drain-Counts (suc n) s (r ∷ rs) e h k =
        let (s', e', e'') = finish_first s r rs e in
        let (f, g) = subst (OnSome (Counts [] s)) e' (step-Counts (finish 0) s k) in
        let (d, c) = drain-Counts n s' rs e'' (omega arith) g in
        rw e' (d, λ i. omega (arith, f i, c i))

    -- Whatever messages are read, whatever handlers are registered and in whatever order they
    -- finish: once the at most 64 handlers in flight have finished, none is left, and each id has
    -- as many responses as there are requests that ask for an answer under it. So a request
    -- whose id no other has is answered exactly once, a message that cannot be read is answered
    -- under `null`, and a notification is not.
    pub serve_answers :
        (acts : List (Action J W)) (w : W) (s : Serving J W)
        → play hs acts (start w) ≡ some s
        → ((drain hs max_concurrent s).in_flight ≡ [])
          × ((i : String)
              → count i (ids (drain hs max_concurrent s).written) ≡ count i (asked_in acts))
    serve_answers acts w s e =
        let (f, g) = play-Counts acts (start w) s (omega arith) e in
        let (d, c) = drain-Counts max_concurrent s s.in_flight refl g g in
        (d, λ i. omega (arith, f i, c i, ap (λ q. count i (waiting q)) d))
