-- ===== src/Retry/Attempts.antt =====
-- How often `Do` sends, and with what it ends.
use gori.Prelude.{
  Bool-cases, Result, ok, err, ℕ, zero, suc, ◌+◌, ◌%◌, ◌^◌, ◌≤◌, String, ◌≡◌, refl, ap, subst, ◌∙◌,
  ◌⊎◌, inl, inr, false, Option, none, some, arith,
}
use gori.Retry.{
  Policy, Response, retryable_status, is_positive, limit, asked, Host, Outcome, responded, failed,
  Paused, awake, overflowed, interrupted, attempts_of, backoff_or, backoff, on_sent, on_made,
  on_slept, on_backoff, pause, loop, do_request,
}

-- The host in a world that counts the requests that are sent.
abbrev pub counted : {W : Type 0} → Host W → Host (ℕ × W)
counted h = record {
  make_request = λ w. ((h.make_request w.1).0, (w.0, (h.make_request w.1).1));
  send = λ w. ((h.send w.1).0, (w.0 + 1, (h.send w.1).1));
  sleep = λ d w. ((h.sleep d w.1).0, (w.0, (h.sleep d w.1).1));
  int63n = λ d w. ((h.int63n d w.1).0, (w.0, (h.int63n d w.1).1));
}

-- What `left` attempts after `n` requests may end in.
pub record Ends {W : Type 0} (n left : ℕ) (r : Outcome × (ℕ × W)) : Type 0 where
  pub some_sent : n ≤ r.1.0
  pub not_more : r.1.0 ≤ n + left
  pub final_or_all :
      (resp : Response)
      → r.0 ≡ responded resp
      → (retryable_status resp.status ≡ false) ⊎ (r.1.0 ≡ n + left)

module _ {W : Type 0} (h : Host W) (left : ℕ)
    (go : Option Response → String → ℕ × W → Outcome × (ℕ × W))
    (rest : (o : Option Response) (e : String) (w : ℕ × W) → Ends w.0 left (go o e w)) where
  Ends-suc : (n : ℕ) (r : Outcome × (ℕ × W)) → Ends (n + 1) left r → Ends n (suc left) r
  Ends-suc n r k = record {
    some_sent = omega (arith, k.some_sent);
    not_more = omega (arith, k.not_more);
    final_or_all = λ resp e. elim (k.final_or_all resp e) [
      | inl ok_ ↦ inl ok_
      | inr all ↦ inr (omega (arith, all))
    ];
  }

  Ends-failed : (n : ℕ) (e : String) (w : ℕ × W) → w.0 ≡ n → Ends n (suc left) (failed e, w)
  Ends-failed n e w same = record {
    some_sent = omega (arith, same);
    not_more = omega (arith, same);
    final_or_all = λ resp f. cc f;
  }

  on_sent-Ends :
      (n : ℕ) (r : Result Response × (ℕ × W)) → r.1.0 ≡ n + 1 → Ends n (suc left) (on_sent go r)
  unfolding on_sent
  on_sent-Ends n (err e, w) same =
      Ends-suc n _ (subst (λ k. Ends k left (go none e w)) same (rest none e w))
  on_sent-Ends n (ok resp, w) same = elim (Bool-cases (retryable_status resp.status)) [
    | inl yes_ ↦
        rw yes_ (
          Ends-suc n _
            (subst (λ k. Ends k left (go (some resp) "" w)) same (rest (some resp) "" w)))
    | inr no_ ↦ rw no_ (record {
      some_sent = omega (arith, same);
      not_more = omega (arith, same);
      final_or_all = λ q f. inl (ap retryable_status (status_eq f) ∙ no_);
    })
  ]
    where
      status_eq : {q : Response} → responded resp ≡ responded q → q.status ≡ resp.status
      status_eq f = cc f

  on_made-Ends :
      (n : ℕ) (r : Option String × (ℕ × W))
      → r.1.0 ≡ n
      → Ends n (suc left) (on_made (counted h) go r)
  unfolding on_made
  on_made-Ends n (some e, w) same = Ends-failed n e w same
  on_made-Ends n (none, w) same = on_sent-Ends n _ (omega (arith, same))

  on_slept-Ends :
      (n : ℕ) (r : Paused × (ℕ × W)) → r.1.0 ≡ n → Ends n (suc left) (on_slept (counted h) go r)
  unfolding on_slept
  on_slept-Ends n (interrupted e, w) same = Ends-failed n e w same
  on_slept-Ends n (overflowed, w) same = record {
    some_sent = omega (arith, same);
    not_more = omega (arith, same);
    final_or_all = λ resp f. cc f;
  }
  on_slept-Ends n (awake, w) same = on_made-Ends n _ same

module _ {W : Type 0} (h : Host W) where
  on_backoff-count : (r : Option ℕ × (ℕ × W)) → (on_backoff (counted h) r).1.0 ≡ r.1.0
  unfolding on_backoff
  on_backoff-count (none, w) = refl
  on_backoff-count (some d, w) = refl

  backoff_or-count : (d : ℕ) (a : Option ℕ) (w : ℕ × W) → (backoff_or (counted h) d a w).1.0 ≡ w.0
  unfolding backoff_or
  backoff_or-count d (some t) w = refl
  backoff_or-count d none w = elim (Bool-cases (is_positive ((d + 1) % 2 ^ 64))) [
    | inl yes_ ↦ rw yes_ refl
    | inr no_ ↦ rw no_ refl
  ]

  pause-count :
      (p : Policy) (attempt : ℕ) (o : Option Response) (w : ℕ × W)
      → (pause (counted h) p attempt o w).1.0 ≡ w.0
  unfolding pause backoff
  pause-count p zero o w = refl
  pause-count p (suc n) o w =
      on_backoff-count (backoff_or (counted h) (limit p (suc n)) (asked o) w)
      ∙ backoff_or-count (limit p (suc n)) (asked o) w

loop-Ends :
    {W : Type 0} (h : Host W) (p : Policy) (left attempt : ℕ) (o : Option Response) (e : String)
    (w : ℕ × W)
    → Ends w.0 left (loop (counted h) p left attempt o e w)
unfolding loop
loop-Ends h p zero attempt o e w = record {
  some_sent = omega arith;
  not_more = omega arith;
  final_or_all = λ resp f. inr (omega arith);
}
loop-Ends h p (suc left) attempt o e w =
    on_slept-Ends h left (loop (counted h) p left (attempt + 1))
      (λ o e w. loop-Ends h p left (attempt + 1) o e w) w.0 (pause (counted h) p attempt o w)
      (pause-count h p attempt o w)

-- `Do` sends at most as many requests as the policy has attempts, also if it panics; if it returns a response,
-- that has a status that is not retried, or all the attempts were made.
pub do_request-Ends :
    {W : Type 0} (h : Host W) (p : Policy) (w : W)
    → Ends 0 (attempts_of p) (do_request (counted h) p (0, w))
unfolding do_request
do_request-Ends h p w = loop-Ends h p (attempts_of p) 0 none "" (0, w)
