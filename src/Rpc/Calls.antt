-- ===== src/Rpc/Calls.antt =====
-- What becomes of the calls of internal/rpc/client.go.
use gori.Prelude.{
  Bool-cases, eq_iff, str_eq, String, ◌≡◌, refl, sym, subst, inl, inr, Bool, true, false, not, ◌&&◌,
  Option, none, some,
}
use gori.Rpc.{Response}
use gori.Rpc.Client.{
  Box, empty_box, closed_box, holds, Outcome, context_done, write_failed, responded, Call,
  return_call, is_live, end_write, on_write, on_cancel, from_box, on_take, put_box, close_box,
}

-- The channel of a pending call is empty, so the loop's send never waits; what the channel and the
-- outcome hold answers the call's own id; and once reading has failed, no call waits for nothing.
and_left : (a b : Bool) → (a && b) ≡ true → a ≡ true
and_left true b h = refl
and_left false b h = cc

and_right : (a b : Bool) → (a && b) ≡ true → b ≡ true
and_right true b h = h
and_right false b h = cc

module _ {J : Type 0} where
  abbrev pub Fits : String → Box J → Type 0
  Fits k (holds r) = r.id ≡ k
  Fits k _ = Unit

  abbrev pub Answers : String → Option (Outcome J) → Type 0
  Answers k (some (responded r)) = r.id ≡ k
  Answers k _ = Unit

  -- By `pending`, and by whether the call still runs.
  abbrev pub Status : Bool → Option (Outcome J) → Box J → Type 0
  Status true none empty_box = Unit
  Status true o b = ⊥
  Status false none empty_box = ⊥
  Status false o b = Unit

  abbrev pub IsSound : Call J → Type 0
  IsSound c = Fits c.key c.box × Answers c.key c.outcome × Status c.pending c.outcome c.box

  return_call-IsSound :
      (o : Outcome J) (c : Call J) → Answers c.key (some o) → IsSound c → IsSound (return_call o c)
  return_call-IsSound o c h (f, a, s) = (f, h, tt)

  end_write-IsSound : (e : Option String) (c : Call J) → IsSound c → IsSound (end_write e c)
  unfolding end_write
  end_write-IsSound none c h = h
  end_write-IsSound (some e) c h = return_call-IsSound (write_failed e) c tt h

  pub on_write-IsSound : (e : Option String) (c : Call J) → IsSound c → IsSound (on_write e c)
  unfolding on_write
  on_write-IsSound e c h = elim (Bool-cases (is_live c.outcome && not c.written)) [
    | inl yes_ ↦ rw yes_ (end_write-IsSound e c h)
    | inr no_ ↦ rw no_ h
  ]

  pub on_cancel-IsSound : (c : Call J) → IsSound c → IsSound (on_cancel c)
  unfolding on_cancel
  on_cancel-IsSound c h = elim (Bool-cases (is_live c.outcome)) [
    | inl yes_ ↦ rw yes_ (return_call-IsSound context_done c tt h)
    | inr no_ ↦ rw no_ h
  ]

  abbrev IsFilled : Box J → Type 0
  IsFilled empty_box = ⊥
  IsFilled _ = Unit

  settle :
      (p : Bool) (o : Option (Outcome J)) (b b' : Box J) (x : Outcome J)
      → IsFilled b
      → Status p o b
      → Status p (some x) b'
  settle false o b b' x h s = tt
  settle true none empty_box b' x h s = absurd h
  settle true none closed_box b' x h s = absurd s
  settle true none (holds r) b' x h s = absurd s
  settle true (some o) b b' x h s = absurd s

  fill :
      (p : Bool) (o : Option (Outcome J)) (b b' : Box J)
      → p ≡ true
      → IsFilled b'
      → Status p o b
      → Status false o b'
  fill false o b b' e h s = cc
  fill true none empty_box empty_box e h s = absurd h
  fill true none empty_box closed_box e h s = tt
  fill true none empty_box (holds r) e h s = tt
  fill true none closed_box b' e h s = absurd s
  fill true none (holds r) b' e h s = absurd s
  fill true (some o) b b' e h s = absurd s

  from_box-IsSound :
      (e : Option String) (b : Box J) (c : Call J)
      → c.box ≡ b
      → IsSound c
      → IsSound (from_box e b c)
  unfolding from_box
  from_box-IsSound e empty_box c h k = k
  from_box-IsSound e (holds r) c h (f, a, s) = (
    tt,
    subst (Fits c.key) h f,
    settle c.pending c.outcome c.box empty_box (responded r) (subst IsFilled (sym h) tt) s,
  )
  from_box-IsSound none closed_box c h (f, a, s) =
      (f, tt, settle c.pending c.outcome c.box c.box _ (subst IsFilled (sym h) tt) s)
  from_box-IsSound (some e) closed_box c h (f, a, s) =
      (f, tt, settle c.pending c.outcome c.box c.box _ (subst IsFilled (sym h) tt) s)

  pub on_take-IsSound : (e : Option String) (c : Call J) → IsSound c → IsSound (on_take e c)
  unfolding on_take
  on_take-IsSound e c h = elim (Bool-cases (is_live c.outcome && c.written)) [
    | inl yes_ ↦ rw yes_ (from_box-IsSound e c.box c refl h)
    | inr no_ ↦ rw no_ h
  ]

  pub put_box-IsSound : (r : Response J) (c : Call J) → IsSound c → IsSound (put_box r c)
  unfolding put_box
  put_box-IsSound r c (f, a, s) = elim (Bool-cases (c.pending && str_eq c.key r.id)) [
    | inl yes_ ↦ rw yes_ (
      sym ((eq_iff c.key r.id).0 (and_right c.pending _ yes_)),
      a,
      fill c.pending c.outcome c.box (holds r) (and_left c.pending _ yes_) tt s,
    )
    | inr no_ ↦ rw no_ (f, a, s)
  ]

  pub close_box-IsSound : (c : Call J) → IsSound c → IsSound (close_box c)
  unfolding close_box
  close_box-IsSound c (f, a, s) = elim (Bool-cases c.pending) [
    | inl yes_ ↦ rw yes_ (tt, a, fill c.pending c.outcome c.box closed_box yes_ tt s)
    | inr no_ ↦ rw no_ (f, a, subst (λ p. Status p c.outcome c.box) no_ s)
  ]

  -- Once reading has failed, no call is pending.
  abbrev pub IsSettled : Option String → Call J → Type 0
  IsSettled none c = Unit
  IsSettled (some e) c = c.pending ≡ false

  abbrev pub IsKept : Option String → Call J → Type 0
  IsKept e c = IsSound c × IsSettled e c
