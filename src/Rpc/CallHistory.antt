-- ===== src/Rpc/CallHistory.antt =====
-- Histories of the calls of a client (internal/rpc/client.go).
use gori.Prelude.{
  Bool-cases, All, All-append, str_eq, ℕ, String, ◌≡◌, refl, sym, subst, inl, inr, false, not, ◌&&◌,
  Option, none, some, List, [], ◌∷◌, map,
}
use gori.Rpc.Client.{
  Box, empty_box, closed_box, holds, Call, Client, Message, server_request, undecoded, response,
  Step, begin, wrote, cancel, take_box, receive, fail_read, new_client, register, is_live,
  end_write, on_write, on_cancel, from_box, on_take, put_box, close_box, on_key, read_message,
  receive_on, fail_on, step, steps,
}
use gori.Rpc.Calls.{
  IsSound, on_write-IsSound, on_cancel-IsSound, on_take-IsSound, put_box-IsSound, close_box-IsSound,
  IsKept,
}

module _ {J : Type 0} where
  -- A change that leaves a call sound and does not make it pending.
  abbrev Preserves : (Call J → Call J) → Type 0
  Preserves f =
      (c : Call J) → (IsSound c → IsSound (f c)) × (c.pending ≡ false → (f c).pending ≡ false)

  end_write_pending :
      (e : Option String) (c : Call J) → c.pending ≡ false → (end_write e c).pending ≡ false
  unfolding end_write
  end_write_pending none c h = h
  end_write_pending (some e) c h = refl

  from_box_pending :
      (e : Option String) (b : Box J) (c : Call J)
      → c.pending ≡ false
      → (from_box e b c).pending ≡ false
  unfolding from_box
  from_box_pending e empty_box c h = h
  from_box_pending e (holds r) c h = h
  from_box_pending none closed_box c h = h
  from_box_pending (some e) closed_box c h = h

  on_write-Preserves : (e : Option String) → Preserves (on_write e)
  unfolding on_write
  on_write-Preserves e c = (
    on_write-IsSound e c,
    λ h. elim (Bool-cases (is_live c.outcome && not c.written)) [
      | inl yes_ ↦ rw yes_ (end_write_pending e c h)
      | inr no_ ↦ simp no_ h
    ],
  )

  on_cancel-Preserves : Preserves on_cancel
  unfolding on_cancel
  on_cancel-Preserves c = (
    on_cancel-IsSound c,
    λ h. elim (Bool-cases (is_live c.outcome)) [ inl yes_ ↦ rw yes_ | inr no_ ↦ simp no_ h ],
  )

  on_take-Preserves : (e : Option String) → Preserves (on_take e)
  unfolding on_take
  on_take-Preserves e c = (
    on_take-IsSound e c,
    λ h. elim (Bool-cases (is_live c.outcome && c.written)) [
      | inl yes_ ↦ rw yes_ (from_box_pending e c.box c h)
      | inr no_ ↦ simp no_ h
    ],
  )

  on_key-Preserves : (k : String) (f : Call J → Call J) → Preserves f → Preserves (on_key k f)
  unfolding on_key
  on_key-Preserves k f h c = elim (Bool-cases (str_eq c.key k)) [
    | inl yes_ ↦ rw yes_ (h c)
    | inr no_ ↦ simp no_ (λ a. a, λ a. a)
  ]

  settled_by :
      (f : Call J → Call J) (e : Option String) (c : Call J)
      → Preserves f
      → IsKept e c
      → IsKept e (f c)
  settled_by f none c h k = ((h c).0 k.0, tt)
  settled_by f (some x) c h k = ((h c).0 k.0, (h c).1 k.1)

  map-All :
      (f : Call J → Call J) (P Q : Call J → Type 0) (cs : List (Call J))
      → ((c : Call J) → P c → Q (f c))
      → All P cs
      → All Q (map f cs)
  map-All f P Q [] h k = tt
  map-All f P Q (c ∷ cs) h k = (h c k.0, map-All f P Q cs h k.1)

  abbrev pub AllKept : Client J → Type 0
  AllKept c = All (IsKept c.read_err) c.calls

  key-AllKept :
      (k : String) (f : Call J → Call J) (c : Client J)
      → Preserves f
      → AllKept c
      → All (IsKept c.read_err) (map (on_key k f) c.calls)
  key-AllKept k f c h =
      map-All (on_key k f) (IsKept c.read_err) (IsKept c.read_err) c.calls
        (λ d. settled_by (on_key k f) c.read_err d (on_key-Preserves k f h))

  register-IsKept :
      (c : Client J) (k : String) (e : Option String) → IsKept e (register {J = J} k e)
  unfolding register
  register-IsKept c k none = ((tt, tt, tt), tt)
  register-IsKept c k (some e) = ((tt, tt, tt), refl)

  close_box-IsKept : (e : String) (c : Call J) → IsKept none c → IsKept (some e) (close_box c)
  unfolding close_box
  close_box-IsKept e c h = (
    close_box-IsSound c h.0,
    elim (Bool-cases c.pending) [ inl yes_ ↦ rw yes_ | inr no_ ↦ rw no_ refl ],
  )

  module _ (format : ℕ → String) where
    receive-AllKept :
        (e : Option String) (m : Message J) (c : Client J)
        → c.read_err ≡ e
        → AllKept c
        → AllKept (receive_on format e m c)
    unfolding receive_on read_message
    receive-AllKept (some e) m c h k = k
    receive-AllKept none server_request c h k = k
    receive-AllKept none undecoded c h k = k
    receive-AllKept none (response r) c h k =
        subst (λ e. All (IsKept e) (map (put_box r) c.calls)) (sym h)
          (map-All (put_box r) (IsKept none) (IsKept none) c.calls
            (λ d q. (put_box-IsSound r d q.0, tt)) (subst (λ e. All (IsKept e) c.calls) h k))

    fail-AllKept :
        (e : Option String) (x : String) (c : Client J)
        → c.read_err ≡ e
        → AllKept c
        → AllKept (fail_on format e x c)
    unfolding fail_on
    fail-AllKept (some e) x c h k = k
    fail-AllKept none x c h k =
        map-All close_box (IsKept none) (IsKept (some x)) c.calls (close_box-IsKept x)
          (subst (λ e. All (IsKept e) c.calls) h k)

    step-AllKept : (a : Step J) (c : Client J) → AllKept c → AllKept (step format a c)
    unfolding step
    step-AllKept begin c h =
        All-append (IsKept c.read_err) c.calls _ h (register-IsKept c _ c.read_err, tt)
    step-AllKept (wrote k e) c h = key-AllKept k (on_write e) c (on_write-Preserves e) h
    step-AllKept (cancel k) c h = key-AllKept k on_cancel c on_cancel-Preserves h
    step-AllKept (take_box k) c h =
        key-AllKept k (on_take c.read_err) c (on_take-Preserves c.read_err) h
    step-AllKept (receive m) c h = receive-AllKept c.read_err m c refl h
    step-AllKept (fail_read e) c h = fail-AllKept c.read_err e c refl h

    steps-AllKept :
        (acts : List (Step J)) (c : Client J) → AllKept c → AllKept (steps format acts c)
    unfolding steps
    steps-AllKept [] c h = h
    steps-AllKept (a ∷ acts) c h = steps-AllKept acts (step format a c) (step-AllKept a c h)

    -- Of any history of a client: a call that returns with a response has the one of its own id; its
    -- channel holds no other and is empty while the call is pending, so the loop's send on it does
    -- not wait; and a call that still runs is pending or has something in its channel. Once reading
    -- has failed no call is pending, so each one that still runs can take an end from its channel.
    pub calls_answered : (acts : List (Step J)) → AllKept (steps format acts new_client)
    calls_answered acts = steps-AllKept acts new_client tt
