-- ===== src/A2a/Server/Found.antt =====
-- A task that `message/send` answers, and `tasks/get` for it afterwards (a2a/server.go).
use gori.Prelude.{
  Bool-cases, Result, ok, err, ℕ, suc, String, ◌≡◌, refl, ap, ◌∙◌, ◌⊎◌, inl, inr, true, some, List,
}
use gori.Rpc.{version, code_internal_error, error_response, result_response}
use gori.A2a.{Part, Message, Task, is_terminal}
use gori.A2a.Store.{Store, member, settled, end_task, get}
use gori.A2a.Lifecycle.{send_start, finish, sends, Steps}
use gori.A2a.Lifecycle.Records.{finish-Changes}
use gori.A2a.Lifecycle.Validity.{IsValid, Step-IsValid, Steps-IsValid}
use gori.A2a.Lifecycle.Outcomes.{outcome-is_terminal, finish_live}
use gori.A2a.Server.{
  decoded, HttpRequest, HttpReply, rpc_reply, Wire, Surroundings, rpc_error, marshaled,
  write_result, handle_send, get_reply, handle_query, dispatch, on_body, handle_rpc,
}

-- The task of a handler that returns is final, has its id, and is stored.
abbrev pub IsDone : ℕ → Store → Type 0
IsDone i s = ((s.heap i).id ≡ i) × (settled s i ≡ true) × (member i s.tasks ≡ true)

finish-settled :
    (i : ℕ) (r : Result (List Part)) (now : ℕ) (s : Store) → settled (finish i r now s) i ≡ true
finish-settled i r now s = elim (Bool-cases (settled s i)) [
  | inl yes_ ↦
      ap (λ t. is_terminal t.status.state) ((finish-Changes i r now s).only_live yes_) ∙ yes_
  | inr no_ ↦
      ap (λ t. is_terminal t.status.state) (finish_live i r now s no_)
      ∙ outcome-is_terminal r now (s.heap i)
]

finish-IsDone :
    (i : ℕ) (r : Result (List Part)) (now : ℕ) (s : Store)
    → IsValid s
    → member i s.in_flight ≡ true
    → IsDone i (finish i r now s)
finish-IsDone i r now s v m =
    let c = finish-Changes i r now s in
    (
      c.id_kept ∙ v.stored_id i (v.flying_stored i m),
      finish-settled i r now s,
      ap (member i) c.tasks_kept ∙ v.flying_stored i m,
    )

module _ {J : Type 0} (wire : Wire J) where
  abbrev pub asks : String → String → J → HttpRequest J
  asks i method params = record {
    is_post = true;
    body = decoded (record { jsonrpc = version; id = i; method = method; params = params });
  }

  -- What a client may get for a task: the task, or an internal error if it does not marshal.
  abbrev pub Shows : HttpReply J → String → Task → Type 0
  Shows reply i t =
      ((raw : J) × (wire.write_task t ≡ ok raw) × (reply ≡ rpc_reply (result_response i raw)))
      ⊎ ((e : String) × (wire.write_task t ≡ err e)
          × (reply ≡ rpc_reply (error_response i code_internal_error e)))

  marshaled-Shows :
      (i : String) (t : Task) (r : Result J)
      → wire.write_task t ≡ r
      → Shows (marshaled wire i r) i t
  unfolding marshaled rpc_error
  marshaled-Shows i t (ok raw) e = inl (raw, e, refl)
  marshaled-Shows i t (err x) e = inr (x, e, refl)

  write_result-Shows : (i : String) (t : Task) → Shows (write_result wire i t) i t
  unfolding write_result
  write_result-Shows i t = marshaled-Shows i t (wire.write_task t) refl

  -- A `message/send` with readable parameters is answered, under its id, with a task that has the next id
  -- and a final state, or with an internal error if that task does not marshal, whatever the handler
  -- returns and whatever other calls, a cancellation among them, change the store while it runs. A
  -- `tasks/get` for this task that comes next is answered with the same task, or with an internal error
  -- if it does not marshal. It is asked that the store is valid before, and that the other calls leave
  -- the handler in flight.
  pub send_get :
      (env env' : Surroundings) (i j : String) (params query : J) (m : Message) (s : Store)
      → IsValid s
      → wire.read_send params ≡ some m
      → wire.read_query query ≡ some (suc s.seq)
      → Steps (send_start m env.now s) (env.meanwhile (send_start m env.now s))
      → member (suc s.seq) (env.meanwhile (send_start m env.now s)).in_flight ≡ true
      → (t : Task) × (t.id ≡ suc s.seq)
        × (is_terminal t.status.state ≡ true)
        × Shows (handle_rpc wire env (asks i "message/send" params) s).0 i t
        × Shows
            (handle_rpc wire env'
              (asks j "tasks/get" query)
              (handle_rpc wire env (asks i "message/send" params) s).1).0
            j
            t
  unfolding handle_rpc on_body dispatch handle_send handle_query get_reply get end_task
  send_get env env' i j params query m s v e e' h f =
      let run = env.meanwhile (send_start m env.now s) in
      let (a, b, c) =
        finish-IsDone (suc s.seq) (env.handler m) env.later run
          (Steps-IsValid h (Step-IsValid (sends m env.now) v)) f in
      (
        (finish (suc s.seq) (env.handler m) env.later run).heap (suc s.seq),
        a,
        b,
        rw e (write_result-Shows i _),
        rw (e, e', c) (write_result-Shows j _),
      )
