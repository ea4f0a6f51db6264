-- ===== src/Provider/Openai/Announced.antt =====
-- The start events of tool calls, in the event loop of `Stream` of provider/openai/openai.go.
use mathlib.Core.List.{Memᴰ}
use mathlib.Core.List.Memᴰ
use gori.Prelude.{
  Bool-cases, Option-cases, is_empty, Result, ok, err, String, ◌≡◌, refl, sym, inl, inr, Bool, true,
  false, not, ◌&&◌, Option, none, some, List, [], ◌∷◌, ◌++◌, append-nil,
}
use gori.Prelude.Int.{ℤ}
use gori.Provider.{StreamEvent, text_event, tool_start, tool_delta}
use gori.Provider.Openai.{ApiUsage}
use gori.Provider.Openai.Events.{
  CallDelta, ChoiceDelta, Chunk, Frame, no_data, done_marker, undecodable, chunk, Ending, at_eof,
  read_error, ToolAcc, StreamState, acc_at, merge, or_id, call_id, set_finish, set_usage, send,
  send_if, on_text, begin_call, continue_call, merged_call, on_call, on_calls, on_choice, on_chunk,
  run,
}
use gori.Provider.Openai.Told.{
  OnOk, OnOk-bind, IsTold, Extends, Told-Extends, AllTold-Extends, acc_at-IsTold, put_acc-AllTold,
  WasTold, merge-WasTold, call_id_not_empty, Extends-trans, StateIsTold, continued-IsTold,
}

module _ (decimal : ℤ → String) (fn : List StreamEvent → StreamEvent → Option String) where
  pub send_appends :
      (e : StreamEvent) (sent : List StreamEvent)
      → OnOk (λ sent'. sent' ≡ sent ++ e ∷ []) (send fn e sent)
  unfolding send
  send_appends e sent = elim (Option-cases (fn sent e)) [
    | inl no_ ↦ rw no_ refl
    | inr (x, yes_) ↦ rw yes_ tt
  ]

  send_if-Extends :
      (b : Bool) (e : StreamEvent) (sent : List StreamEvent)
      → OnOk (Extends sent) (send_if fn b e sent)
  unfolding send_if
  send_if-Extends true e sent = weaker (send fn e sent) (send_appends e sent)
    where
      weaker :
          (r : Result (List StreamEvent))
          → OnOk (λ sent'. sent' ≡ sent ++ e ∷ []) r
          → OnOk (Extends sent) r
      weaker (ok sent') h = (e ∷ [], h)
      weaker (err x) h = tt
  send_if-Extends false e sent = ([], sym (append-nil sent))

  begin_call-StateIsTold :
      (i : ℤ) (a : ToolAcc) (s : StreamState)
      → StateIsTold s
      → OnOk StateIsTold (begin_call decimal fn i a s)
  unfolding begin_call
  begin_call-StateIsTold i a s h =
      let id = or_id (call_id decimal i) a.id in
      OnOk-bind (λ sent. sent ≡ s.sent ++ tool_start id a.name ∷ []) StateIsTold
        (send fn (tool_start id a.name) s.sent) _ (send_appends (tool_start id a.name) s.sent)
        (λ sent e.
          OnOk-bind (Extends sent) StateIsTold
            (send_if fn (not (is_empty a.args)) (tool_delta a.args) sent) _
            (send_if-Extends (not (is_empty a.args)) (tool_delta a.args) sent)
            (λ sent' e'.
              put_acc-AllTold i (record a { id = id; started = true }) s.tools sent'
                (AllTold-Extends s.tools s.sent sent' (Extends-trans s.sent sent sent' _ e e') h)
                (Told-Extends true sent sent' (record a { id = id; started = true }) e'
                  (
                    call_id_not_empty (decimal i) a.id,
                    (a.name, rw e (Memᴰ.append_right s.sent (Memᴰ.head refl))),
                  ))))

  continue_call-StateIsTold :
      (d : CallDelta) (a : ToolAcc) (s : StreamState)
      → StateIsTold s
      → IsTold s.sent a
      → OnOk StateIsTold (continue_call decimal fn d a s)
  unfolding continue_call
  continue_call-StateIsTold d a s h k =
      OnOk-bind (Extends s.sent) StateIsTold
        (send_if fn (a.started && not (is_empty d.arguments)) (tool_delta d.arguments) s.sent) _
        (send_if-Extends (a.started && not (is_empty d.arguments)) (tool_delta d.arguments) s.sent)
        (λ sent e.
          put_acc-AllTold d.index a s.tools sent (AllTold-Extends s.tools s.sent sent e h)
            (Told-Extends a.started s.sent sent a e k))

  merged_call-StateIsTold :
      (d : CallDelta) (a : ToolAcc) (s : StreamState)
      → StateIsTold s
      → WasTold a.started s.sent a
      → OnOk StateIsTold (merged_call decimal fn d a s)
  unfolding merged_call
  merged_call-StateIsTold d a s h k = elim (Bool-cases (not a.started && not (is_empty a.name))) [
    | inl yes_ ↦ rw yes_ (begin_call-StateIsTold d.index a s h)
    | inr no_ ↦
        rw no_ (continue_call-StateIsTold d a s h (continued-IsTold a.started s.sent a k no_))
  ]

  on_call-StateIsTold :
      (d : CallDelta) (s : StreamState) → StateIsTold s → OnOk StateIsTold (on_call decimal fn d s)
  unfolding on_call merge
  on_call-StateIsTold d s h =
      let a = acc_at d.index s.tools in
      merged_call-StateIsTold d (merge d a) s h
        (merge-WasTold a.started d a s.sent refl (acc_at-IsTold d.index s.tools s.sent h))

  on_calls-StateIsTold :
      (ds : List CallDelta) (s : StreamState)
      → StateIsTold s
      → OnOk StateIsTold (on_calls decimal fn ds s)
  unfolding on_calls
  on_calls-StateIsTold [] s h = h
  on_calls-StateIsTold (d ∷ ds) s h =
      OnOk-bind StateIsTold StateIsTold (on_call decimal fn d s) (on_calls decimal fn ds)
        (on_call-StateIsTold d s h) (λ s' h'. on_calls-StateIsTold ds s' h')

  on_text-StateIsTold :
      (t : String) (s : StreamState) → StateIsTold s → OnOk StateIsTold (on_text fn t s)
  unfolding on_text
  on_text-StateIsTold t s h =
      OnOk-bind (Extends s.sent) StateIsTold (send_if fn (not (is_empty t)) (text_event t) s.sent) _
        (send_if-Extends (not (is_empty t)) (text_event t) s.sent)
        (λ sent e. AllTold-Extends s.tools s.sent sent e h)

  on_choice-StateIsTold :
      (c : Option ChoiceDelta) (s : StreamState)
      → StateIsTold s
      → OnOk StateIsTold (on_choice decimal fn c s)
  unfolding on_choice set_finish
  on_choice-StateIsTold none s h = h
  on_choice-StateIsTold (some c) s h =
      OnOk-bind StateIsTold StateIsTold (on_text fn c.content s) _
        (on_text-StateIsTold c.content s h)
        (λ s' h'.
          OnOk-bind StateIsTold StateIsTold (on_calls decimal fn c.calls s') _
            (on_calls-StateIsTold c.calls s' h') (λ s'' h''. h''))

  on_chunk-StateIsTold :
      (e : Option (String × String)) (c : Chunk) (s : StreamState)
      → StateIsTold s
      → OnOk StateIsTold (on_chunk decimal fn e c s)
  unfolding on_chunk set_usage
  on_chunk-StateIsTold (some m) c s h = tt
  on_chunk-StateIsTold none c s h =
      on_choice-StateIsTold c.choice (set_usage c.usage s) (kept c.usage)
    where
      kept : (u : Option ApiUsage) → StateIsTold (set_usage u s)
      kept none = h
      kept (some u) = h

  pub run-StateIsTold :
      (fs : List Frame) (end : Ending) (s : StreamState)
      → StateIsTold s
      → OnOk StateIsTold (run decimal fn fs end s)
  unfolding run
  run-StateIsTold [] at_eof s h = h
  run-StateIsTold [] (read_error e) s h = tt
  run-StateIsTold (no_data ∷ fs) end s h = run-StateIsTold fs end s h
  run-StateIsTold (done_marker ∷ fs) end s h = h
  run-StateIsTold (undecodable e ∷ fs) end s h = tt
  run-StateIsTold (chunk c ∷ fs) end s h =
      OnOk-bind StateIsTold StateIsTold (on_chunk decimal fn c.error c s) (run decimal fn fs end)
        (on_chunk-StateIsTold c.error c s h) (λ s' h'. run-StateIsTold fs end s' h')
