-- ===== src/Provider/Openai/Closed.antt =====
-- The tool calls of a streamed response and their events, in `Stream` of provider/openai/openai.go.
use mathlib.Core.List.{Memᴰ}
use mathlib.Core.List.Memᴰ
use gori.Prelude.{
  Bool-cases, All, All-append, is_empty, Result, ok, err, String, ◌≡◌, refl, sym, ap, subst, ◌∙◌,
  inl, inr, Bool, true, false, Option, List, [], ◌∷◌, ◌++◌, append-nil, append_assoc,
}
use gori.Prelude.Int.{ℤ}
use gori.Message.{Content, text, thinking, plan, image, audio, tool_use, tool_result, foreign}
use gori.Provider.{Response, StreamEvent, tool_start, tool_stop, stream_done}
use gori.Provider.Openai.Events.{
  text_blocks, Frame, Ending, ToolAcc, StreamState, start_state, is_unset, send, run, close_call,
  close_calls, finish, stream_frames,
}
use gori.Provider.Openai.Told.{OnOk, OnOk-bind, Told, AllTold}
use gori.Provider.Openai.Announced.{send_appends, run-StateIsTold}

-- The call was started among the first events and stopped among the later ones, under its id.
abbrev pub IsAnnounced : List StreamEvent → List StreamEvent → Content → Type 0
IsAnnounced during closing (tool_use u) =
    ((n : String) × Memᴰ (tool_start u.id n) during) × Memᴰ (tool_stop u.id) closing
IsAnnounced during closing _ = Unit

abbrev pub Announces : List StreamEvent → List Content → List StreamEvent → Type 0
Announces during cs es =
    (closing : List StreamEvent) × (es ≡ during ++ closing) × All (IsAnnounced during closing) cs

IsAnnounced-grows :
    (during closing closing' : List StreamEvent) (c : Content)
    → ((e : StreamEvent) → Memᴰ e closing → Memᴰ e closing')
    → IsAnnounced during closing c
    → IsAnnounced during closing' c
IsAnnounced-grows during closing closing' (tool_use u) f h = (h.0, f (tool_stop u.id) h.1)
IsAnnounced-grows during closing closing' (text t) f h = tt
IsAnnounced-grows during closing closing' (thinking t) f h = tt
IsAnnounced-grows during closing closing' (plan t) f h = tt
IsAnnounced-grows during closing closing' (image t) f h = tt
IsAnnounced-grows during closing closing' (audio t) f h = tt
IsAnnounced-grows during closing closing' (tool_result t) f h = tt
IsAnnounced-grows during closing closing' (foreign t) f h = tt

All-grows :
    (during closing closing' : List StreamEvent) (cs : List Content)
    → ((e : StreamEvent) → Memᴰ e closing → Memᴰ e closing')
    → All (IsAnnounced during closing) cs
    → All (IsAnnounced during closing') cs
All-grows during closing closing' [] f h = tt
All-grows during closing closing' (c ∷ cs) f h =
    (IsAnnounced-grows during closing closing' c f h.0, All-grows during closing closing' cs f h.1)

-- The events of the tail of the calls come after those that were sent before it.
abbrev Closes : List StreamEvent → List StreamEvent → List Content × List StreamEvent → Type 0
Closes during sent r =
    (closing : List StreamEvent) × (r.1 ≡ sent ++ closing) × All (IsAnnounced during closing) r.0

module _ (decimal : ℤ → String) (fn : List StreamEvent → StreamEvent → Option String) where
  close_call-Closes :
      (i : ℤ) (a : ToolAcc) (b : Bool) (during sent : List StreamEvent)
      (rest : List StreamEvent → Result (List Content × List StreamEvent))
      → Told b during a
      → ((sent' : List StreamEvent) → OnOk (Closes during sent') (rest sent'))
      → OnOk (Closes during sent) (close_call decimal fn i a rest sent)
  unfolding close_call
  close_call-Closes i a false during sent rest h k = rw h (k sent)
  close_call-Closes i a true during sent rest h k = elim (Bool-cases (is_empty a.name)) [
    | inl yes_ ↦ rw yes_ (k sent)
    | inr no_ ↦
        rw (no_, h.0)
          (OnOk-bind (λ sent'. sent' ≡ sent ++ tool_stop a.id ∷ []) (Closes during sent)
            (send fn (tool_stop a.id) sent) _ (send_appends decimal fn (tool_stop a.id) sent)
            (λ sent' e.
              OnOk-bind (Closes during sent') (Closes during sent) (rest sent') _ (k sent')
                (λ r (closing, e', l). (
                  tool_stop a.id ∷ closing,
                  e' ∙ ap (λ x. x ++ closing) e ∙ append_assoc sent (tool_stop a.id ∷ []) closing,
                  (
                    (h.1, Memᴰ.head refl),
                    All-grows during closing (tool_stop a.id ∷ closing) r.0 (λ x m. Memᴰ.tail m) l,
                  ),
                ))))
  ]

  close_calls-Closes :
      (ts : List (ℤ × ToolAcc)) (during sent : List StreamEvent)
      → AllTold during ts
      → OnOk (Closes during sent) (close_calls decimal fn ts sent)
  unfolding close_calls
  close_calls-Closes [] during sent h = ([], sym (append-nil sent), tt)
  close_calls-Closes ((i, a) ∷ ts) during sent h =
      close_call-Closes i a a.started during sent (close_calls decimal fn ts) h.0
        (λ sent'. close_calls-Closes ts during sent' h.1)

  text_blocks-IsAnnounced :
      (s : String) (during closing : List StreamEvent)
      → All (IsAnnounced during closing) (text_blocks s)
  text_blocks-IsAnnounced s during closing = elim (Bool-cases (is_empty s)) [
    | inl yes_ ↦ rw yes_ tt
    | inr no_ ↦ rw no_ (tt, tt)
  ]

  -- The result of `finish` with the events of the loop as the first ones.
  abbrev AnnouncesAll : List StreamEvent → Response × List StreamEvent → Type 0
  AnnouncesAll during (r, es) = Announces during r.message.content es

  finish-AnnouncesAll :
      (s : StreamState) → AllTold s.sent s.tools → OnOk (AnnouncesAll s.sent) (finish decimal fn s)
  unfolding finish
  finish-AnnouncesAll s h = elim (Bool-cases (is_unset s.stop_reason)) [
    | inl yes_ ↦ rw yes_ tt
    | inr no_ ↦ rw no_ (
        OnOk-bind (Closes s.sent s.sent) (AnnouncesAll s.sent)
          (close_calls decimal fn s.tools s.sent) _ (close_calls-Closes s.tools s.sent s.sent h)
          (λ r (closing, e, l).
            OnOk-bind (λ sent'. sent' ≡ r.1 ++ stream_done s.usage ∷ []) (AnnouncesAll s.sent)
              (send fn (stream_done s.usage) r.1) _
              (send_appends decimal fn (stream_done s.usage) r.1)
              (λ sent' e'. (
                closing ++ stream_done s.usage ∷ [],
                e' ∙ ap (λ x. x ++ stream_done s.usage ∷ []) e ∙ append_assoc s.sent closing _,
                All-append (IsAnnounced s.sent (closing ++ stream_done s.usage ∷ []))
                    (text_blocks s.text) r.0
                    (text_blocks-IsAnnounced s.text s.sent (closing ++ stream_done s.usage ∷ []))
                    (All-grows s.sent closing (closing ++ stream_done s.usage ∷ []) r.0
                      (λ x m. Memᴰ.append_left (stream_done s.usage ∷ []) m) l),
              ))))
  ]

  -- Each tool call of a response that a stream gives has had, among the events that the callback
  -- got, its start, and after the events of the loop its stop, both under the id that the call has
  -- in the response. This holds for any chunks, in which the fragments of the calls may be mixed
  -- and their ids may change, come late or be missing, and for any callback.
  pub stream-Announces :
      (fs : List Frame) (end : Ending) (r : Response) (es : List StreamEvent)
      → stream_frames decimal fn fs end ≡ ok (r, es)
      → (during : List StreamEvent) × Announces during r.message.content es
  unfolding stream_frames
  stream-Announces fs end r es e =
      subst
        (OnOk (λ (r', es'). (during : List StreamEvent) × Announces during r'.message.content es'))
        e
        (OnOk-bind (λ s. AllTold s.sent s.tools) _ (run decimal fn fs end start_state)
          (finish decimal fn) (run-StateIsTold decimal fn fs end start_state tt)
          (λ s h. weaker s (finish decimal fn s) (finish-AnnouncesAll s h)))
    where
      weaker :
          (s : StreamState) (q : Result (Response × List StreamEvent))
          → OnOk (AnnouncesAll s.sent) q
          → OnOk
              (λ (r', es'). (during : List StreamEvent) × Announces during r'.message.content es')
              q
      weaker s (ok p) h = (s.sent, h)
      weaker s (err x) h = tt
