-- ===== src/Provider/Anthropic/Cut.antt =====
-- Streams that end before their terminal signal, in provider/anthropic/anthropic.go.
use gori.Prelude.{
  leb, Bool-cases, Option-cases, All, is_empty, Result, ok, String, ◌≡◌, refl, inl, inr, Bool, true,
  false, Option, none, some, List, [], ◌∷◌, ℕ,
}
use gori.Prelude.Int.{ℤ}
use gori.Provider.{
  other_stop, Response, Request, StreamEvent, text_event, thinking_event, tool_delta,
}
use gori.Provider.Anthropic.{ApiRequest, build_request, Refusal, check_content}
use gori.Provider.Anthropic.Events.{
  Failure, refusal, unread, bad_status, truncated, Try, success, failure, and_then, HttpReply,
  check_status, post, guarded, Delta, text_delta, thinking_delta, signature_delta, json_delta,
  other_delta, Frame, no_data, message_stop, error_event, block_start, block_delta, block_stop,
  message_delta, message_start, other_event, BlockAcc, StreamState, start_state, set_delta,
  set_prompt, is_unset, Ending, at_eof, read_error, deliver, send, send_if, on_start, send_delta,
  delta_into, stop_acc, step, run, finish, stream,
}

abbrev pub OnSuccess {ℓ κ} : {A : Type ℓ} → (A → Type κ) → Try A → Type κ
OnSuccess P (success a) = P a
OnSuccess P (failure e) = Unit

OnSuccess-and_then {ℓ κ} :
    {A : Type ℓ} (P : A → Type κ) (r : Try A) (f : A → Try A)
    → OnSuccess P r
    → ((a : A) → P a → OnSuccess P (f a))
    → OnSuccess P (and_then r f)
OnSuccess-and_then P (success a) f h k = k a h
OnSuccess-and_then P (failure e) f h k = tt

-- Neither `message_stop` nor a stop reason.
abbrev pub IsNotTerminal : Frame → Type 0
IsNotTerminal message_stop = ⊥
IsNotTerminal (message_delta (some d)) = is_empty d.0 ≡ true
IsNotTerminal _ = Unit

abbrev IsOpen : StreamState → Type 0
IsOpen s = (s.saw_stop ≡ false) × (s.stop_reason ≡ other_stop "")

set_delta-IsOpen :
    (stop : String) (n : ℤ) (s : StreamState)
    → is_empty stop ≡ true
    → IsOpen s
    → IsOpen (set_delta stop n s)
unfolding set_delta
set_delta-IsOpen stop n s h k = rw h k

module _ (fn : List StreamEvent → StreamEvent → Option String) where
  send-IsOpen : (e : StreamEvent) (s : StreamState) → IsOpen s → OnSuccess IsOpen (send fn e s)
  unfolding send deliver
  send-IsOpen e s h = elim (Option-cases (fn s.sent e)) [
    | inl no_ ↦ rw no_ h
    | inr (x, yes_) ↦ rw yes_ tt
  ]

  send_if-IsOpen :
      (b : Bool) (e : StreamEvent) (s : StreamState)
      → IsOpen s
      → OnSuccess IsOpen (send_if fn b e s)
  unfolding send_if
  send_if-IsOpen true e s h = send-IsOpen e s h
  send_if-IsOpen false e s h = h

  send_delta-IsOpen :
      (d : Delta) (s : StreamState) → IsOpen s → OnSuccess IsOpen (send_delta fn d s)
  unfolding send_delta
  send_delta-IsOpen (text_delta t) s h = send-IsOpen (text_event t) s h
  send_delta-IsOpen (thinking_delta t) s h = send-IsOpen (thinking_event t) s h
  send_delta-IsOpen (json_delta t) s h = send-IsOpen (tool_delta t) s h
  send_delta-IsOpen (signature_delta t) s h = h
  send_delta-IsOpen (other_delta t) s h = h

  delta_into-IsOpen :
      (i : ℤ) (d : Delta) (a : Option BlockAcc) (n : ℕ) (s : StreamState)
      → IsOpen s
      → OnSuccess IsOpen (delta_into fn i d a n s)
  unfolding delta_into
  delta_into-IsOpen i d none n s h = h
  delta_into-IsOpen i d (some a) n s h = send_delta-IsOpen d _ h

  stop_acc-IsOpen :
      (a : Option BlockAcc) (s : StreamState) → IsOpen s → OnSuccess IsOpen (stop_acc fn a s)
  unfolding stop_acc
  stop_acc-IsOpen none s h = h
  stop_acc-IsOpen (some a) s h = send_if-IsOpen _ _ s h

  step-IsOpen :
      (f : Frame) (s : StreamState) → IsNotTerminal f → IsOpen s → OnSuccess IsOpen (step fn f s)
  unfolding step on_start set_prompt
  step-IsOpen no_data s h k = k
  step-IsOpen message_stop s h k = absurd h
  step-IsOpen (error_event t m) s h k = tt
  step-IsOpen (block_start none) s h k = tt
  step-IsOpen (block_start (some b)) s h k = send_if-IsOpen _ _ _ k
  step-IsOpen (block_delta none) s h k = tt
  step-IsOpen (block_delta (some (i, d))) s h k = delta_into-IsOpen i d _ _ s k
  step-IsOpen (block_stop i) s h k = stop_acc-IsOpen (s.blocks i) s k
  step-IsOpen (message_delta none) s h k = tt
  step-IsOpen (message_delta (some d)) s h k = set_delta-IsOpen d.0 d.1 s h k
  step-IsOpen (message_start none) s h k = k
  step-IsOpen (message_start (some u)) s h k = k
  step-IsOpen (other_event t) s h k = k

  run-IsOpen :
      (fs : List Frame) (s : StreamState)
      → All IsNotTerminal fs
      → IsOpen s
      → OnSuccess IsOpen (run fn fs s)
  unfolding run
  run-IsOpen [] s h k = k
  run-IsOpen (f ∷ fs) s h k =
      OnSuccess-and_then IsOpen (step fn f s) (run fn fs) (step-IsOpen f s h.0 k)
        (λ s' k'. run-IsOpen fs s' h.1 k')

  finish_open :
      (json_valid : String → Bool) (end : Ending) (s : StreamState)
      → IsOpen s
      → (e : Failure) × (finish fn json_valid end s ≡ failure e)
  unfolding finish is_unset
  finish_open json_valid (read_error e) s h = (unread e, refl)
  finish_open json_valid at_eof s h = (truncated, rw (h.0, h.1) refl)

  finish_run :
      (json_valid : String → Bool) (end : Ending) (r : Try StreamState)
      → OnSuccess IsOpen r
      → (e : Failure) × (and_then r (finish fn json_valid end) ≡ failure e)
  finish_run json_valid end (success s) h = finish_open json_valid end s h
  finish_run json_valid end (failure e) h = (e, refl)

  guarded_failure :
      (c : Option Refusal) (r : Try Response)
      → ((e : Failure) × (r ≡ failure e))
      → (e : Failure) × (guarded c r ≡ failure e)
  guarded_failure none r h = h
  guarded_failure (some c) r h = (refusal c, refl)

  reply_failure :
      (json_valid : String → Bool) (r : HttpReply (List Frame × Ending))
      → All IsNotTerminal r.body.0
      → (e : Failure) × (and_then
            (check_status r)
            (λ (fs, end). and_then (run fn fs start_state) (finish fn json_valid end))
          ≡ failure e)
  unfolding check_status
  reply_failure json_valid r h = elim (Bool-cases (leb 400 r.status)) [
    | inl yes_ ↦ rw yes_ (bad_status r.status, refl)
    | inr no_ ↦ rw no_ (
        finish_run json_valid r.body.1 (run fn r.body.0 start_state)
          (run-IsOpen r.body.0 start_state h (refl, refl)))
  ]

  -- A streamed reply without a stop reason and without `message_stop`, however its other frames
  -- read and whatever the callback says, ends in an error and never in an answer.
  pub stream_cut :
      (json_valid : String → Bool)
      (exchange : ApiRequest → Result (HttpReply (List Frame × Ending))) (req : Request)
      (r : HttpReply (List Frame × Ending))
      → exchange (build_request req true) ≡ ok r
      → All IsNotTerminal r.body.0
      → (e : Failure) × (stream fn json_valid exchange req ≡ failure e)
  unfolding stream post
  stream_cut json_valid exchange req r h k =
      guarded_failure (check_content req) _ (rw h (reply_failure json_valid r k))
