-- ===== src/Provider/Anthropic/Whole.antt =====
-- `Stream` on a whole reply, against `Complete` (provider/anthropic/anthropic.go).
use mathlib.Core.List.{append-nil, append_assoc}
use gori.Prelude.{
  ltb, leb, if◌then◌else◌, Bool-cases, length, All, is_empty, Result, ok, ℕ, suc, ◌+◌, String, ◌≡◌,
  refl, sym, ap, ◌∙◌, inl, inr, Bool, true, false, Option, none, some, List, [], ◌∷◌, ◌++◌, map,
  arith,
}
use gori.Prelude.Int.{pos}
use gori.Message.{Content}
use gori.Provider.{other_stop, zero_usage, Request, StreamEvent}
use gori.Provider.Anthropic.{
  ApiRequest, build_request, RespBlock, resp_text, resp_thinking, resp_tool, resp_other, ApiUsage,
  ApiResponse, to_content, prompt_size, to_response,
}
use gori.Provider.Anthropic.Events.{
  Try, success, failure, and_then, HttpReply, check_status, post, decoded, complete, Delta, Frame,
  message_stop, block_start, message_delta, BlockAcc, StreamState, start_state, write_delta,
  set_delta, set_prompt, Ending, at_eof, collect, deliver, send, step, run, finish, stream,
}
use gori.Provider.Anthropic.Assembly.{
  SentBlock, sent_text, sent_thinking, sent_tool, sent_other, whole, deltas_of, start_of,
  delta_frame, block_frames, blocks_frames, reply_frames, IsWhole, Yields, Yields-and_then, Fixed,
  IsBetween, IsWithin,
}
use gori.Provider.Anthropic.Streamed.{
  write_all, started, acc_content-whole, start-IsWithin, delta-IsWithin, stop-IsBetween,
}

and_then_assoc {ℓ κ ι} :
    {A : Type ℓ} {B : Type κ} {C : Type ι} (r : Try A) (f : A → Try B) (g : B → Try C)
    → and_then (and_then r f) g ≡ and_then r (λ a. and_then (f a) g)
and_then_assoc (success a) f g = refl
and_then_assoc (failure e) f g = refl

and_then-ext {ℓ κ} :
    {A : Type ℓ} {B : Type κ} (r : Try A) (f g : A → Try B)
    → ((a : A) → f a ≡ g a)
    → and_then r f ≡ and_then r g
and_then-ext (success a) f g h = h a
and_then-ext (failure e) f g h = refl

run-append :
    (fn : List StreamEvent → StreamEvent → Option String) (fs gs : List Frame) (s : StreamState)
    → run fn (fs ++ gs) s ≡ and_then (run fn fs s) (run fn gs)
unfolding run
run-append fn [] gs s = refl
run-append fn (f ∷ fs) gs s =
    and_then-ext (step fn f s) _ _ (run-append fn fs gs)
    ∙ sym (and_then_assoc (step fn f s) (run fn fs) (run fn gs))

run-one :
    (fn : List StreamEvent → StreamEvent → Option String) (f : Frame) (s : StreamState)
    → run fn (f ∷ []) s ≡ step fn f s
unfolding run
run-one fn f s = back (step fn f s)
  where
    back : (r : Try StreamState) → and_then r (λ a. success a) ≡ r
    back (success a) = refl
    back (failure e) = refl

to_content-append :
    (as' bs : List RespBlock) → to_content (as' ++ bs) ≡ to_content as' ++ to_content bs
unfolding to_content
to_content-append [] bs = refl
to_content-append (resp_text s ∷ as') bs = rw (to_content-append as' bs)
to_content-append (resp_thinking s g ∷ as') bs = rw (to_content-append as' bs)
to_content-append (resp_tool i n j ∷ as') bs = rw (to_content-append as' bs)
to_content-append (resp_other t ∷ as') bs = to_content-append as' bs

joined :
    (cs : List Content) (b : SentBlock) (bs : List SentBlock)
    → (cs ++ to_content (whole b ∷ [])) ++ to_content (map whole bs)
      ≡ cs ++ to_content (whole b ∷ map whole bs)
joined cs b bs =
    append_assoc cs _ _ ∙ ap (λ x. cs ++ x) (sym (to_content-append (whole b ∷ []) (map whole bs)))

k_zero : (k : ℕ) → k + 0 ≡ k
k_zero k = omega arith

k_suc : (k n : ℕ) → k + suc n ≡ suc k + n
k_suc k n = omega arith

nonzero_or : (n : ℕ) → (if ltb 0 n then n else 0) ≡ n
nonzero_or n = ground arith

start_of_index : (k : ℕ) (b : SentBlock) → (start_of k b).index ≡ pos k
start_of_index k (sent_text cs) = refl
start_of_index k (sent_thinking cs gs) = refl
start_of_index k (sent_tool i n js) = refl
start_of_index k (sent_other t) = refl

yielded {ℓ κ} :
    {A : Type ℓ} {B : Type κ} (P : A → Type 0) (r : Try A) (f : A → Try B) (b : Try B)
    → Yields P r
    → ((a : A) → P a → f a ≡ b)
    → and_then r f ≡ b
yielded P (success a) f b h k = k a h
yielded P (failure e) f b h k = absurd h

abbrev pub whole_reply : List SentBlock → String → ApiUsage → ApiResponse
whole_reply bs stop u = record { content = map whole bs; stop_reason = stop; usage = u }

-- The state's fixed parts once `message_start` is read.
abbrev fixed_by : ApiUsage → Fixed
fixed_by u = record {
  stop_reason = other_stop "";
  usage = record zero_usage {
    input_tokens = prompt_size u;
    cache_read_tokens = u.cache_read;
    cache_write_tokens = u.cache_creation;
  };
}

module _ (fn : List StreamEvent → StreamEvent → Option String) (valid : String → Bool)
    (accept : (sent : List StreamEvent) (e : StreamEvent) → fn sent e ≡ none) where
  deltas-IsWithin :
      (f : Fixed) (k : ℕ) (cs : List Content) (ds : List Delta) (a : BlockAcc) (s : StreamState)
      → IsWithin valid f k cs a s
      → Yields (IsWithin valid f k cs (write_all ds a)) (run fn (map (delta_frame k) ds) s)
  unfolding run
  deltas-IsWithin f k cs [] a s h = h
  deltas-IsWithin f k cs (d ∷ ds) a s h =
      Yields-and_then (IsWithin valid f k cs (write_delta d a)) _ (step fn (delta_frame k d) s) _
        (delta-IsWithin fn valid accept f k cs d a s h)
        (λ s' h'. deltas-IsWithin f k cs ds (write_delta d a) s' h')

  block-IsBetween :
      (f : Fixed) (k : ℕ) (cs : List Content) (b : SentBlock) (s : StreamState)
      → IsWhole valid b
      → IsBetween valid f k cs s
      → Yields
          (IsBetween valid f (suc k) (cs ++ to_content (whole b ∷ [])))
          (run fn (block_frames k b) s)
  unfolding run
  block-IsBetween f k cs b s w h =
      Yields-and_then (IsWithin valid f k cs (started (start_of k b))) _
        (step fn (block_start (some (start_of k b))) s) _
        (start-IsWithin fn valid accept f k cs (start_of k b) s (start_of_index k b) h)
        (λ s' h'. rw (run-append fn (map (delta_frame k) (deltas_of b))) (
          Yields-and_then (IsWithin valid f k cs (write_all (deltas_of b) (started (start_of k b))))
            _ _ _ (deltas-IsWithin f k cs (deltas_of b) (started (start_of k b)) s' h')
            (λ s'' h''.
              rw (run-one, sym (acc_content-whole valid k b w))
                (stop-IsBetween fn valid accept f k cs _ s'' h''))))

  blocks-IsBetween :
      (f : Fixed) (k : ℕ) (cs : List Content) (bs : List SentBlock) (s : StreamState)
      → All (IsWhole valid) bs
      → IsBetween valid f k cs s
      → Yields
          (IsBetween valid f (k + length bs) (cs ++ to_content (map whole bs)))
          (run fn (blocks_frames k bs) s)
  unfolding run to_content
  blocks-IsBetween f k cs [] s w h = rw (k_zero k, append-nil) h
  blocks-IsBetween f k cs (b ∷ bs) s w h = rw run-append (
      Yields-and_then (IsBetween valid f (suc k) (cs ++ to_content (whole b ∷ []))) _
        (run fn (block_frames k b) s) _ (block-IsBetween f k cs b s w.0 h)
        (λ s' h'.
          rw (k_suc k (length bs), sym (joined cs b bs))
            (blocks-IsBetween f (suc k) (cs ++ to_content (whole b ∷ [])) bs s' w.1 h')))

  closed :
      (bs : List SentBlock) (stop : String) (u : ApiUsage) (n : ℕ) (s : StreamState)
      → is_empty stop ≡ false
      → IsBetween valid (fixed_by u) n (to_content (map whole bs)) s
      → and_then
          (run fn (message_delta (some (stop, pos u.output_tokens)) ∷ message_stop ∷ []) s)
          (finish fn valid at_eof)
        ≡ success (to_response (whole_reply bs stop u))
  unfolding run step finish send deliver set_delta to_response
  closed bs stop u n s e ((a, b), h, l, m) = simp (accept, h, l, e, b, nonzero_or)

  start-IsBetween : (u : ApiUsage) → IsBetween valid (fixed_by u) 0 [] (set_prompt u start_state)
  unfolding set_prompt collect
  start-IsBetween u = ((refl, refl), refl, refl, λ j h. refl)

  run_reply :
      (bs : List SentBlock) (stop : String) (u : ApiUsage)
      → All (IsWhole valid) bs
      → is_empty stop ≡ false
      → and_then (run fn (reply_frames bs stop u) start_state) (finish fn valid at_eof)
        ≡ success (to_response (whole_reply bs stop u))
  unfolding run step
  run_reply bs stop u w e =
      rw (run-append fn (blocks_frames 0 bs), and_then_assoc)
        (yielded (IsBetween valid (fixed_by u) (0 + length bs) (to_content (map whole bs)))
          (run fn (blocks_frames 0 bs) (set_prompt u start_state)) _ _
          (blocks-IsBetween (fixed_by u) 0 [] bs (set_prompt u start_state) w (start-IsBetween u))
          (λ s h. closed bs stop u (0 + length bs) s e h))

  -- A reply that is streamed as `message_start`, the frames of its blocks in any chunks, a
  -- `message_delta` with a stop reason, and `message_stop` gives what the same reply in one piece
  -- gives `Complete`: the same response, refusal or error status. It is asked that the callback
  -- accepts every event, that no text is empty, and that each tool's input is valid JSON.
  pub stream-complete {ℓ} :
      {B : Type ℓ} (exchange : ApiRequest → Result (HttpReply (List Frame × Ending)))
      (exchange' : ApiRequest → Result (HttpReply B)) (decode : B → Result ApiResponse)
      (req : Request) (bs : List SentBlock) (stop : String) (u : ApiUsage) (status : ℕ) (b : B)
      → All (IsWhole valid) bs
      → is_empty stop ≡ false
      → exchange (build_request req true)
        ≡ ok (record { status = status; body = (reply_frames bs stop u, at_eof) })
      → exchange' (build_request req false) ≡ ok (record { status = status; body = b })
      → decode b ≡ ok (whole_reply bs stop u)
      → stream fn valid exchange req ≡ complete exchange' decode req
  unfolding stream complete post check_status decoded
  stream-complete exchange exchange' decode req bs stop u status b w e h k l =
      rw (h, k)
        (elim (Bool-cases (leb 400 status)) [
          | inl yes_ ↦ rw yes_
          | inr no_ ↦ rw (no_, l, run_reply bs stop u w e)
        ])
