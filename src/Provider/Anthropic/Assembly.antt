-- ===== src/Provider/Anthropic/Assembly.antt =====
-- A reply that is streamed, against the same reply in one piece, in
-- provider/anthropic/anthropic.go.
use gori.Prelude.{
  ◌==◌, ==_iff, str_eq, is_empty, concat, ℕ, zero, suc, ◌≤◌, ◌<◌, String, ◌≡◌, refl, Bool, true,
  false, Option, none, some, List, [], ◌∷◌, ◌++◌, map, arith,
}
use gori.Prelude.Int.{ℤ, pos}
use gori.Message.{Content}
use gori.Provider.{StopReason, Usage}
use gori.Provider.Anthropic.{RespBlock, resp_text, resp_thinking, resp_tool, resp_other, ApiUsage}
use gori.Provider.Anthropic.Events.{
  Try, success, failure, and_then, Delta, text_delta, thinking_delta, signature_delta, json_delta,
  BlockStart, Frame, message_stop, block_start, block_delta, block_stop, message_delta,
  message_start, BlockAcc, StreamState, put, collect,
}

-- A block as the server streams it, in chunks; the last kind carries nothing to send again.
pub data SentBlock : Type 0 where
  sent_text : List String → SentBlock
  sent_thinking : List String → List String → SentBlock
  sent_tool : String → String → List String → SentBlock
  sent_other : String → SentBlock

abbrev pub whole : SentBlock → RespBlock
whole (sent_text cs) = resp_text (concat cs)
whole (sent_thinking cs gs) = resp_thinking (concat cs) (concat gs)
whole (sent_tool i n js) = resp_tool i n (concat js)
whole (sent_other t) = resp_other t

abbrev pub deltas_of : SentBlock → List Delta
deltas_of (sent_text cs) = map text_delta cs
deltas_of (sent_thinking cs gs) = map thinking_delta cs ++ map signature_delta gs
deltas_of (sent_tool i n js) = map json_delta js
deltas_of (sent_other t) = []

abbrev pub start_of : ℕ → SentBlock → BlockStart
start_of k (sent_text cs) = record { index = pos k; type_name = "text"; id = ""; name = "" }
start_of k (sent_thinking cs gs) = record {
  index = pos k;
  type_name = "thinking";
  id = "";
  name = "";
}
start_of k (sent_tool i n js) = record { index = pos k; type_name = "tool_use"; id = i; name = n }
start_of k (sent_other t) = record { index = pos k; type_name = t; id = ""; name = "" }

abbrev pub delta_frame : ℕ → Delta → Frame
delta_frame k d = block_delta (some (pos k, d))

abbrev pub block_frames : ℕ → SentBlock → List Frame
block_frames k b =
    block_start (some (start_of k b)) ∷ map (delta_frame k) (deltas_of b) ++ block_stop (pos k) ∷ []

abbrev pub blocks_frames : ℕ → List SentBlock → List Frame
blocks_frames k [] = []
blocks_frames k (b ∷ bs) = block_frames k b ++ blocks_frames (suc k) bs

abbrev pub reply_frames : List SentBlock → String → ApiUsage → List Frame
reply_frames bs stop u =
    message_start (some u) ∷ blocks_frames 0 bs
    ++ message_delta (some (stop, pos u.output_tokens)) ∷ message_stop ∷ []

-- A text is not empty, the input of a tool is JSON, and the other blocks have another type.
abbrev pub IsWhole : (String → Bool) → SentBlock → Type 0
IsWhole valid (sent_text cs) = is_empty (concat cs) ≡ false
IsWhole valid (sent_thinking cs gs) = Unit
IsWhole valid (sent_tool i n js) = (is_empty (concat js) ≡ false) × (valid (concat js) ≡ true)
IsWhole valid (sent_other t) =
    (str_eq t "text" ≡ false) × (str_eq t "thinking" ≡ false) × (str_eq t "tool_use" ≡ false)

abbrev pub Yields {ℓ} : {A : Type ℓ} → (A → Type 0) → Try A → Type 0
Yields P (success a) = P a
Yields P (failure e) = ⊥

pub Yields-and_then {ℓ κ} :
    {A : Type ℓ} {B : Type κ} (P : A → Type 0) (Q : B → Type 0) (r : Try A) (f : A → Try B)
    → Yields P r
    → ((a : A) → P a → Yields Q (f a))
    → Yields Q (and_then r f)
Yields-and_then P Q (success a) f h k = k a h
Yields-and_then P Q (failure e) f h k = absurd h

-- The parts of the state that no block changes.
pub record Fixed : Type 0 where
  pub stop_reason : StopReason
  pub usage : Usage

abbrev pub IsKept : Fixed → StreamState → Type 0
IsKept f s = (s.stop_reason ≡ f.stop_reason) × (s.usage ≡ f.usage)

-- The state between two blocks: `k` blocks are read, with the content `cs`.
abbrev pub IsBetween : (String → Bool) → Fixed → ℕ → List Content → StreamState → Type 0
IsBetween valid f k cs s =
    IsKept f s
    × (s.count ≡ k)
    × (collect valid s.blocks k ≡ cs)
    × ((j : ℕ) → k ≤ j → s.blocks (pos j) ≡ none)

-- The state within the block `k`, with its accumulator.
abbrev pub IsWithin : (String → Bool) → Fixed → ℕ → List Content → BlockAcc → StreamState → Type 0
IsWithin valid f k cs a s =
    IsKept f s
    × (s.count ≡ suc k)
    × (collect valid s.blocks k ≡ cs)
    × (s.blocks (pos k) ≡ some a)
    × ((j : ℕ) → k < j → s.blocks (pos j) ≡ none)

pub put_other :
    (j k : ℕ) (a : BlockAcc) (blocks : ℤ → Option BlockAcc)
    → (j == k) ≡ false
    → put (pos k) a blocks (pos j) ≡ blocks (pos j)
put_other j k a blocks h = rw h

pub put_same :
    (k : ℕ) (a : BlockAcc) (blocks : ℤ → Option BlockAcc) → put (pos k) a blocks (pos k) ≡ some a
put_same k a blocks = rw ((==_iff k k).1 refl)

pub collect-put :
    (valid : String → Bool) (k n : ℕ) (a : BlockAcc) (blocks : ℤ → Option BlockAcc)
    → n ≤ k
    → collect valid (put (pos k) a blocks) n ≡ collect valid blocks n
unfolding collect
collect-put valid k zero a blocks h = refl
collect-put valid k (suc n) a blocks h =
    rw (put_other n k a blocks (ground arith), collect-put valid k n a blocks (omega arith))
