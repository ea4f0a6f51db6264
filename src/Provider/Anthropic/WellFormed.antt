-- ===== src/Provider/Anthropic/WellFormed.antt =====
-- The request that `buildRequest` of provider/anthropic/anthropic.go makes, against the rules of
-- the API that its comments name.
use gori.Prelude.{
  leb, if◌then◌else◌, Bool-cases, length, All, All-append, is_empty, ℕ, zero, suc, ◌+◌, ◌^◌, ◌≤◌,
  ◌<◌, String, ◌≡◌, refl, ◌∙◌, ◌⊎◌, inl, inr, Bool, false, Option, none, some, List, [], ◌∷◌, arith,
}
use gori.Prelude.Int.{ℤ, pos, negsuc, pos_part, add64}
use gori.Message.{
  Role, system, user, assistant, tool, other_role, Image, Content, text, thinking, plan, image,
  audio, tool_use, tool_result, foreign, Message,
}
use gori.Provider.{ThinkingMode, thinking_off, thinking_auto, thinking_budget, Request}
use gori.Provider.Anthropic.{
  default_max_tokens, Block, text_block, tool_use_block, tool_result_block, ApiMessage, ApiRequest,
  wire_role, join_lines, image_block, add_block, content_blocks, wire_message, add_message,
  add_messages, max_tokens_of, budget_of, add_thinking, build_request, or_default,
}

-- No empty text, no empty result of a tool, no empty input.
abbrev pub BlockIsWellFormed : Block → Type 0
BlockIsWellFormed (text_block s) = is_empty s ≡ false
BlockIsWellFormed (tool_use_block i n j) = is_empty j ≡ false
BlockIsWellFormed (tool_result_block i c e) = is_empty c ≡ false
BlockIsWellFormed _ = Unit

abbrev pub MessageIsWellFormed : ApiMessage → Type 0
MessageIsWellFormed m =
    (0 < length m.content)
    × All BlockIsWellFormed m.content
    × ((m.role ≡ "user") ⊎ (m.role ≡ "assistant"))

-- The signed maximum is positive, and above the budget of thinking, which has a minimum.
abbrev pub HasRoom : Option ℕ → ℕ → Type 0
HasRoom none n = (0 < n) × (n < 2 ^ 63)
HasRoom (some b) n = (1024 ≤ b) × (b < n) × (n < 2 ^ 63)

abbrev pub Excludes : Option ℕ → Option String → Type 0
Excludes none t = Unit
Excludes (some b) t = t ≡ none

abbrev pub IsWellFormed : ApiRequest → Type 0
IsWellFormed r =
    HasRoom r.thinking r.max_tokens
    × Excludes r.thinking r.temperature
    × All MessageIsWellFormed r.messages

-- A plan has a text.
abbrev pub IsSpoken : Content → Type 0
IsSpoken (plan p) = is_empty (join_lines p.steps) ≡ false
IsSpoken _ = Unit

or_default-IsWellFormed : (d s : String) → is_empty d ≡ false → is_empty (or_default d s) ≡ false
or_default-IsWellFormed d s h = elim (Bool-cases (is_empty s)) [
  | inl yes_ ↦ rw yes_ h
  | inr no_ ↦ rw (no_, no_)
]

image_block-IsWellFormed : (i : Image) → BlockIsWellFormed (image_block i)
unfolding image_block
image_block-IsWellFormed i = elim (Bool-cases (is_empty i.url)) [
  | inl yes_ ↦ rw yes_ tt
  | inr no_ ↦ rw no_ tt
]

add_block-IsWellFormed :
    (c : Content) (bs : List Block)
    → IsSpoken c
    → All BlockIsWellFormed bs
    → All BlockIsWellFormed (add_block c bs)
unfolding add_block
add_block-IsWellFormed (text t) bs h k = elim (Bool-cases (is_empty t.text)) [
  | inl yes_ ↦ rw yes_ k
  | inr no_ ↦ rw no_ (no_, k)
]
add_block-IsWellFormed (plan p) bs h k = (h, k)
add_block-IsWellFormed (thinking t) bs h k = (tt, k)
add_block-IsWellFormed (tool_use u) bs h k = (or_default-IsWellFormed "{}" u.input refl, k)
add_block-IsWellFormed (tool_result r) bs h k =
    (or_default-IsWellFormed "(no output)" r.content refl, k)
add_block-IsWellFormed (image i) bs h k = (image_block-IsWellFormed i, k)
add_block-IsWellFormed (audio _) bs h k = k
add_block-IsWellFormed (foreign _) bs h k = k

content_blocks-IsWellFormed :
    (cs : List Content) → All IsSpoken cs → All BlockIsWellFormed (content_blocks cs)
unfolding content_blocks
content_blocks-IsWellFormed [] h = tt
content_blocks-IsWellFormed (c ∷ cs) h =
    add_block-IsWellFormed c (content_blocks cs) h.0 (content_blocks-IsWellFormed cs h.1)

wire_role_cases : (r : Role) → (wire_role r ≡ "user") ⊎ (wire_role r ≡ "assistant")
unfolding wire_role
wire_role_cases assistant = inr refl
wire_role_cases system = inl refl
wire_role_cases user = inl refl
wire_role_cases tool = inl refl
wire_role_cases (other_role s) = inl refl

wire_message-IsWellFormed :
    (r : Role) (bs : List Block)
    → All BlockIsWellFormed bs
    → All MessageIsWellFormed (wire_message r bs)
unfolding wire_message
wire_message-IsWellFormed r [] h = tt
wire_message-IsWellFormed r (b ∷ bs) h = ((omega arith, h, wire_role_cases r), tt)

add_message-IsWellFormed :
    (r : Role) (cs : List Content) (out : ApiRequest)
    → All IsSpoken cs
    → All MessageIsWellFormed out.messages
    → All MessageIsWellFormed (add_message r cs out).messages
unfolding add_message
add_message-IsWellFormed system cs out h k = k
add_message-IsWellFormed user cs out h k =
    All-append MessageIsWellFormed out.messages _ k
      (wire_message-IsWellFormed user _ (content_blocks-IsWellFormed cs h))
add_message-IsWellFormed assistant cs out h k =
    All-append MessageIsWellFormed out.messages _ k
      (wire_message-IsWellFormed assistant _ (content_blocks-IsWellFormed cs h))
add_message-IsWellFormed tool cs out h k =
    All-append MessageIsWellFormed out.messages _ k
      (wire_message-IsWellFormed tool _ (content_blocks-IsWellFormed cs h))
add_message-IsWellFormed (other_role s) cs out h k =
    All-append MessageIsWellFormed out.messages _ k
      (wire_message-IsWellFormed (other_role s) _ (content_blocks-IsWellFormed cs h))

-- A message changes neither the limit nor the settings of thinking.
abbrev SameSettings : ApiRequest → ApiRequest → Type 0
SameSettings a b =
    (a.max_tokens ≡ b.max_tokens) × (a.thinking ≡ b.thinking) × (a.temperature ≡ b.temperature)

add_message_settings :
    (r : Role) (cs : List Content) (out : ApiRequest) → SameSettings (add_message r cs out) out
unfolding add_message
add_message_settings system cs out = (refl, refl, refl)
add_message_settings user cs out = (refl, refl, refl)
add_message_settings assistant cs out = (refl, refl, refl)
add_message_settings tool cs out = (refl, refl, refl)
add_message_settings (other_role s) cs out = (refl, refl, refl)

add_messages_settings :
    (ms : List Message) (out : ApiRequest) → SameSettings (add_messages ms out) out
unfolding add_messages
add_messages_settings [] out = (refl, refl, refl)
add_messages_settings (m ∷ ms) out =
    let (a, b, c) = add_messages_settings ms (add_message m.role m.content out) in
    let (d, e, f) = add_message_settings m.role m.content out in (a ∙ d, b ∙ e, c ∙ f)

add_messages-IsWellFormed :
    (ms : List Message) (out : ApiRequest)
    → All (λ m. All IsSpoken m.content) ms
    → All MessageIsWellFormed out.messages
    → All MessageIsWellFormed (add_messages ms out).messages
unfolding add_messages
add_messages-IsWellFormed [] out h k = k
add_messages-IsWellFormed (m ∷ ms) out h k =
    add_messages-IsWellFormed ms (add_message m.role m.content out) h.1
      (add_message-IsWellFormed m.role m.content out h.0 k)

max_tokens_of_bounds :
    (n : ℤ) → pos_part n < 2 ^ 63 → (0 < max_tokens_of n) × (max_tokens_of n < 2 ^ 63)
unfolding max_tokens_of
max_tokens_of_bounds (pos zero) h = (omega arith, omega arith)
max_tokens_of_bounds (pos (suc n)) h = (omega arith, h)
max_tokens_of_bounds (negsuc n) h = (omega arith, omega arith)

budget_of_bounds :
    (n : ℤ)
    → pos_part n + default_max_tokens < 2 ^ 63
    → (1024 ≤ budget_of n) × (budget_of n + default_max_tokens < 2 ^ 63)
unfolding budget_of
budget_of_bounds (pos zero) h = (omega arith, omega arith)
budget_of_bounds (pos (suc n)) h = (ground arith, ground arith)
budget_of_bounds (negsuc n) h = (omega arith, omega arith)

room_for :
    (b n : ℕ)
    → 1024 ≤ b
    → b + default_max_tokens < 2 ^ 63
    → n < 2 ^ 63
    → HasRoom (some b) (if leb n b then add64 b default_max_tokens else n)
room_for b n h k l = (h, ground arith, ground arith)

abbrev IsSettled : ApiRequest → Type 0
IsSettled r = HasRoom r.thinking r.max_tokens × Excludes r.thinking r.temperature

enabled-IsSettled :
    (b : ℤ) (out : ApiRequest)
    → pos_part b + default_max_tokens < 2 ^ 63
    → out.max_tokens < 2 ^ 63
    → out.temperature ≡ none
    → IsSettled (add_thinking thinking_auto b none out)
unfolding add_thinking
enabled-IsSettled b out h k l =
    let (low, high) = budget_of_bounds b h in (room_for (budget_of b) out.max_tokens low high k, l)

add_thinking-IsSettled :
    (mode : ThinkingMode) (b : ℤ) (t : Option String) (out : ApiRequest)
    → pos_part b + default_max_tokens < 2 ^ 63
    → (0 < out.max_tokens) × (out.max_tokens < 2 ^ 63)
    → out.thinking ≡ none
    → out.temperature ≡ none
    → IsSettled (add_thinking mode b t out)
unfolding add_thinking
add_thinking-IsSettled thinking_off b t out h k l j = rw l (k, tt)
add_thinking-IsSettled thinking_auto b t out h k l j = enabled-IsSettled b out h k.1 j
add_thinking-IsSettled thinking_budget b t out h k l j = enabled-IsSettled b out h k.1 j

add_thinking_messages :
    (mode : ThinkingMode) (b : ℤ) (t : Option String) (out : ApiRequest)
    → (add_thinking mode b t out).messages ≡ out.messages
unfolding add_thinking
add_thinking_messages thinking_off b t out = refl
add_thinking_messages thinking_auto b t out = refl
add_thinking_messages thinking_budget b t out = refl

-- A request that is built from limits in the range of `int`, with room above the budget, and from
-- messages whose plans have a text keeps these rules: its limit is positive; with thinking the budget
-- is at least 1024, the limit is above it, and no temperature is sent; each message has a block and
-- the role of a user or an assistant; no text, input or result of a tool is empty. These are rules of the
-- API, not all of them: an empty list of messages, thinking without a signature and a forced choice
-- of a tool are not ruled out.
pub build_request-IsWellFormed :
    (req : Request) (stream : Bool)
    → pos_part req.max_tokens < 2 ^ 63
    → pos_part req.thinking.budget + default_max_tokens < 2 ^ 63
    → All (λ m. All IsSpoken m.content) req.messages
    → IsWellFormed (build_request req stream)
unfolding build_request
build_request-IsWellFormed req stream h k l =
    let (a, b, c) = add_messages_settings req.messages _ in
    let settled =
      add_thinking-IsSettled req.thinking.mode req.thinking.budget req.temperature _ k
        (rw a (max_tokens_of_bounds req.max_tokens h)) b c in
    (settled.0, settled.1, rw add_thinking_messages (add_messages-IsWellFormed req.messages _ l tt))
