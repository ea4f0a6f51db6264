-- ===== src/Provider.antt =====
-- The neutral types of provider.go and their token accounting. Go's `int` is a 64-bit pattern here.
pub mod Anthropic
pub mod Openai
use gori.Prelude.{ℕ, ◌≡◌, String, List, [], ◌∷◌, Option, arith}
use gori.Prelude.Int.{ℤ, add64}
use gori.Message.{Message}

-- `other_stop` is a reason text that is none of the constants, the empty one among them.
pub data StopReason : Type 0 where
  end_turn stop_tool_use max_tokens stop_other : StopReason
  other_stop : String → StopReason

pub record Usage : Type 0 where
  pub input_tokens : ℕ
  pub output_tokens : ℕ
  pub thinking_tokens : ℕ
  pub cache_read_tokens : ℕ
  pub cache_write_tokens : ℕ

abbrev pub zero_usage : Usage
zero_usage = record {
  input_tokens = 0;
  output_tokens = 0;
  thinking_tokens = 0;
  cache_read_tokens = 0;
  cache_write_tokens = 0;
}

-- `u.Add(o)`.
unfoldable pub add_usage : Usage → Usage → Usage
add_usage u o = record {
  input_tokens = add64 u.input_tokens o.input_tokens;
  output_tokens = add64 u.output_tokens o.output_tokens;
  thinking_tokens = add64 u.thinking_tokens o.thinking_tokens;
  cache_read_tokens = add64 u.cache_read_tokens o.cache_read_tokens;
  cache_write_tokens = add64 u.cache_write_tokens o.cache_write_tokens;
}

unfoldable pub total : Usage → ℕ
total u = add64 (add64 u.input_tokens u.output_tokens) u.thinking_tokens

-- The loop of calls of `Add` that an agent makes.
unfoldable pub sum_usage : Usage → List Usage → Usage
sum_usage u [] = u
sum_usage u (o ∷ os) = sum_usage (add_usage u o) os

pub record Response : Type 0 where
  pub message : Message
  pub stop_reason : StopReason
  pub usage : Usage

pub data ThinkingMode : Type 0 where
  thinking_off thinking_auto thinking_budget : ThinkingMode

pub record ThinkingConfig : Type 0 where
  pub mode : ThinkingMode
  pub budget : ℤ

pub record ToolDef : Type 0 where
  pub name : String
  pub description : String
  pub schema : String

-- A temperature is a float, which the program only carries along: its text stands for it.
pub record Request : Type 0 where
  pub model : String
  pub system : String
  pub messages : List Message
  pub tools : List ToolDef
  pub tool_choice : String
  pub max_tokens : ℤ
  pub temperature : Option String
  pub thinking : ThinkingConfig
  pub response_modalities : List String

-- The total of a sum is the sum of the totals, also where the counts wrap.
pub total-add_usage : (u o : Usage) → total (add_usage u o) ≡ add64 (total u) (total o)
unfolding total add_usage
total-add_usage u o = omega arith

-- The normalised events of a stream, each type with the fields it carries.
pub data StreamEvent : Type 0 where
  text_event thinking_event : String → StreamEvent
  tool_start : String → String → StreamEvent
  tool_delta tool_stop : String → StreamEvent
  stream_done : Usage → StreamEvent
