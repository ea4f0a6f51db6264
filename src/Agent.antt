-- ===== src/Agent.antt =====
-- agent.go: the reason-act-observe loop. `W` is the world outside the library: the provider, the
-- tools and the clock act on it. The events are the calls of `Bus.Publish`, in order. A tool call is
-- one step of the world. Errors are values: the message's text is left to the reader.
pub mod Tools
pub mod Loop
pub mod Answers
pub mod Course
pub mod Turns
pub mod Truncated
pub mod Runs
use gori.Prelude.{
  ◌==◌, if◌then◌else◌, Result, ℕ, String, Bool, true, false, Option, none, some, List, [], ◌∷◌,
  ◌++◌,
}
use gori.Prelude.Int.{ℤ, pos, negsuc}
use gori.Message.{system, thinking, kind, Message}
use gori.Provider.{
  StopReason, end_turn, stop_tool_use, max_tokens, Usage, zero_usage, Response, ThinkingConfig,
  Request,
}
use gori.Bus.{EventData, Event}
use gori.Session.{Session, new_session, append_messages}
use gori.Registry.{Tool, defs}

pub record Agent (W : Type 0) : Type 0 where
  pub model : String
  pub system : String
  pub tools : Option (List (Tool W))
  pub session : Option Session
  pub max_tokens : ℤ
  pub temperature : Option String
  pub thinking : ThinkingConfig
  pub response_modalities : List String
  pub max_steps : ℤ
  pub keep_last : ℤ
  pub name : String
  pub has_bus : Bool
  pub parallel_tools : Bool
  pub total_usage : Usage
  pub session_usage : Usage
  pub step_usage : List Usage

-- The context of a run and the provider's call, `Complete` or `Stream`: `Stream` hands its events to
-- a callback, which is a part of the world too. `schedule` is the order in which goroutines run.
pub record Host (W : Type 0) : Type 0 where
  pub cancelled : W → Option String
  pub call : Request → W → Result Response × W
  pub schedule : W → List ℕ

-- A running agent, in its world, with the events that it has published.
pub record Run (W : Type 0) : Type 0 where
  pub agent : Agent W
  pub world : W
  pub events : List Event

pub data RunError : Type 0 where
  context_error provider_error : String → RunError
  max_steps_reached : ℕ → RunError

abbrev pub default_max_steps : ℕ
default_max_steps = 8

-- `executableStop`.
unfoldable pub executable_stop : StopReason → Bool
executable_stop end_turn = true
executable_stop stop_tool_use = true
executable_stop _ = false

module _ {W : Type 0} where
  -- The session, which `ensure` has made.
  unfoldable pub session_of : Agent W → Session
  session_of a = elim a.session [ none ↦ new_session | some s ↦ s ]

  unfoldable pub ensure : Agent W → Agent W
  ensure a = record a { session = some (session_of a) }

  unfoldable pub max_steps : Agent W → ℕ
  max_steps a = elim a.max_steps [
    | pos n ↦ if n == 0 then default_max_steps else n
    | negsuc n ↦ default_max_steps
  ]

  unfoldable pub emit : String → EventData → Run W → Run W
  emit kind d r =
      if r.agent.has_bus
      then record r {
        events =
            r.events
            ++ record {
              topic = r.agent.name;
              agent = r.agent.name;
              kind = kind;
              payload = d;
              origin = "";
            }
              ∷ [];
      }
      else r

  unfoldable pub clone : Agent W → Agent W
  clone a = record a {
    session = some new_session;
    total_usage = zero_usage;
    session_usage = zero_usage;
    step_usage = [];
  }

  unfoldable pub request : Agent W → Request
  request a = record {
    model = a.model;
    system = a.system;
    messages = (session_of a).history;
    tools = elim a.tools [ none ↦ [] | some ts ↦ defs ts ];
    tool_choice = "";
    max_tokens = a.max_tokens;
    temperature = a.temperature;
    thinking = a.thinking;
    response_modalities = a.response_modalities;
  }

  -- `a.Session.Append`.
  unfoldable pub remember : Message → Run W → Run W
  remember m r = record r {
    agent = record (r.agent) { session = some (append_messages (m ∷ []) (session_of r.agent)) };
  }
