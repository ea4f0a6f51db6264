-- ===== src/Agent/Course.antt =====
-- The course of the loop: what it asks the context, the provider and the tools, in which state, and what it
-- makes of their answers.
use gori.Prelude.{ok, err, ℕ, suc, String, ◌≡◌, Option, none, some, List, [], ◌∷◌, ◌++◌}
use gori.Message.{Message, tool_uses}
use gori.Provider.{Usage, add_usage, Response}
use gori.Session.{append_messages}
use gori.Agent.{
  Agent, Host, Run, context_error, provider_error, max_steps_reached, session_of, max_steps,
  request,
}
use gori.Agent.Loop.{Answer, react}

-- One iteration: the model's message, what it cost, and the message that answers its tool calls.
pub record Turn : Type 0 where
  pub message : Message
  pub usage : Usage
  pub reply : Option Message

abbrev pub messages_of : List Turn → List Message
messages_of [] = []
messages_of (t ∷ ts) = elim t.reply [
  | none ↦ t.message ∷ messages_of ts
  | some m ↦ t.message ∷ m ∷ messages_of ts
]

abbrev pub usages_of : List Turn → List Usage
usages_of [] = []
usages_of (t ∷ ts) = t.usage ∷ usages_of ts

-- The turn of a response.
abbrev pub turn_of : Response → Option Message → Turn
turn_of resp reply = record { message = resp.message; usage = resp.usage; reply = reply }

module _ {W : Type 0} where
  abbrev pub remember_agent : Message → Agent W → Agent W
  remember_agent m a = record a { session = some (append_messages (m ∷ []) (session_of a)) }

  abbrev pub account_agent : Usage → Agent W → Agent W
  account_agent u a = record a {
    total_usage = add_usage a.total_usage u;
    session_usage = add_usage a.session_usage u;
    step_usage = a.step_usage ++ u ∷ [];
  }

  -- The agent after a response is taken, and after its calls are answered.
  abbrev pub told : Response → Agent W → Agent W
  told resp a = remember_agent resp.message (account_agent resp.usage a)

  -- The tools run, or the calls are refused, in the state of an agent and a world, and leave a world.
  pub record Reacted (h : Host W) (resp : Response) (a : Agent W) (v : W) (m : Message) (u : W)
      : Type 0 where
    pub before : Run W
    pub after : Run W
    pub its_agent : before.agent ≡ a
    pub its_world : before.world ≡ v
    pub reacts : react h resp before ≡ (some m, after)
    pub leaves : after.world ≡ u

-- With so many steps left, the last message so far, an agent and a world: the turns, the answer and the
-- world at the end. Every step asks the context, and then the provider once, with the request of the agent
-- in the world as they are then; the next step starts from the world that the tools have left, with
-- the message, its usage and the tools' answers put into the agent.
pub data Course {W : Type 0} (h : Host W)
    : ℕ → Message → Agent W → W → List Turn → Answer → W → Type 0 where
  exhausted :
      {last : Message} {a : Agent W} {w : W}
      → Course h 0 last a w [] (last, some (max_steps_reached (max_steps a))) w
  interrupted :
      {left : ℕ} {last : Message} {a : Agent W} {w : W} {e : String}
      → h.cancelled w ≡ some e
      → Course h (suc left) last a w [] (last, some (context_error e)) w
  refused :
      {left : ℕ} {last : Message} {a : Agent W} {w v : W} {e : String}
      → h.cancelled w ≡ none
      → h.call (request a) w ≡ (err e, v)
      → Course h (suc left) last a w [] (last, some (provider_error e)) v
  done :
      {left : ℕ} {last : Message} {a : Agent W} {w v : W} {resp : Response}
      → h.cancelled w ≡ none
      → h.call (request a) w ≡ (ok resp, v)
      → tool_uses resp.message ≡ []
      → Course h (suc left) last a w (turn_of resp none ∷ []) (resp.message, none) v
  more :
      {left : ℕ} {last m : Message} {a : Agent W} {w v u w' : W} {resp : Response} {ts : List Turn}
      {answer : Answer}
      → h.cancelled w ≡ none
      → h.call (request a) w ≡ (ok resp, v)
      → Reacted h resp (told resp a) v m u
      → Course h left resp.message (remember_agent m (told resp a)) u ts answer w'
      → Course h (suc left) last a w (turn_of resp (some m) ∷ ts) answer w'
