-- ===== src/Orchestrator.antt =====
-- orchestrator.go: named agents, of which one is the entry point, and delegation. The maps are association lists.
-- An agent's record is copied into the table, so an agent that is added twice is two agents here.
pub mod Delegation
use gori.Prelude.{
  if◌then◌else◌, str_eq, append, String, Bool, true, not, ◌&&◌, ◌||◌, Option, none, some, List, [],
  ◌∷◌, map,
}
use gori.Message.{message_text}
use gori.Provider.{Usage, zero_usage, add_usage}
use gori.Bus.{Event}
use gori.Registry.{Tool, register}
use gori.Agent.{Agent, Host, Run, RunError, clone}
use gori.Agent.Loop.{Answer, run}

pub record Orchestrator (W : Type 0) : Type 0 where
  pub agents : List (String × Agent W)
  pub roles : List (String × String)
  pub main : String
  pub has_bus : Bool
  pub usage : Usage

-- `m[key] = v`, and `m[key]`.
unfoldable pub put {ℓ} : {A : Type ℓ} → String → A → List (String × A) → List (String × A)
put key v [] = (key, v) ∷ []
put key v ((k, u) ∷ rest) = if str_eq k key then (key, v) ∷ rest else (k, u) ∷ put key v rest

unfoldable pub find {ℓ} : {A : Type ℓ} → String → List (String × A) → Option A
find key [] = none
find key ((k, u) ∷ rest) = if str_eq k key then some u else find key rest

-- The delegated task's end: its error is a value, as the run's is.
pub data Delegated : Type 0 where
  unknown_agent : String → Delegated
  run_failed : RunError → Delegated
  answered : String → Delegated

-- `subs` of `WireDelegation`: never the entry point itself.
unfoldable pub wired : String → List (String × String) → List String
wired main [] = []
wired main ((name, role) ∷ rest) =
    let more = wired main rest in
    if str_eq role "sub" && not (str_eq name main) then name ∷ more else more

or_blurb : String → Option String → String
or_blurb name none = append "Delegate a task to the " (append name " agent.")
or_blurb name (some d) =
    if str_eq d "" then append "Delegate a task to the " (append name " agent.") else d

unfoldable pub blurb : List (String × String) → String → String
unfolding or_blurb
blurb descriptions name = or_blurb name (find name descriptions)

unfoldable pub result_of : Answer → Delegated
result_of (m, some e) = run_failed e
result_of (m, none) = answered (message_text m)

module _ {W : Type 0} where
  abbrev pub new_orchestrator : Bool → Orchestrator W
  new_orchestrator has_bus = record {
    agents = [];
    roles = [];
    main = "";
    has_bus = has_bus;
    usage = zero_usage;
  }

  -- `Add`.
  unfoldable pub add_agent : String → String → Agent W → Orchestrator W → Orchestrator W
  add_agent name role a o = record o {
    agents = put name (record a { name = name; has_bus = a.has_bus || o.has_bus }) o.agents;
    roles = put name role o.roles;
    main = if str_eq role "main" || str_eq o.main "" then name else o.main;
  }

  unfoldable pub main_agent : Orchestrator W → Option (Agent W)
  main_agent o = find o.main o.agents

  -- The end of a delegation: the usage counts whether the run failed or not.
  unfoldable pub on_run :
      Orchestrator W
      → Option (Answer × Run W)
      → Option (Delegated × Orchestrator W × (W × List Event))
  on_run o none = none
  on_run o (some (a, r)) =
      some (
        result_of a,
        record o { usage = add_usage o.usage r.agent.total_usage },
        (r.world, r.events),
      )

  -- The tool of `AsTool` on a task, once the agent is looked up: what it returns, the orchestrator, the world and
  -- the events after it. `none` is a panic of the run.
  unfoldable pub on_agent :
      Host W
      → String
      → String
      → Orchestrator W
      → W × List Event
      → Option (Agent W)
      → Option (Delegated × Orchestrator W × (W × List Event))
  on_agent h name task o (w, evs) none = some (unknown_agent name, o, (w, evs))
  on_agent h name task o (w, evs) (some sub) =
      on_run o (run h task (record { agent = clone sub; world = w; events = evs }))

  unfoldable pub delegate :
      Host W
      → String
      → String
      → Orchestrator W
      → W × List Event
      → Option (Delegated × Orchestrator W × (W × List Event))
  delegate h name task o w = on_agent h name task o w (find name o.agents)

  -- `WireDelegation`; `tool_of` is `AsTool`, and `none` the error that there is no main agent.
  unfoldable pub wire_main :
      (String → String → Tool W)
      → List (String × String)
      → Orchestrator W
      → Option (Agent W)
      → Option (Orchestrator W)
  wire_main tool_of descriptions o none = none
  wire_main tool_of descriptions o (some a) = some (record o {
    agents =
        put o.main
          (record a {
            tools = some (
                register (map (λ n. tool_of n (blurb descriptions n)) (wired o.main o.roles))
                  (elim a.tools [ none ↦ [] | some ts ↦ ts ]));
            parallel_tools = true;
          })
          o.agents;
  })

  unfoldable pub wire_delegation :
      (String → String → Tool W) → List (String × String) → Orchestrator W → Option (Orchestrator W)
  unfolding wire_main
  wire_delegation tool_of descriptions o = wire_main tool_of descriptions o (main_agent o)
