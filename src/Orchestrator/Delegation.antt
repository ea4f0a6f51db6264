-- ===== src/Orchestrator/Delegation.antt =====
-- What a delegation does, and what wiring gives the main agent.
use gori.Prelude.{String, ◌≡◌, true, none, some, List, [], map}
use gori.Registry.{Tool, register}
use gori.Agent.{Agent}
use gori.Orchestrator.{Orchestrator, wired, blurb}

module _ {W : Type 0} (tool_of : String → String → Tool W)
    (named : (name description : String) → (tool_of name description).name ≡ name) where
  abbrev pub tools_of : Agent W → List (Tool W)
  tools_of a = elim a.tools [ none ↦ [] | some ts ↦ ts ]

  abbrev wired_agent : List (String × String) → Orchestrator W → Agent W → Agent W
  wired_agent descriptions o a = record a {
    tools = some (
        register (map (λ n. tool_of n (blurb descriptions n)) (wired o.main o.roles)) (tools_of a));
    parallel_tools = true;
  }
