-- ===== src/Tests/Teams.antt =====
-- An orchestrator with a main agent and a sub-agent; orchestrator_test.go.
use gori.Prelude.{ℕ, String, ◌≡◌, refl, true, [], ◌∷◌}
use gori.Registry.{returned, Tool}
use gori.Agent.{Agent}
use gori.Orchestrator.{Orchestrator, put, wired, new_orchestrator, add_agent}
use gori.Tests.Agents.{idle_agent}

abbrev team : Orchestrator ℕ
team =
    add_agent "helper" "sub" idle_agent (add_agent "boss" "main" idle_agent (new_orchestrator true))

abbrev delegation : String → String → Tool ℕ
delegation n d = record { name = n; description = d; schema = ""; execute = λ i w. (returned i, w) }

abbrev helper : Agent ℕ
helper = record idle_agent { name = "helper" }

abbrev boss : Agent ℕ
boss = record idle_agent { name = "boss" }

wired_run : wired team.main team.roles ≡ "helper" ∷ []
unfolding wired add_agent put
wired_run = refl
