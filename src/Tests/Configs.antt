-- ===== src/Tests/Configs.antt =====
-- A configuration with a command-line provider; config_validate_test.go.
use gori.Prelude.{All, is_empty, quote, ◌≡◌, refl, true, false, [], ◌∷◌}
use gori.Config.{
  ProviderConfig, PersonaConfig, Config, find_provider, find_agent, is_some, error_of, check_type,
  check_provider, check_providers, check_reference, check_agent, check_agents, check_default,
  check_servers, check_peer, check_peers, validate,
}
use gori.Config.Validity.{Resolves, validate_sound}

abbrev command_line : ProviderConfig
command_line = record {
  name = "local";
  type = "cli";
  command = "llm";
  prompt_via = "stdin";
  api_key_env = "";
  api_key_cmd = "";
  base_url = "";
}

abbrev writer : PersonaConfig
writer = record { name = "writer"; provider = "local"; tools = [] }

abbrev accepted : Config
accepted = record {
  providers = command_line ∷ [];
  agents = writer ∷ [];
  default_agent = "writer";
  mcp_servers = [];
  a2a_agents = record { name = "remote"; target = "http://localhost" } ∷ [];
}

validate_sound_example :
    All (Resolves accepted.providers) accepted.agents
    × (is_empty accepted.default_agent ≡ false
        → is_some (find_agent accepted.default_agent accepted.agents) ≡ true)
unfolding validate check_providers check_provider check_type find_provider check_agents check_agent
    check_reference find_agent check_default check_servers check_peers check_peer
validate_sound_example = validate_sound accepted refl

-- A command-line provider cannot have tools.
refused_run :
    validate (record accepted { agents = record writer { tools = "echo" ∷ [] } ∷ [] })
    ≡ error_of (
        "agent "
        ∷ quote "writer"
        ∷ " uses cli provider "
        ∷ quote "local"
        ∷ ", which has no tool support; remove its tools"
        ∷ [])
unfolding validate check_providers check_provider check_type find_provider check_agents check_agent
    check_reference find_agent check_default check_servers check_peers check_peer
refused_run = refl
