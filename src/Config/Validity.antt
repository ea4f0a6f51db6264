-- ===== src/Config/Validity.antt =====
-- What a configuration that `Validate` accepts is good for.
use gori.Prelude.{
  ltb, if◌then◌else◌, length, All, str_eq, is_empty, String, ◌≡◌, refl, Bool, true, false, not,
  ◌&&◌, Option, none, some, List, [], ◌∷◌, arith,
}
use gori.Config.{
  ProviderConfig, PersonaConfig, Config, find_provider, find_agent, is_some, first_error,
  check_providers, check_reference, check_agent, check_agents, check_default, check_servers,
  check_peers, validate,
}

-- An agent whose provider is there, and which has no tools if that is a command.
pub record Resolves (provs : List ProviderConfig) (a : PersonaConfig) : Type 0 where
  pub provider_of : ProviderConfig
  pub found : find_provider a.provider provs ≡ some provider_of
  pub no_tools : str_eq provider_of.type "cli" ≡ true → a.tools ≡ []

pub first_none : (a b : Option String) → first_error a b ≡ none → (a ≡ none) × (b ≡ none)
first_none none b e = (refl, e)
first_none (some x) b e = cc

passes :
    (b : Bool) (e : String) (rest : Option String)
    → (if b then some e else rest) ≡ none
    → (b ≡ false) × (rest ≡ none)
passes true e rest h = cc
passes false e rest h = (refl, h)

absent : {A : Type 0} (o : Option A) → is_some o ≡ false → o ≡ none
absent none h = refl
absent (some a) h = cc

check_reference-Resolves :
    (provs : List ProviderConfig) (a : PersonaConfig) (o : Option ProviderConfig)
    → find_provider a.provider provs ≡ o
    → check_reference a o ≡ none
    → Resolves provs a
unfolding check_reference
check_reference-Resolves provs a none f e = cc
check_reference-Resolves provs a (some p) f e = record {
  provider_of = p;
  found = f;
  no_tools = λ cli. nil_of a.tools (few _ _ (passes _ _ none e).0 cli);
}
  where
    nil_of : (ts : List String) → ltb 0 (length ts) ≡ false → ts ≡ []
    nil_of [] h = refl
    nil_of (t ∷ ts) h = ground arith

    few : (b t : Bool) → (b && t) ≡ false → b ≡ true → t ≡ false
    few b t h cli = ground arith

pub check_agent-Resolves :
    (provs : List ProviderConfig) (seen : List PersonaConfig) (a : PersonaConfig)
    → check_agent provs seen a ≡ none
    → Resolves provs a × (find_agent a.name seen ≡ none)
unfolding check_agent
check_agent-Resolves provs seen a e =
    let (_, unnamed) = passes (is_empty a.name) _ _ e in
    let (new, referred) = passes (is_some (find_agent a.name seen)) _ _ unnamed in
    (
      check_reference-Resolves provs a (find_provider a.provider provs) refl referred,
      absent (find_agent a.name seen) new,
    )

check_agents-Resolves :
    (provs : List ProviderConfig) (seen agents : List PersonaConfig)
    → check_agents provs seen agents ≡ none
    → All (Resolves provs) agents
unfolding check_agents
check_agents-Resolves provs seen [] e = tt
check_agents-Resolves provs seen (a ∷ rest) e =
    let (one, more) =
      first_none (check_agent provs seen a) (check_agents provs (a ∷ seen) rest) e in
    ((check_agent-Resolves provs seen a one).0, check_agents-Resolves provs (a ∷ seen) rest more)

default_found :
    (c : Config)
    → check_default c ≡ none
    → is_empty c.default_agent ≡ false
    → is_some (find_agent c.default_agent c.agents) ≡ true
unfolding check_default
default_found c e named =
    listed (is_empty c.default_agent) (is_some (find_agent c.default_agent c.agents))
      (passes _ _ none e).0 named
  where
    listed : (b t : Bool) → (not b && not t) ≡ false → b ≡ false → t ≡ true
    listed b t h named = ground arith

-- In a configuration that is accepted every agent's provider is found by its name, an agent of a command-line provider
-- has no tools, and the default agent is found if one is named.
pub validate_sound :
    (c : Config)
    → validate c ≡ none
    → All (Resolves c.providers) c.agents
      × (is_empty c.default_agent ≡ false → is_some (find_agent c.default_agent c.agents) ≡ true)
unfolding validate
validate_sound c e =
    let (_, after_providers) = first_none (check_providers [] c.providers) _ e in
    let (agents, after_agents) =
      first_none (check_agents c.providers [] c.agents) _ after_providers in
    let (default_ok, _) =
      first_none (check_default c)
        (first_error (check_servers c.mcp_servers) (check_peers c.agents [] c.a2a_agents))
        after_agents in
    (check_agents-Resolves c.providers [] c.agents agents, default_found c default_ok)
