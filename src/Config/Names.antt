-- ===== src/Config/Names.antt =====
-- The names of the agents of a configuration that `Validate` accepts.
use mathlib.Core.List.{Memᴰ}
use gori.Prelude.{
  Bool-cases, eq_refl, str_eq, String, ◌≡◌, refl, inl, inr, false, none, some, List, [], ◌∷◌,
}
use gori.Config.{
  ProviderConfig, PersonaConfig, Config, find_agent, check_providers, check_agent, check_agents,
  validate,
}
use gori.Config.Validity.{first_none, check_agent-Resolves}

find_agent-cons :
    (n : String) (b : PersonaConfig) (bs : List PersonaConfig)
    → find_agent n (b ∷ bs) ≡ none
    → (str_eq b.name n ≡ false) × (find_agent n bs ≡ none)
unfolding find_agent
find_agent-cons n b bs = elim (Bool-cases (str_eq b.name n)) [
  | inl yes_ ↦ rw yes_ (λ e. cc e)
  | inr no_ ↦ rw no_ (λ e. (refl, e))
]

-- An agent still to be checked has no name that was seen before.
unseen :
    (provs : List ProviderConfig) (seen rest : List PersonaConfig) (a : PersonaConfig)
    → check_agents provs seen rest ≡ none
    → Memᴰ a rest
    → find_agent a.name seen ≡ none
unfolding check_agents
unseen provs seen [] a e m = elim m [ ]
unseen provs seen (b ∷ rest) a e (Memᴰ.head same) =
    rw same
      (check_agent-Resolves provs seen b
        (first_none (check_agent provs seen b) (check_agents provs (b ∷ seen) rest) e).0).1
unseen provs seen (b ∷ rest) a e (Memᴰ.tail m) =
    (find_agent-cons a.name b seen (
      unseen provs (b ∷ seen) rest a
        (first_none (check_agent provs seen b) (check_agents provs (b ∷ seen) rest) e).1 m)).1

found_by_name :
    (provs : List ProviderConfig) (seen rest : List PersonaConfig) (a : PersonaConfig)
    → check_agents provs seen rest ≡ none
    → Memᴰ a rest
    → find_agent a.name rest ≡ some a
unfolding check_agents find_agent
found_by_name provs seen [] a e m = elim m [ ]
found_by_name provs seen (b ∷ rest) a e (Memᴰ.head same) = rw same (rw (eq_refl b.name) refl)
found_by_name provs seen (b ∷ rest) a e (Memᴰ.tail m) =
    rw ((find_agent-cons a.name b seen (unseen provs (b ∷ seen) rest a more m)).0)
      (found_by_name provs (b ∷ seen) rest a more m)
  where
    more : check_agents provs (b ∷ seen) rest ≡ none
    more = (first_none (check_agent provs seen b) (check_agents provs (b ∷ seen) rest) e).1

-- In a configuration that is accepted each agent is found by its name: no other agent hides it.
pub agents_found :
    (c : Config) (a : PersonaConfig)
    → validate c ≡ none
    → Memᴰ a c.agents
    → find_agent a.name c.agents ≡ some a
unfolding validate
agents_found c a e m =
    let (_, after_providers) = first_none (check_providers [] c.providers) _ e in
    let (agents, _) = first_none (check_agents c.providers [] c.agents) _ after_providers in
    found_by_name c.providers [] c.agents a agents m
