-- ===== src/Config.antt =====
-- config.go: the configuration and `Validate`. `none` is the nil error. The records have the fields that
-- `Validate` reads. `Validate`'s maps of accepted names are the lists of what was accepted.
pub mod Validity
pub mod Names
use gori.Prelude.{
  ltb, if◌then◌else◌, length, str_eq, append, is_empty, concat, quote, String, Bool, true, false,
  not, ◌&&◌, ◌||◌, Option, none, some, List, [], ◌∷◌,
}

pub record ProviderConfig : Type 0 where
  pub name : String
  pub type : String
  pub command : String
  pub prompt_via : String
  pub api_key_env : String
  pub api_key_cmd : String
  pub base_url : String

pub record PersonaConfig : Type 0 where
  pub name : String
  pub provider : String
  pub tools : List String

-- An entry with a name and a command or URL: an MCP server or an A2A agent.
pub record Peer : Type 0 where
  pub name : String
  pub target : String

pub record Config : Type 0 where
  pub providers : List ProviderConfig
  pub agents : List PersonaConfig
  pub default_agent : String
  pub mcp_servers : List Peer
  pub a2a_agents : List Peer

-- `Config.Provider` and `Config.Agent`.
unfoldable pub find_provider : String → List ProviderConfig → Option ProviderConfig
find_provider n [] = none
find_provider n (p ∷ ps) = if str_eq p.name n then some p else find_provider n ps

unfoldable pub find_agent : String → List PersonaConfig → Option PersonaConfig
find_agent n [] = none
find_agent n (a ∷ rest) = if str_eq a.name n then some a else find_agent n rest

abbrev pub is_some : {A : Type 0} → Option A → Bool
is_some none = false
is_some (some a) = true

abbrev pub has_peer : String → List Peer → Bool
has_peer n [] = false
has_peer n (p ∷ ps) = str_eq p.name n || has_peer n ps

-- The first error of two checks.
abbrev pub first_error : Option String → Option String → Option String
first_error (some e) rest = some e
first_error none rest = rest

abbrev pub error_of : List String → Option String
error_of texts = some (append "gori: " (concat texts))

abbrev pub is_key_type : String → Bool
is_key_type t = str_eq t "anthropic" || str_eq t "openai" || str_eq t "google"

unfoldable pub check_type : ProviderConfig → Option String
check_type p =
    if str_eq p.type "cli"
    then if is_empty p.command
      then error_of ("cli provider " ∷ quote p.name ∷ " missing command" ∷ [])
      else if not (is_empty p.prompt_via)
          && not (str_eq p.prompt_via "stdin")
          && not (str_eq p.prompt_via "arg")
      then error_of (
          "cli provider "
          ∷ quote p.name
          ∷ " has invalid prompt_via "
          ∷ quote p.prompt_via
          ∷ " (want stdin or arg)"
          ∷ [])
      else none
    else if is_key_type p.type
    then if is_empty p.api_key_env && is_empty p.api_key_cmd && is_empty p.base_url
      then error_of
          ("provider " ∷ quote p.name ∷ " needs api_key_env, api_key_cmd or base_url" ∷ [])
      else none
    else error_of ("provider " ∷ quote p.name ∷ " has unknown type " ∷ quote p.type ∷ [])

unfoldable pub check_provider : List ProviderConfig → ProviderConfig → Option String
check_provider seen p =
    if is_empty p.name || is_empty p.type
    then error_of ("provider missing name or type" ∷ [])
    else if is_some (find_provider p.name seen)
    then error_of ("duplicate provider " ∷ quote p.name ∷ [])
    else check_type p

unfoldable pub check_providers : List ProviderConfig → List ProviderConfig → Option String
check_providers seen [] = none
check_providers seen (p ∷ ps) = first_error (check_provider seen p) (check_providers (p ∷ seen) ps)

-- The tests of an agent against its provider, if there is that.
unfoldable pub check_reference : PersonaConfig → Option ProviderConfig → Option String
check_reference a none =
    error_of ("agent " ∷ quote a.name ∷ " references unknown provider " ∷ quote a.provider ∷ [])
check_reference a (some p) =
    if str_eq p.type "cli" && ltb 0 (length a.tools)
    then error_of (
        "agent "
        ∷ quote a.name
        ∷ " uses cli provider "
        ∷ quote a.provider
        ∷ ", which has no tool support; remove its tools"
        ∷ [])
    else none

unfoldable pub check_agent :
    List ProviderConfig → List PersonaConfig → PersonaConfig → Option String
check_agent provs seen a =
    if is_empty a.name
    then error_of ("agent missing name" ∷ [])
    else if is_some (find_agent a.name seen)
    then error_of ("duplicate agent " ∷ quote a.name ∷ [])
    else check_reference a (find_provider a.provider provs)

unfoldable pub check_agents :
    List ProviderConfig → List PersonaConfig → List PersonaConfig → Option String
check_agents provs seen [] = none
check_agents provs seen (a ∷ rest) =
    first_error (check_agent provs seen a) (check_agents provs (a ∷ seen) rest)

unfoldable pub check_default : Config → Option String
check_default c =
    if not (is_empty c.default_agent) && not (is_some (find_agent c.default_agent c.agents))
    then error_of ("default_agent " ∷ quote c.default_agent ∷ " not defined" ∷ [])
    else none

unfoldable pub check_servers : List Peer → Option String
check_servers [] = none
check_servers (m ∷ ms) =
    first_error
      (if is_empty m.name || is_empty m.target
        then error_of ("mcp_server missing name or command" ∷ [])
        else none)
      (check_servers ms)

unfoldable pub check_peer : List PersonaConfig → List Peer → Peer → Option String
check_peer agents seen a =
    if is_empty a.name || is_empty a.target
    then error_of ("a2a_agent missing name or url" ∷ [])
    else if has_peer a.name seen
    then error_of ("duplicate a2a_agent " ∷ quote a.name ∷ [])
    else if is_some (find_agent a.name agents)
    then error_of ("a2a_agent " ∷ quote a.name ∷ " collides with an agent name" ∷ [])
    else none

unfoldable pub check_peers : List PersonaConfig → List Peer → List Peer → Option String
check_peers agents seen [] = none
check_peers agents seen (a ∷ rest) =
    first_error (check_peer agents seen a) (check_peers agents (a ∷ seen) rest)

unfoldable pub validate : Config → Option String
validate c = first_error (check_providers [] c.providers) (
    first_error (check_agents c.providers [] c.agents) (
      first_error (check_default c)
        (first_error (check_servers c.mcp_servers) (check_peers c.agents [] c.a2a_agents))))
