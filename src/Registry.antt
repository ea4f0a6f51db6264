-- ===== src/Registry.antt =====
-- tool.go: tools and their registry. `W` is the world that a tool acts on: a tool may read and change
-- anything outside the library. The registry's map is an association list whose order means nothing.
pub mod Laws
pub mod Sorted
use gori.Prelude.{if◌then◌else◌, str_eq, str_le, String, Option, none, some, List, [], ◌∷◌, map}
use gori.Provider.{ToolDef}

-- What `Execute` does: it returns a text, an error, or panics with a value.
pub data Outcome : Type 0 where
  returned failed panicked : String → Outcome

pub record Tool (W : Type 0) : Type 0 where
  pub name : String
  pub description : String
  pub schema : String
  pub execute : String → W → Outcome × W

module _ {W : Type 0} where
  -- `m[t.Name()] = t`.
  unfoldable pub put_tool : Tool W → List (Tool W) → List (Tool W)
  put_tool t [] = t ∷ []
  put_tool t (u ∷ us) = if str_eq u.name t.name then t ∷ us else u ∷ put_tool t us

  -- `Register`, on the tools of a registry whose nil map is an empty one.
  unfoldable pub register : List (Tool W) → List (Tool W) → List (Tool W)
  register [] tools = tools
  register (t ∷ ts) tools = register ts (put_tool t tools)

  unfoldable pub get : String → List (Tool W) → Option (Tool W)
  get n [] = none
  get n (t ∷ ts) = if str_eq t.name n then some t else get n ts

  -- `sort.Strings`, on the tools by their names.
  unfoldable pub insert_sorted : Tool W → List (Tool W) → List (Tool W)
  insert_sorted t [] = t ∷ []
  insert_sorted t (u ∷ us) = if str_le t.name u.name then t ∷ u ∷ us else u ∷ insert_sorted t us

  -- `Registry.List`.
  unfoldable pub list : List (Tool W) → List (Tool W)
  list [] = []
  list (t ∷ ts) = insert_sorted t (list ts)

  unfoldable pub def : Tool W → ToolDef
  def t = record { name = t.name; description = t.description; schema = t.schema }

  unfoldable pub defs : List (Tool W) → List ToolDef
  unfolding def
  defs tools = map def (list tools)
