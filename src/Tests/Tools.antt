-- ===== src/Tests/Tools.antt =====
-- The registry: a tool that is registered again replaces the older one.
use gori.Prelude.{ℕ, String, ◌≡◌, refl, some, [], ◌∷◌}
use gori.Registry.{returned, Tool, put_tool, register, get}

abbrev named : String → String → Tool ℕ
named n d = record { name = n; description = d; schema = ""; execute = λ i w. (returned i, w) }

get_run :
    get "a" (register (named "a" "new" ∷ named "b" "" ∷ []) (named "a" "old" ∷ []))
    ≡ some (named "a" "new")
unfolding get register put_tool
get_run = refl
