-- ===== src/Prelude/Texts.antt =====
-- Texts: the native strings, compared by the library's test.
use Prim.Native.String.{String, ◌++◌, compare}
use mathlib.Core.Bool.{Bool}
use mathlib.Core.List.{List, [], ◌∷◌}
use text.Mathlib.Text.{◌==◌, is_le}
pub use text.Mathlib.Text.{starts_with}
pub use text.Mathlib.TextEquality.{eq_iff}
pub use text.Mathlib.TextPositions.{eq_refl}

abbrev pub str_eq : String → String → Bool
str_eq s t = s == t

abbrev pub append : String → String → String
append s t = s ++ t

abbrev pub is_empty : String → Bool
is_empty s = s == ""

-- The texts of a list, one after the other.
abbrev pub concat : List String → String
concat [] = ""
concat (s ∷ ss) = s ++ concat ss

-- The verb `%q` of `fmt`, on a text without characters that it would escape.
abbrev pub quote : String → String
quote s = append "\"" (append s "\"")

-- The order of texts by their bytes.
abbrev pub str_le : String → String → Bool
str_le s t = is_le (compare s t)

-- `strings.Join(ss, "\n")`.
abbrev pub join_lines : List String → String
join_lines [] = ""
join_lines (s ∷ []) = s
join_lines (s ∷ t ∷ ss) = append s (append "\n" (join_lines (t ∷ ss)))
