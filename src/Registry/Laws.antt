-- ===== src/Registry/Laws.antt =====
-- `Register` and `Get` together.
use gori.Prelude.{
  if◌then◌else◌, Bool-cases, eq_iff, str_eq, String, ◌≡◌, refl, sym, ap, ◌∙◌, inl, inr, Bool, true,
  false, Option, some, List, [], ◌∷◌,
}
use gori.Registry.{Tool, put_tool, register, get}

module _ {W : Type 0} where
  get-put_tool :
      (n : String) (t : Tool W) (ts : List (Tool W))
      → get n (put_tool t ts) ≡ (if str_eq t.name n then some t else get n ts)
  unfolding get put_tool
  get-put_tool n t [] = refl
  get-put_tool n t (u ∷ us) = elim (Bool-cases (str_eq u.name t.name)) [
    | inl same ↦ rw same (replaced ((eq_iff u.name t.name).0 same))
    | inr other ↦ rw other (elim (Bool-cases (str_eq u.name n)) [
      | inr miss ↦ rw miss (get-put_tool n t us)
      | inl hit ↦ rw (hit, distinct other hit) refl
    ])
  ]
    where
      twice :
          (b : Bool) (x y z : Option (Tool W))
          → (if b then x else y) ≡ (if b then x else if b then z else y)
      twice true x y z = refl
      twice false x y z = refl

      replaced :
          u.name ≡ t.name
          → (if str_eq t.name n then some t else get n us)
            ≡ (if str_eq t.name n then some t else if str_eq u.name n then some u else get n us)
      replaced e = rw e (twice (str_eq t.name n) (some t) (get n us) _)

      distinct : str_eq u.name t.name ≡ false → str_eq u.name n ≡ true → str_eq t.name n ≡ false
      distinct other hit = elim (Bool-cases (str_eq t.name n)) [
        | inr no_ ↦ no_
        | inl yes_ ↦ cc (
          (eq_iff u.name t.name).1 ((eq_iff u.name n).0 hit ∙ sym ((eq_iff t.name n).0 yes_)),
          other,
        )
      ]

  -- The last tool of a list with a name, or else an older one.
  unfoldable pub latest : String → List (Tool W) → Option (Tool W) → Option (Tool W)
  latest n [] old = old
  latest n (t ∷ ts) old = latest n ts (if str_eq t.name n then some t else old)

  -- After tools have been registered, a name finds the last of them that has it, and what it found before
  -- if none has.
  pub get-register :
      (n : String) (ts tools : List (Tool W))
      → get n (register ts tools) ≡ latest n ts (get n tools)
  unfolding register latest
  get-register n [] tools = refl
  get-register n (t ∷ ts) tools =
      get-register n ts (put_tool t tools) ∙ ap (latest n ts) (get-put_tool n t tools)
