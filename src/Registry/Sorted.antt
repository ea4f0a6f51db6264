-- ===== src/Registry/Sorted.antt =====
-- `Get` on the sorted list of `Registry.List`.
use Prim.Native.Nat.{Ordering}
use Prim.Native.String.{compare}
use text.Mathlib.Text.{is_eq, is_le}
use gori.Prelude.{
  if◌then◌else◌, Bool-cases, eq_iff, str_eq, str_le, String, ◌≡◌, refl, sym, ap, ◌∙◌, inl, inr,
  true, Option, none, some, List, [], ◌∷◌,
}
use gori.Registry.{Tool, get, insert_sorted, list}

is_eq-is_le : (o : Ordering) → is_eq o ≡ true → is_le o ≡ true
is_eq-is_le Ordering.lt h = refl
is_eq-is_le Ordering.eq h = refl
is_eq-is_le Ordering.gt h = cc

module _ {W : Type 0} where
  pub get_name : (n : String) (ts : List (Tool W)) (t : Tool W) → get n ts ≡ some t → t.name ≡ n
  unfolding get
  get_name n [] t h = cc
  get_name n (u ∷ us) t h = elim (Bool-cases (str_eq u.name n)) [
    | inl yes_ ↦ ap (or_name u) (sym (rw yes_ at h)) ∙ (eq_iff u.name n).0 yes_
    | inr no_ ↦ get_name n us t (rw no_ at h)
  ]
    where
      or_name : Tool W → Option (Tool W) → String
      or_name v none = v.name
      or_name v (some x) = x.name

  get-insert_sorted :
      (n : String) (t : Tool W) (ts : List (Tool W)) → get n (insert_sorted t ts) ≡ get n (t ∷ ts)
  unfolding get insert_sorted
  get-insert_sorted n t [] = refl
  get-insert_sorted n t (u ∷ us) = elim (Bool-cases (str_le t.name u.name)) [
    | inl yes_ ↦ rw yes_
    | inr no_ ↦
        rw (no_, get-insert_sorted n t us)
          (elim (Bool-cases (str_eq t.name n)) [
            | inr miss ↦ rw miss
            | inl hit ↦ elim (Bool-cases (str_eq u.name n)) [
              | inr miss ↦ rw (miss, hit)
              | inl same ↦ cc (ordered t u hit same, no_)
            ]
          ])
  ]
    where
      ordered :
          (t u : Tool W)
          → str_eq t.name n ≡ true
          → str_eq u.name n ≡ true
          → str_le t.name u.name ≡ true
      ordered t u h k =
          is_eq-is_le (compare t.name u.name)
            ((eq_iff t.name u.name).1 ((eq_iff t.name n).0 h ∙ sym ((eq_iff u.name n).0 k)))

  pub get-list : (n : String) (ts : List (Tool W)) → get n (list ts) ≡ get n ts
  unfolding get list
  get-list n [] = refl
  get-list n (t ∷ ts) =
      get-insert_sorted n t (list ts)
      ∙ ap (λ o. if str_eq t.name n then some t else o) (get-list n ts)
