-- ===== src/Rpc/Asked.antt =====
-- Which ids of requests are to be answered, and how they are counted (internal/rpc/server.go).
use mathlib.Core.Logic.{inl}
use gori.Prelude.{
  ltb, if◌then◌else◌, ltb→lt, Bool-cases, length, get_elem?, length-append, str_eq, is_empty, ℕ,
  zero, suc, ◌+◌, ◌≤◌, String, ◌≡◌, refl, sym, ap, subst, ◌∙◌, inr, true, false, Option, none, some,
  List, [], ◌∷◌, ◌++◌, append-nil, append_assoc, arith,
}
use gori.Rpc.{
  Request, Response, Returned, value, no_json, coded, is_notification, error_response,
  result_response, response_to, plain_error,
}
use gori.Rpc.Server.{
  max_concurrent, Incoming, malformed, request, remove_at, written_with, wrong_version,
}

abbrev pub count : String → List String → ℕ
count i [] = 0
count i (j ∷ js) = let rest = count i js in if str_eq i j then suc rest else rest

pub count-append : (i : String) (xs ys : List String) → count i (xs ++ ys) ≡ count i xs + count i ys
count-append i [] ys = omega arith
count-append i (x ∷ xs) ys = elim (Bool-cases (str_eq i x)) [
  | inl yes_ ↦ rw yes_ (omega (arith, count-append i xs ys))
  | inr no_ ↦ rw no_ (count-append i xs ys)
]

module _ {J : Type 0} where
  -- The ids under which a message is to be answered: its own, none for a notification, and `null`
  -- where no id could be read.
  abbrev pub asked : Incoming J → List String
  asked malformed = "null" ∷ []
  asked (request r) = if is_notification r then [] else r.id ∷ []

  abbrev pub ids : List (Response J) → List String
  ids [] = []
  ids (r ∷ rs) = r.id ∷ ids rs

  abbrev pub waiting : List (Request J) → List String
  waiting [] = []
  waiting (r ∷ rs) = asked (request r) ++ waiting rs

  ids-append : (rs ss : List (Response J)) → ids (rs ++ ss) ≡ ids rs ++ ids ss
  ids-append [] ss = refl
  ids-append (r ∷ rs) ss = ap (λ x. r.id ∷ x) (ids-append rs ss)

  waiting-append : (rs ss : List (Request J)) → waiting (rs ++ ss) ≡ waiting rs ++ waiting ss
  waiting-append [] ss = refl
  waiting-append (r ∷ rs) ss =
      ap (λ x. asked (request r) ++ x) (waiting-append rs ss)
      ∙ sym (append_assoc (asked (request r)) (waiting rs) (waiting ss))

  pub response_to_id :
      (i : String) (out : Returned J) → is_empty i ≡ false → (response_to i out).id ≡ i
  unfolding response_to error_response result_response
  response_to_id i (value j) h = rw h
  response_to_id i (no_json e) h = rw h
  response_to_id i (plain_error e) h = rw h
  response_to_id i (coded e) h = refl

  abbrev pub ids_of : Option (Response J) → List String
  ids_of none = []
  ids_of (some r) = r.id ∷ []

  ids-written_with :
      (o : Option (Response J)) (rs : List (Response J))
      → ids (written_with o rs) ≡ ids rs ++ ids_of o
  ids-written_with none rs = sym (append-nil (ids rs))
  ids-written_with (some r) rs = ids-append rs (r ∷ [])

  pub wrong_version_ids : (r : Request J) → ids_of (wrong_version r) ≡ asked (request r)
  unfolding error_response
  wrong_version_ids r = elim (Bool-cases (is_notification r)) [
    | inl yes_ ↦ rw yes_
    | inr no_ ↦ rw no_
  ]

  pub count_written :
      (i : String) (o : Option (Response J)) (rs : List (Response J))
      → count i (ids (written_with o rs)) ≡ count i (ids rs) + count i (ids_of o)
  count_written i o rs = ap (count i) (ids-written_with o rs) ∙ count-append i (ids rs) (ids_of o)

  pub count_queued :
      (i : String) (rs : List (Request J)) (r : Request J)
      → count i (waiting (rs ++ r ∷ [])) ≡ count i (waiting rs) + count i (asked (request r))
  count_queued i rs r =
      ap (count i)
        (waiting-append rs (r ∷ []) ∙ ap (λ x. waiting rs ++ x) (append-nil (asked (request r))))
      ∙ count-append i (waiting rs) (asked (request r))

  from_some : Request J → Option (Request J) → Request J
  from_some q none = q
  from_some q (some r) = r

  pub count-remove_at :
      (i : String) (k : ℕ) (rs : List (Request J)) (r : Request J)
      → get_elem? rs k ≡ some r
      → count i (waiting rs) ≡ count i (asked (request r)) + count i (waiting (remove_at k rs))
  unfolding from_some
  count-remove_at i k [] r h = cc
  count-remove_at i zero (q ∷ rs) r h =
      subst
        (λ x.
          count i (asked (request q) ++ waiting rs)
          ≡ count i (asked (request x)) + count i (waiting rs))
        (ap (from_some q) h) (count-append i (asked (request q)) (waiting rs))
  count-remove_at i (suc k) (q ∷ rs) r h = omega (
    arith,
    count-remove_at i k rs r h,
    count-append i (asked (request q)) (waiting rs),
    count-append i (asked (request q)) (waiting (remove_at k rs)),
  )

  pub length-remove_at : (k : ℕ) (rs : List (Request J)) → length (remove_at k rs) ≤ length rs
  length-remove_at k [] = omega arith
  length-remove_at zero (q ∷ rs) = omega arith
  length-remove_at (suc k) (q ∷ rs) = omega (arith, length-remove_at k rs)

  pub queued_length :
      (rs : List (Request J)) (r : Request J)
      → ltb (length rs) max_concurrent ≡ true
      → length (rs ++ r ∷ []) ≤ max_concurrent
  queued_length rs r h = omega (arith, length-append rs (r ∷ []), ltb→lt _ _ h)
