-- ===== src/Session.antt =====
-- session.go. A method returns the new session; `none` is an index out of range. The state's values
-- are opaque to the program; texts stand for them here, and `none` is the nil map. The mutex
-- makes each method one step.
pub mod Window
pub mod Storage
use gori.Prelude.{
  ltb, leb, ◌==◌, if◌then◌else◌, ◌>>=◌, length, get_elem?, drop, str_eq, ℕ, zero, suc, ◌-◌, String,
  Bool, true, false, Option, none, some, List, [], ◌∷◌, ◌++◌,
}
use gori.Prelude.Int.{ℤ, pos, negsuc}
use gori.Message.{Role, user, Message}

-- `history` and `state`.
pub record Session : Type 0 where
  pub history : List Message
  pub state : Option (List (String × String))

unfoldable pub new_session : Session
new_session = record { history = []; state = some [] }

unfoldable pub append_messages : List Message → Session → Session
append_messages ms s = record s { history = s.history ++ ms }

-- The copies that `History` makes have the same content.
abbrev pub history_copy : Session → List Message
history_copy s = s.history

abbrev pub is_user : Role → Bool
is_user user = true
is_user _ = false

-- `h[i].Role == RoleUser`.
unfoldable pub user_at : List Message → ℕ → Option Bool
user_at h i = elim (get_elem? h i) [ none ↦ none | some m ↦ some (is_user m.role) ]

-- The first loop of `Trim`: back to a user message, or to the start.
unfoldable pub back : List Message → ℕ → Option ℕ
back h zero = some zero
back h (suc i) = user_at h (suc i) >>= λ u. elim u [ true ↦ some (suc i) | false ↦ back h i ]

-- The second loop: forward to a user message, or to the end. The fuel is the way to the end.
unfoldable pub forward : List Message → ℕ → ℕ → Option ℕ
forward h zero i = some i
forward h (suc f) i = elim (ltb i (length h)) [
  | false ↦ some i
  | true ↦ user_at h i >>= λ u. elim u [ true ↦ some i | false ↦ forward h f (suc i) ]
]

unfoldable pub cut : ℕ → List Message → Option ℕ
cut keep h = back h (if ltb keep (length h) then length h - keep else 0) >>= λ start.
    forward h (length h - start) start

unfoldable pub trim_history : ℤ → List Message → Option (List Message)
trim_history (pos zero) h = some []
trim_history (negsuc n) h = some []
trim_history (pos (suc k)) h =
    cut (suc k) h >>= λ start. if start == 0 then some h else some (drop start h)

unfoldable pub trim : ℤ → Session → Option Session
trim keep s = trim_history keep s.history >>= λ h. some (record s { history = h })

unfoldable pub drop_history : ℤ → List Message → List Message
drop_history (negsuc n) h = h
drop_history (pos n) h = if n == 0 then h else if leb (length h) n then [] else drop n h

unfoldable pub drop_before : ℤ → Session → Session
drop_before n s = record s { history = drop_history n s.history }

-- Go's `m[key] = value` and `m[key]`.
unfoldable pub put : String → String → List (String × String) → List (String × String)
put k v [] = (k, v) ∷ []
put k v ((j, w) ∷ m) = if str_eq j k then (k, v) ∷ m else (j, w) ∷ put k v m

unfoldable pub find : String → List (String × String) → Option String
find k [] = none
find k ((j, w) ∷ m) = if str_eq j k then some w else find k m

-- A nil map reads as an empty one.
abbrev pub entries : Option (List (String × String)) → List (String × String)
entries none = []
entries (some m) = m

unfoldable pub set_value : String → String → Session → Session
set_value k v s = record s { state = some (put k v (entries s.state)) }

unfoldable pub get_value : String → Session → Option String
get_value k s = find k (entries s.state)
