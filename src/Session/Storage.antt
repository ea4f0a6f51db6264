-- ===== src/Session/Storage.antt =====
-- `Save` and `Load`, up to the JSON envelopes of the messages, and the key-value state. A value of the
-- state is a text that stands for a Go value.
pub mod Stored
use gori.Prelude.{
  if◌then◌else◌, eq_iff, str_eq, is_empty, Result, ok, err, String, ◌≡◌, refl, Bool, some, List, [],
  ◌∷◌, map, arith,
}
use gori.Message.{Message}
use gori.Message.Envelope.{Envelope, WireMessage, cons_result, marshal, unmarshal}
use gori.Session.{Session, put, find, entries, set_value, get_value}

-- What encoding/json does: `valid` is `json.Valid`; `indent` gives the raw JSON that `json.MarshalIndent` puts
-- into the file for a raw JSON text, and that `json.Unmarshal` reads there; `state_value` gives the value that
-- is read back for a value of the state, or the error of one that does not marshal.
pub record Json : Type 0 where
  pub valid : String → Bool
  pub indent : String → String
  pub state_value : String → Result String

pub record SessionFile : Type 0 where
  pub history : List WireMessage
  pub state : List (String × String)

module _ (json : Json) where
  unfoldable pub marshal_all : List Message → Result (List WireMessage)
  marshal_all [] = ok []
  marshal_all (m ∷ ms) = cons_result (marshal json.valid m) (marshal_all ms)

  abbrev pub with_key : String → Result String → Result (String × String)
  with_key k (err e) = err e
  with_key k (ok v) = ok (k, v)

  unfoldable pub marshal_state : List (String × String) → Result (List (String × String))
  marshal_state [] = ok []
  marshal_state ((k, v) ∷ m) = cons_result (with_key k (json.state_value v)) (marshal_state m)

  -- An input that is empty is left out, and read back as empty.
  unfoldable pub indent_envelope : Envelope → Envelope
  indent_envelope e = if is_empty e.input then e else record e { input = json.indent e.input }

  abbrev pub indent_message : WireMessage → WireMessage
  indent_message w = record w { content = map indent_envelope w.content }

  abbrev pub file_of :
      Result (List WireMessage) → Result (List (String × String)) → Result SessionFile
  file_of (err e) st = err e
  file_of (ok ws) (err e) = err e
  file_of (ok ws) (ok st) = ok (record { history = map indent_message ws; state = st })

  -- What is written to the file; an empty map and a nil one are both left out.
  unfoldable pub save : Session → Result SessionFile
  save s = file_of (marshal_all s.history) (marshal_state (entries s.state))

unfoldable pub unmarshal_all : List WireMessage → Result (List Message)
unmarshal_all [] = ok []
unmarshal_all (w ∷ ws) = cons_result (unmarshal w) (unmarshal_all ws)

abbrev pub loaded : SessionFile → Result (List Message) → Result Session
loaded f (err e) = err e
loaded f (ok ms) = ok (record { history = ms; state = some f.state })

unfoldable pub load : SessionFile → Result Session
load f = loaded f (unmarshal_all f.history)

find-put :
    (k j v : String) (m : List (String × String))
    → find j (put k v m) ≡ (if str_eq k j then some v else find j m)
unfolding find put
find-put k j v [] = refl
find-put k j v ((i, w) ∷ m) = ground (arith, eq_iff k j, eq_iff i k, eq_iff i j, find-put k j v m)

-- `Get` after `Set` sees the new value at its key and the old ones elsewhere, also where the
-- session had a nil map; the history stays.
pub get_value-set_value :
    (k j v : String) (s : Session)
    → (get_value j (set_value k v s) ≡ (if str_eq k j then some v else get_value j s))
      × ((set_value k v s).history ≡ s.history)
unfolding get_value set_value
get_value-set_value k j v s = (find-put k j v (entries s.state), refl)
