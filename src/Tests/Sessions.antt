-- ===== src/Tests/Sessions.antt =====
-- trim_test.go and message_test.go.
use gori.Prelude.{
  if◌then◌else◌, Bool-cases, drop, str_eq, is_empty, ok, err, ℕ, String, ◌≡◌, refl, sym, inl, inr,
  Bool, false, not, some, List, [], ◌∷◌, ◌++◌,
}
use gori.Prelude.Int.{pos}
use gori.Message.{
  assistant, tool, ToolUse, tool_use, tool_result, Message, user_text, assistant_text,
}
use gori.Message.Envelope.{safe_input, encode_content, encode_all, marshal}
use gori.Session.{Session, user_at, back, forward, cut, trim_history}
use gori.Session.Window.{IsCut, window_start, StartsWithUser, trim_history-IsCut}
use gori.Session.Storage.{Json, SessionFile, marshal_all, marshal_state, save, load}
use gori.Session.Storage.Stored.{IsLawful, stored_session, load-save}

abbrev call : ToolUse
call = record { id = "c1"; name = "echo"; input = "{" }

abbrev answered_turn : List Message
answered_turn =
    user_text "q"
    ∷ record { role = assistant; content = tool_use call ∷ [] }
    ∷ record {
      role = tool;
      content =
          tool_result
            (record { tool_use_id = "c1"; name = "echo"; content = "out"; is_error = false })
          ∷ [];
    }
    ∷ assistant_text "answer"
    ∷ []

-- The window of three messages starts inside the turn, and is widened to the whole of it.
trim_whole_turn : trim_history (pos 3) answered_turn ≡ some answered_turn
unfolding trim_history cut back forward user_at user_text assistant_text
trim_whole_turn = refl

trim_last_turn :
    trim_history (pos 1) (answered_turn ++ user_text "next" ∷ []) ≡ some (user_text "next" ∷ [])
unfolding trim_history cut back forward user_at user_text assistant_text
trim_last_turn = refl

trim_history-IsCut_example :
    (i : ℕ) × (trim_history (pos 3) answered_turn ≡ some (drop i answered_turn))
    × IsCut answered_turn (window_start 3 answered_turn) i
    × StartsWithUser (drop i answered_turn)
trim_history-IsCut_example = trim_history-IsCut 2 answered_turn

abbrev not_brace : String → Bool
not_brace s = not (str_eq s "{")

-- Raw JSON that is written as it is; a value "chan" is one that does not marshal.
abbrev compact : Json
compact = record {
  valid = not_brace;
  indent = λ s. if is_empty s then "{}" else s;
  state_value = λ v. if str_eq v "chan" then err "unsupported type" else ok v;
}

compact-IsLawful : IsLawful compact
compact-IsLawful = record {
  object_valid = refl;
  indent_valid =
      λ x h. elim (Bool-cases (is_empty x)) [ inl yes_ ↦ rw yes_ refl | inr no_ ↦ rw no_ h ];
  indent_full = λ x h. elim (Bool-cases (is_empty x)) [
    | inl yes_ ↦ rw yes_ refl
    | inr no_ ↦ rw (no_, no_) refl
  ];
  indent_again = λ x h. elim (Bool-cases (is_empty x)) [
    | inl yes_ ↦ rw yes_ refl
    | inr no_ ↦ rw (no_, no_) refl
  ];
  value_again = λ v u h. elim (Bool-cases (str_eq v "chan")) [
    | inl yes_ ↦ cc (rw yes_ at h)
    | inr no_ ↦ same_value v u no_ h
  ];
}
  where
    ok_eq : (v u : String) → (if false then err "unsupported type" else ok v) ≡ ok u → v ≡ u
    ok_eq v u h = cc

    same_value :
        (v u : String)
        → str_eq v "chan" ≡ false
        → (if str_eq v "chan" then err "unsupported type" else ok v) ≡ ok u
        → (if str_eq u "chan" then err "unsupported type" else ok u) ≡ ok u
    same_value v u no_ h = rw (sym (ok_eq v u (rw no_ at h)), no_) refl

abbrev asked : Session
asked = record {
  history = record { role = assistant; content = tool_use call ∷ [] } ∷ [];
  state = some (("k", "1") ∷ []);
}

load-save_example :
    ((f : SessionFile) × (save compact asked ≡ ok f)
      × (load f ≡ ok (stored_session compact compact-IsLawful asked (("k", "1") ∷ []))))
    × ((g : SessionFile) × (save compact
            (stored_session compact compact-IsLawful asked (("k", "1") ∷ []))
          ≡ ok g)
        × (load g ≡ ok (stored_session compact compact-IsLawful asked (("k", "1") ∷ []))))
unfolding marshal_state
load-save_example = load-save compact compact-IsLawful asked (("k", "1") ∷ []) ((tt, tt), tt) refl

-- A value that does not marshal makes `Save` fail.
unsaved_run :
    save compact (record asked { state = some (("k", "chan") ∷ []) }) ≡ err "unsupported type"
unfolding save marshal_all marshal_state marshal encode_all encode_content safe_input
unsaved_run = refl
