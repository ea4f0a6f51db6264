-- ===== src/A2a/Stream/Client/Answer.antt =====
-- What the client of a streamed task returns: the end of a2a/taskstore.go's stream, read by a2a/client.go.
use text.Mathlib.TextLemmas.{append_assoc, append-nil, nil-append}
use gori.Prelude.{
  if◌then◌else◌, Bool-cases, eq_iff, append, is_empty, concat, Result, ok, err, ℕ, String, ◌≡◌,
  refl, sym, ap, ◌∙◌, inl, inr, Bool, true, false, not, List, [], ◌∷◌, ◌++◌, map,
}
use gori.A2a.{Part, text_part, parts_text, Assembler, new_assembler, add_delta, set_final, result}
use gori.A2a.Store.{Store}
use gori.A2a.Stream.{deltas}
use gori.A2a.Stream.Client.{Frame, consume, frame_of}

-- The assembler after the deltas of these texts.
abbrev pub after_deltas : Bool → List String → Assembler → Assembler
after_deltas first_chunk [] a = a
after_deltas first_chunk (t ∷ ts) a = after_deltas false ts (add_delta t (not first_chunk) a)

one_part : (t : String) → parts_text (text_part t ∷ []) ≡ t
unfolding parts_text text_part
one_part t = append-nil t

pub consume-deltas :
    (i : ℕ) (first_chunk : Bool) (texts : List String) (rest : List Frame) (a : Assembler)
    → consume (map frame_of (deltas i first_chunk texts) ++ rest) a ≡ (
      (consume rest (after_deltas first_chunk texts a)).0,
      texts ++ (consume rest (after_deltas first_chunk texts a)).1,
    )
unfolding deltas consume frame_of
consume-deltas i first_chunk [] rest a = refl
consume-deltas i first_chunk (t ∷ ts) rest a =
    rw (one_part t, consume-deltas i false ts rest (add_delta t (not first_chunk) a)) refl

full-after_deltas :
    (texts : List String) (a : Assembler)
    → (after_deltas false texts a).full ≡ append a.full (concat texts)
unfolding add_delta
full-after_deltas [] a = sym (append-nil a.full)
full-after_deltas (t ∷ ts) a =
    full-after_deltas ts (add_delta t true a) ∙ append_assoc a.full t (concat ts)

finals-after_deltas :
    (first_chunk : Bool) (texts : List String) (a : Assembler)
    → ((after_deltas first_chunk texts a).final ≡ a.final)
      × ((after_deltas first_chunk texts a).saw_final ≡ a.saw_final)
unfolding add_delta
finals-after_deltas first_chunk [] a = (refl, refl)
finals-after_deltas first_chunk (t ∷ ts) a =
    finals-after_deltas false ts (add_delta t (not first_chunk) a)

saw_delta-after_deltas :
    (texts : List String) (a : Assembler)
    → a.saw_delta ≡ true
    → (after_deltas false texts a).saw_delta ≡ true
unfolding add_delta
saw_delta-after_deltas [] a e = e
saw_delta-after_deltas (t ∷ ts) a e = saw_delta-after_deltas ts (add_delta t true a) refl

-- The text that counts: the final one, or the deltas' when it is empty.
unfoldable pub final_or : String → List String → String
final_or t texts = if is_empty t then concat texts else t

pub result-set_final :
    (texts : List String) (t : String)
    → result (set_final t (after_deltas true texts new_assembler)) ≡ final_or t texts
unfolding result set_final add_delta final_or
result-set_final [] t = elim (Bool-cases (is_empty t)) [
  | inl yes_ ↦ rw yes_ ((eq_iff t "").0 yes_)
  | inr no_ ↦ rw no_ refl
]
result-set_final (d ∷ ds) t = elim (Bool-cases (is_empty t)) [
  | inl yes_ ↦
      rw
        (
          yes_,
          saw_delta-after_deltas ds (add_delta d false new_assembler) refl,
          full-after_deltas ds (add_delta d false new_assembler),
        )
        (ap (λ x. append x (concat ds)) (nil-append d))
  | inr no_ ↦ rw no_ refl
]

-- What the client returns for a handler's texts and result.
unfoldable pub answer : Result (List Part) → List String → Result String
answer (ok parts) texts = ok (final_or (parts_text parts) texts)
answer (err e) texts = err (append "a2a: task " (append "failed" (append ": " e)))
