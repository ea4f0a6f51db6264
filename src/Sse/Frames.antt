-- ===== src/Sse/Frames.antt =====
-- The frames that `writeEvent` of netbus/hub.go writes, read by the scanner of
-- internal/sse/sse.go.
use gori.Prelude.{
  ltb, leb, ◌==◌, length, length-append, All, ℕ, suc, ◌+◌, ◌≤◌, ◌<◌, ◌≡◌, refl, ◌∙◌, Bool, true,
  false, ◌||◌, some, [], ◌∷◌, ◌++◌, append-nil, append_assoc, arith,
}
use gori.Sse.{
  max_event_bytes, Bytes, Event, ended, line_from, read_line, is_break, no_bytes, trim_right, cut,
  trim_space, same_bytes, has_nul, join, Pending, empty_event, start, word_event, word_data,
  word_id, add_data, set_field, event, dispatch_lines, dispatch, goes_on, turn_of, end_event,
  on_line, after_turn, on_read, next,
}

-- No line break.
abbrev pub IsPlain : ℕ → Type 0
IsPlain b = is_break b ≡ false

abbrev pub line_of : Bytes → Bytes → Bytes
line_of field value = field ++ 58 ∷ 32 ∷ value

-- `"id: %d\nevent: %s\ndata: %s\n\n"`.
abbrev pub frame : Bytes → Bytes → Bytes → Bytes → Bytes
frame i kind data_ rest =
    line_of word_id i
    ++ (10 ∷ (line_of word_event kind ++ (10 ∷ (line_of word_data data_ ++ (10 ∷ (10 ∷ rest))))))

pub or_false : (a b : Bool) → (a || b) ≡ false → (a ≡ false) × (b ≡ false)
or_false true b h = cc
or_false false b h = (refl, h)

below : (n m : ℕ) → m < n → leb n m ≡ false
below n m h = ground arith

fits : (n m : ℕ) → m ≤ n → ltb n m ≡ false
fits n m h = ground arith

line_from-plain :
    (acc l rest : Bytes)
    → All IsPlain l
    → length acc + length l ≤ max_event_bytes
    → line_from acc (l ++ 10 ∷ rest) ≡ ended ((acc ++ l) ++ 10 ∷ []) rest
unfolding line_from
line_from-plain acc [] rest h k = rw append-nil
line_from-plain acc (b ∷ l) rest h k =
    let (not_lf, not_cr) = or_false (b == 10) (b == 13) h.0 in
    rw (
      not_lf,
      not_cr,
      below max_event_bytes (length acc) (omega arith),
      line_from-plain (acc ++ b ∷ []) l rest h.1 (omega (arith, length-append acc (b ∷ []))),
      append_assoc acc (b ∷ []) l,
    )

pub trim_right-plain : (l : Bytes) → All IsPlain l → trim_right (l ++ 10 ∷ []) ≡ l
unfolding trim_right no_bytes
trim_right-plain [] h = refl
trim_right-plain (b ∷ l) h = rw (trim_right-plain l h.1, h.0)

-- A line of a field is read as that line, and its value is the field's.
next-line :
    (n : ℕ) (field value rest : Bytes) (p : Pending)
    → All IsPlain (line_of field value)
    → length (line_of field value) ≤ max_event_bytes
    → next (suc n) (line_of field value ++ 10 ∷ rest) p
      ≡ after_turn (on_line (line_of field value) p) (next n rest) rest
unfolding next on_read read_line
next-line n field value rest p h k = rw (
  line_from-plain [] (line_of field value) rest h (omega (arith, k)),
  trim_right-plain (line_of field value) h,
)

on_id :
    (i : Bytes) (p : Pending)
    → has_nul i ≡ false
    → on_line (line_of word_id i) p ≡ goes_on (record p { event = record p.event { id = i } })
unfolding on_line cut trim_space set_field same_bytes turn_of
on_id i p h = rw h

on_event :
    (k : Bytes) (p : Pending)
    → on_line (line_of word_event k) p
      ≡ goes_on (record p { event = record p.event { event_type = k } })
unfolding on_line cut trim_space set_field same_bytes turn_of
on_event k p = refl

on_data :
    (d : Bytes) (p : Pending)
    → p.size + suc (length d) ≤ max_event_bytes
    → on_line (line_of word_data d) p
      ≡ goes_on (record p { lines = p.lines ++ d ∷ []; size = p.size + suc (length d) })
unfolding on_line cut trim_space set_field same_bytes turn_of add_data
on_data d p h = rw (fits max_event_bytes (p.size + suc (length d)) h)

blank :
    (n : ℕ) (rest : Bytes) (p : Pending) (e : Event)
    → dispatch p ≡ some e
    → next (suc n) (10 ∷ rest) p ≡ some (event e rest)
unfolding next on_read read_line line_from trim_right no_bytes on_line end_event after_turn
blank n rest p e h = rw h

-- A frame of the hub, whose id, kind and data hold no line break, whose id holds no NUL, and whose
-- lines keep within the limit, is read back as one event with this id, kind and data, and the bytes
-- after it are left for the next event.
pub next-frame :
    (n : ℕ) (i kind d rest : Bytes)
    → All IsPlain i
    → All IsPlain kind
    → All IsPlain d
    → has_nul i ≡ false
    → length i + 4 ≤ max_event_bytes
    → length kind + 7 ≤ max_event_bytes
    → length d + 6 ≤ max_event_bytes
    → next (suc (suc (suc (suc n)))) (frame i kind d rest) start
      ≡ some (event (record { event_type = kind; data_bytes = d; id = i; retry = [] }) rest)
unfolding dispatch_lines join after_turn
next-frame n i kind d rest a b c z h k l =
    next-line _ word_id i _ start (refl, (refl, (refl, (refl, a)))) (omega (arith, h))
    ∙ rw (on_id i start z) (
        next-line _ word_event kind _ with_id
          (refl, (refl, (refl, (refl, (refl, (refl, (refl, b))))))) (omega (arith, k))
        ∙ rw (on_event kind with_id) (
            next-line _ word_data d _ with_kind (refl, (refl, (refl, (refl, (refl, (refl, c))))))
              (omega (arith, l))
            ∙ rw (on_data d with_kind (omega (arith, l))) (blank n rest _ _ refl)))
  where
    with_id : Pending
    with_id = record start { event = record empty_event { id = i } }

    with_kind : Pending
    with_kind = record start { event = record empty_event { id = i; event_type = kind } }
