-- ===== src/Sse/Ends.antt =====
-- The end of the loop of `Next` in internal/sse/sse.go.
use native.Mathlib.Nat.{suc-add}
use gori.Prelude.{
  leb, ◌==◌, Bool-cases, length, ℕ, zero, suc, ◌+◌, ◌≤◌, ◌<◌, ◌≡◌, refl, inl, inr, Option, some, [],
  ◌∷◌, ◌++◌, arith,
}
use gori.Sse.{
  max_event_bytes, Bytes, Line, ended, unended, line_too_long, skip_lf, line_from, read_line,
  trim_right, Pending, Scan, event, line_error, event_error, dispatch, Turn, dispatched, goes_on,
  too_large, on_line, at_end, after_turn, on_read, next,
}

-- A line that ended leaves fewer bytes than there were.
abbrev Leaves : ℕ → Line → Type 0
Leaves n (ended l rest) = length rest < n
Leaves n _ = Unit

Leaves-mono : (n m : ℕ) (l : Line) → n ≤ m → Leaves n l → Leaves m l
Leaves-mono n m (ended l rest) h k = omega (arith, h, k)
Leaves-mono n m (unended l) h k = tt
Leaves-mono n m line_too_long h k = tt

length-skip_lf : (bs : Bytes) → length (skip_lf bs) ≤ length bs
unfolding skip_lf
length-skip_lf [] = omega arith
length-skip_lf (b ∷ bs) = ground arith

line_from-Leaves : (acc bs : Bytes) → Leaves (length bs) (line_from acc bs)
unfolding line_from
line_from-Leaves acc [] = tt
line_from-Leaves acc (b ∷ bs) = elim (Bool-cases (b == 10)) [
  | inl yes_ ↦ rw yes_ (omega arith)
  | inr not_lf ↦ elim (Bool-cases (b == 13)) [
    | inl yes_ ↦ rw (not_lf, yes_) (omega (arith, length-skip_lf bs))
    | inr not_cr ↦ elim (Bool-cases (leb max_event_bytes (length acc))) [
      | inl yes_ ↦ rw (not_lf, not_cr, yes_) tt
      | inr no_ ↦
          rw (not_lf, not_cr, no_)
            (Leaves-mono (length bs) (suc (length bs)) (line_from (acc ++ b ∷ []) bs) (omega arith)
              (line_from-Leaves (acc ++ b ∷ []) bs))
    ]
  ]
]

abbrev EndsWith : (ℕ → Option Scan) → Type 0
EndsWith f = (r : Scan) × ((k : ℕ) → f k ≡ some r)

after_turn-EndsWith :
    (t : Turn) (f : ℕ → Pending → Option Scan) (rest : Bytes)
    → ((q : Pending) → EndsWith (λ k. f k q))
    → EndsWith (λ k. after_turn t (f k) rest)
unfolding after_turn
after_turn-EndsWith (dispatched e) f rest h = (event e rest, λ k. refl)
after_turn-EndsWith (goes_on p) f rest h = h p
after_turn-EndsWith too_large f rest h = (event_error, λ k. refl)

on_read-EndsWith :
    (n : ℕ) (l : Line) (f : ℕ → Bytes → Pending → Option Scan) (p : Pending)
    → Leaves n l
    → ((rest : Bytes) (q : Pending) → length rest < n → EndsWith (λ k. f k rest q))
    → EndsWith (λ k. on_read l (f k) p)
unfolding on_read
on_read-EndsWith n line_too_long f p h g = (line_error, λ k. refl)
on_read-EndsWith n (ended l rest) f p h g =
    after_turn-EndsWith (on_line (trim_right l) p) (λ k. f k rest) rest (λ q. g rest q h)
on_read-EndsWith n (unended []) f p h g = (at_end (dispatch p), λ k. refl)
on_read-EndsWith n (unended (b ∷ bs)) f p h g =
    after_turn-EndsWith (on_line (trim_right (b ∷ bs)) p) (λ k q. some (at_end (dispatch q))) []
      (λ q. (at_end (dispatch q), λ k. refl))

ends_by :
    (n : ℕ) (bs : Bytes) (p : Pending) → length bs ≤ n → EndsWith (λ k. next (suc (n + k)) bs p)
unfolding next read_line
ends_by zero bs p h =
    on_read-EndsWith (length bs) (line_from [] bs) (λ k. next (0 + k)) p (line_from-Leaves [] bs)
      (λ rest q l. absurd (omega (arith, l, h)))
ends_by (suc n) bs p h =
    on_read-EndsWith (length bs) (line_from [] bs) (λ k. next (suc n + k)) p
      (line_from-Leaves [] bs)
      (λ rest q l.
        let (r, e) = ends_by n rest q (omega (arith, l, h)) in (r, λ k. rw suc-add (e k)))

-- `Next` ends on every stream of bytes: it reads at most one line more than there are bytes, and
-- then it returns an event, the end of the stream, or the error of a line or an event that is too
-- large; a larger number of rounds changes nothing.
pub next_ends :
    (bs : Bytes) (p : Pending) → (r : Scan) × ((k : ℕ) → next (suc (length bs + k)) bs p ≡ some r)
next_ends bs p = ends_by (length bs) bs p (omega arith)
