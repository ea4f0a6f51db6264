-- ===== src/Provider/Openai/Told.antt =====
-- The accumulators of tool calls and the events that told of them, in `Stream` of
-- provider/openai/openai.go.
use mathlib.Core.List.{Memᴰ}
use mathlib.Core.List.Memᴰ
use package.text.Mathlib.TextPositions.{len-append}
use Prim.Native.String.{len}
use gori.Prelude.{
  Bool-cases, All, eq_iff, append, is_empty, Result, ok, err, String, ◌≡◌, refl, ap, ◌∙◌, inl, inr,
  Bool, true, false, not, ◌&&◌, List, [], ◌∷◌, ◌++◌, append_assoc, arith,
}
use gori.Prelude.Int.{ℤ}
use gori.Provider.{StreamEvent, tool_start}
use gori.Provider.Openai.Events.{
  bind, CallDelta, ToolAcc, StreamState, int_eq, acc_at, put_acc, merge, or_id,
}

abbrev pub OnOk {ℓ} : {A : Type ℓ} → (A → Type 0) → Result A → Type 0
OnOk P (ok a) = P a
OnOk P (err e) = Unit

pub OnOk-bind {ℓ κ} :
    {A : Type ℓ} {B : Type κ} (P : A → Type 0) (Q : B → Type 0) (r : Result A) (f : A → Result B)
    → OnOk P r
    → ((a : A) → P a → OnOk Q (f a))
    → OnOk Q (bind r f)
OnOk-bind P Q (ok a) f h k = k a h
OnOk-bind P Q (err e) f h k = tt

-- An accumulator whose start was sent keeps the id that the event had; one whose start was not
-- sent has no name.
abbrev pub Told : Bool → List StreamEvent → ToolAcc → Type 0
Told true sent a = (is_empty a.id ≡ false) × ((n : String) × Memᴰ (tool_start a.id n) sent)
Told false sent a = is_empty a.name ≡ true

abbrev pub IsTold : List StreamEvent → ToolAcc → Type 0
IsTold sent a = Told a.started sent a

abbrev pub AllTold : List StreamEvent → List (ℤ × ToolAcc) → Type 0
AllTold sent ts = All (λ p. IsTold sent p.1) ts

abbrev pub Extends : List StreamEvent → List StreamEvent → Type 0
Extends sent sent' = (es : List StreamEvent) × (sent' ≡ sent ++ es)

pub Told-Extends :
    (b : Bool) (sent sent' : List StreamEvent) (a : ToolAcc)
    → Extends sent sent'
    → Told b sent a
    → Told b sent' a
Told-Extends true sent sent' a (es, e) h = (h.0, (h.1.0, rw e (Memᴰ.append_left es h.1.1)))
Told-Extends false sent sent' a e h = h

pub AllTold-Extends :
    (ts : List (ℤ × ToolAcc)) (sent sent' : List StreamEvent)
    → Extends sent sent'
    → AllTold sent ts
    → AllTold sent' ts
AllTold-Extends [] sent sent' e h = tt
AllTold-Extends ((i, a) ∷ ts) sent sent' e h =
    (Told-Extends a.started sent sent' a e h.0, AllTold-Extends ts sent sent' e h.1)

pub acc_at-IsTold :
    (i : ℤ) (ts : List (ℤ × ToolAcc)) (sent : List StreamEvent)
    → AllTold sent ts
    → IsTold sent (acc_at i ts)
unfolding acc_at
acc_at-IsTold i [] sent h = refl
acc_at-IsTold i ((j, a) ∷ ts) sent h = elim (Bool-cases (int_eq j i)) [
  | inl yes_ ↦ rw yes_ h.0
  | inr no_ ↦ rw no_ (acc_at-IsTold i ts sent h.1)
]

pub put_acc-AllTold :
    (i : ℤ) (a : ToolAcc) (ts : List (ℤ × ToolAcc)) (sent : List StreamEvent)
    → AllTold sent ts
    → IsTold sent a
    → AllTold sent (put_acc i a ts)
unfolding put_acc
put_acc-AllTold i a [] sent h k = (k, tt)
put_acc-AllTold i a ((j, b) ∷ ts) sent h k = elim (Bool-cases (int_eq j i)) [
  | inl yes_ ↦ rw yes_ (k, h.1)
  | inr no_ ↦ rw no_ (h.0, put_acc-AllTold i a ts sent h.1 k)
]

-- What `merge` leaves of this: a start that was sent.
abbrev pub WasTold : Bool → List StreamEvent → ToolAcc → Type 0
WasTold true sent a = Told true sent a
WasTold false sent a = Unit

and_false : (b : Bool) → (b && false) ≡ false
and_false true = refl
and_false false = refl

pub merge-WasTold :
    (b : Bool) (d : CallDelta) (a : ToolAcc) (sent : List StreamEvent)
    → a.started ≡ b
    → Told b sent a
    → WasTold b sent (merge d a)
unfolding merge
merge-WasTold true d a sent e h = rw (e, and_false) h
merge-WasTold false d a sent e h = tt

five : len "call_" ≡ 5
five = refl

prefixed : (d : String) → is_empty (append "call_" d) ≡ false
prefixed d = elim (Bool-cases (is_empty (append "call_" d))) [
  | inr no_ ↦ no_
  | inl yes_ ↦
      absurd
        (omega (arith, ap len ((eq_iff (append "call_" d) "").0 yes_), len-append "call_" d, five))
]

pub call_id_not_empty : (d s : String) → is_empty (or_id (append "call_" d) s) ≡ false
call_id_not_empty d s = elim (Bool-cases (is_empty s)) [
  | inl yes_ ↦ rw yes_ (prefixed d)
  | inr no_ ↦ rw (no_, no_)
]

pub Extends-trans :
    (sent₀ sent sent' : List StreamEvent) (e : StreamEvent)
    → sent ≡ sent₀ ++ e ∷ []
    → Extends sent sent'
    → Extends sent₀ sent'
Extends-trans sent₀ sent sent' e h (es, k) =
    (e ∷ es, k ∙ ap (λ x. x ++ es) h ∙ append_assoc sent₀ (e ∷ []) es)

abbrev pub StateIsTold : StreamState → Type 0
StateIsTold s = AllTold s.sent s.tools

-- A call that goes on was started, or has no name yet.
pub continued-IsTold :
    (b : Bool) (sent : List StreamEvent) (a : ToolAcc)
    → WasTold b sent a
    → (not b && not (is_empty a.name)) ≡ false
    → Told b sent a
continued-IsTold true sent a h e = h
continued-IsTold false sent a h e = elim (Bool-cases (is_empty a.name)) [
  | inl yes_ ↦ yes_
  | inr no_ ↦ cc (rw no_ at e)
]
