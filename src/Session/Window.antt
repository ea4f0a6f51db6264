-- ===== src/Session/Window.antt =====
-- Where `Trim` cuts, and what a session keeps.
use native.Mathlib.Nat.{zero-sub, add-zero}
use mathlib.Core.Option.{some-injective}
use gori.Prelude.{
  ltb, ◌==◌, if◌then◌else◌, length, drop, length-drop, get_elem?-drop, ℕ, zero, suc, ◌+◌, ◌-◌, ◌≤◌,
  ◌<◌, ◌≡◌, refl, sym, ap, subst, ◌∙◌, ◌⊎◌, inl, inr, Bool, true, false, some, List, [], ◌∷◌, arith,
  dec_lt, dec_le, ℕ_discrete,
}
use gori.Prelude.Int.{ℤ, pos, negsuc, pos_part}
use gori.Message.{Message}
use gori.Session.{is_user, user_at, back, forward, cut, trim_history, drop_history}

abbrev pub IsUserAt : List Message → ℕ → Type 0
IsUserAt h i = user_at h i ≡ some true

abbrev pub NoUserIn : List Message → ℕ → ℕ → Type 0
NoUserIn h lo hi = (j : ℕ) → lo ≤ j → j < hi → user_at h j ≡ some false

-- The cut for a window that starts at `s`: the last user message at or before `s`; if there is none,
-- the first one behind, or the end.
pub data IsCut (h : List Message) (s i : ℕ) : Type 0 where
  widened : i ≤ s → IsUserAt h i → NoUserIn h (suc i) (suc s) → IsCut h s i
  narrowed : NoUserIn h 0 i → s ≤ i → IsUserAt h i → IsCut h s i
  cleared : NoUserIn h 0 (length h) → i ≡ length h → IsCut h s i

user_at_in_range : (h : List Message) (i : ℕ) → i < length h → (u : Bool) × (user_at h i ≡ some u)
unfolding user_at
user_at_in_range [] i l = elim l [ ]
user_at_in_range (m ∷ ms) zero l = (is_user m.role, refl)
user_at_in_range (m ∷ ms) (suc i) l = user_at_in_range ms i (omega arith)

-- The first loop ends at a user message with none behind it in the window, or at the start.
abbrev Backed : List Message → ℕ → Type 0
Backed h s =
    (i : ℕ) × (back h s ≡ some i)
    × (i ≤ s)
    × (NoUserIn h (suc i) (suc s))
    × ((i ≡ 0) ⊎ IsUserAt h i)

NoUserIn-extend :
    (h : List Message) (lo hi : ℕ)
    → NoUserIn h lo hi
    → user_at h hi ≡ some false
    → NoUserIn h lo (suc hi)
NoUserIn-extend h lo hi no_user e j a b = elim (ℕ_discrete j hi) [
  | yes same ↦ rw same e
  | no other ↦ no_user j a (omega arith)
]

back_step :
    (h : List Message) (s : ℕ) (u : Bool)
    → user_at h (suc s) ≡ some u
    → Backed h s
    → Backed h (suc s)
unfolding back
back_step h s true e b = (suc s, rw e, omega arith, λ j a c. absurd (omega arith), inr e)
back_step h s false e (i, r, l, no_user, stop) =
    (i, rw e r, omega arith, NoUserIn-extend h (suc i) (suc s) no_user e, stop)

back_lem : (h : List Message) (s : ℕ) → s < length h → Backed h s
unfolding back
back_lem h zero l = (0, refl, omega arith, λ j a b. absurd (omega arith), inl refl)
back_lem h (suc s) l =
    let (u, e) = user_at_in_range h (suc s) l in back_step h s u e (back_lem h s (omega arith))

-- The second loop ends at the first user message, or at the end.
abbrev Forwarded : List Message → ℕ → ℕ → Type 0
Forwarded h f i =
    (j : ℕ) × (forward h f i ≡ some j)
    × (i ≤ j)
    × (j ≤ length h)
    × (NoUserIn h i j)
    × ((j ≡ length h) ⊎ IsUserAt h j)

forward_step :
    (h : List Message) (f i : ℕ) (u : Bool)
    → i < length h
    → user_at h i ≡ some u
    → Forwarded h f (suc i)
    → Forwarded h (suc f) i
unfolding forward
forward_step h f i true l e w =
    (i, ground arith, omega arith, omega arith, λ j a b. absurd (omega arith), inr e)
forward_step h f i false l e (j, r, k, fits, no_user, stop) =
    (j, ground arith, omega arith, fits, earlier, stop)
  where
    earlier : NoUserIn h i j
    earlier m a b = elim (ℕ_discrete m i) [
      | yes same ↦ rw same e
      | no other ↦ no_user m (omega arith) b
    ]

forward_lem : (h : List Message) (f i : ℕ) → f + i ≡ length h → Forwarded h f i
unfolding forward
forward_lem h zero i e =
    (i, refl, omega arith, omega arith, λ j a b. absurd (omega arith), inl (omega arith))
forward_lem h (suc f) i e =
    let (u, r) = user_at_in_range h i (omega arith) in
    forward_step h f i u (omega arith) r (forward_lem h f (suc i) (omega arith))

stop-IsCut :
    (h : List Message) (s j : ℕ)
    → NoUserIn h 1 (suc s)
    → NoUserIn h 0 j
    → (j ≡ length h) ⊎ IsUserAt h j
    → IsCut h s j
stop-IsCut h s j after before (inl e) = cleared (subst (NoUserIn h 0) e before) e
stop-IsCut h s zero after before (inr u) = widened (omega arith) u after
stop-IsCut h s (suc j) after before (inr u) = elim (dec_le s (suc j)) [
  | yes late ↦ narrowed before late u
  | no early ↦ cc (after (suc j) (omega arith) (omega arith), u)
]

both-IsCut :
    (h : List Message) (s i j : ℕ)
    → i ≤ s
    → NoUserIn h (suc i) (suc s)
    → (i ≡ 0) ⊎ IsUserAt h i
    → i ≤ j
    → NoUserIn h i j
    → (j ≡ length h) ⊎ IsUserAt h j
    → IsCut h s j
both-IsCut h s i j l after (inr u) k before stop = elim (ℕ_discrete i j) [
  | yes same ↦ rw (← same) (widened l u after)
  | no other ↦ cc (before i (omega arith) (omega arith), u)
]
both-IsCut h s i j l after (inl z) k before stop =
    stop-IsCut h s j (rw z at after) (rw z at before) stop

-- Where the window of the last `keep` messages begins.
abbrev pub window_start : ℕ → List Message → ℕ
window_start keep h = length h - keep

-- The code's conditional is a truncated difference.
start-window_start : (k n : ℕ) → (if ltb k n then n - k else 0) ≡ n - k
start-window_start k n = ground arith

-- `Trim` finds its cut without an index out of range, and cuts at the last user message at or before
-- the window; if there is none, at the first one behind it, or at the end.
pub cut-IsCut :
    (k : ℕ) (h : List Message)
    → (i : ℕ) × (cut (suc k) h ≡ some i) × (IsCut h (window_start (suc k) h) i) × (i ≤ length h)
unfolding cut
cut-IsCut k [] = (
  0,
  rw start-window_start (unfold back forward in rw zero-sub),
  cleared (λ j a b. absurd (omega arith)) refl,
  omega arith,
)
cut-IsCut k (m ∷ ms) =
    let h = m ∷ ms in
    let s = window_start (suc k) h in
    let (i, e, l, after, stop) = back_lem h s (omega arith) in
    let (j, e', l', fits, before, stop') = forward_lem h (length h - i) i (omega arith) in
    (j, rw start-window_start (rw e e'), both-IsCut h s i j l after stop l' before stop', fits)

pub user_at-drop : (i : ℕ) (h : List Message) (j : ℕ) → user_at (drop i h) j ≡ user_at h (i + j)
unfolding user_at
user_at-drop i h j = rw (get_elem?-drop i h j, user_at)

user_at-lt : (h : List Message) (i : ℕ) (u : Bool) → user_at h i ≡ some u → i < length h
unfolding user_at
user_at-lt [] i u e = cc
user_at-lt (m ∷ ms) zero u e = omega arith
user_at-lt (m ∷ ms) (suc i) u e = omega (arith, user_at-lt ms i u e)

abbrev pub StartsWithUser : List Message → Type 0
StartsWithUser h = (h ≡ []) ⊎ IsUserAt h 0

drop-all : (h : List Message) (i : ℕ) → length h ≤ i → drop i h ≡ []
drop-all [] zero l = refl
drop-all [] (suc i) l = refl
drop-all (m ∷ ms) zero l = absurd (omega arith)
drop-all (m ∷ ms) (suc i) l = drop-all ms i (omega arith)

IsCut-StartsWithUser : (h : List Message) (s i : ℕ) → IsCut h s i → StartsWithUser (drop i h)
IsCut-StartsWithUser h s i (widened l u after) = inr (rw (user_at-drop i h 0, add-zero) u)
IsCut-StartsWithUser h s i (narrowed before l u) = inr (rw (user_at-drop i h 0, add-zero) u)
IsCut-StartsWithUser h s i (cleared before e) = inl (drop-all h i (omega arith))

-- For a positive `keepLast`, `Trim` never indexes out of range and drops a prefix of the history: up
-- to the last user message at or before the window of `keepLast` messages, or, if there is none, up
-- to the first user message behind the window's start, or all. What is left is empty or starts with
-- a user message.
pub trim_history-IsCut :
    (k : ℕ) (h : List Message)
    → (i : ℕ) × (trim_history (pos (suc k)) h ≡ some (drop i h))
      × (IsCut h (window_start (suc k) h) i)
      × (StartsWithUser (drop i h))
unfolding trim_history
trim_history-IsCut k h =
    let (i, e, c, l) = cut-IsCut k h in (i, rw e (start_zero i h), c, IsCut-StartsWithUser h _ i c)
  where
    start_zero :
        (i : ℕ) (h : List Message) → (if i == 0 then some h else some (drop i h)) ≡ some (drop i h)
    start_zero zero h = refl
    start_zero (suc i) h = ground arith

-- If some user message stands at or before the window, the window is kept whole.
pub trim_history_keeps :
    (k : ℕ) (h h' : List Message) (j : ℕ)
    → trim_history (pos (suc k)) h ≡ some h'
    → j ≤ window_start (suc k) h
    → IsUserAt h j
    → suc k ≤ length h
    → suc k ≤ length h'
trim_history_keeps k h h' j e l u fits =
    let (i, e', c, _) = trim_history-IsCut k h in
    rw (some-injective _ _ (sym e ∙ e'), length-drop i h) (kept i c)
  where
    kept : (i : ℕ) → IsCut h (window_start (suc k) h) i → suc k ≤ length h - i
    kept i (widened m v after) = omega arith
    kept i (narrowed before m v) = elim (dec_lt j i) [
      | yes lt ↦ cc (before j (omega arith) lt, u)
      | no ge ↦ omega arith
    ]
    kept i (cleared before q) = cc (before j (omega arith) (user_at-lt h j true u), u)

-- A history that starts with a user message, or is empty, is cut in front if it is not cut at a
-- message behind.
user_first-zero :
    (h : List Message) (i : ℕ) → StartsWithUser h → NoUserIn h 0 i → i ≤ length h → i ≡ 0
user_first-zero h zero w before l = refl
user_first-zero h (suc i) (inl e) before l = absurd (omega (arith, ap length e))
user_first-zero h (suc i) (inr u) before l = cc (before 0 (omega arith) (omega arith), u)

module _ (k : ℕ) (h : List Message) (i i' : ℕ) where
  widened_twice :
      IsCut h (window_start (suc k) h) i
      → i' ≤ window_start (suc k) (drop i h)
      → IsUserAt (drop i h) i'
      → i' ≡ 0
  widened_twice (cleared before e) l u = omega (arith, length-drop i h)
  widened_twice (narrowed before m v) l u = omega (arith, length-drop i h)
  widened_twice (widened m v after) l u = elim (dec_lt 0 i') [
    | yes later ↦ cc (
      after (i + i') (omega arith) (omega (arith, length-drop i h)),
      rw (user_at-drop i h i') at u,
    )
    | no first ↦ omega arith
  ]

  recut-zero :
      IsCut h (window_start (suc k) h) i
      → StartsWithUser (drop i h)
      → IsCut (drop i h) (window_start (suc k) (drop i h)) i'
      → i' ≡ 0
  recut-zero c w (cleared before e) =
      user_first-zero (drop i h) i' w (λ j a b. before j a (omega arith)) (omega arith)
  recut-zero c w (narrowed before l u) =
      user_first-zero (drop i h) i' w before (omega (arith, user_at-lt (drop i h) i' true u))
  recut-zero c w (widened l u after) = widened_twice c l u

-- A second `Trim` to the same length changes nothing.
pub trim_history_idem :
    (k : ℕ) (h h' : List Message)
    → trim_history (pos (suc k)) h ≡ some h'
    → trim_history (pos (suc k)) h' ≡ some h'
trim_history_idem k h h' e =
    let (i, p, c, w) = trim_history-IsCut k h in
    let (i', p', c', w') = trim_history-IsCut k (drop i h) in
    let same : h' ≡ drop i h = some-injective _ _ (sym e ∙ p) in
    rw same (p' ∙ ap (λ j. some (drop j (drop i h))) (recut-zero k h i i' c w c'))

-- `DropBefore` drops the first n messages, and none for a negative n.
pub drop_history_lem : (n : ℤ) (h : List Message) → drop_history n h ≡ drop (pos_part n) h
unfolding drop_history
drop_history_lem (negsuc n) h = refl
drop_history_lem (pos zero) h = refl
drop_history_lem (pos (suc n)) h = elim (dec_le (length h) (suc n)) [
  | yes all ↦ rw (drop-all h (suc n) all) (ground arith)
  | no some_left ↦ ground arith
]
