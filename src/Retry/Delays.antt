-- ===== src/Retry/Delays.antt =====
-- The delays between attempts.
use native.Mathlib.Nat.{mul-le-mul_left, one-le-pow, pow-le-pow_right}
use gori.Prelude.{
  ltb, ◌==◌, if◌then◌else◌, Bool-cases, ℕ, ◌+◌, ◌-◌, ◌*◌, ◌%◌, ◌^◌, ◌≤◌, ◌<◌, min, max, ◌≡◌, refl,
  ◌∙◌, inl, inr, Bool, true, ◌&&◌, Option, none, some, arith,
}
use gori.Prelude.Int.{ℤ, pos, negsuc}
use gori.Retry.{
  Policy, Response, max_retry_after, retry_after, or_default, base_of, cap_of, grown, is_positive,
  limit, asked, Host, backoff_or, backoff,
}

or_default_pos : (d : ℕ) (z : ℤ) → 0 < d → 0 < or_default d z
or_default_pos d (negsuc n) h = h
or_default_pos d (pos n) h = ground arith

-- The choice of `d` on any number in the place of the grown delay.
chosen_le :
    (first : Bool) (g c b : ℕ)
    → 0 < c
    → (if (if first && is_positive g && ltb g c then g else c) == 0
        then b
        else if first && is_positive g && ltb g c
        then g
        else c)
      ≤ c
chosen_le first g c b h = elim (Bool-cases (first && is_positive g && ltb g c)) [
  | inl yes_ ↦ ground arith
  | inr no_ ↦ ground arith
]

limit_le : (p : Policy) (attempt : ℕ) → limit p attempt ≤ cap_of p
unfolding limit
limit_le p attempt =
    chosen_le (ltb 0 attempt && ltb (attempt - 1) 31) (grown (base_of p) (attempt - 1)) (cap_of p)
      (base_of p) (or_default_pos (30 * 1000000000) p.cap (omega arith))

-- A delay without a panic, of at most so much.
abbrev pub WaitsAtMost : {W : Type 0} → ℕ → Option ℕ × W → Type 0
WaitsAtMost m (none, w) = ⊥
WaitsAtMost m (some d, w) = d ≤ m

no_overflow : (d : ℕ) → d + 1 < 2 ^ 63 → is_positive ((d + 1) % 2 ^ 64) ≡ true
no_overflow d h = rw same (ground (arith, h))
  where
    same : (d + 1) % 2 ^ 64 ≡ d + 1
    same = omega (arith, h)

backoff_or_le :
    {W : Type 0} (h : Host W) (d m : ℕ) (o : Option ℕ) (w : W)
    → ((n : ℕ) (w : W) → 0 < n → (h.int63n n w).0 < n)
    → d + 1 < 2 ^ 63
    → d ≤ m
    → ((t : ℕ) → o ≡ some t → t ≤ m)
    → WaitsAtMost m (backoff_or h d o w)
unfolding backoff_or
backoff_or_le h d m (some t) w below fits le all = all t refl
backoff_or_le h d m none w below fits le all =
    rw (no_overflow d fits) (omega (arith, below (d + 1) w (omega arith)))

asked_le : (resp : Option Response) (t : ℕ) → asked resp ≡ some t → t ≤ max_retry_after
unfolding asked
asked_le none t = λ e. cc e
asked_le (some r) t = elim (Bool-cases (ltb 0 (retry_after r.header))) [
  | inr no_ ↦ rw no_ (λ e. cc e)
  | inl yes_ ↦ rw yes_ (λ e. omega (arith, some_inj e))
]
  where
    some_inj : {a b : ℕ} → some a ≡ some b → a ≡ b
    some_inj e = cc e

-- For a policy whose cap is below the largest `int64`, the delay is computed without a panic, whatever
-- the attempt, the base and the server's header, and it is at most the larger of two minutes and the
-- cap, or 30 seconds where the policy has none, if `rand.Int63n` stays below its bound.
pub backoff_bounded :
    {W : Type 0} (h : Host W) (p : Policy) (attempt : ℕ) (resp : Option Response) (w : W)
    → ((n : ℕ) (w : W) → 0 < n → (h.int63n n w).0 < n)
    → cap_of p + 1 < 2 ^ 63
    → WaitsAtMost (max max_retry_after (cap_of p)) (backoff h p attempt resp w)
unfolding backoff
backoff_bounded h p attempt resp w below fits =
    backoff_or_le h (limit p attempt) (max max_retry_after (cap_of p)) (asked resp) w below
      (omega (arith, limit_le p attempt, fits)) (omega (arith, limit_le p attempt))
      (λ t e. omega (arith, asked_le resp t e))

chosen-min :
    (g c b : ℕ)
    → 0 < g
    → g < 2 ^ 63
    → (if (if is_positive g && ltb g c then g else c) == 0
        then b
        else if is_positive g && ltb g c
        then g
        else c)
      ≡ (if c == 0 then b else min g c)
chosen-min g c b pos_ small = elim (Bool-cases (ltb g c)) [
  | inl yes_ ↦ ground arith
  | inr no_ ↦ ground arith
]

grown_exact :
    (base n : ℕ) → base ≤ 2 ^ 32 → n < 31 → (grown base n ≡ base * 2 ^ n) × (base * 2 ^ n < 2 ^ 63)
grown_exact base n small le = (omega (arith, bound), omega (arith, bound))
  where
    bound : base * 2 ^ n ≤ base * 2 ^ 30
    bound =
        mul-le-mul_left base (pow-le-pow_right {n = 2} (omega arith) {j = 30} (omega (arith, le)))

-- With a base of at most 2^32 nanoseconds the shift does not overflow: in the first 31 retries the upper end of the
-- jitter is the base doubled once per retry after the first, cut off at the cap.
limit_doubles :
    (p : Policy) (n : ℕ)
    → base_of p ≤ 2 ^ 32
    → n < 31
    → limit p (n + 1) ≡ min (base_of p * 2 ^ n) (cap_of p)
unfolding limit
limit_doubles p n small le =
    rw
      (
        (let same : n + 1 - 1 ≡ n = omega arith in same),
        (let first : ltb 0 (n + 1) ≡ true = ground arith in first),
        (let few : ltb n 31 ≡ true = ground arith in few),
        (grown_exact (base_of p) n small le).0,
      )
      (chosen-min (base_of p * 2 ^ n) (cap_of p) (base_of p)
          (omega (arith, mul-le-mul_left (base_of p) (one-le-pow n 2 (omega arith)), base_pos))
          (grown_exact (base_of p) n small le).1
        ∙ nonzero (cap_of p) (or_default_pos (30 * 1000000000) p.cap (omega arith)))
  where
    base_pos : 0 < base_of p
    base_pos = or_default_pos 500000000 p.base (omega arith)

    nonzero :
        (c : ℕ)
        → 0 < c
        → (if c == 0 then base_of p else min (base_of p * 2 ^ n) c) ≡ min (base_of p * 2 ^ n) c
    nonzero c h = ground arith
