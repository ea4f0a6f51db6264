-- ===== src/Retry.antt =====
-- httpretry/httpretry.go: the retry loop and its delays, in nanoseconds. `W` is the network, the clock and the
-- random numbers. A `Retry-After` header is what it parses to. Bodies are drained and closed in the world.
pub mod Delays
pub mod Attempts
use gori.Prelude.{
  ltb, leb, ◌==◌, if◌then◌else◌, Result, ok, err, ℕ, zero, suc, ◌+◌, ◌-◌, ◌*◌, ◌%◌, ◌^◌, min,
  String, Bool, not, ◌&&◌, ◌||◌, Option, none, some,
}
use gori.Prelude.Int.{ℤ, pos, negsuc}

pub record Policy : Type 0 where
  pub attempts : ℤ
  pub base : ℤ
  pub cap : ℤ

-- Seconds, a date and the time until then, or no header or another text.
pub data RetryAfter : Type 0 where
  seconds : ℕ → RetryAfter
  date : ℤ → RetryAfter
  no_time : RetryAfter

pub record Response : Type 0 where
  pub status : ℕ
  pub header : RetryAfter

abbrev pub second : ℕ
second = 1000000000

abbrev pub max_retry_after : ℕ
max_retry_after = 120 * 1000000000

unfoldable pub retryable_status : ℕ → Bool
retryable_status code = code == 429 || leb 500 code

unfoldable pub retry_after : RetryAfter → ℕ
retry_after (seconds n) = if ltb 120 n then max_retry_after else n * second
retry_after (date (pos n)) = n
retry_after (date (negsuc n)) = 0
retry_after no_time = 0

-- A duration that defaults when it is zero or negative.
abbrev pub or_default : ℕ → ℤ → ℕ
or_default d (negsuc n) = d
or_default d (pos n) = if n == 0 then d else n

abbrev pub base_of : Policy → ℕ
base_of p = or_default 500000000 p.base

abbrev pub cap_of : Policy → ℕ
cap_of p = or_default (30 * 1000000000) p.cap

-- The bits of `base * (1 << shift)`, an `int64`, and whether that is positive.
abbrev pub grown : ℕ → ℕ → ℕ
grown base shift = (base * 2 ^ shift) % 2 ^ 64

abbrev pub is_positive : ℕ → Bool
is_positive bits = not (bits == 0) && ltb bits (2 ^ 63)

-- `d`, the upper end of the jitter.
unfoldable pub limit : Policy → ℕ → ℕ
limit p attempt =
    let g = grown (base_of p) (attempt - 1) in
    let d =
      if ltb 0 attempt && ltb (attempt - 1) 31 && is_positive g && ltb g (cap_of p)
      then g
      else cap_of p in
    if d == 0 then base_of p else d

-- The delay that a response asks for, if it asks for one.
unfoldable pub asked : Option Response → Option ℕ
asked none = none
asked (some r) =
    if ltb 0 (retry_after r.header) then some (min (retry_after r.header) max_retry_after) else none

-- `rand.Int63n` takes a bound that the result stays below.
pub record Host (W : Type 0) : Type 0 where
  pub make_request : W → Option String × W
  pub send : W → Result Response × W
  pub sleep : ℕ → W → Option String × W
  pub int63n : ℕ → W → ℕ × W

pub data Outcome : Type 0 where
  responded : Response → Outcome
  failed : String → Outcome
  panicked : Outcome

-- The end of a wait; `overflowed` is the panic of `rand.Int63n` on a bound that is not positive.
pub data Paused : Type 0 where
  awake overflowed : Paused
  interrupted : String → Paused

unfoldable pub paused_by : Option String → Paused
paused_by none = awake
paused_by (some e) = interrupted e

-- The end of the loop; `e` is the last error where there is no response.
unfoldable pub exhausted : Option Response → String → Outcome
exhausted (some r) e = responded r
exhausted none e = failed e

abbrev pub attempts_of : Policy → ℕ
attempts_of p = elim p.attempts [ pos n ↦ if n == 0 then 1 else n | negsuc n ↦ 1 ]

module _ {W : Type 0} where
  -- The delay; `none` is the panic of `rand.Int63n` where the bound `int64(d) + 1` overflows.
  unfoldable pub backoff_or : Host W → ℕ → Option ℕ → W → Option ℕ × W
  backoff_or h d (some t) w = (some t, w)
  backoff_or h d none w =
      let (n, w') = h.int63n (d + 1) w in
      if is_positive ((d + 1) % 2 ^ 64) then (some n, w') else (none, w)

  unfoldable pub backoff : Host W → Policy → ℕ → Option Response → W → Option ℕ × W
  unfolding backoff_or
  backoff h p attempt resp w = backoff_or h (limit p attempt) (asked resp) w

  -- The end of an attempt; `go` is the rest of the loop on its response and error.
  unfoldable pub on_sent :
      (Option Response → String → W → Outcome × W) → Result Response × W → Outcome × W
  on_sent go (err e, w) = go none e w
  on_sent go (ok r, w) =
      let rest = go (some r) "" w in if retryable_status r.status then rest else (responded r, w)

  unfoldable pub on_made :
      Host W → (Option Response → String → W → Outcome × W) → Option String × W → Outcome × W
  on_made h go (some e, w) = (failed e, w)
  on_made h go (none, w) = on_sent go (h.send w)

  unfoldable pub on_slept :
      Host W → (Option Response → String → W → Outcome × W) → Paused × W → Outcome × W
  on_slept h go (interrupted e, w) = (failed e, w)
  on_slept h go (overflowed, w) = (panicked, w)
  on_slept h go (awake, w) = on_made h go (h.make_request w)

  unfoldable pub on_backoff : Host W → Option ℕ × W → Paused × W
  unfolding paused_by
  on_backoff h (none, w) = (overflowed, w)
  on_backoff h (some d, w) = let (x, w') = h.sleep d w in (paused_by x, w')

  -- The wait before an attempt that is not the first.
  unfoldable pub pause : Host W → Policy → ℕ → Option Response → W → Paused × W
  unfolding on_backoff
  pause h p zero resp w = (awake, w)
  pause h p (suc n) resp w = on_backoff h (backoff h p (suc n) resp w)

  -- The loop with so many attempts left.
  unfoldable pub loop : Host W → Policy → ℕ → ℕ → Option Response → String → W → Outcome × W
  loop h p zero attempt resp e w = (exhausted resp e, w)
  loop h p (suc left) attempt resp e w =
      on_slept h (loop h p left (attempt + 1)) (pause h p attempt resp w)

  -- `Do`.
  unfoldable pub do_request : Host W → Policy → W → Outcome × W
  do_request h p w = loop h p (attempts_of p) 0 none "" w
