-- ===== src/Tests/Retries.antt =====
-- The retry loop against a server that is busy twice; httpretry_test.go.
-- The world is the number of answers that the server has given.
use gori.Prelude.{ltb, if◌then◌else◌, ok, ℕ, ◌+◌, ◌-◌, ◌*◌, ◌^◌, max, ◌≡◌, refl, none, arith}
use gori.Prelude.Int.{pos}
use gori.Retry.{
  Policy, seconds, max_retry_after, retryable_status, retry_after, cap_of, limit, asked, Host,
  responded, paused_by, backoff_or, backoff, on_sent, on_made, on_slept, on_backoff, pause, loop,
  do_request,
}
use gori.Retry.Delays.{WaitsAtMost, backoff_bounded}
use gori.Retry.Attempts.{counted, Ends, do_request-Ends}

abbrev busy_twice : Host ℕ
busy_twice = record {
  make_request = λ w. (none, w);
  send = λ w. (ok (record { status = if ltb w 2 then 503 else 200; header = seconds 1 }), w + 1);
  sleep = λ d w. (none, w);
  int63n = λ n w. (n - 1, w);
}

abbrev standard : Policy
standard = record { attempts = pos 3; base = pos 500000000; cap = pos (10 * 1000000000) }

do_request-Ends_example : Ends 0 3 (do_request (counted busy_twice) standard (0, 0))
do_request-Ends_example = do_request-Ends busy_twice standard 0

do_request_run :
    do_request busy_twice standard 0 ≡ (responded (record { status = 200; header = seconds 1 }), 3)
unfolding do_request loop on_slept pause on_backoff paused_by on_made on_sent backoff backoff_or
    limit asked retry_after retryable_status
do_request_run = refl

backoff_bounded_example :
    WaitsAtMost (max max_retry_after (cap_of standard)) (backoff busy_twice standard 2 none 0)
backoff_bounded_example =
    backoff_bounded busy_twice standard 2 none 0 (λ n w pos_. omega (arith, pos_)) (omega arith)

-- With the largest duration as the cap the bound of the random number overflows.
largest_cap_run :
    (backoff busy_twice (record standard { cap = pos (2 ^ 63 - 1) }) 40 none 0).0 ≡ none
unfolding backoff backoff_or limit asked
largest_cap_run = refl
