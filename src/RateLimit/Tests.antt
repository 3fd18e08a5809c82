-- ===== src/RateLimit/Tests.antt =====
-- The token bucket at concrete times.
use multi_client_chat_server.Prelude.{◌≡◌, ◌≤◌, ◌+◌, ◌*◌, [], ◌∷◌, arith}
use multi_client_chat_server.RateLimit.{
  unit, rate_bucket_max, rate_msg_cost, full_bucket, rate_limit_check,
}
use multi_client_chat_server.RateLimit.Bound.{run_checks, rate_limit_check_bounds, run_checks_bound}

rate_limit_check_bounds_example :
    ((rate_limit_check (full_bucket 0) unit).0.tokens ≤ rate_bucket_max)
    × ((rate_limit_check (full_bucket 0) unit).0.last_refill ≡ unit)
rate_limit_check_bounds_example = rate_limit_check_bounds (full_bucket 0) unit

run_checks_bound_example :
    (run_checks (full_bucket 0) (0 ∷ 5 ∷ unit ∷ [])).0 * rate_msg_cost
      + (run_checks (full_bucket 0) (0 ∷ 5 ∷ unit ∷ [])).1.tokens
      + 0
    ≤ rate_bucket_max + unit
run_checks_bound_example =
    run_checks_bound (full_bucket 0) (0 ∷ 5 ∷ unit ∷ [])
      (omega arith, (omega arith, (omega arith, tt)))
