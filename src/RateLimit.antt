-- ===== src/RateLimit.antt =====
-- src/client_handler.c, rate_limit_check: the token bucket of a client (`tokens` and `last_refill` of
-- client_t). The source counts tokens in a double and time as a timespec; here both are whole
-- numbers of nanoseconds, so one token is `unit`. The rounding of the double is not modelled.
pub mod Bound
mod Tests
use multi_client_chat_server.Prelude.{ℕ, ◌+◌, ◌-◌, ◌*◌, Bool, true, false, ltb, if◌then◌else◌}

-- One token, which is also one second, at RATE_REFILL_RATE = 1.0 tokens a second.
abbrev pub unit : ℕ
unit = 1000000000

-- RATE_BUCKET_MAX and RATE_MSG_COST of include/registry.h.
abbrev pub rate_bucket_max : ℕ
rate_bucket_max = 5 * unit

abbrev pub rate_msg_cost : ℕ
rate_msg_cost = 1 * unit

pub record Bucket : Type 0 where
  pub tokens : ℕ
  pub last_refill : ℕ

-- What create_client leaves: a full bucket.
abbrev pub full_bucket : ℕ → Bucket
full_bucket now = record { tokens = rate_bucket_max; last_refill = now }

-- The refill, with the cap. The clock is monotonic, so `now - last_refill` does not stop at 0.
refilled : Bucket → ℕ → ℕ
refilled b now =
    let t = b.tokens + (now - b.last_refill) in if ltb rate_bucket_max t then rate_bucket_max else t

-- The clock is read at `now`; the result is `1` as true.
unfoldable pub rate_limit_check : Bucket → ℕ → Bucket × Bool
unfolding refilled
rate_limit_check b now =
    let t = refilled b now in
    if ltb t rate_msg_cost
    then (record { tokens = t; last_refill = now }, false)
    else (record { tokens = t - rate_msg_cost; last_refill = now }, true)
