-- ===== src/RateLimit/Bound.antt =====
-- How much a client can send, whatever times it chooses.
use multi_client_chat_server.Prelude.{
  ℕ, ◌+◌, ◌*◌, ◌≤◌, ◌≡◌, ap, true, List, [], ◌∷◌, arith, if◌then◌else◌,
}
use multi_client_chat_server.RateLimit.{
  Bucket, unit, rate_bucket_max, rate_msg_cost, rate_limit_check,
}

-- Calls at the given times: how many were let through, and the bucket at the end.
pub run_checks : Bucket → List ℕ → ℕ × Bucket
run_checks b [] = (0, b)
run_checks b (now ∷ times) =
    let (b', passed) = rate_limit_check b now in
    let (n, b'') = run_checks b' times in (if passed then n + 1 else n, b'')

-- The times do not go back: the clock is CLOCK_MONOTONIC.
abbrev pub IsMonotonic : ℕ → List ℕ → Type 0
IsMonotonic t [] = Unit
IsMonotonic t (now ∷ times) = (t ≤ now) × IsMonotonic now times

abbrev pub last_time : ℕ → List ℕ → ℕ
last_time t [] = t
last_time t (now ∷ times) = last_time now times

-- A check keeps the bucket within its maximum, whatever it held before, and sets its clock.
pub rate_limit_check_bounds :
    (b : Bucket) (now : ℕ)
    → ((rate_limit_check b now).0.tokens ≤ rate_bucket_max)
      × ((rate_limit_check b now).0.last_refill ≡ now)
unfolding rate_limit_check
rate_limit_check_bounds b now = ground arith

-- One check: what it lets through and what is left is at most what there was and the time passed.
check_budget :
    (b : Bucket) (now : ℕ)
    → b.last_refill ≤ now
    → (if (rate_limit_check b now).1 then rate_msg_cost else 0)
        + (rate_limit_check b now).0.tokens
        + b.last_refill
      ≤ b.tokens + now
unfolding rate_limit_check
check_budget b now h = ground arith

-- Any sequence of checks at times that do not go back: the messages let through cost at most the
-- tokens at the start and one token for each second that passed.
pub run_checks_bound :
    (b : Bucket) (times : List ℕ)
    → IsMonotonic b.last_refill times
    → (run_checks b times).0 * rate_msg_cost + (run_checks b times).1.tokens + b.last_refill
      ≤ b.tokens + last_time b.last_refill times
unfolding run_checks
run_checks_bound b [] h = omega arith
run_checks_bound b (now ∷ times) h =
    let b' = (rate_limit_check b now).0 in
    let clock = (rate_limit_check_bounds b now).1 in
    let ih = run_checks_bound b' times (rw clock h.1) in
    ground (arith, ih, check_budget b now h.0, clock, ap (λ t. last_time t times) clock)

-- A second after any check, the next one passes, whatever the bucket held.
pub check_after_second :
    (b : Bucket) (now later : ℕ)
    → now + unit ≤ later
    → (rate_limit_check (rate_limit_check b now).0 later).1 ≡ true
unfolding rate_limit_check
check_after_second b now later h = ground arith
