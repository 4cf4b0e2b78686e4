-- ===== src/RateLimit.antt =====
-- The token bucket that spaces validation attempts (crawler/rate_limit.go), in exact arithmetic: the
-- code's floating-point number of tokens is here a number of billionths of a token, which is whole
-- when the rate is. The mutex makes a reservation one step.
pub mod Bucket
pub mod Spacing
use proxy_in_a_box.Prelude.{
  ℕ, ◌+◌, ◌-◌, ◌*◌, ◌/◌, min, leb, ltb, ◌==◌, if◌then◌else◌, Time, Duration, before, second,
}

-- `tokens` counts billionths; `rate` is in tokens per second, so in billionths per nanosecond.
pub record AttemptRateLimiter : Type 0 where
  pub rate : ℕ
  pub burst : ℕ
  pub tokens : ℕ
  pub last : Time

unfoldable pub new_attempt_rate_limiter : ℕ → ℕ → Time → AttemptRateLimiter
new_attempt_rate_limiter rate burst now = record {
  rate = rate;
  burst = burst;
  tokens = burst * second;
  last = now;
}

-- `time.Duration((1-l.tokens)/l.rate*float64(time.Second) + 0.5)`
abbrev pub wait_for : ℕ → ℕ → Duration
wait_for tokens rate = (2 * (second - tokens) + rate) / (2 * rate)

-- The bucket after the time since the last reservation.
unfoldable pub refill : Time → AttemptRateLimiter → AttemptRateLimiter
refill now l = if before now l.last then l else record l {
  tokens = min (l.burst * second) (l.tokens + (now - l.last) * l.rate);
  last = now;
}

-- The result is how long the caller waits.
unfoldable pub reserve : Time → AttemptRateLimiter → AttemptRateLimiter × Duration
unfolding refill
reserve now l =
    if l.rate == 0
    then (l, 0)
    else (let base = refill now l in
        if leb second base.tokens
        then (record base { tokens = base.tokens - second }, 0)
        else (let last = base.last + wait_for base.tokens l.rate in
            (record base { tokens = 0; last = last }, last - now)))
