-- ===== src/Admission/Policy.antt =====
-- The settings and the failure cache of crawler/validation_policy.go. The cache's mutex makes each of
-- its operations one step; each read of the clock is an argument.
use proxy_in_a_box.Prelude.{
  ℕ, ◌+◌, ◌-◌, ◌*◌, Bool, true, not, ◌||◌, none, some, List, [], ◌∷◌, Text, Map, lookup, insert,
  delete, length, get_or, leb, ltb, ◌==◌, if◌then◌else◌, Time, Duration, before, minute, hour,
}
use proxy_in_a_box.Prelude.Int.{ℤ, pos, negsuc}
use proxy_in_a_box.Endpoint.{Proxy}

-- The settings, of the configured values, which may be negative.
unfoldable pub configured_deep_check_interval : ℤ → Duration
configured_deep_check_interval (pos n) = if ltb 0 n then n else 24 * hour
configured_deep_check_interval (negsuc n) = 24 * hour

unfoldable pub configured_health_check_retries : ℤ → ℕ
configured_health_check_retries (pos n) = if leb n 0 then 2 else if ltb 5 n then 5 else n
configured_health_check_retries (negsuc n) = 2

unfoldable pub configured_health_response_body_limit : ℤ → ℕ
configured_health_response_body_limit (pos n) = if ltb 0 n then n else 16 * 1024
configured_health_response_body_limit (negsuc n) = 16 * 1024

-- `now.Sub` of a later instant is negative: it is written out as a test.
unfoldable pub needs_deep_check : ℤ → Time → Proxy → Bool
needs_deep_check configured now p =
    not p.available
    || (p.last_deep_verify == 0)
    || leb (p.last_deep_verify + configured_deep_check_interval configured) now

pub record CandidateFailure : Type 0 where
  pub failures : ℕ
  pub retry_at : Time
  pub last_failure : Time

abbrev pub candidate_retry_backoff : List Duration
candidate_retry_backoff = 30 * minute ∷ 2 * hour ∷ 6 * hour ∷ 24 * hour ∷ []

abbrev pub candidate_failure_retention : Duration
candidate_failure_retention = 7 * (24 * hour)

unfoldable pub is_due : Text → Time → Map CandidateFailure → Bool
is_due u now m = elim (lookup u m) [ none ↦ true | some f ↦ not (before now f.retry_at) ]

-- The failure count that an entry gets.
unfoldable pub next_failures : Text → ℕ → Map CandidateFailure → ℕ
next_failures u minimum m =
    let failures : ℕ = elim (lookup u m) [ none ↦ 1 | some f ↦ f.failures + 1 ] in
    if ltb failures minimum then minimum else failures

-- `failures - 1` is not negative: the count has just been raised.
unfoldable pub candidate_backoff : ℕ → Duration
candidate_backoff failures =
    let i = failures - 1 in
    get_or candidate_retry_backoff
      (if leb (length candidate_retry_backoff) i then length candidate_retry_backoff - 1 else i) 0

unfoldable pub record_candidate_failure :
    Text → ℕ → Time → Map CandidateFailure → Map CandidateFailure × Time
unfolding next_failures candidate_backoff
record_candidate_failure u minimum now m =
    let failures = next_failures u minimum m in
    let retry_at = now + candidate_backoff failures in
    (insert u (record { failures = failures; retry_at = retry_at; last_failure = now }) m, retry_at)

abbrev pub clear : Text → Map CandidateFailure → Map CandidateFailure
clear = delete

unfoldable pub prune : Time → Map CandidateFailure → Map CandidateFailure
prune now [] = []
prune now ((u, f) ∷ m) =
    if leb (f.last_failure + candidate_failure_retention) now
    then prune now m
    else (u, f) ∷ prune now m
