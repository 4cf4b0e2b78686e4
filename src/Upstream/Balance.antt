-- ===== src/Upstream/Balance.antt =====
-- The counters of each upstream protocol: a request that is under way is counted in the total only.
use proxy_in_a_box.Prelude.{ℕ, ◌+◌, ◌≡◌, ◌≢◌, ite, [], Text, text_dec, lookup-insert, arith}
use proxy_in_a_box.Upstream.{
  RequestStats, Counters, add_total, add_success, add_failed, add_bytes, to_lower, stats_at,
  count_upstream,
}

-- Successes and failures make up the total of every named protocol.
abbrev pub IsBalanced : Counters → Type 0
IsBalanced c =
    (k : Text)
    → k ≢ []
    → let s = stats_at k c.upstream in s.total_requests ≡ s.success_requests + s.failed_requests

-- The same, with one request through `scheme` under way.
abbrev pub IsPending : Text → Counters → Type 0
IsPending scheme c =
    (k : Text)
    → k ≢ []
    → let s = stats_at k c.upstream in
      s.total_requests
      ≡ s.success_requests + s.failed_requests + ite (text_dec (to_lower scheme) k) 1 0

stats_at-count_upstream :
    (k scheme : Text) (f : RequestStats → RequestStats) (c : Counters)
    → stats_at k (count_upstream scheme f c).upstream
      ≡ ite (text_dec (to_lower scheme) k) (f (stats_at k c.upstream)) (stats_at k c.upstream)
unfolding stats_at count_upstream
stats_at-count_upstream k scheme f c = ground (
  arith,
  lookup-insert k (to_lower scheme) (f (stats_at (to_lower scheme) c.upstream)) c.upstream,
)

pub add_total-IsPending :
    (scheme : Text) (c : Counters)
    → IsBalanced c
    → IsPending scheme (count_upstream scheme add_total c)
add_total-IsPending scheme c h k named =
    ground (arith, h k named, stats_at-count_upstream k scheme add_total c)

pub add_success-IsBalanced :
    (scheme : Text) (c : Counters)
    → IsPending scheme c
    → IsBalanced (count_upstream scheme add_success c)
add_success-IsBalanced scheme c h k named =
    ground (arith, h k named, stats_at-count_upstream k scheme add_success c)

pub add_failed-IsBalanced :
    (scheme : Text) (c : Counters)
    → IsPending scheme c
    → IsBalanced (count_upstream scheme add_failed c)
add_failed-IsBalanced scheme c h k named =
    ground (arith, h k named, stats_at-count_upstream k scheme add_failed c)

pub add_bytes-IsBalanced :
    (scheme : Text) (n : ℕ) (c : Counters)
    → IsBalanced c
    → IsBalanced (count_upstream scheme (add_bytes n) c)
add_bytes-IsBalanced scheme n c h k named =
    ground (arith, h k named, stats_at-count_upstream k scheme (add_bytes n) c)

-- A request without a scheme is counted under the empty name.
pub IsPending-unnamed : (c : Counters) → IsPending [] c → IsBalanced c
unfolding to_lower
IsPending-unnamed c h k named = ground (arith, h k named)
