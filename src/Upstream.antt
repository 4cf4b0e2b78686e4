-- ===== src/Upstream.antt =====
-- The proxy server's side of a request: counters, choice of an upstream, attempts, retries
-- (mitm/mitm.go, mitm/dump.go, mitm/request_stats.go). What the network, the HTTP library and the
-- callbacks do is the interface `Network`; every call threads its state.
pub mod Handlers
pub mod Balance
pub mod Attempts
pub mod Settlement
pub mod Outcome
pub mod Accounting
use proxy_in_a_box.Prelude.{
  ℕ, zero, suc, ◌+◌, ◌*◌, ◌≤◌, Bool, true, false, not, ◌&&◌, ◌||◌, Option, none, some, ite, List,
  [], ◌∷◌, ◌++◌, map, Text, bytes, text_dec, Map, lookup, insert, length, leb, ltb, ◌==◌,
  if◌then◌else◌, Duration, second,
}
use proxy_in_a_box.Prelude.Int.{ℤ, pos, negsuc}
use proxy_in_a_box.Scheduling.{contains}

-- Atomic counters: each addition is one step. They do not reach 2^63.
pub record RequestStats : Type 0 where
  pub total_requests : ℕ
  pub success_requests : ℕ
  pub failed_requests : ℕ
  pub bytes_transferred : ℕ

-- `GlobalRequestStats`, and the map of `GlobalUpstreamStats`.
pub record Counters : Type 0 where
  pub requests : RequestStats
  pub upstream : Map RequestStats

abbrev pub add_total : RequestStats → RequestStats
add_total s = record s { total_requests = s.total_requests + 1 }

abbrev pub add_success : RequestStats → RequestStats
add_success s = record s { success_requests = s.success_requests + 1 }

abbrev pub add_failed : RequestStats → RequestStats
add_failed s = record s { failed_requests = s.failed_requests + 1 }

abbrev pub add_bytes : ℕ → RequestStats → RequestStats
add_bytes n s = record s { bytes_transferred = s.bytes_transferred + n }

abbrev pub no_stats : RequestStats
no_stats = record {
  total_requests = 0;
  success_requests = 0;
  failed_requests = 0;
  bytes_transferred = 0;
}

-- `strings.ToLower`, of a URL scheme, which is ASCII.
unfoldable pub to_lower : Text → Text
to_lower = map (λ c. if leb 65 c && leb c 90 then c + 32 else c)

unfoldable pub stats_at : Text → Map RequestStats → RequestStats
stats_at k m = elim (lookup k m) [ none ↦ no_stats | some s ↦ s ]

-- `GlobalUpstreamStats.Get(protocol)`, changed through the pointer.
unfoldable pub count_upstream : Text → (RequestStats → RequestStats) → Counters → Counters
count_upstream protocol f c =
    let k = to_lower protocol in
    record c { upstream = insert k (f (stats_at k c.upstream)) c.upstream }

abbrev pub count_request : (RequestStats → RequestStats) → Counters → Counters
count_request f c = record c { requests = f c.requests }

-- Bytes that `trafficCountingWriter.Write` passed on.
unfoldable pub count_traffic : Text → ℕ → Counters → Counters
unfolding count_upstream
count_traffic protocol n c =
    if n == 0
    then c
    else let c' = count_request (add_bytes n) c in
      if length protocol == 0 then c' else count_upstream protocol (add_bytes n) c'

-- The bytes of a request and its response.
unfoldable pub count_bytes : Text → ℕ → Counters → Counters
count_bytes scheme n c =
    let c' = count_request (add_bytes n) c in
    if length scheme == 0 then c' else count_upstream scheme (add_bytes n) c'

-- The deferred function, with an error: the second counter needs a response and a scheme.
unfoldable pub response_failed : Text → Counters → Counters
response_failed scheme c =
    let c' = count_request add_failed c in
    if length scheme == 0 then c' else count_upstream scheme add_failed c'

unfoldable pub response_written : Text → ℕ → ℕ → Counters → Counters
response_written scheme sent n c =
    let c' = count_request add_success c in
    let c'' = if length scheme == 0 then c' else count_upstream scheme add_success c' in
    count_bytes scheme n (if sent == 0 then c'' else count_bytes scheme sent c'')

abbrev pub default_max_upstream_attempts : ℕ
default_max_upstream_attempts = 3

abbrev pub max_configured_upstream_attempts : ℕ
max_configured_upstream_attempts = 10

unfoldable pub positive_duration : ℤ → Duration → Duration
positive_duration (pos n) fallback = if ltb 0 n then n else fallback
positive_duration (negsuc n) fallback = fallback

unfoldable pub upstream_connect_timeout : ℤ → Duration
upstream_connect_timeout configured = positive_duration configured (5 * second)

unfoldable pub upstream_handshake_timeout : ℤ → Duration
upstream_handshake_timeout configured = positive_duration configured (7 * second)

unfoldable pub upstream_response_header_timeout : ℤ → Duration
upstream_response_header_timeout configured = positive_duration configured (12 * second)

unfoldable pub upstream_request_timeout : ℤ → Duration
upstream_request_timeout configured = positive_duration configured (20 * second)

-- Of the configured number, which may be negative.
unfoldable pub upstream_attempt_limit : ℤ → ℕ
upstream_attempt_limit (negsuc n) = default_max_upstream_attempts
upstream_attempt_limit (pos n) =
    let limit = if leb n 0 then default_max_upstream_attempts else n in
    if ltb max_configured_upstream_attempts limit then max_configured_upstream_attempts else limit

-- What the handlers read of a request. `has_body`: `Body` is neither nil nor `http.NoBody`.
pub record Request : Type 0 where
  pub method : Text
  pub host : Text
  pub has_body : Bool
  pub content_length : ℕ

unfoldable pub is_safe_to_retry : Request → Bool
unfolding contains
is_safe_to_retry r =
    if r.has_body
    then false
    else contains r.method (bytes "GET" ∷ bytes "HEAD" ∷ bytes "OPTIONS" ∷ bytes "TRACE" ∷ [])

-- The ends of a dial: a connection; one whose deadline could not be cleared; an error, with the
-- status of a `ProxyConnectError`.
pub data Dialled : Type 0 where
  connected deadline_error : Dialled
  dial_error : Option ℕ → Dialled

pub record Network : Type 1 where
  pub World : Type 0
  -- `Scheduler`; `none` is an error, as it is for a nil `Scheduler`
  pub scheduler : Request → World → World × Option Text
  -- the scheme that `url.Parse` reads
  pub parse : Text → Option Text
  -- `xproxy.FromURL` and `Dial` to the target, then `SetDeadline`
  pub dial : Text → Request → World → World × Dialled
  -- `doRequestThroughProxy`, and the status of the response
  pub send : Text → Request → World → World × Option ℕ
  -- the two callbacks; a nil one changes nothing
  pub on_proxy_failure : Text → World → World
  pub on_proxy_target_failure : Text → Text → World → World
  -- `Filter`; a nil one lets every request through
  pub filter : Request → World → World × Bool
  pub fake_cert : Request → World → World × Bool
  pub hijack : World → World × Bool
  -- `DumpRequestOut` succeeds; `DumpResponse` and the read of the body, with its length; the write
  -- of the body, with the number of bytes
  pub dump_request : Request → World → World × Bool
  pub read_response : World → World × Option ℕ
  pub write_body : ℕ → World → World × Option ℕ
