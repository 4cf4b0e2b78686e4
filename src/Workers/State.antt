-- ===== src/Workers/State.antt =====
-- The state that the validators and the checkers share, and what both do with a proxy: the health
-- check through the proxy, the deep TLS probe and the keys of pending work.
use proxy_in_a_box.Prelude.{
  ℕ, ◌+◌, Bool, true, false, Option, none, some, ite, List, [], ◌∷◌, Text, Map, bytes, text_dec,
  get_or, length, reject, if◌then◌else◌, Time, Duration,
}
use proxy_in_a_box.Prelude.Int.{ℤ}
use proxy_in_a_box.Endpoint.{Proxy}
use proxy_in_a_box.Store.{Store}
use proxy_in_a_box.Lifecycle.{Cache, is_ip_locked, record_failure}
use proxy_in_a_box.Statistics.{VerificationCounters, record_check}
use proxy_in_a_box.Admission.{
  Candidates, CandidateFailure, SourceCandidateCounter, record_candidate_failure,
  configured_health_check_retries, configured_health_response_body_limit,
}
use proxy_in_a_box.Fetch.{CloudflareTraceResult, cut, parse_cloudflare_trace}
use proxy_in_a_box.Fetch.Requests.{
  Web, FetchError, bad_proxy, bad_request, request_failed, read_failed, close_failed, oversized,
  Fetcher, get_url,
}
use proxy_in_a_box.Fetch.Callers.{verify_endpoint}

-- The counters of `runtimeMetrics` for jobs that are passed over and for checks that fail; that of
-- duplicates is in `Candidates`.
pub record Skips : Type 0 where
  pub ip_locked : ℕ
  pub available : ℕ
  pub backoff : ℕ

pub record Fails : Type 0 where
  pub timeout : ℕ
  pub network : ℕ
  pub response : ℕ
  pub ip_mismatch : ℕ
  pub tls_probe : ℕ
  pub persistence : ℕ

-- The configuration that the checks read; a number may be negative.
pub record CheckSettings : Type 0 where
  pub retries : ℤ
  pub response_body_limit : ℤ
  pub deep_check_interval : ℤ

-- The keys of a `sync.Map`.
abbrev pub remove_key : Text → List Text → List Text
remove_key u = reject (λ v. text_dec v u)

abbrev pub tls_hijack_probe_hosts : List Text
tls_hijack_probe_hosts =
    bytes "www.google.com:443"
    ∷ bytes "www.apple.com:443"
    ∷ bytes "www.microsoft.com:443"
    ∷ bytes "www.amazon.com:443"
    ∷ bytes "www.wikipedia.org:443"
    ∷ bytes "www.github.com:443"
    ∷ []

-- The host of `net.SplitHostPort`, of an address with one colon.
abbrev pub server_name : Text → Text
server_name address = elim (cut 58 address) [ none ↦ [] | some (host, _) ↦ host ]

abbrev pub tls_hijack_probe_timeout : Duration
tls_hijack_probe_timeout = 5000000000

-- What the trace that a proxy relays says of it.
pub data Checked (N : Web) : Type 0 where
  unreachable : FetchError N → Checked N
  no_address : Checked N
  mismatch : Checked N
  traced : CloudflareTraceResult → Checked N

module _ (N : Web) where
  -- `probeTLSHijack`: whether the probe failed. The settings of the handshake are the library's.
  unfoldable pub probe_tls_hijack : Text → N.World → N.World × Bool
  probe_tls_hijack proxy w = elim (N.refuses_proxy proxy) [
    | some e ↦ (w, true)
    | none ↦
        let (w1, i) = N.random (length tls_hijack_probe_hosts) w in
        let host = get_or tls_hijack_probe_hosts i [] in
        let (w2, failed) = N.dial_through proxy host tls_hijack_probe_timeout w1 in
        elim failed [
          | some e ↦ (w2, true)
          | none ↦
              let (w3, unsafe) = N.handshake (server_name host) tls_hijack_probe_timeout w2 in
              (N.close_connection w3, elim unsafe [ none ↦ false | some e ↦ true ])
        ]
  ]

  -- The address of a trace, compared with that of the proxy.
  unfoldable pub compare_trace : Text → Option CloudflareTraceResult → Checked N
  compare_trace ip none = no_address
  compare_trace ip (some trace) = ite (text_dec trace.ip ip) (traced trace) mismatch

  unfoldable pub read_trace : Text → Text × Option (FetchError N) → Checked N
  read_trace ip (body, some e) = unreachable e
  read_trace ip (body, none) = compare_trace ip (parse_cloudflare_trace body)

  -- The check that validators and checkers make: the trace through the proxy, its address compared.
  unfoldable pub check_trace :
      CheckSettings → Duration → Text → Text → Fetcher N → Fetcher N × Checked N
  check_trace c timeout ip proxy f =
      let (f', reply) =
        get_url N verify_endpoint timeout proxy (configured_health_check_retries c.retries)
          (configured_health_response_body_limit c.response_body_limit) [] f in
      (f', read_trace ip reply)

  -- The library's error inside one of the loop; a body that is too long has none.
  abbrev pub cause : FetchError N → Option N.Error
  cause (bad_proxy e) = some e
  cause (bad_request e) = some e
  cause (request_failed e) = some e
  cause (read_failed e) = some e
  cause (close_failed e) = some e
  cause (oversized n) = none

  unfoldable pub record_network_failure : FetchError N → Fails → Fails
  record_network_failure e s =
      if elim (cause e) [ none ↦ false | some e' ↦ N.is_timeout e' ]
      then record s { timeout = s.timeout + 1 }
      else record s { network = s.network + 1 }

module _ (S : Store) (N : Web) where
  pub record Crawler : Type 0 where
    pub candidates : Candidates S
    pub checks : VerificationCounters
    pub fetcher : Fetcher N
    pub pending_validate : List Text
    pub pending_verify : List Text
    pub verify_jobs : List Proxy
    pub skips : Skips
    pub fails : Fails

  -- `time.Now()`
  unfoldable pub clock : Crawler → Crawler × Time
  clock s =
      let (w, t) = N.now s.fetcher.world in
      (record s { fetcher = record s.fetcher { world = w } }, t)

  abbrev pub with_fails : (Fails → Fails) → Crawler → Crawler
  with_fails f s = record s { fails = f s.fails }

  abbrev pub with_cache : (Cache S → Cache S) → Crawler → Crawler
  with_cache f s = record s { candidates = record s.candidates { cache = f s.candidates.cache } }

  abbrev pub with_failures : (Map CandidateFailure → Map CandidateFailure) → Crawler → Crawler
  with_failures f s = record s {
    candidates = record s.candidates { failures = f s.candidates.failures };
  }

  abbrev pub with_counters :
      (Map SourceCandidateCounter → Map SourceCandidateCounter) → Crawler → Crawler
  with_counters f s = record s {
    candidates = record s.candidates { counters = f s.candidates.counters };
  }

  -- `checkCounters.recordRoutine(success)` and `recordCandidate(success)`
  unfoldable pub count_check : Bool → Bool → Crawler → Crawler
  count_check routine success s =
      let (s', t) = clock s in record s' { checks = record_check t routine success s'.checks }

  -- `candidateFailures.recordFailure(u, minimum, time.Now())`
  unfoldable pub remember_failure : Text → ℕ → Crawler → Crawler
  remember_failure u minimum s =
      let (s', t) = clock s in with_failures (λ m. (record_candidate_failure u minimum t m).0) s'

  -- `proxyinabox.CI.RecordFailure(ip)`, whose result is not used
  unfoldable pub blame : Text → Crawler → Crawler
  blame ip s = let (s', t) = clock s in with_cache (λ c. (record_failure S t ip c).0) s'

  -- `proxyinabox.CI.IsIPLocked(ip)`
  unfoldable pub is_locked : Text → Crawler → Crawler × Bool
  is_locked ip s =
      let (s', t) = clock s in
      let (c, locked) = is_ip_locked S t ip s'.candidates.cache in (with_cache (λ _. c) s', locked)
