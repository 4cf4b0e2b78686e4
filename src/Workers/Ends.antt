-- ===== src/Workers/Ends.antt =====
-- The ways in which the check of a candidate ends.
use proxy_in_a_box.Prelude.{
  ◌+◌, ◌*◌, ◌≤◌, ◌<◌, ◌≡◌, ◌≢◌, reject, text_dec, before, hour, unix, Bool, true, false, ◌⊎◌, none,
  Text, Time,
}
use proxy_in_a_box.Prelude.Int.{sub_ℕ}
use proxy_in_a_box.Endpoint.{Proxy, uri}
use proxy_in_a_box.Store.{Store}
use proxy_in_a_box.Lifecycle.{upsert_record, is_ip_locked, next_blocked}
use proxy_in_a_box.Lifecycle.Admission.{IsAdmitted}
use proxy_in_a_box.Statistics.{add_check}
use proxy_in_a_box.Admission.{record_source_candidate_result}
use proxy_in_a_box.Fetch.{CloudflareTraceResult}
use proxy_in_a_box.Fetch.Requests.{Web, Fetcher, wait_for_validation_attempt}
use proxy_in_a_box.Workers.State.{Checked, traced, Crawler, probe_tls_hijack}

module _ (S : Store) (N : Web) where
  -- A check of a candidate that was counted, in the totals and for its source, as `ok`.
  abbrev IsCountedAs : Bool → Text → Crawler S N → Crawler S N → Type 0
  IsCountedAs ok source s s' =
      (s'.checks.totals ≡ add_check false ok s.checks.totals)
      × (s'.candidates.counters ≡ record_source_candidate_result source ok s.candidates.counters)

  -- The candidate as a check leaves it that began at `start` and passed at `verified_at`.
  abbrev as_checked : CloudflareTraceResult → Time → Time → Proxy → Proxy
  as_checked trace start verified_at p = record p {
    country = trace.loc;
    delay = sub_ℕ (unix verified_at) (unix start);
    last_verify = verified_at;
    last_deep_verify = verified_at;
  }

  -- A check that passed, with the world after it: the pool has the candidate, with the country of the
  -- trace and the next reading of the clock.
  abbrev pub IsAccepted :
      Proxy → CloudflareTraceResult → Time → N.World → Crawler S N → Crawler S N → Type 0
  IsAccepted p trace start w s s' =
      IsCountedAs true p.source s s'
      × IsAdmitted S (as_checked trace start (N.now w).1 p) s.candidates.cache s'.candidates.cache

  -- A check that passed, and a candidate that is not stored: its IP is locked at the reading of the
  -- clock after that, or the store refuses the record.
  abbrev pub IsUnstored :
      Proxy → CloudflareTraceResult → Time → N.World → Crawler S N → Crawler S N → Type 0
  IsUnstored p trace start w s s' =
      let c = s.candidates.cache in
      let (w', verified_at) = N.now w in
      IsCountedAs false p.source s s'
      × (s'.candidates.cache.proxies ≡ c.proxies)
      × (((is_ip_locked S (N.now w').1 p.ip c).1 ≡ true)
          ⊎ (S.save_proxy c.db (upsert_record S c.db (as_checked trace start verified_at p))
              ≡ none))

  -- A check that failed with one more failure of the IP: from the third on the IP loses its entries
  -- and is locked for six hours from the last reading of the clock on; before that the pool is as it
  -- was.
  abbrev pub IsBlamed : Proxy → Crawler S N → Crawler S N → Type 0
  IsBlamed p s s' =
      let c = s.candidates.cache in
      let c' = s'.candidates.cache in
      let failures = (next_blocked S c.db p.ip).consecutive_failures in
      IsCountedAs false p.source s s'
      × (((failures < 3) × (c'.proxies ≡ c.proxies))
          ⊎ ((3 ≤ failures)
              × (c'.proxies.pl ≡ reject (λ e. text_dec e.p.ip p.ip) c.proxies.pl)
              × ((w : N.World) × ((N.now w).0 ≡ s'.fetcher.world)
                  × ((t : Time)
                      → (is_ip_locked S t p.ip c').1 ≡ before t ((N.now w).1 + 6 * hour)))))

  -- A check that failed and leaves the pool and the locks as they were.
  abbrev pub IsFailed : Proxy → Crawler S N → Crawler S N → Type 0
  IsFailed p s s' = IsCountedAs false p.source s s' × (s'.candidates.cache ≡ s.candidates.cache)

  -- The world and the result of the deep probe after a trace.
  abbrev probed : Proxy → Fetcher N → N.World
  probed p f = (probe_tls_hijack N (uri p) (wait_for_validation_attempt N f).world).0

  abbrev pub is_hijacked : Proxy → Fetcher N → Bool
  is_hijacked p f = (probe_tls_hijack N (uri p) (wait_for_validation_attempt N f).world).1

  -- How a check ends that began at `start`, with the result of the trace and the state of the fetcher
  -- after it.
  pub data IsConcluded (p : Proxy) (start : Time) (checked : Checked N) (f : Fetcher N)
      (s s' : Crawler S N) : Type 0 where
    accepted :
        (trace : CloudflareTraceResult)
        → checked ≡ traced trace
        → is_hijacked p f ≡ false
        → IsAccepted p trace start (probed p f) s s'
        → IsConcluded p start checked f s s'
    unstored :
        (trace : CloudflareTraceResult)
        → checked ≡ traced trace
        → is_hijacked p f ≡ false
        → IsUnstored p trace start (probed p f) s s'
        → IsConcluded p start checked f s s'
    hijacked :
        (trace : CloudflareTraceResult)
        → checked ≡ traced trace
        → is_hijacked p f ≡ true
        → IsBlamed p s s'
        → IsConcluded p start checked f s s'
    untraced :
        ((trace : CloudflareTraceResult) → checked ≢ traced trace)
        → IsFailed p s s'
        → IsConcluded p start checked f s s'
