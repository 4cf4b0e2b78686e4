-- ===== src/Workers/Candidate.antt =====
-- One round of `validator` (crawler/crawler.go). It holds its slots (Workers/Slots.antt) while
-- `validate` runs; the gauges stand there.
use proxy_in_a_box.Prelude.{
  ◌+◌, ◌-◌, ◌*◌, Bool, true, false, ◌∷◌, Text, if◌then◌else◌, Time, second, unix,
}
use proxy_in_a_box.Prelude.Int.{sub_ℕ}
use proxy_in_a_box.Scheduling.{contains}
use proxy_in_a_box.Endpoint.{Proxy, uri}
use proxy_in_a_box.Pool.{has_proxy}
use proxy_in_a_box.Store.{Store}
use proxy_in_a_box.Lifecycle.{
  is_proxy_validation_due, upsert_proxy, Upserted, done, ip_locked, save_failed,
}
use proxy_in_a_box.Admission.{
  is_due, clear, trim_space, record_source_candidate_attempt, record_source_candidate_result,
}
use proxy_in_a_box.Fetch.{CloudflareTraceResult}
use proxy_in_a_box.Fetch.Requests.{Web, wait_for_validation_attempt}
use proxy_in_a_box.Workers.State.{
  CheckSettings, Fails, Skips, Checked, unreachable, no_address, mismatch, traced, Crawler,
  remove_key, probe_tls_hijack, check_trace, record_network_failure, clock, with_fails, with_cache,
  with_failures, with_counters, count_check, remember_failure, blame, is_locked,
}

module _ (S : Store) (N : Web) where
  -- `pendingValidate.LoadOrStore`, and whether the key was free.
  unfoldable pub claim_candidate : Text → Crawler S N → Crawler S N × Bool
  claim_candidate u s =
      if contains u s.pending_validate
      then (
        record s {
          candidates = record s.candidates { skip_duplicate = s.candidates.skip_duplicate + 1 };
        },
        false,
      )
      else (record s { pending_validate = u ∷ s.pending_validate }, true)

  -- The deferred releases: `queuedCandidates`, with its count, then `pendingValidate`. The count was
  -- raised with the key, so it does not stop at 0.
  unfoldable pub release_candidate : Text → Crawler S N → Crawler S N
  release_candidate u s =
      let c = s.candidates in
      record s {
        candidates =
            if contains u c.queued
            then record c { queued = remove_key u c.queued; queued_count = c.queued_count - 1 }
            else c;
        pending_validate = remove_key u s.pending_validate;
      }

  abbrev count_skip : (Skips → Skips) → Crawler S N → Crawler S N
  count_skip f s = record s { skips = f s.skips }

  abbrev add_locked : Skips → Skips
  add_locked k = record k { ip_locked = k.ip_locked + 1 }

  abbrev add_available : Skips → Skips
  add_available k = record k { available = k.available + 1 }

  abbrev add_backoff : Skips → Skips
  add_backoff k = record k { backoff = k.backoff + 1 }

  -- The two tests of the retry delay; the second is left out when the first fails.
  unfoldable pub is_retry_due : Text → Crawler S N → Crawler S N × Bool
  is_retry_due u s =
      let (s', t) = clock S N s in
      let (c, due) = is_proxy_validation_due S t u s'.candidates.cache in
      let s2 = with_cache S N (λ _. c) s' in
      if due
      then (let (s3, t') = clock S N s2 in (s3, is_due u t' s3.candidates.failures))
      else (s2, false)

  -- The tests before a slot is taken, and whether the candidate goes on.
  unfoldable pub screen : Proxy → Crawler S N → Crawler S N × Bool
  screen p s =
      let u = uri p in
      let (s', locked) = is_locked S N p.ip s in
      if locked
      then (count_skip add_locked s', false)
      else if has_proxy u s'.candidates.cache.proxies
      then (with_failures S N (clear u) (count_skip add_available s'), false)
      else (let (s2, due) = is_retry_due u s' in
          if due then (s2, true) else (count_skip add_backoff s2, false))

  -- The two counts of a check that ends.
  unfoldable pub count_candidate : Text → Bool → Crawler S N → Crawler S N
  count_candidate source success s =
      with_counters S N (record_source_candidate_result source success)
        (count_check S N false success s)

  unfoldable pub fail_candidate : Proxy → (Fails → Fails) → Crawler S N → Crawler S N
  fail_candidate p f s =
      remember_failure S N (uri p) 1 (with_fails S N f (count_candidate p.source false s))

  -- The record that a candidate that passed is stored as. `delay` is in seconds and may be negative
  -- when the clock was set back.
  abbrev pub validated : CloudflareTraceResult → Time → Time → Proxy → Proxy
  validated trace start verified_at p = record p {
    country = trace.loc;
    delay = sub_ℕ (unix verified_at) (unix start);
    last_verify = verified_at;
    last_deep_verify = verified_at;
  }

  -- What follows `UpsertProxy`.
  unfoldable pub conclude_upsert : Proxy → Upserted → Crawler S N → Crawler S N
  conclude_upsert p done s = with_failures S N (clear (uri p)) (count_candidate p.source true s)
  conclude_upsert p ip_locked s =
      with_fails S N (λ k. record k { persistence = k.persistence + 1 })
        (count_candidate p.source false s)
  conclude_upsert p save_failed s =
      with_fails S N (λ k. record k { persistence = k.persistence + 1 })
        (count_candidate p.source false s)

  -- The end of a check that both tests passed: the store may still refuse.
  unfoldable pub admit : Proxy → CloudflareTraceResult → Time → Crawler S N → Crawler S N
  admit p trace start s =
      let (s1, verified_at) = clock S N s in
      let (s2, t) = clock S N s1 in
      let (c, stored) =
        upsert_proxy S t (validated trace start verified_at p) s2.candidates.cache in
      conclude_upsert p stored (with_cache S N (λ _. c) s2)

  -- The deep probe that every candidate gets, and what follows it.
  unfoldable pub probe_candidate : Proxy → CloudflareTraceResult → Time → Crawler S N → Crawler S N
  probe_candidate p trace start s =
      let f = wait_for_validation_attempt N s.fetcher in
      let (w, hijacked) = probe_tls_hijack N (uri p) f.world in
      let s' : Crawler S N = record s { fetcher = record f { world = w } } in
      if hijacked
      then blame S N p.ip (fail_candidate p (λ k. record k { tls_probe = k.tls_probe + 1 }) s')
      else admit p trace start s'

  -- What follows the trace.
  unfoldable pub conclude_validation : Proxy → Time → Checked N → Crawler S N → Crawler S N
  conclude_validation p start (unreachable e) s = fail_candidate p (record_network_failure N e) s
  conclude_validation p start no_address s =
      fail_candidate p (λ k. record k { response = k.response + 1 }) s
  conclude_validation p start mismatch s =
      fail_candidate p (λ k. record k { ip_mismatch = k.ip_mismatch + 1 }) s
  conclude_validation p start (traced trace) s = probe_candidate p trace start s

  -- What a validator does while it holds its slots.
  unfoldable pub validate : CheckSettings → Proxy → Crawler S N → Crawler S N
  validate c p s =
      let (s1, start) =
        clock S N (with_counters S N (record_source_candidate_attempt p.source) s) in
      let (f, checked) = check_trace N c (7 * second) p.ip (uri p) s1.fetcher in
      conclude_validation p start checked (record s1 { fetcher = f })

  -- One job.
  unfoldable pub validator_round : CheckSettings → Proxy → Crawler S N → Crawler S N
  validator_round c job s =
      let p = record job { ip = trim_space job.ip } in
      let (s', taken) = claim_candidate (uri p) s in
      if taken
      then (let (s2, due) = screen p s' in
          release_candidate (uri p) (if due then validate c p s2 else s2))
      else s'
