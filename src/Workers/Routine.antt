-- ===== src/Workers/Routine.antt =====
-- The periodic check: `Verify` queues the proxies that are due, and a round of `getDelay` checks one
-- (crawler/verify.go). The gauges and slots stand in Workers/Slots.antt.
use proxy_in_a_box.Prelude.{
  ℕ, zero, suc, ◌+◌, ◌*◌, Bool, true, false, Option, none, some, List, [], ◌∷◌, ◌++◌, Text,
  if◌then◌else◌, Duration, second, unix, hour,
}
use proxy_in_a_box.Prelude.Int.{ℤ, sub_ℕ}
use proxy_in_a_box.Scheduling.{contains}
use proxy_in_a_box.Endpoint.{Proxy, uri}
use proxy_in_a_box.Store.{Store}
use proxy_in_a_box.Lifecycle.{mark_verify_success, mark_verify_failed, cleanup_stale_proxies}
use proxy_in_a_box.Admission.{clear, needs_deep_check}
use proxy_in_a_box.Fetch.Requests.{Web, wait_for_validation_attempt}
use proxy_in_a_box.Workers.State.{
  CheckSettings, Checked, unreachable, no_address, mismatch, traced, Crawler, remove_key,
  probe_tls_hijack, check_trace, record_network_failure, clock, with_fails, with_cache,
  with_failures, count_check, remember_failure, blame, is_locked,
}

module _ (S : Store) (N : Web) where
  unfoldable pub record_health_check_failure : Proxy → Crawler S N → Crawler S N
  record_health_check_failure p s =
      let (s1, t) = clock S N (count_check S N true false s) in
      let (c, failures) = mark_verify_failed S t p s1.candidates.cache in
      blame S N p.ip (remember_failure S N (uri p) failures (with_cache S N (λ _. c) s1))

  unfoldable pub pass_check : Proxy → ℤ → Bool → Crawler S N → Crawler S N
  pass_check p delay deep s =
      let (s1, verified_at) = clock S N s in
      let (s2, t) = clock S N s1 in
      with_failures S N (clear (uri p)) (
        count_check S N true true
          (with_cache S N (mark_verify_success S t p delay verified_at deep) s2))

  -- The deep probe, when it is due.
  unfoldable pub deep_check : CheckSettings → Proxy → ℤ → Crawler S N → Crawler S N
  deep_check c p delay s =
      let (s1, t) = clock S N s in
      if needs_deep_check c.deep_check_interval t p
      then (let f = wait_for_validation_attempt N s1.fetcher in
          let (w, hijacked) = probe_tls_hijack N (uri p) f.world in
          let s2 : Crawler S N = record s1 { fetcher = record f { world = w } } in
          if hijacked
          then record_health_check_failure p
              (with_fails S N (λ k. record k { tls_probe = k.tls_probe + 1 }) s2)
          else pass_check p delay true s2)
      else pass_check p delay false s1

  -- What follows the trace.
  unfoldable pub conclude_check : CheckSettings → Proxy → ℤ → Checked N → Crawler S N → Crawler S N
  conclude_check c p delay (unreachable e) s =
      record_health_check_failure p (with_fails S N (record_network_failure N e) s)
  conclude_check c p delay no_address s =
      record_health_check_failure p (with_fails S N (λ k. record k { response = k.response + 1 }) s)
  conclude_check c p delay mismatch s =
      record_health_check_failure p
        (with_fails S N (λ k. record k { ip_mismatch = k.ip_mismatch + 1 }) s)
  conclude_check c p delay (traced trace) s = deep_check c p delay s

  -- What a checker does while it holds its slot.
  unfoldable pub check_health : CheckSettings → Proxy → Crawler S N → Crawler S N
  check_health c p s =
      let (s1, start) = clock S N s in
      let (f, checked) = check_trace N c (5 * second) p.ip (uri p) s1.fetcher in
      let (s2, now) = clock S N (record s1 { fetcher = f }) in
      conclude_check c p (sub_ℕ (unix now) (unix start)) checked s2

  unfoldable pub release_check : Text → Crawler S N → Crawler S N
  release_check u s = record s { pending_verify = remove_key u s.pending_verify }

  -- One job.
  unfoldable pub checker_round : CheckSettings → Proxy → Crawler S N → Crawler S N
  checker_round c p s =
      let (s', locked) = is_locked S N p.ip s in
      release_check (uri p) (
        if locked
        then record s' { skips = record s'.skips { ip_locked = s'.skips.ip_locked + 1 } }
        else check_health c p s')

  -- A checker takes the next job from the channel; with none it waits.
  unfoldable pub next_check : CheckSettings → Crawler S N → Crawler S N
  next_check c s = elim s.verify_jobs [
    | [] ↦ s
    | p ∷ ps ↦ checker_round c p (record s { verify_jobs = ps })
  ]

  -- The loop of `getDelay`, for a number of rounds.
  unfoldable pub get_delay : CheckSettings → ℕ → Crawler S N → Crawler S N
  get_delay c zero s = s
  get_delay c (suc n) s = get_delay c n (next_check c s)

  -- One proxy of the list. `still` is the answer of `IsUnVerified`, and `none` its error.
  unfoldable pub queue_check : (S.Db → Proxy → Option Bool) → Proxy → Crawler S N → Crawler S N
  queue_check still p s =
      let u = uri p in
      if contains u s.pending_verify
      then record s {
        candidates = record s.candidates { skip_duplicate = s.candidates.skip_duplicate + 1 };
      }
      else (let s' : Crawler S N = record s { pending_verify = u ∷ s.pending_verify } in
          elim (still s'.candidates.cache.db p) [
            | none ↦ release_check u s'
            | some due ↦
                if due
                then record s' { verify_jobs = s'.verify_jobs ++ p ∷ [] }
                else release_check u s'
          ])

  unfoldable pub queue_checks :
      (S.Db → Proxy → Option Bool) → List Proxy → Crawler S N → Crawler S N
  queue_checks still [] s = s
  queue_checks still (p ∷ ps) s = queue_checks still ps (queue_check still p s)

  -- `Verify`. `unverified` is the answer of `GetUnVerified`, and `none` its error.
  unfoldable pub verify :
      (S.Db → Option (List Proxy)) → (S.Db → Proxy → Option Bool) → Crawler S N → Crawler S N
  verify unverified still s = elim (unverified s.candidates.cache.db) [
    | none ↦ s
    | some ps ↦ queue_checks still ps s
  ]

  abbrev stale_proxy_threshold : Duration
  stale_proxy_threshold = 6 * (30 * (24 * hour))

  -- `CleanupStaleProxies`
  unfoldable pub clean_up_stale_proxies : Crawler S N → Crawler S N
  clean_up_stale_proxies s =
      let (s', t) = clock S N s in
      with_cache S N (cleanup_stale_proxies S t stale_proxy_threshold) s'
