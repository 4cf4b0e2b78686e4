-- ===== src/Tests/CrawlerTests.antt =====
-- Tests of the crawler's admission and counts and of the maintenance display (crawler/,
-- service/proxy.go, cmd/proxy-in-a-box/maintenance_trend.go).
use mathlib.Core.List.{Memᴰ}
use proxy_in_a_box.Prelude.{
  max, ◌+◌, ◌-◌, ◌*◌, ◌/◌, second, ◌≤◌, ◌<◌, ◌≡◌, ◌≢◌, refl, true, false, not, min, take, List, [],
  ◌∷◌, Text, bytes, length, Time, before, arith,
}
use proxy_in_a_box.Prelude.Int.{pos}
use proxy_in_a_box.Endpoint.{Proxy}
use proxy_in_a_box.Store.Tables.{tables}
use proxy_in_a_box.Lifecycle.{retry_backoff_for_failure}
use proxy_in_a_box.Admission.{
  Candidates, is_due, record_candidate_failure, enqueue_source_candidates,
  configured_max_candidates_per_fetch, window_size,
}
use proxy_in_a_box.Admission.Queueing.{counter, offered, enqueue_source_candidates-accounts}
use proxy_in_a_box.Admission.Window.{outcomes, successes, outcomes-recent}
use proxy_in_a_box.Admission.Retry.{failures_of, record_candidate_failure-delays}
use proxy_in_a_box.RateLimit.Spacing.{granted, reserve-paced}
use proxy_in_a_box.Statistics.{snapshot_rates, no_checks}
use proxy_in_a_box.Statistics.Rates.{Log, recorded, logged, snapshot_rates-logged}
use proxy_in_a_box.Maintenance.{
  BacklogSample, MaintenanceStats, MaintenanceSnapshot, due_count, is_old, is_mid, last_with, trend,
  due_level, classify_maintenance, get_maintenance_stats, get_un_verified,
}
use proxy_in_a_box.Maintenance.Due.{get_maintenance_stats-due}
use proxy_in_a_box.Maintenance.Levels.{classify_maintenance-red}
use proxy_in_a_box.Tests.Fixtures.{at, endpoint, first_proxy, second_proxy, cache}

abbrev idle : Candidates tables
idle = record {
  cache = cache;
  failures = [];
  counters = [];
  queued = [];
  queued_count = 0;
  jobs = [];
  skip_duplicate = 0;
}

abbrev now : Time × Time × Time
now = (at 0, at 0, at 0)

-- One that is in the pool, one that is new, and that one again.
abbrev fetched : List ((Time × Time × Time) × Proxy)
fetched =
    (now, first_proxy)
    ∷ (now, endpoint 0 (bytes "4.4.4.4") (bytes "1"))
    ∷ (now, endpoint 0 (bytes " 4.4.4.4") (bytes "1"))
    ∷ []

enqueue_source_candidates-accounts_example :
    let s' = enqueue_source_candidates tables (pos 5) (bytes "list") fetched idle in
    let c = counter tables (bytes "list") idle in
    let c' = counter tables (bytes "list") s' in
    (offered c' ≡ offered c + 3)
    × (c'.admitted ≤ c.admitted + configured_max_candidates_per_fetch (pos 5))
    × (configured_max_candidates_per_fetch (pos 5) ≤ 10000)
    × (length s'.jobs + c.admitted ≡ 0 + c'.admitted)
enqueue_source_candidates-accounts_example =
    enqueue_source_candidates-accounts tables (pos 5) (bytes "list") fetched idle

record_candidate_failure-delays_example :
    let failures = max (failures_of (bytes "u") [] + 1) 2 in
    let (m', retry_at) = record_candidate_failure (bytes "u") 2 (at 0) [] in
    (failures_of (bytes "u") m' ≡ failures)
    × (retry_at ≡ at 0 + retry_backoff_for_failure failures)
    × ((t : Time) → is_due (bytes "u") t m' ≡ not (before t retry_at))
    × ((v : Text) → v ≢ bytes "u" → failures_of v m' ≡ failures_of v [])
    × ((v : Text) (t : Time) → v ≢ bytes "u" → is_due v t m' ≡ is_due v t [])
record_candidate_failure-delays_example = record_candidate_failure-delays (bytes "u") 2 (at 0) []

-- Records at the seconds 100, 100 and 161, and a snapshot at 161: the first two are out.
abbrev three_records : Log
three_records = (161, 4, 0) ∷ (100, 2, 0) ∷ (100, 1, 9) ∷ []

snapshot_rates-logged_example :
    (snapshot_rates 161 0 (recorded three_records)).attempts60s ≡ logged 161 three_records
snapshot_rates-logged_example =
    snapshot_rates-logged 161 0 three_records (omega arith, (omega arith, (omega arith, tt)))
      (omega arith)

get_maintenance_stats-due_example :
    due_count (get_maintenance_stats (pos 0) (at 9999) [] (first_proxy ∷ second_proxy ∷ []))
    ≡ length (get_un_verified (pos 0) (at 9999) [] (first_proxy ∷ second_proxy ∷ []))
get_maintenance_stats-due_example =
    get_maintenance_stats-due (pos 0) (at 9999) [] (first_proxy ∷ second_proxy ∷ [])

abbrev samples : List BacklogSample
samples =
    record { at = at 0; due = 21; waiting = 1 } ∷ record { at = at 300; due = 22; waiting = 1 } ∷ []

abbrev backlog : MaintenanceStats
backlog = record { healthy_due = 23; quarantined_ready = 7; quarantined_waiting = 2 }

abbrev snapshot : MaintenanceSnapshot
unfolding trend last_with
snapshot = record {
  stats = backlog;
  backlog = trend (at 600) backlog samples;
  source_total = 0;
  source_errors = 0;
  source_pending = 0;
  recent_checks = no_checks;
}

classify_maintenance-red_example :
    (20 ≤ due_count snapshot.stats)
    × (100 / 5 ≤ due_count snapshot.stats)
    × ((old mid : BacklogSample) × (Memᴰ old samples × (is_old (at 600) old ≡ true))
        × (Memᴰ mid samples × (is_mid (at 600) mid ≡ true))
        × (0 < old.due)
        × (old.due < due_count snapshot.stats)
        × (old.due ≤ mid.due)
        × (mid.due ≤ due_count snapshot.stats))
unfolding classify_maintenance trend due_level last_with
classify_maintenance-red_example = classify_maintenance-red (at 600) snapshot 100 samples refl refl

outcomes-recent_example :
    ((outcomes (true ∷ false ∷ true ∷ [])).recent_count ≡ min window_size 3)
    × ((outcomes (true ∷ false ∷ true ∷ [])).recent_success
        ≡ successes (take window_size (true ∷ false ∷ true ∷ [])))
outcomes-recent_example = outcomes-recent (true ∷ false ∷ true ∷ [])

-- Two tokens a second and a burst of one, after an idle hour: the second and third of the reservations
-- at one time wait for half a second each.
reserve-paced_example :
    let interval =
      granted 2 1 (at 0) (at 3600) (at 3600 ∷ at 3600 ∷ at 0 ∷ [])
      - granted 2 1 (at 0) (at 3600) (at 0 ∷ []) in
    2 * (3 * second) ≤ 2 * (1 * second) + 2 * (interval * 2) + 3 * 2
reserve-paced_example =
    reserve-paced 2 1 (at 0) (omega arith) (omega arith) (at 0 ∷ []) (at 3600) (at 3600 ∷ [])
      (at 3600) (omega arith, (omega arith, (omega arith, (omega arith, tt))))
