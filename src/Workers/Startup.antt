-- ===== src/Workers/Startup.antt =====
-- `Init` (crawler/verify.go): what the workers start from. That it starts as many validators as
-- checkers is `init` of Workers/Slots.
use proxy_in_a_box.Prelude.{some}
use proxy_in_a_box.Prelude.Int.{ℤ}
use proxy_in_a_box.Store.{Store}
use proxy_in_a_box.Lifecycle.{load_locked_ips}
use proxy_in_a_box.RateLimit.{new_attempt_rate_limiter}
use proxy_in_a_box.Fetch.Requests.{Web}
use proxy_in_a_box.Workers.Settings.{
  configured_verification_workers, configured_validation_rate, configured_routine_reserved_workers,
}
use proxy_in_a_box.Workers.Slots.{Capacity}
use proxy_in_a_box.Workers.State.{Crawler, clock, with_cache}

-- The configured numbers of workers, attempts per second, burst and reserved workers.
pub record WorkerSettings : Type 0 where
  pub proxy_verify_worker : ℤ
  pub max_attempts_per_second : ℤ
  pub attempt_burst : ℤ
  pub routine_reserved_workers : ℤ

-- With a `CI`: the command test-source, which has none, loads no locks.
unfoldable pub start_workers :
    (S : Store) (N : Web) → WorkerSettings → Crawler S N → Crawler S N × Capacity
start_workers S N c s =
    let (s1, t) = clock S N s in
    let workers = configured_verification_workers c.proxy_verify_worker in
    let (rate, burst) = configured_validation_rate c.max_attempts_per_second c.attempt_burst in
    let (s2, t') = clock S N (with_cache S N (load_locked_ips S t) s1) in
    let f = s2.fetcher in
    (
      record s2 {
        fetcher = record f {
          traffic = record f.traffic { limiter = some (new_attempt_rate_limiter rate burst t') };
        };
      },
      record {
        workers = workers;
        reserved = configured_routine_reserved_workers c.routine_reserved_workers workers;
      },
    )
