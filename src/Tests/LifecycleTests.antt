-- ===== src/Tests/LifecycleTests.antt =====
-- Tests of the proxies' life cycle (service/memcache.go), on the tables of Store/Tables.
use proxy_in_a_box.Prelude.{
  none, ℕ, ◌+◌, ◌<◌, ◌≤◌, ◌≡◌, refl, sym, ap, ◌⊎◌, true, false, List, [], ◌∷◌, Text, bytes,
  text_dec, lookup, reject, replicate, before, arith,
}
use mathlib.Core.Option.{some-injective}
use proxy_in_a_box.Prelude.Int.{pos}
use proxy_in_a_box.Endpoint.{uri, normal_protocol}
use proxy_in_a_box.Pool.Removal.{count_key}
use proxy_in_a_box.Store.Tables.{tables, find_row, delete_rows, first}
use proxy_in_a_box.Lifecycle.{
  upsert_record, done, ip_locked, save_failed, is_ip_locked, upsert_proxy, quarantine, next_blocked,
  record_failure, clear_failure_locked, proxy_failure_lock_threshold, proxy_failure_lock_duration,
}
use proxy_in_a_box.Lifecycle.Invariant.{IsConsistent}
use proxy_in_a_box.Lifecycle.Quarantine.{IsRefused, IsQuarantined, quarantine-IsQuarantined}
use proxy_in_a_box.Lifecycle.Admission.{IsAdmitted, upsert_proxy-IsAdmitted}
use proxy_in_a_box.Lifecycle.Locking.{
  Saves, record_failures, record_failure-locks, record_failures-third, clear_failure_locked-resets,
}
use proxy_in_a_box.Lifecycle.History.{
  Call, gets, picks, upserts, succeeds, fails, records, collects, AllName, step, run,
  run-IsConsistent,
}
use proxy_in_a_box.Tests.Fixtures.{at, endpoint, first_proxy, second_proxy, site, cache}

pub cache-IsConsistent : IsConsistent tables cache
unfolding uri normal_protocol text_dec lookup count_key
cache-IsConsistent u = ground arith

abbrev third_ip : Text
third_ip = bytes "3.3.3.3"

saves : Saves tables
saves d b = (record d { blocked = b ∷ delete_rows b.ip d.blocked }, refl)

record_failures-third_example :
    record_failures tables (at 1 ∷ at 2 ∷ at 3 ∷ []) third_ip cache
    ≡ false ∷ false ∷ replicate 1 true
unfolding find_row
record_failures-third_example =
    record_failures-third tables (at 1) (at 2) (at 3 ∷ []) third_ip cache saves refl

clear_failure_locked-resets_example :
    record_failures tables (at 1 ∷ at 2 ∷ []) third_ip (clear_failure_locked tables third_ip cache)
    ≡ false ∷ false ∷ []
clear_failure_locked-resets_example =
    clear_failure_locked-resets tables (at 1) (at 2) [] third_ip cache
      (record cache.db { blocked = delete_rows third_ip cache.db.blocked }) saves refl

record_failure-locks_example :
    let b = next_blocked tables cache.db third_ip in
    let (c', locked) = record_failure tables (at 0) third_ip cache in
    ((b.consecutive_failures < proxy_failure_lock_threshold)
      × (locked ≡ false)
      × (c'.proxies ≡ cache.proxies)
      × (c'.locked_ips ≡ cache.locked_ips))
    ⊎ ((proxy_failure_lock_threshold ≤ b.consecutive_failures)
        × (locked ≡ true)
        × ((t : ℕ)
            → (is_ip_locked tables t third_ip c').1 ≡ before t (at 0 + proxy_failure_lock_duration))
        × (c'.proxies.pl ≡ reject (λ e. text_dec e.p.ip third_ip) cache.proxies.pl))
record_failure-locks_example = record_failure-locks tables (at 0) third_ip cache

quarantine-IsQuarantined_example :
    let (c', failures) = quarantine tables (at 0) 1 (uri first_proxy) cache in
    (IsRefused tables (at 0) 1 cache
      × (failures ≡ 0)
      × (c'.proxies ≡ cache.proxies)
      × (c'.proxy_retry_after ≡ cache.proxy_retry_after))
    ⊎ IsQuarantined tables (at 0) 1 failures (uri first_proxy) cache c'
quarantine-IsQuarantined_example =
    quarantine-IsQuarantined tables (at 0) 1 (uri first_proxy) cache cache-IsConsistent

upsert_proxy-IsAdmitted_example :
    let (c', result) = upsert_proxy tables (at 0) first_proxy cache in
    ((result ≡ ip_locked)
      × ((is_ip_locked tables (at 0) first_proxy.ip cache).1 ≡ true)
      × (c'.proxies ≡ cache.proxies)
      × (c'.proxy_retry_after ≡ cache.proxy_retry_after)
      × (c'.db ≡ cache.db))
    ⊎ ((result ≡ save_failed)
        × ((is_ip_locked tables (at 0) first_proxy.ip cache).1 ≡ false)
        × (tables.save_proxy cache.db (upsert_record tables cache.db first_proxy) ≡ none)
        × (c'.proxies ≡ cache.proxies)
        × (c'.proxy_retry_after ≡ cache.proxy_retry_after)
        × (c'.db ≡ cache.db))
    ⊎ ((result ≡ done)
        × ((is_ip_locked tables (at 0) first_proxy.ip cache).1 ≡ false)
        × IsAdmitted tables first_proxy cache c')
upsert_proxy-IsAdmitted_example =
    upsert_proxy-IsAdmitted tables (at 0) first_proxy cache cache-IsConsistent

abbrev calls : List Call
calls =
    picks (at 0) (at 0) site
    ∷ succeeds (at 1) first_proxy (pos 7) (at 1) true
    ∷ upserts (at 2) (endpoint 0 third_ip (bytes "82"))
    ∷ fails (at 3) second_proxy
    ∷ records (at 4) third_ip
    ∷ gets
    ∷ collects (at 5)
    ∷ []

-- The row with the key of the first proxy is its own.
named : AllName tables calls cache
unfolding first step
named = (tt, (λ q e. ap uri (sym (some-injective _ _ e)), (tt, (tt, (tt, (tt, (tt, tt)))))))

run-IsConsistent_example : IsConsistent tables (run tables calls cache)
run-IsConsistent_example = run-IsConsistent tables calls cache named cache-IsConsistent
