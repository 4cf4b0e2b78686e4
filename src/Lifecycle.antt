-- ===== src/Lifecycle.antt =====
-- The life cycle of proxies: `MemCache` and its methods that keep the pool and the database together
-- (service/memcache.go). `failureMu` makes each of them one step; each read of the clock is an
-- argument. The database is the interface `Store`.
mod Health
pub mod Backoff
pub mod Invariant
pub mod Locking
pub mod Quarantine
pub mod Admission
pub mod History
unfoldable pub use Health.*
use proxy_in_a_box.Prelude.{
  ℕ, zero, suc, ◌+◌, ◌-◌, ◌*◌, ◌≤◌, Bool, true, false, Option, none, some, ite, List, [], ◌∷◌, ◌++◌,
  Text, bytes, text_dec, Map, lookup, insert, delete, length, get_elem?, leb, ltb, ◌==◌,
  if◌then◌else◌, Time, Duration, before, minute, hour,
}
use proxy_in_a_box.Prelude.Int.{ℤ}
use proxy_in_a_box.Endpoint.{Proxy, BlockedIp, uri}
use proxy_in_a_box.Pool.{
  ProxyEntry, ProxyList, entry_uri, append_entry, remove_by_uri_from_cache_locked,
  remove_from_cache_locked,
}
use proxy_in_a_box.Scheduling.{DomainScheduling}
use proxy_in_a_box.Store.{Store, Columns, or_else}

-- `lockedIPs` and `proxyRetryAfter` are concurrent maps with string keys.
pub record MemCache (Db : Type 0) : Type 0 where
  pub proxies : ProxyList
  pub domains : DomainScheduling
  pub locked_ips : Map Time
  pub proxy_retry_after : Map Time
  pub db : Db

module _ (S : Store) where
  open S use {Db}

  abbrev pub Cache : Type 0
  Cache = MemCache Db

  -- An expired lock is dropped when it is looked at.
  unfoldable pub is_ip_locked : Time → Text → Cache → Cache × Bool
  is_ip_locked now ip c = elim (lookup ip c.locked_ips) [
    | none ↦ (c, false)
    | some until ↦
        if before now until
        then (c, true)
        else (record c { locked_ips = delete ip c.locked_ips }, false)
  ]

  unfoldable pub is_proxy_validation_due : Time → Text → Cache → Cache × Bool
  is_proxy_validation_due now u c = elim (lookup u c.proxy_retry_after) [
    | none ↦ (c, true)
    | some retry_at ↦
        if before now retry_at
        then (c, false)
        else (record c { proxy_retry_after = delete u c.proxy_retry_after }, true)
  ]

  -- The delete's error is ignored.
  unfoldable pub clear_failure_locked : Text → Cache → Cache
  clear_failure_locked ip c = record c {
    locked_ips = delete ip c.locked_ips;
    db = or_else (S.delete_blocked c.db ip) c.db;
  }

  -- What `UpsertProxy` stores: the protocol spelled out, the health reset, the key of an existing row.
  unfoldable pub upsert_record : Db → Proxy → Proxy
  upsert_record d p =
      let protocol = ite (text_dec p.protocol []) (bytes "http") p.protocol in
      record p {
        id = elim (S.find_endpoint d p.ip p.port protocol) [ none ↦ p.id | some q ↦ q.id ];
        protocol = protocol;
        available = true;
        consecutive_failures = 0;
        next_verify_at = 0;
      }

  -- The loop over the pool is that of `removeByURIFromCacheLocked`.
  unfoldable pub upsert_proxy : Time → Proxy → Cache → Cache × Upserted
  unfolding is_ip_locked upsert_record clear_failure_locked
  upsert_proxy now p c =
      let (c', locked) = is_ip_locked now p.ip c in
      if locked then (c', ip_locked) else elim (S.save_proxy c'.db (upsert_record c'.db p)) [
        | none ↦ (c', save_failed)
        | some (d, q) ↦ (
          clear_failure_locked p.ip (record c' {
            proxies =
                append_entry (record { p = q; n = 0 }) (uri q)
                  (remove_by_uri_from_cache_locked (uri q) c'.proxies);
            proxy_retry_after = delete (uri q) c'.proxy_retry_after;
            db = d;
          }),
          done,
        )
      ]

  -- The part of `MarkVerifySuccess` after the row is updated.
  unfoldable pub restore_verified : Proxy → ℤ → Time → Bool → Cache → Cache
  unfolding clear_failure_locked refresh_first
  restore_verified p delay verify_time deep c =
      elim (refresh_first (uri p) (verified delay verify_time deep) c.proxies.pl) [
        | some es ↦ record (clear_failure_locked p.ip c) { proxies = record c.proxies { pl = es } }
        | none ↦ elim (S.find_proxy c.db p.id) [
          | none ↦ c
          | some stored ↦ record (clear_failure_locked p.ip c) {
            proxies = append_entry (record { p = stored; n = 0 }) (uri p) c.proxies;
          }
        ]
      ]

  unfoldable pub mark_verify_success : Time → Proxy → ℤ → Time → Bool → Cache → Cache
  unfolding is_ip_locked restore_verified
  mark_verify_success now p delay verify_time deep c =
      let (c', locked) = is_ip_locked now p.ip c in
      if locked
      then c'
      else elim (S.update_proxy c'.db p.id (success_columns delay verify_time deep)) [
        | none ↦ c'
        | some (d, rows) ↦
            let c'' = record c' { db = d } in
            if rows == 1
            then restore_verified p delay verify_time deep
                (record c'' { proxy_retry_after = delete (uri p) c''.proxy_retry_after })
            else c''
      ]

  -- Quarantine of a row: the failure count it now has, 0 if it could not be stored.
  unfoldable pub quarantine : Time → ℕ → Text → Cache → Cache × ℕ
  quarantine now i u c = elim (S.find_proxy c.db i) [
    | none ↦ (c, 0)
    | some stored ↦
        let failures = stored.consecutive_failures + 1 in
        elim (S.update_proxy c.db i (failure_columns failures now)) [
          | none ↦ (c, 0)
          | some (d, rows) ↦
              let c' = record c { db = d } in
              if rows == 1
              then (
                record c' {
                  proxies = remove_by_uri_from_cache_locked u c.proxies;
                  proxy_retry_after =
                      insert u (now + retry_backoff_for_failure failures) c.proxy_retry_after;
                },
                failures,
              )
              else (c', 0)
        ]
  ]

  unfoldable pub mark_verify_failed : Time → Proxy → Cache → Cache × ℕ
  unfolding quarantine
  mark_verify_failed now p c = quarantine now p.id (uri p) c

  unfoldable pub mark_proxy_unavailable : Time → Text → Cache → Cache
  unfolding quarantine
  mark_proxy_unavailable now u c =
      let i = id_of u c.proxies.pl in if i == 0 then c else (quarantine now i u c).0

  -- The row of the IP with one more failure.
  unfoldable pub next_blocked : Db → Text → BlockedIp
  next_blocked d ip = elim (S.find_blocked d ip) [
    | none ↦ record { ip = ip; consecutive_failures = 1; locked_until = 0 }
    | some b ↦ record b { consecutive_failures = b.consecutive_failures + 1 }
  ]

  -- The lock of an IP. The errors of both writes are ignored.
  unfoldable pub lock_ip : Time → Text → BlockedIp → Cache → Cache × Bool
  lock_ip now ip b c =
      let until = now + proxy_failure_lock_duration in
      let d = or_else (S.disable_ip c.db ip) c.db in
      (
        record c {
          locked_ips = insert ip until c.locked_ips;
          proxies = remove_from_cache_locked ip c.proxies;
          db = or_else (S.save_blocked d (record b { locked_until = until })) d;
        },
        true,
      )

  unfoldable pub record_failure : Time → Text → Cache → Cache × Bool
  record_failure now ip c =
      let b = next_blocked c.db ip in
      if leb proxy_failure_lock_threshold b.consecutive_failures
      then lock_ip now ip b c
      else (record c { db = or_else (S.save_blocked c.db b) c.db }, false)

  unfoldable pub store_locks : List BlockedIp → Map Time → Map Time
  store_locks [] m = m
  store_locks (b ∷ bs) m = store_locks bs (insert b.ip b.locked_until m)

  unfoldable pub load_locked_ips : Time → Cache → Cache
  unfolding store_locks
  load_locked_ips now c = record c {
    locked_ips = store_locks (S.locked_after c.db now) c.locked_ips;
  }

  unfoldable pub remove_all : List Proxy → ProxyList → ProxyList
  remove_all [] l = l
  remove_all (p ∷ ps) l = remove_all ps (remove_by_uri_from_cache_locked (uri p) l)

  unfoldable pub cleanup_stale_proxies : Time → Duration → Cache → Cache
  unfolding remove_all
  cleanup_stale_proxies now threshold c =
      let cutoff = now - threshold in
      elim (S.stale c.db cutoff) [
        | [] ↦ c
        | p ∷ ps ↦ elim (S.delete_stale c.db cutoff) [
          | none ↦ c
          | some (d, rows) ↦ record c { proxies = remove_all (p ∷ ps) c.proxies; db = d }
        ]
      ]

  unfoldable pub append_rows : List Proxy → ProxyList → ProxyList
  append_rows [] l = l
  append_rows (p ∷ ps) l = append_rows ps (append_entry (record { p = p; n = 0 }) (uri p) l)

  unfoldable pub store_retries : List Proxy → Map Time → Map Time
  store_retries [] m = m
  store_retries (p ∷ ps) m = store_retries ps (insert (uri p) p.next_verify_at m)

  -- `none` is a panic at startup.
  unfoldable pub load : Time → Cache → Option Cache
  unfolding append_rows store_retries
  load now c = elim (S.available_unlocked c.db now) [
    | none ↦ none
    | some ps ↦ elim (S.delayed c.db now) [
      | none ↦ none
      | some delayed ↦ some (record c {
        proxies = append_rows ps c.proxies;
        proxy_retry_after = store_retries delayed c.proxy_retry_after;
      })
    ]
  ]
