-- ===== src/Lifecycle/Health.antt =====
-- The constants of service/memcache.go, the delays before a retry, the entry that a URI names, and the
-- columns that a verification writes.
use proxy_in_a_box.Prelude.{
  ℕ, ◌+◌, ◌-◌, ◌*◌, Bool, true, false, Option, none, some, ite, List, [], ◌∷◌, Text, text_dec,
  length, get_elem?, leb, ltb, if◌then◌else◌, Time, Duration, minute, hour,
}
use proxy_in_a_box.Prelude.Int.{ℤ}
use proxy_in_a_box.Endpoint.{Proxy}
use proxy_in_a_box.Pool.{ProxyEntry, entry_uri}
use proxy_in_a_box.Store.{Columns}

abbrev pub proxy_failure_lock_threshold : ℕ
proxy_failure_lock_threshold = 3

abbrev pub proxy_failure_lock_duration : Duration
proxy_failure_lock_duration = 6 * hour

abbrev pub proxy_retry_backoff : List Duration
proxy_retry_backoff = 30 * minute ∷ 2 * hour ∷ 6 * hour ∷ 24 * hour ∷ []

abbrev pub backoff_at : ℕ → List Duration → Duration
backoff_at i table = elim (get_elem? table i) [ none ↦ 0 | some d ↦ d ]

-- The index stays inside the table; the default of `backoff_at` is not met.
unfoldable pub retry_backoff_for_failure : ℕ → Duration
retry_backoff_for_failure failures =
    let positive = if leb failures 0 then 1 else failures in
    let bounded =
      if ltb (length proxy_retry_backoff) positive then length proxy_retry_backoff else positive in
    backoff_at (bounded - 1) proxy_retry_backoff

pub data Upserted : Type 0 where
  done ip_locked save_failed : Upserted

-- The first entry with the URI, changed in place; `none` if there is no such entry.
unfoldable pub refresh_first : Text → (Proxy → Proxy) → List ProxyEntry → Option (List ProxyEntry)
refresh_first u f [] = none
refresh_first u f (e ∷ es) =
    ite (text_dec (entry_uri e) u) (some (record e { p = f e.p } ∷ es))
      (elim (refresh_first u f es) [ none ↦ none | some es' ↦ some (e ∷ es') ])

-- The key of the first entry with the URI; 0 if there is no such entry.
unfoldable pub id_of : Text → List ProxyEntry → ℕ
id_of u [] = 0
id_of u (e ∷ es) = ite (text_dec (entry_uri e) u) (e.p).id (id_of u es)

-- The fields that a successful verification sets.
abbrev pub verified : ℤ → Time → Bool → Proxy → Proxy
verified delay verify_time deep p = record p {
  available = true;
  consecutive_failures = 0;
  delay = delay;
  last_verify = verify_time;
  next_verify_at = 0;
  last_deep_verify = if deep then verify_time else p.last_deep_verify;
}

abbrev pub success_columns : ℤ → Time → Bool → Columns
success_columns delay verify_time deep = record {
  available = true;
  consecutive_failures = 0;
  delay = some delay;
  last_verify = verify_time;
  next_verify_at = 0;
  last_deep_verify = if deep then some verify_time else none;
}

abbrev pub failure_columns : ℕ → Time → Columns
failure_columns failures verify_time = record {
  available = false;
  consecutive_failures = failures;
  delay = none;
  last_verify = verify_time;
  next_verify_at = verify_time + retry_backoff_for_failure failures;
  last_deep_verify = none;
}
