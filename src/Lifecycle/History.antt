-- ===== src/Lifecycle/History.antt =====
-- Any history of calls of `MemCache`, in the order in which its mutexes let them through.
use proxy_in_a_box.Prelude.{
  ◌≡◌, ◌∙◌, inl, inr, some, List, [], ◌∷◌, Text, Time, Duration, Bool, arith,
}
use proxy_in_a_box.Prelude.Int.{ℤ}
use proxy_in_a_box.Endpoint.{Proxy, uri}
use proxy_in_a_box.Pool.{ProxyList, get_proxy}
use proxy_in_a_box.Pool.Index.{IsIndexed}
use proxy_in_a_box.Scheduling.{pick_proxy, bump, mark_proxy_target_failure, gc}
use proxy_in_a_box.Scheduling.Pick.{pool-pick_proxy}
use proxy_in_a_box.Store.{Store}
use proxy_in_a_box.Lifecycle.{
  Cache, is_ip_locked, is_proxy_validation_due, upsert_proxy, mark_verify_success,
  mark_verify_failed, mark_proxy_unavailable, record_failure, load_locked_ips,
  cleanup_stale_proxies,
}
use proxy_in_a_box.Lifecycle.Invariant.{
  IsConsistent, keep_or, count_uri-bump, is_ip_locked-proxies, upsert_proxy-IsConsistent,
  mark_verify_success-IsConsistent, quarantine-IsConsistent, mark_proxy_unavailable-IsConsistent,
  record_failure-IsConsistent, cleanup-IsConsistent,
}

-- The calls, each with its clock readings.
pub data Call : Type 0 where
  gets : Call
  picks : Time → Time → Text → Call
  marks_target : Duration → Time → Text → Text → Call
  collects : Time → Call
  upserts : Time → Proxy → Call
  succeeds : Time → Proxy → ℤ → Time → Bool → Call
  fails : Time → Proxy → Call
  unavailable : Time → Text → Call
  records : Time → Text → Call
  asks_locked : Time → Text → Call
  asks_due : Time → Text → Call
  loads_locks : Time → Call
  cleans : Time → Duration → Call

module _ (S : Store) where
  unfoldable pub step : Call → Cache S → Cache S
  step gets c = record c { proxies = (get_proxy c.proxies).0 }
  step (picks now later domain) c =
      let (l, s, r) = pick_proxy c.proxies c.domains now later domain in
      record c { proxies = l; domains = s }
  step (marks_target ttl now u target) c = record c {
    domains = mark_proxy_target_failure ttl now u target c.domains;
  }
  step (collects now) c = record c { domains = gc now c.domains }
  step (upserts now p) c = (upsert_proxy S now p c).0
  step (succeeds now p delay verify_time deep) c =
      mark_verify_success S now p delay verify_time deep c
  step (fails now p) c = (mark_verify_failed S now p c).0
  step (unavailable now u) c = mark_proxy_unavailable S now u c
  step (records now ip) c = (record_failure S now ip c).0
  step (asks_locked now ip) c = (is_ip_locked S now ip c).0
  step (asks_due now u) c = (is_proxy_validation_due S now u c).0
  step (loads_locks now) c = load_locked_ips S now c
  step (cleans now threshold) c = cleanup_stale_proxies S now threshold c

  -- A proxy that is reported as verified names the row with its key, if there is one: the periodic
  -- check reads both from the table.
  abbrev pub Names : Call → Cache S → Type 0
  Names (succeeds now p delay verify_time deep) c =
      (q : Proxy) → S.find_proxy c.db p.id ≡ some q → uri q ≡ uri p
  Names _ c = Unit {0}

  get_proxy-IsIndexed : (l : ProxyList) → IsIndexed l → IsIndexed (get_proxy l).0
  unfolding get_proxy
  get_proxy-IsIndexed l h u = ground (arith, h u)

  pick_proxy-IsIndexed :
      (c : Cache S) (now later : Time) (domain : Text)
      → IsConsistent S c
      → IsIndexed (pick_proxy c.proxies c.domains now later domain).0
  pick_proxy-IsIndexed c now later domain h =
      let l = (pick_proxy c.proxies c.domains now later domain).0 in
      elim (pool-pick_proxy c.proxies c.domains now later domain) [
        | inl same ↦ keep_or S l c.proxies same h
        | inr (i, up) ↦
            keep_or S l (record c.proxies { pl = bump i c.proxies.pl }) up
              (λ u. count_uri-bump u i c.proxies.pl ∙ h u)
      ]

  due-proxies :
      (now : Time) (u : Text) (c : Cache S)
      → (is_proxy_validation_due S now u c).0.proxies ≡ c.proxies
  unfolding is_proxy_validation_due
  due-proxies now u c = ground arith

  -- A call leaves every URI of the pool in it once, and in the index, and no other URI in either.
  pub step-IsConsistent :
      (call : Call) (c : Cache S) → Names call c → IsConsistent S c → IsConsistent S (step call c)
  unfolding step mark_verify_failed load_locked_ips
  step-IsConsistent gets c n h = get_proxy-IsIndexed c.proxies h
  step-IsConsistent (picks now later domain) c n h = pick_proxy-IsIndexed c now later domain h
  step-IsConsistent (marks_target ttl now u target) c n h = h
  step-IsConsistent (collects now) c n h = h
  step-IsConsistent (upserts now p) c n h = upsert_proxy-IsConsistent S now p c h
  step-IsConsistent (succeeds now p delay verify_time deep) c n h =
      mark_verify_success-IsConsistent S now p delay verify_time deep c n h
  step-IsConsistent (fails now p) c n h = quarantine-IsConsistent S now p.id (uri p) c h
  step-IsConsistent (unavailable now u) c n h = mark_proxy_unavailable-IsConsistent S now u c h
  step-IsConsistent (records now ip) c n h = record_failure-IsConsistent S now ip c h
  step-IsConsistent (asks_locked now ip) c n h =
      keep_or S (is_ip_locked S now ip c).0.proxies c.proxies (is_ip_locked-proxies S now ip c) h
  step-IsConsistent (asks_due now u) c n h =
      keep_or S (is_proxy_validation_due S now u c).0.proxies c.proxies (due-proxies now u c) h
  step-IsConsistent (loads_locks now) c n h = h
  step-IsConsistent (cleans now threshold) c n h = cleanup-IsConsistent S now threshold c h

  unfoldable pub run : List Call → Cache S → Cache S
  unfolding step
  run [] c = c
  run (call ∷ calls) c = run calls (step call c)

  abbrev pub AllName : List Call → Cache S → Type 0
  AllName [] c = Unit {0}
  AllName (call ∷ calls) c = Names call c × AllName calls (step call c)

  -- From a consistent pool, every history of calls ends with each URI of the pool in it once, and
  -- with exactly the URIs of the pool in the index; each proxy that is reported as verified names
  -- the row with its key, if there is one.
  pub run-IsConsistent :
      (calls : List Call) (c : Cache S)
      → AllName calls c
      → IsConsistent S c
      → IsConsistent S (run calls c)
  unfolding run
  run-IsConsistent [] c n h = h
  run-IsConsistent (call ∷ calls) c n h =
      run-IsConsistent calls (step call c) n.1 (step-IsConsistent call c n.0 h)
