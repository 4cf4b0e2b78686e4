-- ===== src/Lifecycle/Admission.antt =====
-- Admission of a verified proxy into the pool (`UpsertProxy` of service/memcache.go).
use proxy_in_a_box.Prelude.{
  ℕ, ◌≡◌, ◌≢◌, refl, sym, ap, subst, ◌∙◌, ◌⊎◌, inl, inr, true, false, Bool-cases, none, some,
  Option-cases, if_pos, if_neg, [], ◌∷◌, ◌++◌, Text, text_dec, lookup, delete, lookup-delete_self,
  reject, Time, arith,
}
use proxy_in_a_box.Endpoint.{Proxy, uri, normal_protocol}
use proxy_in_a_box.Pool.{
  ProxyEntry, entry_uri, has_proxy, append_entry, remove_by_uri_from_cache_locked,
}
use proxy_in_a_box.Pool.Removal.{remove_by_uri_from_cache_locked-reject}
use proxy_in_a_box.Pool.Index.{has_proxy-remove_by_uri, has_proxy-append_entry}
use proxy_in_a_box.Store.{Store, or_else}
use proxy_in_a_box.Lifecycle.{
  Cache, done, ip_locked, save_failed, is_ip_locked, is_proxy_validation_due, clear_failure_locked,
  upsert_record, upsert_proxy,
}
use proxy_in_a_box.Lifecycle.Invariant.{IsConsistent, is_ip_locked-proxies}

-- The URI does not tell an empty protocol from http, so the record that is stored keeps it.
uri-upsert_record : (S : Store) (d : S.Db) (p : Proxy) → uri (upsert_record S d p) ≡ uri p
unfolding upsert_record uri normal_protocol
uri-upsert_record S d p = ground arith

module _ (S : Store) where
  -- What the pool and the store keep of a proxy that was admitted: its fields, the protocol spelled
  -- out, as healthy, under the key `i`.
  abbrev pub as_healthy : Proxy → ℕ → Proxy
  as_healthy p i = record p {
    id = i;
    protocol = normal_protocol p.protocol;
    available = true;
    consecutive_failures = 0;
    next_verify_at = 0;
  }

  -- A proxy that was admitted: saved, with the failures of its IP deleted unless that fails, in the
  -- pool under its URI, as its last and only entry, with its IP unlocked and no retry delay.
  pub record IsAdmitted (p : Proxy) (c c' : Cache S) : Type 0 where
    pub present : has_proxy (uri p) c'.proxies ≡ true
    pub others : (v : Text) → v ≢ uri p → has_proxy v c'.proxies ≡ has_proxy v c.proxies
    pub stored :
        (i : ℕ) × (d : S.Db) × (S.save_proxy c.db (upsert_record S c.db p)
          ≡ some (d, as_healthy p i))
        × (c'.db ≡ or_else (S.delete_blocked d p.ip) d)
        × (c'.proxies.pl
            ≡ reject (λ e. text_dec (entry_uri e) (uri p)) c.proxies.pl
              ++ record { p = as_healthy p i; n = 0 } ∷ [])
    pub unlocked : (t : Time) → (is_ip_locked S t p.ip c').1 ≡ false
    pub due : (t : Time) → (is_proxy_validation_due S t (uri p) c').1 ≡ true

  is_ip_locked-retry :
      (now : Time) (ip : Text) (c : Cache S)
      → (is_ip_locked S now ip c).0.proxy_retry_after ≡ c.proxy_retry_after
  unfolding is_ip_locked
  is_ip_locked-retry now ip c = ground arith

  is_ip_locked-db : (now : Time) (ip : Text) (c : Cache S) → (is_ip_locked S now ip c).0.db ≡ c.db
  unfolding is_ip_locked
  is_ip_locked-db now ip c = ground arith

  upsert_locked :
      (now : Time) (p : Proxy) (c : Cache S)
      → (is_ip_locked S now p.ip c).1 ≡ true
      → upsert_proxy S now p c ≡ ((is_ip_locked S now p.ip c).0, ip_locked)
  upsert_locked now p c locked = unfold upsert_proxy in rw locked

  upsert_failed :
      (now : Time) (p : Proxy) (c : Cache S)
      → (is_ip_locked S now p.ip c).1 ≡ false
      → let c' = (is_ip_locked S now p.ip c).0 in
        S.save_proxy c'.db (upsert_record S c'.db p) ≡ none
        → upsert_proxy S now p c ≡ (c', save_failed)
  upsert_failed now p c open' failed = unfold upsert_proxy in rw (open', failed)

  -- The state after a record is saved as `q`.
  abbrev admitted : Proxy → Proxy → S.Db → Cache S → Cache S
  admitted p q d c' = clear_failure_locked S p.ip (record c' {
    proxies =
        append_entry (record { p = q; n = 0 }) (uri q)
          (remove_by_uri_from_cache_locked (uri q) c'.proxies);
    proxy_retry_after = delete (uri q) c'.proxy_retry_after;
    db = d;
  })

  upsert_stored :
      (now : Time) (p : Proxy) (c : Cache S) (d : S.Db) (q : Proxy)
      → (is_ip_locked S now p.ip c).1 ≡ false
      → let c' = (is_ip_locked S now p.ip c).0 in
        S.save_proxy c'.db (upsert_record S c'.db p) ≡ some (d, q)
        → upsert_proxy S now p c ≡ (admitted p q d c', done)
  upsert_stored now p c d q open' stored = unfold upsert_proxy in rw (open', stored)

  saved_uri :
      (p q : Proxy) (d e : S.Db)
      → S.save_proxy e (upsert_record S e p) ≡ some (d, q)
      → uri q ≡ uri p
  unfolding uri
  saved_uri p q d e stored =
      ap uri (S.save_proxy-keeps e d (upsert_record S e p) q stored) ∙ uri-upsert_record S e p

  saved_fields :
      (p q : Proxy) (d e : S.Db)
      → S.save_proxy e (upsert_record S e p) ≡ some (d, q)
      → q ≡ as_healthy p q.id
  unfolding upsert_record normal_protocol
  saved_fields p q d e stored = S.save_proxy-keeps e d (upsert_record S e p) q stored

  unlocked_of :
      (t : Time) (ip : Text) (c : Cache S)
      → lookup ip c.locked_ips ≡ none
      → (is_ip_locked S t ip c).1 ≡ false
  unfolding is_ip_locked
  unlocked_of t ip c missing = ground (arith, missing)

  due_of :
      (t : Time) (u : Text) (c : Cache S)
      → lookup u c.proxy_retry_after ≡ none
      → (is_proxy_validation_due S t u c).1 ≡ true
  unfolding is_proxy_validation_due
  due_of t u c missing = ground (arith, missing)

  admitted-IsAdmitted :
      (p q : Proxy) (d : S.Db) (c c' : Cache S)
      → IsConsistent S c
      → c'.proxies ≡ c.proxies
      → c'.db ≡ c.db
      → S.save_proxy c'.db (upsert_record S c'.db p) ≡ some (d, q)
      → IsAdmitted p c (admitted p q d c')
  unfolding clear_failure_locked
  admitted-IsAdmitted p q d c c' h same same_db saved =
      let named = saved_uri p q d c'.db saved in
      let fields = saved_fields p q d c'.db saved in
      let rest = remove_by_uri_from_cache_locked (uri p) c.proxies in
      let e : ProxyEntry = record { p = q; n = 0 } in
      record {
        present =
            rw (named, same)
              (has_proxy-append_entry e (uri p) (uri p) rest
                ∙ if_pos (text_dec (uri p) (uri p)) refl true _);
        others = λ v other.
            rw (named, same)
              (has_proxy-append_entry e (uri p) v rest
                ∙ if_neg (text_dec (uri p) v) (λ k. other (sym k)) true (has_proxy v rest)
                ∙ has_proxy-remove_by_uri (uri p) v c.proxies h
                ∙ if_neg (text_dec (uri p) v) (λ k. other (sym k)) false (has_proxy v c.proxies));
        stored = (
          q.id,
          d,
          subst (λ x. S.save_proxy c.db (upsert_record S c.db p) ≡ some (d, x)) fields
              (subst (λ e. S.save_proxy e (upsert_record S e p) ≡ some (d, q)) same_db saved),
          refl,
          subst
              (λ x.
                (admitted p q d c').proxies.pl
                ≡ reject (λ e. text_dec (entry_uri e) (uri p)) c.proxies.pl
                  ++ record { p = x; n = 0 } ∷ [])
              fields
              (rw (named, same)
                (unfold append_entry in
                  rw (remove_by_uri_from_cache_locked-reject (uri p) c.proxies))),
        );
        unlocked =
            λ t. unlocked_of t p.ip (admitted p q d c') (lookup-delete_self p.ip c'.locked_ips);
        due = λ t.
            due_of t (uri p) (admitted p q d c')
              (rw named (lookup-delete_self (uri p) c'.proxy_retry_after));
      }

  -- `UpsertProxy` reports that the IP is locked when it is, and else that the record was not saved
  -- when the store refuses it; both leave the pool, the retry delays and the database alone. Else it
  -- admits the proxy: the record that was saved has the fields of the proxy, spelled out and healthy,
  -- and is the last entry of the pool.
  pub upsert_proxy-IsAdmitted :
      (now : Time) (p : Proxy) (c : Cache S)
      → IsConsistent S c
      → let (c', result) = upsert_proxy S now p c in
        ((result ≡ ip_locked)
          × ((is_ip_locked S now p.ip c).1 ≡ true)
          × (c'.proxies ≡ c.proxies)
          × (c'.proxy_retry_after ≡ c.proxy_retry_after)
          × (c'.db ≡ c.db))
        ⊎ ((result ≡ save_failed)
            × ((is_ip_locked S now p.ip c).1 ≡ false)
            × (S.save_proxy c.db (upsert_record S c.db p) ≡ none)
            × (c'.proxies ≡ c.proxies)
            × (c'.proxy_retry_after ≡ c.proxy_retry_after)
            × (c'.db ≡ c.db))
        ⊎ ((result ≡ done) × ((is_ip_locked S now p.ip c).1 ≡ false) × IsAdmitted p c c')
  upsert_proxy-IsAdmitted now p c h =
      let c' = (is_ip_locked S now p.ip c).0 in
      let same = is_ip_locked-proxies S now p.ip c in
      let delays = is_ip_locked-retry now p.ip c in
      let same_db = is_ip_locked-db now p.ip c in
      let Refused = λ (e : S.Db). S.save_proxy e (upsert_record S e p) ≡ none in
      elim (Bool-cases (is_ip_locked S now p.ip c).1) [
        | inl locked ↦ rw (upsert_locked now p c locked) (inl (refl, locked, same, delays, same_db))
        | inr open' ↦ elim (Option-cases (S.save_proxy c'.db (upsert_record S c'.db p))) [
          | inl failed ↦
              rw (upsert_failed now p c open' failed)
                (inr (inl (refl, open', subst Refused same_db failed, same, delays, same_db)))
          | inr (saved, stored) ↦ rw (upsert_stored now p c saved.0 saved.1 open' stored) (
              inr (
                inr
                  (refl, open', admitted-IsAdmitted p saved.1 saved.0 c c' h same same_db stored)))
        ]
      ]
