-- ===== src/Lifecycle/Invariant.antt =====
-- Every method of `MemCache` keeps the pool and its index in agreement, with no URI twice.
use proxy_in_a_box.Prelude.{
  ℕ, zero, suc, ◌+◌, ◌-◌, ◌≡◌, refl, sym, ap, subst, ◌∙◌, ◌⊎◌, inl, inr, Bool, Bool-cases, Option,
  none, some, Option-cases, ite, if_pos, if_neg, List, [], ◌∷◌, Text, text_dec, delete, ℕ_discrete,
  ==_true, ==_false, ◌==◌, Time, Duration, arith,
}
use mathlib.Core.Option.{some-injective}
use proxy_in_a_box.Prelude.Int.{ℤ}
use proxy_in_a_box.Endpoint.{Proxy, uri}
use proxy_in_a_box.Pool.{
  ProxyEntry, ProxyList, entry_uri, append_entry, remove_by_uri_from_cache_locked,
  remove_from_cache_locked,
}
use proxy_in_a_box.Pool.Removal.{count_key}
use proxy_in_a_box.Pool.Index.{
  IsIndexed, count_uri, remove_by_uri-IsIndexed, remove_by_ip-IsIndexed, append_entry-IsIndexed,
  count_uri-remove_by_uri,
}
use proxy_in_a_box.Scheduling.{bump}
use proxy_in_a_box.Store.{Store, Columns, apply_columns}
use proxy_in_a_box.Lifecycle.{
  Cache, refresh_first, verified, success_columns, is_ip_locked, clear_failure_locked,
  upsert_record, upsert_proxy, restore_verified, mark_verify_success, quarantine,
  mark_proxy_unavailable, id_of, lock_ip, record_failure, remove_all, cleanup_stale_proxies,
}

-- A use count goes up, and no URI changes.
pub count_uri-bump :
    (u : Text) (i : ℕ) (es : List ProxyEntry) → count_uri u (bump i es) ≡ count_uri u es
unfolding count_key bump
count_uri-bump u i [] = refl
count_uri-bump u zero (e ∷ es) = refl
count_uri-bump u (suc i) (e ∷ es) =
    ap (λ (t : ℕ). ite (text_dec (entry_uri e) u) 1 0 + t) (count_uri-bump u i es)

uri-verified :
    (delay : ℤ) (verify_time : Time) (deep : Bool) (p : Proxy)
    → uri (verified delay verify_time deep p) ≡ uri p
unfolding uri
uri-verified delay verify_time deep p = refl

-- A refresh in place keeps every URI.
count_uri-refresh_first :
    (u v : Text) (f : Proxy → Proxy) (es es' : List ProxyEntry)
    → ((p : Proxy) → uri (f p) ≡ uri p)
    → refresh_first u f es ≡ some es'
    → count_uri v es' ≡ count_uri v es
unfolding count_key refresh_first
count_uri-refresh_first u v f [] es' keep e = cc
count_uri-refresh_first u v f (x ∷ es) es' keep e = elim (text_dec (entry_uri x) u) [
  | yes here ↦
      let same : record x { p = f x.p } ∷ es ≡ es' = some-injective _ _ (rw (if_pos _ here) at e) in
      rw (← same) (rw (keep x.p))
  | no other ↦ elim (Option-cases (refresh_first u f es)) [
    | inl missing ↦ absurd (ground arith)
    | inr (rest, found) ↦
        let same : x ∷ rest ≡ es' = some-injective _ _ (rw (if_neg _ other, found) at e) in
        rw (← same) (
          ap (λ (t : ℕ). ite (text_dec (entry_uri x) v) 1 0 + t)
            (count_uri-refresh_first u v f es rest keep found))
  ]
]

-- Without a match there is no entry with the URI.
count_uri-refresh_none :
    (u : Text) (f : Proxy → Proxy) (es : List ProxyEntry)
    → refresh_first u f es ≡ none
    → count_uri u es ≡ 0
unfolding count_key refresh_first
count_uri-refresh_none u f [] e = refl
count_uri-refresh_none u f (x ∷ es) e = ground (arith, count_uri-refresh_none u f es)

module _ (S : Store) where
  abbrev pub IsConsistent : Cache S → Type 0
  IsConsistent c = IsIndexed c.proxies

  pub is_ip_locked-proxies :
      (now : Time) (ip : Text) (c : Cache S) → (is_ip_locked S now ip c).0.proxies ≡ c.proxies
  unfolding is_ip_locked
  is_ip_locked-proxies now ip c = ground arith

  -- A pool that is one of two others.
  pub keep_or : (l m : ProxyList) → l ≡ m → IsIndexed m → IsIndexed l
  keep_or l m e h = subst IsIndexed (sym e) h

  is_ip_locked-db : (now : Time) (ip : Text) (c : Cache S) → (is_ip_locked S now ip c).0.db ≡ c.db
  unfolding is_ip_locked
  is_ip_locked-db now ip c = ground arith

  -- A row keeps its URI through an update.
  updated_uri :
      (p q : Proxy) (c : Cache S) (d : S.Db) (columns : Columns)
      → ((r : Proxy) → S.find_proxy c.db p.id ≡ some r → uri r ≡ uri p)
      → S.update_proxy c.db p.id columns ≡ some (d, 1)
      → S.find_proxy d p.id ≡ some q
      → uri q ≡ uri p
  unfolding uri
  updated_uri p q c d columns row stored read =
      let (r, before, after) = S.update_proxy-finds c.db d p.id columns stored in
      let same : apply_columns columns r ≡ q = some-injective _ _ (sym after ∙ read) in
      rw (← same) (row r before)

  pub upsert_proxy-IsConsistent :
      (now : Time) (p : Proxy) (c : Cache S)
      → IsConsistent c
      → IsConsistent (upsert_proxy S now p c).0
  upsert_proxy-IsConsistent now p c h =
      let c' = (is_ip_locked S now p.ip c).0 in
      let same = is_ip_locked-proxies now p.ip c in
      elim (Bool-cases (is_ip_locked S now p.ip c).1) [
        | inl locked ↦
            keep_or (upsert_proxy S now p c).0.proxies (c.proxies)
              (unfold upsert_proxy in rw locked same) h
        | inr unlocked ↦ elim (Option-cases (S.save_proxy c'.db (upsert_record S c'.db p))) [
          | inl failed ↦
              keep_or (upsert_proxy S now p c).0.proxies (c.proxies)
                (unfold upsert_proxy in rw (unlocked, failed) same) h
          | inr (saved, stored) ↦
              let q = saved.1 in
              let rest = remove_by_uri_from_cache_locked (uri q) c.proxies in
              keep_or (upsert_proxy S now p c).0.proxies
                (append_entry (record { p = q; n = 0 }) (uri q) rest)
                (unfold upsert_proxy clear_failure_locked in rw (unlocked, stored, same))
                (append_entry-IsIndexed (record { p = q; n = 0 }) (uri q) rest refl
                  (count_uri-remove_by_uri (uri q) (uri q) c.proxies
                    ∙ if_pos (text_dec (uri q) (uri q)) refl 0 (count_uri (uri q) c.proxies.pl))
                  (remove_by_uri-IsIndexed (uri q) c.proxies h))
        ]
      ]

  pub restore_verified-IsConsistent :
      (p : Proxy) (delay : ℤ) (verify_time : Time) (deep : Bool) (c : Cache S)
      → ((q : Proxy) → S.find_proxy c.db p.id ≡ some q → uri q ≡ uri p)
      → IsConsistent c
      → IsConsistent (restore_verified S p delay verify_time deep c)
  restore_verified-IsConsistent p delay verify_time deep c row h =
      elim (Option-cases (refresh_first (uri p) (verified delay verify_time deep) c.proxies.pl)) [
        | inr (es, found) ↦
            keep_or (restore_verified S p delay verify_time deep c).proxies
              (record c.proxies { pl = es })
              (unfold restore_verified in rw (restore_verified, found))
              (λ u.
                count_uri-refresh_first (uri p) u (verified delay verify_time deep) c.proxies.pl es
                  (uri-verified delay verify_time deep) found
                ∙ h u)
        | inl missing ↦ elim (Option-cases (S.find_proxy c.db p.id)) [
          | inl gone ↦
              keep_or (restore_verified S p delay verify_time deep c).proxies (c.proxies)
                (unfold restore_verified in rw (restore_verified, missing, gone)) h
          | inr (q, stored) ↦
              keep_or (restore_verified S p delay verify_time deep c).proxies
                (append_entry (record { p = q; n = 0 }) (uri p) c.proxies)
                (unfold restore_verified in rw (restore_verified, missing, stored))
                (append_entry-IsIndexed (record { p = q; n = 0 }) (uri p) c.proxies (row q stored)
                  (count_uri-refresh_none (uri p) (verified delay verify_time deep) c.proxies.pl
                    missing)
                  h)
        ]
      ]

  -- Quarantine leaves the pool, or takes the URI out of it.
  quarantine-proxies :
      (now : Time) (i : ℕ) (u : Text) (c : Cache S)
      → ((quarantine S now i u c).0.proxies ≡ c.proxies)
        ⊎ ((quarantine S now i u c).0.proxies ≡ remove_by_uri_from_cache_locked u c.proxies)
  unfolding quarantine
  quarantine-proxies now i u c = ground arith

  pub quarantine-IsConsistent :
      (now : Time) (i : ℕ) (u : Text) (c : Cache S)
      → IsConsistent c
      → IsConsistent (quarantine S now i u c).0
  quarantine-IsConsistent now i u c h = elim (quarantine-proxies now i u c) [
    | inl same ↦ keep_or (quarantine S now i u c).0.proxies c.proxies same h
    | inr cut ↦
        keep_or (quarantine S now i u c).0.proxies _ cut (remove_by_uri-IsIndexed u c.proxies h)
  ]

  pub mark_verify_success-IsConsistent :
      (now : Time) (p : Proxy) (delay : ℤ) (verify_time : Time) (deep : Bool) (c : Cache S)
      → ((q : Proxy) → S.find_proxy c.db p.id ≡ some q → uri q ≡ uri p)
      → IsConsistent c
      → IsConsistent (mark_verify_success S now p delay verify_time deep c)
  mark_verify_success-IsConsistent now p delay verify_time deep c row h =
      let c' = (is_ip_locked S now p.ip c).0 in
      let columns = success_columns delay verify_time deep in
      let same = is_ip_locked-proxies now p.ip c in
      elim (Bool-cases (is_ip_locked S now p.ip c).1) [
        | inl locked ↦
            keep_or (mark_verify_success S now p delay verify_time deep c).proxies (c.proxies)
              (unfold mark_verify_success in rw locked same) h
        | inr unlocked ↦ elim (Option-cases (S.update_proxy c'.db p.id columns)) [
          | inl failed ↦
              keep_or (mark_verify_success S now p delay verify_time deep c).proxies (c.proxies)
                (unfold mark_verify_success in rw (unlocked, failed) same) h
          | inr (saved, stored) ↦ elim (ℕ_discrete saved.1 1) [
            | no rows ↦
                keep_or (mark_verify_success S now p delay verify_time deep c).proxies (c.proxies)
                  (unfold mark_verify_success in
                    rw (unlocked, stored, ==_false saved.1 1 rows) same)
                  h
            | yes rows ↦
                let c'' = record c' {
                  db = saved.0;
                  proxy_retry_after = delete (uri p) c'.proxy_retry_after;
                } in
                keep_or (mark_verify_success S now p delay verify_time deep c).proxies
                  (restore_verified S p delay verify_time deep c'').proxies
                  (unfold mark_verify_success in rw (unlocked, stored, ==_true saved.1 1 rows))
                  (restore_verified-IsConsistent p delay verify_time deep c''
                    (λ q read.
                      updated_uri p q c' saved.0 columns (rw (is_ip_locked-db now p.ip c) row)
                        (stored ∙ ap {B = Option (S.Db × ℕ)} (λ (r : ℕ). some (saved.0, r)) rows)
                        read)
                    (keep_or c'.proxies c.proxies same h))
          ]
        ]
      ]

  pub mark_proxy_unavailable-IsConsistent :
      (now : Time) (u : Text) (c : Cache S)
      → IsConsistent c
      → IsConsistent (mark_proxy_unavailable S now u c)
  mark_proxy_unavailable-IsConsistent now u c h = elim (Bool-cases (id_of u c.proxies.pl == 0)) [
    | inl absent ↦
        keep_or (mark_proxy_unavailable S now u c).proxies (c.proxies)
          (unfold mark_proxy_unavailable in rw absent) h
    | inr found ↦
        keep_or (mark_proxy_unavailable S now u c).proxies
          ((quarantine S now (id_of u c.proxies.pl) u c).0.proxies)
          (unfold mark_proxy_unavailable in rw found)
          (quarantine-IsConsistent now (id_of u c.proxies.pl) u c h)
  ]

  pub record_failure-proxies :
      (now : Time) (ip : Text) (c : Cache S)
      → ((record_failure S now ip c).0.proxies ≡ c.proxies)
        ⊎ ((record_failure S now ip c).0.proxies ≡ remove_from_cache_locked ip c.proxies)
  unfolding record_failure lock_ip
  record_failure-proxies now ip c = ground arith

  pub record_failure-IsConsistent :
      (now : Time) (ip : Text) (c : Cache S)
      → IsConsistent c
      → IsConsistent (record_failure S now ip c).0
  record_failure-IsConsistent now ip c h = elim (record_failure-proxies now ip c) [
    | inl same ↦ keep_or (record_failure S now ip c).0.proxies c.proxies same h
    | inr cut ↦
        keep_or (record_failure S now ip c).0.proxies _ cut (remove_by_ip-IsIndexed ip c.proxies h)
  ]

  remove_all-IsIndexed :
      (ps : List Proxy) (l : ProxyList) → IsIndexed l → IsIndexed (remove_all S ps l)
  unfolding remove_all
  remove_all-IsIndexed [] l h = h
  remove_all-IsIndexed (p ∷ ps) l h =
      remove_all-IsIndexed ps (remove_by_uri_from_cache_locked (uri p) l)
        (remove_by_uri-IsIndexed (uri p) l h)

  cleanup-proxies :
      (now : Time) (threshold : Duration) (c : Cache S)
      → ((cleanup_stale_proxies S now threshold c).proxies ≡ c.proxies)
        ⊎ ((cleanup_stale_proxies S now threshold c).proxies
            ≡ remove_all S (S.stale c.db (now - threshold)) c.proxies)
  unfolding cleanup_stale_proxies
  cleanup-proxies now threshold c = ground arith

  pub cleanup-IsConsistent :
      (now : Time) (threshold : Duration) (c : Cache S)
      → IsConsistent c
      → IsConsistent (cleanup_stale_proxies S now threshold c)
  cleanup-IsConsistent now threshold c h = elim (cleanup-proxies now threshold c) [
    | inl same ↦ keep_or (cleanup_stale_proxies S now threshold c).proxies c.proxies same h
    | inr cut ↦
        keep_or (cleanup_stale_proxies S now threshold c).proxies _ cut
          (remove_all-IsIndexed (S.stale c.db (now - threshold)) c.proxies h)
  ]
