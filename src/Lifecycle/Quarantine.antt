-- ===== src/Lifecycle/Quarantine.antt =====
-- Quarantine of one endpoint (`MarkVerifyFailed`, `MarkProxyUnavailable` of service/memcache.go).
use proxy_in_a_box.Prelude.{
  ℕ, ◌+◌, ◌≡◌, ◌≢◌, refl, sym, ap, subst, ◌∙◌, ◌⊎◌, inl, inr, false, not, Option, none, some,
  Option-cases, if_pos, if_neg, Text, text_dec, Map, lookup, insert, ℕ_discrete, lookup-insert,
  lookup-insert_self, ==_false, Time, before, arith,
}
use mathlib.Core.Option.{some-injective}
use proxy_in_a_box.Endpoint.{Proxy}
use proxy_in_a_box.Pool.{has_proxy, remove_by_uri_from_cache_locked}
use proxy_in_a_box.Pool.Index.{has_proxy-remove_by_uri}
use proxy_in_a_box.Store.{Store, apply_columns}
use proxy_in_a_box.Lifecycle.{
  Cache, failure_columns, retry_backoff_for_failure, is_proxy_validation_due, quarantine,
}
use proxy_in_a_box.Lifecycle.Invariant.{IsConsistent}

module _ (S : Store) where
  -- The state of an endpoint that was quarantined at `now`.
  pub record IsQuarantined (now : Time) (i failures : ℕ) (u : Text) (c c' : Cache S) : Type 0 where
    pub gone : has_proxy u c'.proxies ≡ false
    pub others : (v : Text) → v ≢ u → has_proxy v c'.proxies ≡ has_proxy v c.proxies
    pub delayed :
        (t : Time)
        → (is_proxy_validation_due S t u c').1
          ≡ not (before t (now + retry_backoff_for_failure failures))
    pub other_delays :
        (v : Text) (t : Time)
        → v ≢ u
        → (is_proxy_validation_due S t v c').1 ≡ (is_proxy_validation_due S t v c).1
    pub locks : c'.locked_ips ≡ c.locked_ips
    pub row :
        (p : Proxy) × (S.find_proxy c.db i ≡ some p)
        × (failures ≡ p.consecutive_failures + 1)
        × (S.find_proxy c'.db i
            ≡ some (record p {
              available = false;
              consecutive_failures = failures;
              last_verify = now;
              next_verify_at = now + retry_backoff_for_failure failures;
            }))

  -- The store does not take the quarantine: the row is missing, the update fails, or it does not
  -- affect one row.
  pub data IsRefused (now : Time) (i : ℕ) (c : Cache S) : Type 0 where
    missing_row : S.find_proxy c.db i ≡ none → IsRefused now i c
    failed_update :
        (p : Proxy)
        → S.find_proxy c.db i ≡ some p
        → S.update_proxy c.db i (failure_columns (p.consecutive_failures + 1) now) ≡ none
        → IsRefused now i c
    other_rows :
        (p : Proxy) (d : S.Db) (rows : ℕ)
        → S.find_proxy c.db i ≡ some p
        → S.update_proxy c.db i (failure_columns (p.consecutive_failures + 1) now) ≡ some (d, rows)
        → rows ≢ 1
        → IsRefused now i c

  quarantine_stored :
      (now : Time) (i : ℕ) (u : Text) (c : Cache S) (p : Proxy) (d : S.Db)
      → S.find_proxy c.db i ≡ some p
      → S.update_proxy c.db i (failure_columns (p.consecutive_failures + 1) now) ≡ some (d, 1)
      → quarantine S now i u c ≡ (
        record c {
          proxies = remove_by_uri_from_cache_locked u c.proxies;
          proxy_retry_after =
              insert u
                (now + retry_backoff_for_failure (p.consecutive_failures + 1))
                c.proxy_retry_after;
          db = d;
        },
        p.consecutive_failures + 1,
      )
  quarantine_stored now i u c p d found stored = unfold quarantine in rw (quarantine, found, stored)

  due-insert :
      (t at : Time) (u : Text) (c' : Cache S) (m : Map Time)
      → c'.proxy_retry_after ≡ insert u at m
      → (is_proxy_validation_due S t u c').1 ≡ not (before t at)
  unfolding is_proxy_validation_due
  due-insert t at u c' m e = ground (arith, e, lookup-insert_self u at m, ap (lookup u) e)

  due-insert_ne :
      (t at : Time) (u v : Text) (c c' : Cache S)
      → c'.proxy_retry_after ≡ insert u at c.proxy_retry_after
      → v ≢ u
      → (is_proxy_validation_due S t v c').1 ≡ (is_proxy_validation_due S t v c).1
  unfolding is_proxy_validation_due
  due-insert_ne t at u v c c' e other =
      let m = c.proxy_retry_after in
      ground (
        arith,
        ap (lookup v) e
            ∙ lookup-insert v u at m
            ∙ if_neg (text_dec u v) (λ k. other (sym k)) (some at) (lookup v m),
      )

  quarantined :
      (now : Time) (i : ℕ) (u : Text) (c : Cache S)
      → IsConsistent S c
      → (p : Proxy) (d : S.Db) → S.find_proxy c.db i ≡ some p
      → S.update_proxy c.db i (failure_columns (p.consecutive_failures + 1) now) ≡ some (d, 1)
      → IsQuarantined now i (p.consecutive_failures + 1) u c (record c {
        proxies = remove_by_uri_from_cache_locked u c.proxies;
        proxy_retry_after =
            insert u
              (now + retry_backoff_for_failure (p.consecutive_failures + 1))
              c.proxy_retry_after;
        db = d;
      })
  quarantined now i u c h p d found stored =
      let Written = λ (e : S.Db) (n : ℕ) (x : Proxy).
        S.find_proxy e i ≡ some (apply_columns (failure_columns n now) x) in
      let (q, before', after) = S.update_proxy-finds c.db d i _ stored in
      let same : q ≡ p = some-injective _ _ (sym before' ∙ found) in
      record {
        gone = has_proxy-remove_by_uri u u c.proxies h ∙ if_pos (text_dec u u) refl false _;
        others = λ v other.
            has_proxy-remove_by_uri u v c.proxies h
            ∙ if_neg (text_dec u v) (λ e. other (sym e)) false (has_proxy v c.proxies);
        delayed = λ t. due-insert t _ u _ c.proxy_retry_after refl;
        other_delays = λ v t other. due-insert_ne t _ u v c _ refl other;
        locks = refl;
        row = (p, found, refl, subst (Written d (p.consecutive_failures + 1)) same after);
      }

  -- A quarantine that is stored takes the URI out of the pool, delays its next validation by the
  -- backoff of its new failure count, and writes that count to its row; other URIs stay as they
  -- were, in the pool and in their delays, and so do the locks. One that is not, since the row is missing, or the update fails or does not affect one row,
  -- returns 0 and changes neither the pool nor the delays.
  pub quarantine-IsQuarantined :
      (now : Time) (i : ℕ) (u : Text) (c : Cache S)
      → IsConsistent S c
      → let (c', failures) = quarantine S now i u c in
        (IsRefused now i c
          × (failures ≡ 0)
          × (c'.proxies ≡ c.proxies)
          × (c'.proxy_retry_after ≡ c.proxy_retry_after))
        ⊎ IsQuarantined now i failures u c c'
  quarantine-IsQuarantined now i u c h = elim (Option-cases (S.find_proxy c.db i)) [
    | inl missing ↦
        unfold quarantine in rw (quarantine, missing) (inl (missing_row missing, refl, refl, refl))
    | inr (p, found) ↦
        let failures = p.consecutive_failures + 1 in
        elim (Option-cases (S.update_proxy c.db i (failure_columns failures now))) [
          | inl failed ↦
              unfold quarantine in
              rw (quarantine, found, failed) (inl (failed_update p found failed, refl, refl, refl))
          | inr (saved, stored) ↦ elim (ℕ_discrete saved.1 1) [
            | no rows ↦
                unfold quarantine in
                rw (quarantine, found, stored, ==_false saved.1 1 rows)
                  (inl (other_rows p saved.0 saved.1 found stored rows, refl, refl, refl))
            | yes rows ↦
                let one : S.update_proxy c.db i (failure_columns failures now) ≡ some (saved.0, 1) =
                  stored ∙ ap {B = Option (S.Db × ℕ)} (λ (r : ℕ). some (saved.0, r)) rows in
                rw (quarantine_stored now i u c p saved.0 found one)
                  (inr (quarantined now i u c h p saved.0 found one))
          ]
        ]
  ]
