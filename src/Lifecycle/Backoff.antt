-- ===== src/Lifecycle/Backoff.antt =====
-- The retry delays of failing proxies (`retryBackoffForFailure` of service/memcache.go).
use proxy_in_a_box.Prelude.{
  ◌*◌, ◌⊎◌, inl, inr, ℕ, ◌≤◌, ◌≡◌, zero, suc, refl, leb, Bool-cases, false, ltb, minute, hour,
  arith,
}
use proxy_in_a_box.Lifecycle.{retry_backoff_for_failure}

-- From four failures on the last entry of the table is used.
retry_backoff-capped : (f : ℕ) → 4 ≤ f → retry_backoff_for_failure f ≡ 24 * hour
unfolding retry_backoff_for_failure
retry_backoff-capped f h =
    let some : leb f 0 ≡ false = ground arith in
    elim (Bool-cases (ltb 4 f)) [
      | inl more ↦ rw (some, more)
      | inr four ↦ let e : f ≡ 4 = ground arith in rw e
    ]

-- The table, by the number of failures.
pub retry_backoff-table :
    (f : ℕ)
    → ((f ≤ 1) × (retry_backoff_for_failure f ≡ 30 * minute))
      ⊎ ((f ≡ 2) × (retry_backoff_for_failure f ≡ 2 * hour))
      ⊎ ((f ≡ 3) × (retry_backoff_for_failure f ≡ 6 * hour))
      ⊎ ((4 ≤ f) × (retry_backoff_for_failure f ≡ 24 * hour))
unfolding retry_backoff_for_failure
retry_backoff-table zero = inl (omega arith, refl)
retry_backoff-table (suc zero) = inl (omega arith, refl)
retry_backoff-table (suc (suc zero)) = inr (inl (refl, refl))
retry_backoff-table (suc (suc (suc zero))) = inr (inr (inl (refl, refl)))
retry_backoff-table (suc (suc (suc (suc f)))) =
    inr (inr (inr (omega arith, retry_backoff-capped (suc (suc (suc (suc f)))) (omega arith))))

-- More failures in a row never shorten the delay, which lies between 30 minutes and 24 hours.
pub retry_backoff_for_failure_mono :
    (f g : ℕ)
    → f ≤ g
    → (30 * minute ≤ retry_backoff_for_failure f)
      × (retry_backoff_for_failure f ≤ retry_backoff_for_failure g)
      × (retry_backoff_for_failure g ≤ 24 * hour)
retry_backoff_for_failure_mono f g h = omega (arith, retry_backoff-table f, retry_backoff-table g)
