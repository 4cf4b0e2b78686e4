-- ===== src/Admission/Retry.antt =====
-- The retry times of candidates that failed (crawler/validation_policy.go).
use proxy_in_a_box.Prelude.{
  ℕ, zero, suc, ◌+◌, ◌-◌, ◌≡◌, ◌≢◌, refl, ap, sym, ◌∙◌, true, not, none, some, max, Text, text_dec,
  Map, lookup, lookup-insert, lookup-insert_self, if_neg, leb, Time, before, arith,
}
use proxy_in_a_box.Lifecycle.{retry_backoff_for_failure}
use proxy_in_a_box.Lifecycle.Backoff.{retry_backoff-table}
use proxy_in_a_box.Admission.{
  CandidateFailure, is_due, next_failures, candidate_backoff, record_candidate_failure,
}

-- The table of the candidates and that of the stored proxies give the same delays.
candidate_backoff-retry_backoff :
    (failures : ℕ) → candidate_backoff failures ≡ retry_backoff_for_failure failures
unfolding candidate_backoff retry_backoff_for_failure
candidate_backoff-retry_backoff zero = refl
candidate_backoff-retry_backoff (suc zero) = refl
candidate_backoff-retry_backoff (suc (suc zero)) = refl
candidate_backoff-retry_backoff (suc (suc (suc zero))) = refl
candidate_backoff-retry_backoff (suc (suc (suc (suc zero)))) = refl
candidate_backoff-retry_backoff (suc (suc (suc (suc (suc f))))) =
    let n = suc (suc (suc (suc (suc f)))) in
    let past : leb 4 (n - 1) ≡ true = ground arith in
    rw (candidate_backoff, past) (omega (arith, retry_backoff-table n))

-- The failures in a row that the cache holds for a URI.
unfoldable pub failures_of : Text → Map CandidateFailure → ℕ
failures_of u m = elim (lookup u m) [ none ↦ 0 | some f ↦ f.failures ]

next_failures-raised :
    (u : Text) (minimum : ℕ) (m : Map CandidateFailure)
    → next_failures u minimum m ≡ max (failures_of u m + 1) minimum
unfolding next_failures failures_of
next_failures-raised u minimum m = ground arith

-- A failure raises the count of the candidate by one, or to the minimum when that is more. After it
-- the candidate is not due until the delay for its new count is over, the delay that a stored proxy
-- with that count has. Other candidates keep their counts and are due as they were.
pub record_candidate_failure-delays :
    (u : Text) (minimum : ℕ) (now : Time) (m : Map CandidateFailure)
    → let failures = max (failures_of u m + 1) minimum in
      let (m', retry_at) = record_candidate_failure u minimum now m in
      (failures_of u m' ≡ failures)
      × (retry_at ≡ now + retry_backoff_for_failure failures)
      × ((t : Time) → is_due u t m' ≡ not (before t retry_at))
      × ((v : Text) → v ≢ u → failures_of v m' ≡ failures_of v m)
      × ((v : Text) (t : Time) → v ≢ u → is_due v t m' ≡ is_due v t m)
unfolding record_candidate_failure is_due failures_of
record_candidate_failure-delays u minimum now m =
    let failures = next_failures u minimum m in
    let f : CandidateFailure = record {
      failures = failures;
      retry_at = now + candidate_backoff failures;
      last_failure = now;
    } in
    let raised = next_failures-raised u minimum m in
    let kept = λ (v : Text) (other : v ≢ u).
      lookup-insert v u f m ∙ if_neg (text_dec u v) (λ e. other (sym e)) (some f) (lookup v m) in
    (
      ground (arith, lookup-insert_self u f m, raised),
      ap (λ d. now + d)
          (candidate_backoff-retry_backoff failures ∙ ap retry_backoff_for_failure raised),
      λ t. ground (arith, lookup-insert_self u f m),
      λ v other. ground (arith, kept v other),
      λ v t other. ground (arith, kept v other),
    )
