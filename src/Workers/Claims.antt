-- ===== src/Workers/Claims.antt =====
-- The keys of a candidate: one round of a validator gives back what it claimed.
use proxy_in_a_box.Prelude.{
  ℕ, ◌-◌, ◌≡◌, refl, ap, ◌∙◌, Bool-cases, inl, inr, if◌then◌else◌, List, ◌∷◌, Text, Time, arith,
}
use proxy_in_a_box.Scheduling.{contains}
use proxy_in_a_box.Endpoint.{Proxy, uri}
use proxy_in_a_box.Store.{Store}
use proxy_in_a_box.Lifecycle.{Upserted, done, ip_locked, save_failed}
use proxy_in_a_box.Admission.{trim_space}
use proxy_in_a_box.Fetch.{CloudflareTraceResult}
use proxy_in_a_box.Fetch.Requests.{Web}
use proxy_in_a_box.Workers.State.{
  CheckSettings, Checked, unreachable, no_address, mismatch, traced, Crawler, remove_key, clock,
  count_check, remember_failure, blame, is_locked,
}
use proxy_in_a_box.Workers.Candidate.{
  claim_candidate, release_candidate, is_retry_due, screen, count_candidate, fail_candidate,
  conclude_upsert, admit, probe_candidate, conclude_validation, validate, validator_round,
}
use proxy_in_a_box.Workers.Pending.{remove_key-absent, remove_key-cons}
use proxy_in_a_box.Workers.Ends.{is_hijacked}

module _ (S : Store) (N : Web) where
  -- The part of the state that the body of a round does not touch.
  abbrev Keeps : Crawler S N → Crawler S N → Type 0
  Keeps s s' =
      (s'.pending_validate ≡ s.pending_validate)
      × (s'.candidates.queued ≡ s.candidates.queued)
      × (s'.candidates.queued_count ≡ s.candidates.queued_count)

  is_retry_due-Keeps : (u : Text) (s : Crawler S N) → Keeps s (is_retry_due S N u s).0
  unfolding is_retry_due clock
  is_retry_due-Keeps u s = ground arith

  screen-Keeps : (p : Proxy) (s : Crawler S N) → Keeps s (screen S N p s).0
  unfolding screen is_locked clock is_retry_due
  screen-Keeps p s = ground arith

  conclude_upsert-Keeps :
      (p : Proxy) (stored : Upserted) (s : Crawler S N) → Keeps s (conclude_upsert S N p stored s)
  unfolding conclude_upsert count_candidate count_check clock
  conclude_upsert-Keeps p done s = (refl, refl, refl)
  conclude_upsert-Keeps p ip_locked s = (refl, refl, refl)
  conclude_upsert-Keeps p save_failed s = (refl, refl, refl)

  probe-Keeps :
      (p : Proxy) (trace : CloudflareTraceResult) (start : Time) (s : Crawler S N)
      → Keeps s (probe_candidate S N p trace start s)
  unfolding probe_candidate admit clock fail_candidate count_candidate count_check remember_failure
      blame
  probe-Keeps p trace start s = elim (Bool-cases (is_hijacked S N p s.fetcher)) [
    | inl bad ↦ rw (probe_candidate, bad) (refl, refl, refl)
    | inr good ↦ rw (probe_candidate, good) (conclude_upsert-Keeps p _ _)
  ]

  conclude-Keeps :
      (p : Proxy) (start : Time) (checked : Checked N) (s : Crawler S N)
      → Keeps s (conclude_validation S N p start checked s)
  unfolding conclude_validation fail_candidate count_candidate count_check remember_failure clock
  conclude-Keeps p start (unreachable e) s = (refl, refl, refl)
  conclude-Keeps p start no_address s = (refl, refl, refl)
  conclude-Keeps p start mismatch s = (refl, refl, refl)
  conclude-Keeps p start (traced trace) s = probe-Keeps p trace start s

  validate-Keeps : (c : CheckSettings) (p : Proxy) (s : Crawler S N) → Keeps s (validate S N c p s)
  unfolding validate clock
  validate-Keeps c p s = conclude-Keeps p _ _ _

  -- The body of a round that claimed its key.
  body-Keeps :
      (c : CheckSettings) (p : Proxy) (s : Crawler S N)
      → let (s', due) = screen S N p s in Keeps s (if due then validate S N c p s' else s')
  body-Keeps c p s =
      let (s', due) = screen S N p s in
      let (a, b, d) = screen-Keeps p s in
      let (a', b', d') = validate-Keeps c p s' in
      elim (Bool-cases due) [ inl on ↦ rw on (a' ∙ a, b' ∙ b, d' ∙ d) | inr off ↦ rw off (a, b, d) ]

  -- The queued keys with their count, and both without a key.
  abbrev pub queued : Crawler S N → List Text × ℕ
  queued s = (s.candidates.queued, s.candidates.queued_count)

  abbrev pub release_queued : Text → List Text × ℕ → List Text × ℕ
  release_queued u (us, n) = if contains u us then (remove_key u us, n - 1) else (us, n)

  release-lem :
      (u : Text) (s : Crawler S N)
      → let s' = release_candidate S N u s in
        (s'.pending_validate ≡ remove_key u s.pending_validate)
        × (queued s' ≡ release_queued u (queued s))
  unfolding release_candidate
  release-lem u s = elim (Bool-cases (contains u s.candidates.queued)) [
    | inl there ↦ rw (release_candidate, there) (refl, refl)
    | inr absent' ↦ rw (release_candidate, absent') (refl, refl)
  ]

  -- A round of a validator leaves the pending keys as they were, whether the job was a duplicate, was
  -- passed over or was checked. Of a job whose key was not pending, the URI is no longer among the queued
  -- ones, and the count of these went down by one if it was; for a duplicate both are as they were.
  pub validator_round-releases :
      (c : CheckSettings) (job : Proxy) (s : Crawler S N)
      → let u = uri (record job { ip = trim_space job.ip }) in
        let s' = validator_round S N c job s in
        (s'.pending_validate ≡ s.pending_validate)
        × (queued s'
            ≡ (if contains u s.pending_validate then queued s else release_queued u (queued s)))
  unfolding validator_round claim_candidate
  validator_round-releases c job s =
      let p = record job { ip = trim_space job.ip } in
      let u = uri p in
      elim (Bool-cases (contains u s.pending_validate)) [
        | inl duplicate ↦ rw (validator_round, claim_candidate, duplicate) (refl, refl)
        | inr free ↦
            let s1 : Crawler S N = record s { pending_validate = u ∷ s.pending_validate } in
            let (s2, due) = screen S N p s1 in
            let body : Crawler S N = if due then validate S N c p s2 else s2 in
            let (same, same', same2) = body-Keeps c p s1 in
            let (freed, freed') = release-lem u body in
            rw (validator_round, claim_candidate, free)
              (
                freed
                    ∙ ap (remove_key u) same
                    ∙ remove_key-cons u s.pending_validate
                    ∙ remove_key-absent u s.pending_validate free,
                freed'
                    ∙ ap (λ q. release_queued u (q, body.candidates.queued_count)) same'
                    ∙ ap (λ n. release_queued u (s.candidates.queued, n)) same2,
              )
      ]
