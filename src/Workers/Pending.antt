-- ===== src/Workers/Pending.antt =====
-- Keys of pending work: what is claimed is released.
use proxy_in_a_box.Prelude.{
  ℕ, ◌≡◌, refl, sym, ap, ◌∙◌, Bool, true, false, Bool-cases, inl, inr, Option, Option-cases, ite,
  if_pos, if_neg, ◌+◌, ◌⊎◌, length, ◌==◌, List, [], ◌∷◌, ◌++◌, Text, text_dec, if◌then◌else◌,
  reject, arith,
}
use proxy_in_a_box.Prelude.Int.{ℤ}
use proxy_in_a_box.Scheduling.{contains}
use proxy_in_a_box.Endpoint.{Proxy, uri}
use proxy_in_a_box.Store.{Store}
use proxy_in_a_box.Lifecycle.{is_ip_locked}
use proxy_in_a_box.Fetch.Requests.{Web}
use proxy_in_a_box.Workers.State.{
  CheckSettings, Checked, unreachable, no_address, mismatch, traced, Crawler, remove_key, clock,
  count_check, remember_failure, blame, is_locked,
}
use proxy_in_a_box.Workers.Routine.{
  record_health_check_failure, pass_check, deep_check, conclude_check, check_health, release_check,
  checker_round, next_check, get_delay, queue_check, queue_checks, verify,
}

-- Removal of a key that is not there.
pub remove_key-absent : (u : Text) (us : List Text) → contains u us ≡ false → remove_key u us ≡ us
unfolding contains reject
remove_key-absent u [] h = refl
remove_key-absent u (v ∷ us) h = ground (arith, remove_key-absent u us)

pub contains-remove_key :
    (v u : Text) (us : List Text)
    → contains v (remove_key u us) ≡ ite (text_dec u v) false (contains v us)
unfolding contains reject
contains-remove_key v u [] = ground arith
contains-remove_key v u (w ∷ us) = ground (arith, contains-remove_key v u us)

pub remove_key-cons : (u : Text) (us : List Text) → remove_key u (u ∷ us) ≡ remove_key u us
unfolding reject
remove_key-cons u us = ground arith

module _ (S : Store) (N : Web) where
  -- The part of the state that a check does not touch.
  abbrev Keeps : Crawler S N → Crawler S N → Type 0
  Keeps s s' = (s'.pending_verify ≡ s.pending_verify) × (s'.verify_jobs ≡ s.verify_jobs)

  health_failure-Keeps :
      (p : Proxy) (s : Crawler S N) → Keeps s (record_health_check_failure S N p s)
  unfolding record_health_check_failure count_check remember_failure blame clock
  health_failure-Keeps p s = (refl, refl)

  pass_check-Keeps :
      (p : Proxy) (delay : ℤ) (deep : Bool) (s : Crawler S N)
      → Keeps s (pass_check S N p delay deep s)
  unfolding pass_check count_check clock
  pass_check-Keeps p delay deep s = (refl, refl)

  deep_check-Keeps :
      (c : CheckSettings) (p : Proxy) (delay : ℤ) (s : Crawler S N)
      → Keeps s (deep_check S N c p delay s)
  unfolding deep_check clock record_health_check_failure count_check remember_failure blame
      pass_check
  deep_check-Keeps c p delay s = ground arith

  conclude_check-Keeps :
      (c : CheckSettings) (p : Proxy) (delay : ℤ) (checked : Checked N) (s : Crawler S N)
      → Keeps s (conclude_check S N c p delay checked s)
  unfolding conclude_check record_health_check_failure count_check remember_failure blame clock
  conclude_check-Keeps c p delay (unreachable e) s = (refl, refl)
  conclude_check-Keeps c p delay no_address s = (refl, refl)
  conclude_check-Keeps c p delay mismatch s = (refl, refl)
  conclude_check-Keeps c p delay (traced trace) s = deep_check-Keeps c p delay s

  check_health-Keeps :
      (c : CheckSettings) (p : Proxy) (s : Crawler S N) → Keeps s (check_health S N c p s)
  unfolding check_health clock
  check_health-Keeps c p s = conclude_check-Keeps c p _ _ _

  checker_round-pending :
      (c : CheckSettings) (p : Proxy) (s : Crawler S N)
      → ((checker_round S N c p s).pending_verify ≡ remove_key (uri p) s.pending_verify)
        × ((checker_round S N c p s).verify_jobs ≡ s.verify_jobs)
  unfolding checker_round release_check is_locked clock
  checker_round-pending c p s =
      let (w, t) = N.now s.fetcher.world in
      elim (Bool-cases (is_ip_locked S t p.ip s.candidates.cache).1) [
        | inl locked ↦ rw locked (refl, refl)
        | inr free ↦ rw free (
            let (kept, kept') = check_health-Keeps c p (is_locked S N p.ip s).0 in
            (ap (remove_key (uri p)) kept, kept'))
      ]

-- How often a URI is among the jobs.
abbrev pub jobs_for : Text → List Proxy → ℕ
jobs_for v [] = 0
jobs_for v (p ∷ ps) = ite (text_dec (uri p) v) 1 0 + jobs_for v ps

jobs_for-append :
    (v : Text) (ps : List Proxy) (p : Proxy)
    → jobs_for v (ps ++ p ∷ []) ≡ jobs_for v ps + ite (text_dec (uri p) v) 1 0
jobs_for-append v [] p = omega arith
jobs_for-append v (q ∷ ps) p = omega (arith, jobs_for-append v ps p)

released :
    {A : Type 0} (d : Dec A) (n : ℕ) (b : Bool)
    → (if n == 0 then ite d false b else false) ≡ (if ite d 1 0 + n == 0 then b else false)
released (yes h) n b = ground arith
released (no h) n b = ground arith

module _ (S : Store) (N : Web) (c : CheckSettings) where
  -- The loop, as long as there are jobs, gives back the keys of all of them.
  get_delay-releases :
      (v : Text) (ps : List Proxy) (s : Crawler S N)
      → s.verify_jobs ≡ ps
      → ((get_delay S N c (length ps) s).verify_jobs ≡ [])
        × (contains v (get_delay S N c (length ps) s).pending_verify
            ≡ (if jobs_for v ps == 0 then contains v s.pending_verify else false))
  unfolding get_delay next_check
  get_delay-releases v [] s e = (e, refl)
  get_delay-releases v (p ∷ ps) s e =
      let s' : Crawler S N = record s { verify_jobs = ps } in
      let (freed, kept) = checker_round-pending S N c p s' in
      let (done', rest) = get_delay-releases v ps (checker_round S N c p s') kept in
      let freed' = ap (contains v) freed ∙ contains-remove_key v (uri p) s.pending_verify in
      let rest' = rw freed' at rest in
      rw (get_delay, next_check, e)
        (done', rest' ∙ released (text_dec (uri p) v) (jobs_for v ps) (contains v s.pending_verify))

-- What queueing does to the jobs for a URI and to its key: `n` new jobs.
abbrev Queues : Text → ℕ → List Text → List Proxy → List Text → List Proxy → Type 0
Queues v n pending jobs pending' jobs' =
    (jobs_for v jobs' ≡ jobs_for v jobs + n)
    × (((n ≡ 0) × (contains v pending' ≡ contains v pending))
        ⊎ ((n ≡ 1) × (contains v pending ≡ false) × (contains v pending' ≡ true)))

module _ (S : Store) (N : Web) (still : S.Db → Proxy → Option Bool) (v : Text) where
  queue_check-Queues :
      (p : Proxy) (s : Crawler S N)
      → let s' = queue_check S N still p s in
        (n : ℕ) × Queues v n s.pending_verify s.verify_jobs s'.pending_verify s'.verify_jobs
  unfolding queue_check release_check contains
  queue_check-Queues p s = elim (Bool-cases (contains (uri p) s.pending_verify)) [
    | inl pending ↦ rw (queue_check, pending) (0, (omega arith, inl (refl, refl)))
    | inr new ↦
        let freed =
          remove_key-cons (uri p) s.pending_verify
          ∙ remove_key-absent (uri p) s.pending_verify new in
        elim (Option-cases (still s.candidates.cache.db p)) [
          | inl failed ↦
              rw (queue_check, new, failed, release_check)
                (0, (omega arith, inl (refl, ap (contains v) freed)))
          | inr (due, answer) ↦ elim (Bool-cases due) [
            | inr fresh ↦
                rw (queue_check, new, answer, fresh, release_check)
                  (0, (omega arith, inl (refl, ap (contains v) freed)))
            | inl stale ↦
                rw (queue_check, new, answer, stale)
                  (elim (text_dec (uri p) v) [
                    | yes here ↦ (
                      1,
                      (
                        jobs_for-append v s.verify_jobs p
                            ∙ ap (λ n. jobs_for v s.verify_jobs + n)
                                (if_pos (text_dec (uri p) v) here 1 0),
                        inr (
                          refl,
                          ap (λ x. contains x s.pending_verify) (sym here) ∙ new,
                          if_pos (text_dec (uri p) v) here _ _,
                        ),
                      ),
                    )
                    | no other ↦ (
                      0,
                      (
                        jobs_for-append v s.verify_jobs p
                            ∙ ap (λ n. jobs_for v s.verify_jobs + n)
                                (if_neg (text_dec (uri p) v) other 1 0),
                        inl (refl, if_neg (text_dec (uri p) v) other _ _),
                      ),
                    )
                  ])
          ]
        ]
  ]

  queue_checks-Queues :
      (ps : List Proxy) (s : Crawler S N)
      → let s' = queue_checks S N still ps s in
        (n : ℕ) × Queues v n s.pending_verify s.verify_jobs s'.pending_verify s'.verify_jobs
  unfolding queue_checks
  queue_checks-Queues [] s = (0, (omega arith, inl (refl, refl)))
  queue_checks-Queues (p ∷ ps) s =
      let s' = queue_check S N still p s in
      let (n, (more, key)) = queue_check-Queues p s in
      let (m, (more', key')) = queue_checks-Queues ps s' in
      elim key [
        | inl (none', same) ↦ (
          m,
          (
            omega (arith, more, more', none'),
            elim key' [
              | inl (none2, same') ↦ inl (none2, same' ∙ same)
              | inr (one, new, there) ↦ inr (one, sym same ∙ new, there)
            ],
          ),
        )
        | inr (one, new, there) ↦ elim key' [
          | inl (none2, same') ↦
              (1, (omega (arith, more, more', one, none2), inr (refl, new, same' ∙ there)))
          | inr (one', new', there') ↦ absurd (ground (arith, there, new'))
        ]
      ]

  verify-Queues :
      (unverified : S.Db → Option (List Proxy)) (s : Crawler S N)
      → let s' = verify S N unverified still s in
        (n : ℕ) × Queues v n s.pending_verify s.verify_jobs s'.pending_verify s'.verify_jobs
  unfolding verify
  verify-Queues unverified s = elim (Option-cases (unverified s.candidates.cache.db)) [
    | inl failed ↦ rw (verify, failed) (0, (omega arith, inl (refl, refl)))
    | inr (ps, answer) ↦ rw (verify, answer) (queue_checks-Queues ps s)
  ]

-- `Verify` queues at most one job for a URI, and none while the key of the URI is pending. When a
-- checker has then gone through all jobs, whatever it met on the way, no job is left and the keys of the
-- jobs are released: a URI is pending exactly when it was before and had no job.
pub verify-released :
    (S : Store) (N : Web) (c : CheckSettings) (unverified : S.Db → Option (List Proxy))
    (still : S.Db → Proxy → Option Bool) (s : Crawler S N) (v : Text)
    → let s' = verify S N unverified still s in
      let s2 = get_delay S N c (length s'.verify_jobs) s' in
      ((n : ℕ) × (jobs_for v s'.verify_jobs ≡ jobs_for v s.verify_jobs + n)
        × ((n ≡ 0) ⊎ ((n ≡ 1) × (contains v s.pending_verify ≡ false))))
      × (s2.verify_jobs ≡ [])
      × (contains v s2.pending_verify
          ≡ (if jobs_for v s.verify_jobs == 0 then contains v s.pending_verify else false))
verify-released S N c unverified still s v =
    let s' = verify S N unverified still s in
    let (n, (more, key)) = verify-Queues S N still v unverified s in
    let (done', freed) = get_delay-releases S N c v s'.verify_jobs s' refl in
    elim key [
      | inl (none', same) ↦ ((n, more, inl none'), done', freed ∙ ground (arith, more, none', same))
      | inr (one, new, there) ↦
          ((n, more, inr (one, new)), done', freed ∙ ground (arith, more, one, new, there))
    ]
