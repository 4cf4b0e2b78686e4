-- ===== src/Admission/Queueing.antt =====
-- The loop that queues the candidates of a source (`enqueueSourceCandidates`).
use proxy_in_a_box.Prelude.{
  ℕ, zero, suc, ◌+◌, ◌≤◌, ◌≡◌, refl, ap, ◌∙◌, ◌⊎◌, inl, inr, Bool, true, false, Bool-cases, not,
  ◌||◌, List, [], ◌∷◌, ◌++◌, Text, Map, lookup-insert_self, length, length-append, Time, arith,
}
use proxy_in_a_box.Prelude.Int.{ℤ, pos, negsuc}
use proxy_in_a_box.Endpoint.{Proxy, uri}
use proxy_in_a_box.Pool.{has_proxy}
use proxy_in_a_box.Scheduling.{contains}
use proxy_in_a_box.Store.{Store}
use proxy_in_a_box.Lifecycle.{is_ip_locked, is_proxy_validation_due}
use proxy_in_a_box.Admission.{
  SourceCandidateCounter, configured_max_candidates_per_fetch, source_candidate_limit, counter_at,
  source_key, update_source_candidate_counter, is_due, Candidates, prepared, counting, add_filtered,
  add_duplicate, add_admitted, add_capped, consider, enqueue_loop, enqueue_source_candidates,
}

-- The limit of a source stays between 1 and 10000, and never exceeds the configured one.
pub source_candidate_limit-bounds :
    (configured : ℤ) (c : SourceCandidateCounter)
    → (1 ≤ source_candidate_limit configured c)
      × (source_candidate_limit configured c ≤ configured_max_candidates_per_fetch configured)
      × (configured_max_candidates_per_fetch configured ≤ 10000)
unfolding source_candidate_limit configured_max_candidates_per_fetch
source_candidate_limit-bounds (pos n) c = ground arith
source_candidate_limit-bounds (negsuc n) c = ground arith

-- What the counter of a source says about the candidates it has offered.
abbrev pub offered : SourceCandidateCounter → ℕ
offered c = c.admitted + c.capped + c.filtered + c.duplicate

counter_at-update :
    (source : Text) (f : SourceCandidateCounter → SourceCandidateCounter)
    → (m : Map SourceCandidateCounter)
    → counter_at (source_key source) (update_source_candidate_counter source f m)
      ≡ f (counter_at (source_key source) m)
unfolding counter_at update_source_candidate_counter
counter_at-update source f m =
    ground (arith, lookup-insert_self (source_key source) (f (counter_at (source_key source) m)) m)

module _ (S : Store) where
  abbrev pub counter : Text → Candidates S → SourceCandidateCounter
  counter source s = counter_at (source_key source) s.counters

  -- What one candidate changes: it is counted once, and is a job if it was admitted.
  abbrev pub Considered : Text → Proxy → Candidates S → Candidates S → Bool → Type 0
  Considered source p s s' admitted =
      (offered (counter source s') ≡ offered (counter source s) + 1)
      × (((admitted ≡ true)
            × (s'.jobs ≡ s.jobs ++ p ∷ [])
            × ((counter source s').admitted ≡ (counter source s).admitted + 1))
          ⊎ ((admitted ≡ false)
              × (s'.jobs ≡ s.jobs)
              × ((counter source s').admitted ≡ (counter source s).admitted)))

  turned_away :
      (source : Text) (p : Proxy) (s s' : Candidates S)
      → s'.jobs ≡ s.jobs
      → (s'.counters ≡ update_source_candidate_counter source (add_filtered S) s.counters)
        ⊎ (s'.counters ≡ update_source_candidate_counter source (add_duplicate S) s.counters)
      → Considered source p s s' false
  turned_away source p s s' same (inl e) =
      let at =
        ap (counter_at (source_key source)) e
        ∙ counter_at-update source (add_filtered S) s.counters in
      (ground (arith, at), inr (refl, same, ap (λ c. c.admitted) at))
  turned_away source p s s' same (inr e) =
      let at =
        ap (counter_at (source_key source)) e
        ∙ counter_at-update source (add_duplicate S) s.counters in
      (ground (arith, at), inr (refl, same, ap (λ c. c.admitted) at))

  consider-Considered :
      (source : Text) (t : Time × Time × Time) (p : Proxy) (s : Candidates S)
      → let (s', admitted) = consider S source t p s in
        Considered source (prepared S source p) s s' admitted
  unfolding consider
  consider-Considered source (t, t', t'') candidate s =
      let p = prepared S source candidate in
      let u = uri p in
      let away = λ (s' : Candidates S). turned_away source p s s' in
      let c = (is_ip_locked S t p.ip s.cache).0 in
      let due = is_proxy_validation_due S t' u c in
      let admitted = counter_at-update source (add_admitted S) s.counters in
      elim (Bool-cases (is_ip_locked S t p.ip s.cache).1) [
        | inl shut ↦
            rw (consider, shut) (away (counting S source (add_filtered S) s) refl (inl refl))
        | inr free ↦ elim (Bool-cases (has_proxy u c.proxies)) [
          | inl known ↦
              rw (consider, free, known)
                (away (counting S source (add_filtered S) s) refl (inl refl))
          | inr new ↦ elim (Bool-cases (not due.1 || not (is_due u t'' s.failures))) [
            | inl early ↦
                rw (consider, free, new, early)
                  (away (counting S source (add_filtered S) s) refl (inl refl))
            | inr ready ↦ elim (Bool-cases (contains u s.queued)) [
              | inl again ↦
                  rw (consider, free, new, ready, again)
                    (away (counting S source (add_duplicate S) s) refl (inr refl))
              | inr first ↦
                  rw (consider, free, new, ready, first)
                    (ground (arith, admitted), inl (refl, refl, ap (λ x. x.admitted) admitted))
            ]
          ]
        ]
      ]

  counter-capped :
      (source : Text) (n : ℕ) (s : Candidates S)
      → let s' = counting S source (add_capped S n) s in
        (offered (counter source s') ≡ offered (counter source s) + n)
        × ((counter source s').admitted ≡ (counter source s).admitted)
  counter-capped source n s =
      let at = counter_at-update source (add_capped S n) s.counters in
      (ground (arith, at), ap (λ c. c.admitted) at)

  enqueue_loop-accounts :
      (source : Text) (limit : ℕ) (xs : List ((Time × Time × Time) × Proxy)) (s : Candidates S)
      → let s' = enqueue_loop S source limit xs s in
        (offered (counter source s') ≡ offered (counter source s) + length xs)
        × ((counter source s').admitted ≤ (counter source s).admitted + limit)
        × (length s'.jobs + (counter source s).admitted
            ≡ length s.jobs + (counter source s').admitted)
  unfolding enqueue_loop
  enqueue_loop-accounts source zero [] s = (omega arith, omega arith, refl)
  enqueue_loop-accounts source (suc limit) [] s = (omega arith, omega arith, refl)
  enqueue_loop-accounts source zero (x ∷ xs) s =
      let capped = counter-capped source (length (x ∷ xs)) s in
      (capped.0, omega (arith, capped), omega (arith, capped))
  enqueue_loop-accounts source (suc limit) ((t, p) ∷ xs) s =
      let s' = (consider S source t p s).0 in
      let (once, cases) = consider-Considered source t p s in
      elim cases [
        | inl (yes', job, more) ↦
            let rest = enqueue_loop-accounts source limit xs s' in
            let longer = ap length job ∙ length-append s.jobs _ in
            rw (enqueue_loop, yes')
              (
                omega (arith, rest, once),
                omega (arith, rest, more),
                omega (arith, rest, more, longer),
              )
        | inr (no', same, kept) ↦
            let rest = enqueue_loop-accounts source (suc limit) xs s' in
            let long = ap length same in
            rw (enqueue_loop, no')
              (
                omega (arith, rest, once),
                omega (arith, rest, kept),
                omega (arith, rest, kept, long),
              )
      ]

  -- Every candidate of a fetch is counted once: as admitted, capped, filtered or duplicate. At most
  -- as many as the configured limit, and never more than 10000, are admitted, and each of those is
  -- one job for the validators.
  pub enqueue_source_candidates-accounts :
      (configured : ℤ) (source : Text) (xs : List ((Time × Time × Time) × Proxy))
      → (s : Candidates S)
      → let s' = enqueue_source_candidates S configured source xs s in
        let c = counter source s in
        let c' = counter source s' in
        (offered c' ≡ offered c + length xs)
        × (c'.admitted ≤ c.admitted + configured_max_candidates_per_fetch configured)
        × (configured_max_candidates_per_fetch configured ≤ 10000)
        × (length s'.jobs + c.admitted ≡ length s.jobs + c'.admitted)
  unfolding enqueue_source_candidates
  enqueue_source_candidates-accounts configured source xs s =
      let c = counter_at source s.counters in
      let (total, few, jobs) =
        enqueue_loop-accounts source (source_candidate_limit configured c) xs s in
      let bounds = source_candidate_limit-bounds configured c in
      (total, omega (arith, few, bounds), bounds.2, jobs)
