-- ===== src/Upstream/Outcome.antt =====
-- The counters after the attempts of a request: all of them settled, but for one that is under way.
use proxy_in_a_box.Prelude.{
  ℕ, zero, suc, ◌*◌, ◌≡◌, refl, sym, ap, subst, ◌∙◌, ◌⊎◌, inl, inr, false, Bool-cases, Option, none,
  some, Option-cases, Text, ◌==◌, arith,
}
use proxy_in_a_box.Prelude.Int.{ℤ}
use proxy_in_a_box.Upstream.{
  Counters, add_total, add_failed, count_upstream, to_lower, upstream_attempt_limit, Request,
  Dialled, connected, deadline_error, dial_error, Network,
}
use proxy_in_a_box.Upstream.Handlers.{
  State, schedule, next_proxy, report_target_failure, report_proxy_failure, counting, dial_failed,
  is_connected, target_key, tunnel_attempts, replay_attempts,
}
use proxy_in_a_box.Upstream.Balance.{
  IsBalanced, IsPending, add_total-IsPending, add_failed-IsBalanced,
}

-- A counter per request is no counter of an upstream.
requests-count_upstream :
    (scheme : Text) (f : _) (c : Counters) → (count_upstream scheme f c).requests ≡ c.requests
unfolding count_upstream
requests-count_upstream scheme f c = refl

module _ (N : Network) where
  counters-schedule :
      (n : ℕ) (r : Request) (s : State N) → (schedule N n r s).0.counters ≡ s.counters
  unfolding schedule
  counters-schedule zero r s = refl
  counters-schedule (suc n) r s =
      let s' = record s { world = (N.scheduler r s.world).0 } in
      ground (arith, counters-schedule n r s')

  -- Attempts leave the counters balanced, but for the one that is under way.
  abbrev pub Outcome : State N → State N × Option Text → Type 0
  Outcome s t =
      (t.0.counters.requests ≡ s.counters.requests)
      × (((t.1 ≡ none) × IsBalanced t.0.counters)
          ⊎ ((scheme : Text) × (t.1 ≡ some scheme) × IsPending scheme t.0.counters))

  counters-dial_failed :
      (u target scheme : Text) (d : Dialled) (s : State N)
      → is_connected N d ≡ false
      → (dial_failed N u target scheme d s).counters ≡ count_upstream scheme add_failed s.counters
  unfolding dial_failed
  counters-dial_failed u target scheme connected s e = cc
  counters-dial_failed u target scheme deadline_error s e = refl
  counters-dial_failed u target scheme (dial_error none) s e = refl
  counters-dial_failed u target scheme (dial_error (some status)) s e = ground arith

  pub tunnel_attempts-Outcome :
      (n : ℕ) (configured : ℤ) (r : Request) (s : State N)
      → IsBalanced s.counters
      → Outcome s (tunnel_attempts N n configured r s)
  unfolding tunnel_attempts next_proxy
  tunnel_attempts-Outcome zero configured r s h = (refl, inl (refl, h))
  tunnel_attempts-Outcome (suc n) configured r s h =
      let s' = (next_proxy N configured r s).0 in
      let same : s'.counters ≡ s.counters =
        counters-schedule (upstream_attempt_limit configured * 2) r s in
      let h' : IsBalanced s'.counters = subst IsBalanced (sym same) h in
      elim (Option-cases (schedule N (upstream_attempt_limit configured * 2) r s).1) [
        | inl failed ↦
            rw (tunnel_attempts, next_proxy, failed) (ap (λ c. c.requests) same, inl (refl, h'))
        | inr (u, chosen) ↦ elim (Option-cases (N.parse u)) [
          | inl unread ↦
              let s'' = report_target_failure N u (target_key N r) s' in
              let (keep, rest) = tunnel_attempts-Outcome n configured r s'' h' in
              rw (tunnel_attempts, next_proxy, chosen, unread)
                (keep ∙ ap (λ c. c.requests) same, rest)
          | inr (scheme, read) ↦
              let counted = counting N (count_upstream scheme add_total) s' in
              let (w, result) = N.dial u r s'.world in
              let s'' = record counted { world = w } in
              let one = add_total-IsPending scheme s'.counters h' in
              let kept =
                requests-count_upstream scheme add_total s'.counters ∙ ap (λ c. c.requests) same in
              elim (Bool-cases (is_connected N result)) [
                | inl up ↦
                    rw (tunnel_attempts, next_proxy, chosen, read, up)
                      (kept, inr (scheme, refl, one))
                | inr down ↦
                    let t = dial_failed N u (target_key N r) scheme result s'' in
                    let after = counters-dial_failed u (target_key N r) scheme result s'' down in
                    let (keep, rest) = tunnel_attempts-Outcome n configured r t (
                      subst IsBalanced (sym after)
                        (add_failed-IsBalanced scheme s''.counters one)) in
                    rw (tunnel_attempts, next_proxy, chosen, read, down)
                      (
                        keep
                            ∙ ap (λ c. c.requests) after
                            ∙ requests-count_upstream scheme add_failed s''.counters
                            ∙ kept,
                        rest,
                      )
              ]
        ]
      ]

  pub replay_attempts-Outcome :
      (n : ℕ) (configured : ℤ) (r : Request) (s : State N)
      → IsBalanced s.counters
      → Outcome s (replay_attempts N n configured r s)
  unfolding replay_attempts next_proxy
  replay_attempts-Outcome zero configured r s h = (refl, inl (refl, h))
  replay_attempts-Outcome (suc n) configured r s h =
      let s' = (next_proxy N configured r s).0 in
      let same : s'.counters ≡ s.counters =
        counters-schedule (upstream_attempt_limit configured * 2) r s in
      let h' : IsBalanced s'.counters = subst IsBalanced (sym same) h in
      elim (Option-cases (schedule N (upstream_attempt_limit configured * 2) r s).1) [
        | inl failed ↦
            rw (replay_attempts, next_proxy, failed) (ap (λ c. c.requests) same, inl (refl, h'))
        | inr (u, chosen) ↦ elim (Option-cases (N.parse u)) [
          | inl unread ↦
              let s'' = report_target_failure N u r.host s' in
              let (keep, rest) = replay_attempts-Outcome n configured r s'' h' in
              rw (replay_attempts, next_proxy, chosen, unread)
                (keep ∙ ap (λ c. c.requests) same, rest)
          | inr (parsed, read) ↦
              let scheme = to_lower parsed in
              let counted = counting N (count_upstream scheme add_total) s' in
              let (w, response) = N.send u r s'.world in
              let sent = record counted { world = w } in
              let failed = counting N (count_upstream scheme add_failed) sent in
              let one = add_total-IsPending scheme s'.counters h' in
              let settled = add_failed-IsBalanced scheme sent.counters one in
              let kept =
                requests-count_upstream scheme add_total s'.counters ∙ ap (λ c. c.requests) same in
              let kept' = requests-count_upstream scheme add_failed sent.counters ∙ kept in
              elim (Option-cases response) [
                | inl none' ↦
                    let t = report_target_failure N u r.host failed in
                    let (keep, rest) = replay_attempts-Outcome n configured r t settled in
                    rw (replay_attempts, next_proxy, chosen, read, none') (keep ∙ kept', rest)
                | inr (status, got) ↦ elim (Bool-cases (status == 407)) [
                  | inl refused ↦
                      let t = report_target_failure N u r.host (report_proxy_failure N u failed) in
                      let (keep, rest) = replay_attempts-Outcome n configured r t settled in
                      rw (replay_attempts, next_proxy, chosen, read, got, refused)
                        (keep ∙ kept', rest)
                  | inr passed ↦
                      rw (replay_attempts, next_proxy, chosen, read, got, passed)
                        (kept, inr (scheme, refl, one))
                ]
              ]
        ]
      ]
