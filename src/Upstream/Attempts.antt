-- ===== src/Upstream/Attempts.antt =====
-- How often a request goes out, and through which upstreams (`nextProxy`, `tunnelHTTPS`,
-- `replayRequest`).
use proxy_in_a_box.Prelude.{
  ℕ, zero, suc, ◌+◌, ◌*◌, ◌≤◌, ◌≡◌, refl, ◌∙◌, ap, ◌⊎◌, inl, inr, false, ◌||◌, Bool-cases, none,
  some, Option-cases, ite, List, [], ◌∷◌, Text, text_dec, length, ◌==◌, if◌then◌else◌, arith,
}
use proxy_in_a_box.Prelude.Int.{ℤ, pos, negsuc}
use proxy_in_a_box.Scheduling.{contains}
use proxy_in_a_box.Upstream.{
  add_total, add_failed, count_upstream, to_lower, upstream_attempt_limit, Request,
  is_safe_to_retry, Dialled, connected, deadline_error, dial_error, Network,
}
use proxy_in_a_box.Upstream.Handlers.{
  State, schedule, next_proxy, report_target_failure, report_proxy_failure, counting, dial_failed,
  is_connected, target_key, tunnel_attempts, tunnel_https, replay_attempts, replay_limit,
  replay_request,
}

-- The configured limit, between 1 and 10.
pub upstream_attempt_limit-bounds :
    (configured : ℤ)
    → (1 ≤ upstream_attempt_limit configured) × (upstream_attempt_limit configured ≤ 10)
unfolding upstream_attempt_limit
upstream_attempt_limit-bounds (pos n) = ground arith
upstream_attempt_limit-bounds (negsuc n) = ground arith

abbrev pub times : Text → List Text → ℕ
times v [] = 0
times v (u ∷ us) = ite (text_dec u v) 1 0 + times v us

-- A log of the upstreams that requests went out through, kept by the world: a dial and a send add
-- one entry, and nothing else that a handler calls adds any.
pub record Logs (N : Network) (log : N.World → List Text) : Type 0 where
  pub log-scheduler : (r : Request) (w : N.World) → log (N.scheduler r w).0 ≡ log w
  pub log-dial : (u : Text) (r : Request) (w : N.World) → log (N.dial u r w).0 ≡ u ∷ log w
  pub log-send : (u : Text) (r : Request) (w : N.World) → log (N.send u r w).0 ≡ u ∷ log w
  pub log-proxy_failure : (u : Text) (w : N.World) → log (N.on_proxy_failure u w) ≡ log w
  pub log-target_failure :
      (u target : Text) (w : N.World) → log (N.on_proxy_target_failure u target w) ≡ log w
  pub log-hijack : (w : N.World) → log (N.hijack w).0 ≡ log w

module _ (N : Network) (log : N.World → List Text) (L : Logs N log) where
  -- An upstream that is scheduled was not tried before, and is from now on.
  schedule-new :
      (n : ℕ) (r : Request) (s : State N)
      → let (s', chosen) = schedule N n r s in
        (log s'.world ≡ log s.world)
        × ((chosen ≡ none)
            ⊎ ((u : Text) × (chosen ≡ some u)
                × (contains u s.tried ≡ false)
                × (s'.tried ≡ u ∷ s.tried)))
  unfolding schedule
  schedule-new zero r s = (refl, inl refl)
  schedule-new (suc n) r s = elim (Option-cases (N.scheduler r s.world).1) [
    | inl failed ↦ rw (schedule, failed) (L.log-scheduler r s.world, inl refl)
    | inr (u, answer) ↦ elim (Bool-cases (contains u s.tried)) [
      | inl again ↦
          let s' = record s { world = (N.scheduler r s.world).0 } in
          let (same, rest) = schedule-new n r s' in
          rw (schedule, answer, again) (same ∙ L.log-scheduler r s.world, rest)
      | inr new ↦ rw (schedule, answer, new) (L.log-scheduler r s.world, inr (u, refl, new, refl))
    ]
  ]

  -- From `s` to `s'` at most `n` requests went out, no upstream that was tried before `s` was used,
  -- and none was used twice.
  abbrev pub Within : ℕ → State N → State N → Type 0
  Within n s s' =
      (length (log s'.world) ≤ length (log s.world) + n)
      × ((v : Text)
          → times v (log s'.world) ≤ times v (log s.world) + (if contains v s.tried then 0 else 1))

  Within-same : (n : ℕ) (s s' : State N) → log s'.world ≡ log s.world → Within n s s'
  Within-same n s s' same = rw same (omega arith, λ v. omega arith)

  -- One use of a new upstream.
  Within-once :
      (n : ℕ) (u : Text) (s s' : State N)
      → contains u s.tried ≡ false
      → log s'.world ≡ u ∷ log s.world
      → Within (suc n) s s'
  unfolding contains
  Within-once n u s s' new used =
      rw used
        (omega arith, λ v. elim (text_dec u v) [ yes e ↦ ground (arith, e) | no e ↦ ground arith ])

  -- One attempt through a new upstream, and then the others.
  Within-attempt :
      (n : ℕ) (u : Text) (s s' s'' : State N)
      → contains u s.tried ≡ false
      → s'.tried ≡ u ∷ s.tried
      → (log s'.world ≡ log s.world) ⊎ (log s'.world ≡ u ∷ log s.world)
      → Within n s' s''
      → Within (suc n) s s''
  unfolding contains
  Within-attempt n u s s' s'' new tried (inl same) (few, rare) = (
    omega (arith, ap length same),
    λ v. ground (arith, new, rare v, ap (times v) same, ap (contains v) tried),
  )
  Within-attempt n u s s' s'' new tried (inr used) (few, rare) = (
    omega (arith, ap length used),
    λ v. elim (text_dec u v) [
      | yes e ↦ ground (arith, e, new, rare v, ap (times v) used, ap (contains v) tried)
      | no e ↦ ground (arith, rare v, ap (times v) used, ap (contains v) tried)
    ],
  )

  log-dial_failed :
      (u target scheme : Text) (d : Dialled) (s : State N)
      → (log (dial_failed N u target scheme d s).world ≡ log s.world)
        × ((dial_failed N u target scheme d s).tried ≡ s.tried)
  unfolding dial_failed
  log-dial_failed u target scheme connected s = (refl, refl)
  log-dial_failed u target scheme deadline_error s = (L.log-target_failure u target s.world, refl)
  log-dial_failed u target scheme (dial_error none) s =
      (L.log-target_failure u target s.world, refl)
  log-dial_failed u target scheme (dial_error (some status)) s =
      elim (Bool-cases ((status == 407) || (status == 403))) [
        | inl own ↦ rw own (
          L.log-target_failure u target (N.on_proxy_failure u s.world)
              ∙ L.log-proxy_failure u s.world,
          refl,
        )
        | inr other ↦ rw other (L.log-target_failure u target s.world, refl)
      ]

  tunnel_attempts-Within :
      (n : ℕ) (configured : ℤ) (r : Request) (s : State N)
      → Within n s (tunnel_attempts N n configured r s).0
  unfolding tunnel_attempts next_proxy
  tunnel_attempts-Within zero configured r s = Within-same 0 s s refl
  tunnel_attempts-Within (suc n) configured r s =
      let s' = (next_proxy N configured r s).0 in
      let (same, choice) = schedule-new (upstream_attempt_limit configured * 2) r s in
      elim choice [
        | inl failed ↦ rw (tunnel_attempts, next_proxy, failed) (Within-same (suc n) s s' same)
        | inr (u, chosen, new, tried) ↦ elim (Option-cases (N.parse u)) [
          | inl unread ↦
              let s'' = report_target_failure N u (target_key N r) s' in
              let kept = L.log-target_failure u (target_key N r) s'.world ∙ same in
              rw (tunnel_attempts, next_proxy, chosen, unread)
                (Within-attempt n u s s'' (tunnel_attempts N n configured r s'').0 new tried
                  (inl kept) (tunnel_attempts-Within n configured r s''))
          | inr (scheme, read) ↦
              let counted = counting N (count_upstream scheme add_total) s' in
              let (w, result) = N.dial u r s'.world in
              let s'' = record counted { world = w } in
              let used = L.log-dial u r s'.world ∙ ap (◌∷◌ u) same in
              elim (Bool-cases (is_connected N result)) [
                | inl up ↦
                    rw (tunnel_attempts, next_proxy, chosen, read, up)
                      (Within-once n u s s'' new used)
                | inr down ↦
                    let t = dial_failed N u (target_key N r) scheme result s'' in
                    let (kept, still) = log-dial_failed u (target_key N r) scheme result s'' in
                    rw (tunnel_attempts, next_proxy, chosen, read, down)
                      (Within-attempt n u s t (tunnel_attempts N n configured r t).0 new
                        (still ∙ tried) (inr (kept ∙ used))
                        (tunnel_attempts-Within n configured r t))
              ]
        ]
      ]

  -- Before the client has its answer, `tunnelHTTPS` dials at most as often as the limit says, 10
  -- times at most, and no upstream twice.
  pub tunnel_https-Within :
      (configured : ℤ) (r : Request) (s : State N)
      → let s' = (tunnel_https N configured r s).0 in
        (length (log s'.world) ≤ length (log s.world) + upstream_attempt_limit configured)
        × (upstream_attempt_limit configured ≤ 10)
        × ((v : Text) → times v (log s'.world) ≤ times v (log s.world) + 1)
  unfolding tunnel_https contains
  tunnel_https-Within configured r s =
      let limit = upstream_attempt_limit configured in
      let start = record s { tried = [] } in
      let (few, rare) = tunnel_attempts-Within limit configured r start in
      let (s', remote) = tunnel_attempts N limit configured r start in
      let bound = (upstream_attempt_limit-bounds configured).1 in
      elim (Option-cases remote) [
        | inl missing ↦ rw (tunnel_https, missing) (few, bound, rare)
        | inr (scheme, open') ↦ elim (Bool-cases (N.hijack s'.world).1) [
          | inl taken ↦
              rw (tunnel_https, open', taken) (rw (L.log-hijack s'.world) (few, bound, rare))
          | inr lost ↦
              rw (tunnel_https, open', lost) (rw (L.log-hijack s'.world) (few, bound, rare))
        ]
      ]

  replay_attempts-Within :
      (n : ℕ) (configured : ℤ) (r : Request) (s : State N)
      → Within n s (replay_attempts N n configured r s).0
  unfolding replay_attempts next_proxy
  replay_attempts-Within zero configured r s = Within-same 0 s s refl
  replay_attempts-Within (suc n) configured r s =
      let s' = (next_proxy N configured r s).0 in
      let (same, choice) = schedule-new (upstream_attempt_limit configured * 2) r s in
      elim choice [
        | inl failed ↦ rw (replay_attempts, next_proxy, failed) (Within-same (suc n) s s' same)
        | inr (u, chosen, new, tried) ↦ elim (Option-cases (N.parse u)) [
          | inl unread ↦
              let s'' = report_target_failure N u r.host s' in
              let kept = L.log-target_failure u r.host s'.world ∙ same in
              rw (replay_attempts, next_proxy, chosen, unread)
                (Within-attempt n u s s'' (replay_attempts N n configured r s'').0 new tried
                  (inl kept) (replay_attempts-Within n configured r s''))
          | inr (parsed, read) ↦
              let scheme = to_lower parsed in
              let counted = counting N (count_upstream scheme add_total) s' in
              let (w, response) = N.send u r s'.world in
              let sent = record counted { world = w } in
              let failed = counting N (count_upstream scheme add_failed) sent in
              let used = L.log-send u r s'.world ∙ ap (◌∷◌ u) same in
              elim (Option-cases response) [
                | inl none' ↦
                    let t = report_target_failure N u r.host failed in
                    rw (replay_attempts, next_proxy, chosen, read, none')
                      (Within-attempt n u s t (replay_attempts N n configured r t).0 new tried
                        (inr (L.log-target_failure u r.host w ∙ used))
                        (replay_attempts-Within n configured r t))
                | inr (status, got) ↦ elim (Bool-cases (status == 407)) [
                  | inl refused ↦
                      let t = report_target_failure N u r.host (report_proxy_failure N u failed) in
                      let kept =
                        L.log-target_failure u r.host (N.on_proxy_failure u w)
                        ∙ L.log-proxy_failure u w in
                      rw (replay_attempts, next_proxy, chosen, read, got, refused)
                        (Within-attempt n u s t (replay_attempts N n configured r t).0 new tried
                          (inr (kept ∙ used)) (replay_attempts-Within n configured r t))
                  | inr passed ↦
                      rw (replay_attempts, next_proxy, chosen, read, got, passed)
                        (Within-once n u s sent new used)
                ]
              ]
        ]
      ]

  -- `replayRequest` sends a request that is not safe to retry once at most, any other at most as
  -- often as the limit says, 10 times at most, and none through the same upstream twice.
  pub replay_request-Within :
      (configured : ℤ) (r : Request) (s : State N)
      → let s' = (replay_request N configured r s).0 in
        (length (log s'.world)
          ≤ length (log s.world)
            + (if is_safe_to_retry r then upstream_attempt_limit configured else 1))
        × (upstream_attempt_limit configured ≤ 10)
        × ((v : Text) → times v (log s'.world) ≤ times v (log s.world) + 1)
  unfolding replay_request contains
  replay_request-Within configured r s =
      let (few, rare) =
        replay_attempts-Within (replay_limit N configured r) configured r
          (record s { tried = [] }) in
      (few, (upstream_attempt_limit-bounds configured).1, rare)
