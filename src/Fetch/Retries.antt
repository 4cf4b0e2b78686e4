-- ===== src/Fetch/Retries.antt =====
-- How often a request goes out, and what a body that comes back can be.
use proxy_in_a_box.Prelude.{
  ℕ, zero, suc, ◌+◌, ◌≤◌, ◌<◌, ◌≡◌, refl, ◌∙◌, ◌⊎◌, inl, inr, Bool-cases, Option, none, some,
  Option-cases, List, [], if◌then◌else◌, Text, length, ltb, Duration, arith,
}
use proxy_in_a_box.RateLimit.{AttemptRateLimiter, reserve}
use proxy_in_a_box.Fetch.Requests.{
  Outgoing, Web, FetchError, Fetcher, Reply, wait, wait_for_validation_attempt,
  count_direct_attempt, accept_body, exchange, prepare_attempt, fetch_loop, get_url,
  record_network_attempt, count_wait, record_network_response_bytes,
}

-- A count of the requests that went out, kept by the world.
pub record Counts (N : Web) (sent : N.World → ℕ) : Type 0 where
  pub sent-now : (w : N.World) → sent (N.now w).0 ≡ sent w
  pub sent-sleep : (d : Duration) (w : N.World) → sent (N.sleep d w) ≡ sent w
  pub sent-send : (q : Outgoing) (w : N.World) → sent (N.send q w).0 ≡ suc (sent w)
  pub sent-read_all : (n : Option ℕ) (w : N.World) → sent (N.read_all n w).0 ≡ sent w
  pub sent-close : (w : N.World) → sent (N.close w).0 ≡ sent w

-- Within a limit, of which 0 is none.
abbrev pub IsBelow : ℕ → Text → Type 0
IsBelow limit body = (limit ≡ 0) ⊎ (length body ≤ limit)

module _ (N : Web) (sent : N.World → ℕ) (C : Counts N sent) where
  limiter-sent :
      (l : AttemptRateLimiter) (f : Fetcher N)
      → let (f', waited) = wait N l f in
        (sent f'.world ≡ sent f.world)
        × ((count_wait waited f'.traffic).network_attempts ≡ f.traffic.network_attempts)
  unfolding wait count_wait
  limiter-sent l f =
      let (w, t) = N.now f.world in
      elim (Bool-cases (ltb 0 (reserve t l).1)) [
        | inl long ↦ rw (wait, count_wait, long) (C.sent-sleep _ w ∙ C.sent-now f.world, refl)
        | inr none' ↦ rw (wait, count_wait, none') (C.sent-now f.world, refl)
      ]

  wait-sent :
      (f : Fetcher N)
      → (sent (wait_for_validation_attempt N f).world ≡ sent f.world)
        × ((wait_for_validation_attempt N f).traffic.network_attempts
            ≡ suc f.traffic.network_attempts)
  unfolding wait_for_validation_attempt record_network_attempt
  wait-sent f = elim (Option-cases f.traffic.limiter) [
    | inl idle ↦ rw (wait_for_validation_attempt, idle) (C.sent-now f.world, omega arith)
    | inr (l, there) ↦
        let (same, counted) = limiter-sent l f in
        rw (wait_for_validation_attempt, there) (C.sent-now _ ∙ same, omega (arith, counted))
  ]

  direct-sent :
      (f : Fetcher N)
      → (sent (count_direct_attempt N f).world ≡ sent f.world)
        × ((count_direct_attempt N f).traffic.network_attempts ≡ suc f.traffic.network_attempts)
  unfolding count_direct_attempt record_network_attempt
  direct-sent f = (C.sent-now f.world, omega arith)

  prepare-sent :
      (q : Outgoing) (f : Fetcher N)
      → (sent (prepare_attempt N q f).world ≡ sent f.world)
        × ((prepare_attempt N q f).traffic.network_attempts ≡ suc f.traffic.network_attempts)
  unfolding prepare_attempt
  prepare-sent q f = elim (Bool-cases (ltb 0 (length q.proxy))) [
    | inl proxied ↦ rw (prepare_attempt, proxied) (wait-sent f)
    | inr bare ↦ rw (prepare_attempt, bare) (direct-sent f)
  ]

  accept_body-IsBelow :
      (limit : ℕ) (body : Text) (unread unclosed : Option N.Error)
      → ((accept_body N limit body unread unclosed ≡ inl body) × IsBelow limit body)
        ⊎ ((e : FetchError N) × (accept_body N limit body unread unclosed ≡ inr e))
  unfolding accept_body
  accept_body-IsBelow limit body (some e) unclosed = inr (_, refl)
  accept_body-IsBelow limit body none (some e) = inr (_, refl)
  accept_body-IsBelow limit body none none = elim (Bool-cases (ltb 0 limit)) [
    | inl bounded ↦ elim (Bool-cases (ltb limit (length body))) [
      | inl long ↦ rw (bounded, long) (inr (_, refl))
      | inr short ↦ rw (bounded, short) (inl (refl, ground arith))
    ]
    | inr free ↦ rw free (inl (refl, ground arith))
  ]

  exchange-sent :
      (limit : ℕ) (q : Outgoing) (f : Fetcher N)
      → let (f', r) = exchange N limit q f in
        (sent f'.world ≡ suc (sent f.world))
        × (f'.traffic.network_attempts ≡ f.traffic.network_attempts)
        × (((body : Text) × (r ≡ inl body) × IsBelow limit body)
            ⊎ ((e : FetchError N) × (r ≡ inr e)))
  unfolding exchange record_network_response_bytes
  exchange-sent limit q f = elim (Option-cases (N.send q f.world).1) [
    | inr (e, failed) ↦ rw (exchange, failed) (C.sent-send q f.world, refl, inr (_, refl))
    | inl answered ↦
        let (w, _) = N.send q f.world in
        let n = if ltb 0 limit then some (limit + 1) else none in
        let (w1, (body, unread)) = N.read_all n w in
        let (w2, _) = N.now w1 in
        let count = C.sent-close w2 ∙ C.sent-now w1 ∙ C.sent-read_all n w ∙ C.sent-send q f.world in
        rw (exchange, answered)
          (
            count,
            refl,
            elim (accept_body-IsBelow limit body unread (N.close w2).1) [
              | inl (good, below) ↦ inl (_, good, below)
              | inr (e, bad) ↦ inr (e, bad)
            ],
          )
  ]

  -- The end of the loop from `f`, whose last error was `last`.
  abbrev Ends : ℕ → ℕ → Option (FetchError N) → Fetcher N → Fetcher N × Reply N → Type 0
  Ends retry limit last f (f', (body, failed)) =
      (f'.traffic.network_attempts + sent f.world ≡ f.traffic.network_attempts + sent f'.world)
      × (((failed ≡ none)
            × (sent f.world < sent f'.world)
            × (sent f'.world ≤ sent f.world + retry)
            × IsBelow limit body)
          ⊎ ((body ≡ [])
              × (sent f'.world ≡ sent f.world + retry)
              × (((retry ≡ 0) × (failed ≡ last)) ⊎ ((e : FetchError N) × (failed ≡ some e)))))

  fetch_loop-Ends :
      (retry limit : ℕ) (q : Outgoing) (last : Option (FetchError N)) (f : Fetcher N)
      → Ends retry limit last f (fetch_loop N retry limit q last f)
  unfolding fetch_loop
  fetch_loop-Ends zero limit q last f = (refl, inr (refl, omega arith, inl (refl, refl)))
  fetch_loop-Ends (suc retry) limit q last f =
      let (same, counted) = prepare-sent q f in
      let (once, same', r) = exchange-sent limit q (prepare_attempt N q f) in
      elim r [
        | inl (body, good, below) ↦
            rw (fetch_loop, good)
              (
                omega (arith, same, counted, once, same'),
                inl (refl, omega (arith, same, once), omega (arith, same, once), below),
              )
        | inr (e, bad) ↦
            let (paid, ending) =
              fetch_loop-Ends retry limit q (some e)
                (exchange N limit q (prepare_attempt N q f)).0 in
            rw (fetch_loop, bad)
              (
                omega (arith, same, counted, once, same', paid),
                elim ending [
                  | inl (good, some', most, below) ↦ inl (
                    good,
                    omega (arith, same, once, some'),
                    omega (arith, same, once, most),
                    below,
                  )
                  | inr (empty, all, why) ↦ inr (
                    empty,
                    omega (arith, same, once, all),
                    inr (elim why [ inl h ↦ (e, h.1) | inr h ↦ h ]),
                  )
                ],
              )
      ]

  -- The end of a request that may be refused before any attempt.
  abbrev pub Fetched : ℕ → ℕ → Fetcher N → Fetcher N × Reply N → Type 0
  Fetched retry limit f r =
      (r.0.traffic.network_attempts + sent f.world ≡ f.traffic.network_attempts + sent r.0.world)
      × (((r.1.1 ≡ none)
            × (sent f.world < sent r.0.world)
            × (sent r.0.world ≤ sent f.world + retry)
            × IsBelow limit r.1.0)
          ⊎ (((e : FetchError N) × (r.1.1 ≡ some e))
              × (r.1.0 ≡ [])
              × ((sent r.0.world ≡ sent f.world) ⊎ (sent r.0.world ≡ sent f.world + retry))))

  fetch_loop-Fetched :
      (retry limit : ℕ) (q : Outgoing) (f : Fetcher N)
      → 0 < retry
      → Fetched retry limit f (fetch_loop N retry limit q none f)
  fetch_loop-Fetched retry limit q f h =
      let (paid, ending) = fetch_loop-Ends retry limit q none f in
      (
        paid,
        elim ending [
          | inl good ↦ inl good
          | inr (empty, all, why) ↦ elim why [
            | inl (stopped, _) ↦ absurd (omega arith)
            | inr failed ↦ inr (failed, empty, inr all)
          ]
        ],
      )

  -- With at least one retry, a fetch ends in one of two ways: with a body within the limit after at least one
  -- and at most `retry` requests; or with an error and no body, after no request (an address is
  -- refused) or exactly `retry` of them. The attempts that are counted are the requests that went
  -- out.
  pub get_url-Fetched :
      (url : Text) (timeout : Duration) (proxy : Text) (retry limit : ℕ)
      (headers : List (List (Text × List Text))) (f : Fetcher N)
      → 0 < retry
      → Fetched retry limit f (get_url N url timeout proxy retry limit headers f)
  unfolding get_url
  get_url-Fetched url timeout proxy retry limit headers f h =
      let unfit : Option N.Error = if ltb 0 (length proxy) then N.refuses_proxy proxy else none in
      elim (Option-cases unfit) [
        | inr (e, bad) ↦ rw (get_url, bad) (refl, inr ((_, refl), refl, inl refl))
        | inl fit ↦ elim (Option-cases (N.refuses_url url)) [
          | inr (e, bad) ↦ rw (get_url, fit, bad) (refl, inr ((_, refl), refl, inl refl))
          | inl fit' ↦ rw (get_url, fit, fit') (fetch_loop-Fetched retry limit _ f h)
        ]
      ]
