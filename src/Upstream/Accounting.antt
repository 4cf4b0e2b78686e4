-- ===== src/Upstream/Accounting.antt =====
-- What the handlers count: every request and every attempt ends as a success or as a failure.
use proxy_in_a_box.Prelude.{
  ◌+◌, ◌≡◌, refl, sym, ap, subst, inl, inr, Bool, true, false, ◌&&◌, Bool-cases, Option-cases, List,
  [], ◌∷◌, Text, length, arith,
}
use proxy_in_a_box.Prelude.Int.{ℤ}
use proxy_in_a_box.Upstream.{
  Counters, add_total, count_request, upstream_attempt_limit, Request, Network,
}
use proxy_in_a_box.Upstream.Handlers.{
  State, counting, tunnel_attempts, tunnel_https, replay_attempts, replay_limit, replay_request,
  relay, dump, inject_https, is_connect, serve,
}
use proxy_in_a_box.Upstream.Settlement.{
  Settles, settle_success, settle_failed, settle_response_failed, settle_response_written,
}
use proxy_in_a_box.Upstream.Outcome.{tunnel_attempts-Outcome, replay_attempts-Outcome}
use proxy_in_a_box.Upstream.Balance.{IsBalanced, IsPending}

module _ (N : Network) where
  tunnel_https-Settles :
      (configured : ℤ) (r : Request) (s : State N)
      → IsBalanced s.counters
      → let s' = (tunnel_https N configured r s).0 in
        Settles s.counters s'.counters × IsBalanced s'.counters
  unfolding tunnel_https
  tunnel_https-Settles configured r s h =
      let start = record s { tried = [] } in
      let t = tunnel_attempts N (upstream_attempt_limit configured) configured r start in
      let (kept, rest) =
        tunnel_attempts-Outcome N (upstream_attempt_limit configured) configured r start h in
      elim rest [
        | inl (missing, balanced) ↦ rw (tunnel_https, missing) (ground (arith, kept), balanced)
        | inr (scheme, open', pending) ↦ elim (Bool-cases (N.hijack t.0.world).1) [
          | inl taken ↦
              rw (tunnel_https, open', taken)
                (settle_success scheme s.counters t.0.counters kept pending)
          | inr lost ↦
              rw (tunnel_https, open', lost)
                (settle_failed scheme s.counters t.0.counters kept pending)
        ]
      ]

  relay-Settles :
      (r : Request) (scheme : Text) (c : Counters) (s : State N)
      → s.counters.requests ≡ c.requests
      → IsPending scheme s.counters
      → Settles c (relay N r scheme s).counters × IsBalanced (relay N r scheme s).counters
  unfolding relay
  relay-Settles r scheme c s same pending =
      let (w, body) = N.read_response s.world in
      elim (Option-cases body) [
        | inl bad ↦ rw (relay, bad) (settle_response_failed scheme c s.counters same pending)
        | inr (n, good) ↦ elim (Option-cases (N.write_body n w).1) [
          | inl bad ↦
              rw (relay, good, bad) (settle_response_failed scheme c s.counters same pending)
          | inr (m, sent) ↦
              rw (relay, good, sent)
                (settle_response_written scheme r.content_length m c s.counters same pending)
        ]
      ]

  -- `Dump` counts the request once, as a success or as a failure, and nothing in the total; it
  -- leaves the counters of the protocols with a name balanced, if they were.
  pub dump-Settles :
      (configured : ℤ) (r : Request) (s : State N)
      → IsBalanced s.counters
      → let s' = (dump N configured r s) in Settles s.counters s'.counters × IsBalanced s'.counters
  unfolding dump replay_request
  dump-Settles configured r s h =
      let (w, encoded) = N.dump_request r s.world in
      let start = record s { world = w; tried = [] } in
      let t = replay_attempts N (replay_limit N configured r) configured r start in
      let (kept, rest) =
        replay_attempts-Outcome N (replay_limit N configured r) configured r start h in
      elim (Bool-cases encoded) [
        | inl good ↦ elim rest [
          | inl (missing, balanced) ↦ rw (dump, good, missing) (ground (arith, kept), balanced)
          | inr (scheme, got, pending) ↦
              rw (dump, good, got) (relay-Settles r scheme s.counters t.0 kept pending)
        ]
        | inr bad ↦ rw (dump, bad) (ground arith, h)
      ]

  -- The connection is taken over, with a certificate for it.
  abbrev is_taken : Request → N.World → Bool
  is_taken r w = let (w', made) = N.fake_cert r w in made && (N.hijack w').1

  -- The connection of the request is decrypted.
  abbrev pub is_decrypted : Bool → Request → N.World → Bool
  is_decrypted enable_mitm r w =
      let (w', allowed) = N.filter r w in
      enable_mitm && (is_connect N r && (allowed && is_taken r w'))

  inject_https-Settles :
      (r : Request) (s : State N)
      → IsBalanced s.counters
      → is_taken r s.world ≡ false
      → let s' = (inject_https N r s).0 in Settles s.counters s'.counters × IsBalanced s'.counters
  unfolding inject_https
  inject_https-Settles r s h lost = elim (Bool-cases (N.fake_cert r s.world).1) [
    | inr bad ↦ rw (inject_https, bad) (ground arith, h)
    | inl made ↦ let lost' = rw made at lost in rw (inject_https, made, lost') (ground arith, h)
  ]

  -- A request that does not end in a connection that is decrypted, that is, any but a CONNECT under
  -- MITM whose client passes the filter, whose certificate is made and whose connection is taken
  -- over: it is counted once in the total, and once as a success or as a failure, and the counters
  -- of the protocols with a name stay balanced.
  pub serve-counted :
      (enable_mitm : Bool) (configured : ℤ) (r : Request) (s : State N)
      → IsBalanced s.counters
      → is_decrypted enable_mitm r s.world ≡ false
      → let c = s.counters in
        let c' = (serve N enable_mitm configured r s).counters in
        (c'.requests.total_requests ≡ c.requests.total_requests + 1)
        × (c'.requests.success_requests + c'.requests.failed_requests
            ≡ c.requests.success_requests + c.requests.failed_requests + 1)
        × IsBalanced c'
  unfolding serve
  serve-counted enable_mitm configured r s h plain =
      let counted = counting N (count_request add_total) s in
      let (w, allowed) = N.filter r s.world in
      let s' = record counted { world = w } in
      let (dumped, kept) = dump-Settles configured r s' h in
      let (tunnelled, kept') = tunnel_https-Settles configured r s' h in
      elim (Bool-cases allowed) [
        | inr refused ↦ rw (serve, refused) (refl, ground arith, h)
        | inl passed ↦ elim (Bool-cases (is_connect N r)) [
          | inr other ↦ rw (serve, passed, other) (dumped.0, dumped.1, kept)
          | inl connect ↦ elim (Bool-cases enable_mitm) [
            | inr off ↦ rw (serve, passed, connect, off) (tunnelled.0, tunnelled.1, kept')
            | inl on ↦
                let lost = rw (on, connect, passed) at plain in
                let (settled, kept'') = inject_https-Settles r s' h lost in
                rw (serve, passed, connect, on) (settled.0, settled.1, kept'')
          ]
        ]
      ]

  -- Requests of a decrypted connection, in turn.
  unfoldable pub dumps : ℤ → List Request → State N → State N
  dumps configured [] s = s
  dumps configured (r ∷ rs) s = dumps configured rs (dump N configured r s)

  dumps-counted :
      (configured : ℤ) (rs : List Request) (s : State N)
      → IsBalanced s.counters
      → let c = s.counters.requests in
        let c' = (dumps configured rs s).counters.requests in
        (c'.total_requests ≡ c.total_requests)
        × (c'.success_requests + c'.failed_requests
            ≡ c.success_requests + c.failed_requests + length rs)
  unfolding dumps
  dumps-counted configured [] s h = (refl, omega arith)
  dumps-counted configured (r ∷ rs) s h =
      let s' = dump N configured r s in
      let (settled, kept) = dump-Settles configured r s h in
      omega (arith, settled, dumps-counted configured rs s' kept)

  serve-connect :
      (configured : ℤ) (r : Request) (s : State N)
      → is_connect N r ≡ true
      → (N.filter r s.world).1 ≡ true
      → (N.fake_cert r (N.filter r s.world).0).1 ≡ true
      → (N.hijack (N.fake_cert r (N.filter r s.world).0).0).1 ≡ true
      → (serve N true configured r s).counters ≡ count_request add_total s.counters
  unfolding serve inject_https
  serve-connect configured r s connect passed made taken = rw (serve, passed, connect, made, taken)

  -- A CONNECT that is decrypted counts once in the total, and each of its requests once as a
  -- success or as a failure: with other than one request the two sums differ from then on. The
  -- client passes the filter, the certificate is made and the connection is taken over.
  pub serve-decrypted :
      (configured : ℤ) (r : Request) (rs : List Request) (s : State N)
      → IsBalanced s.counters
      → is_connect N r ≡ true
      → (N.filter r s.world).1 ≡ true
      → (N.fake_cert r (N.filter r s.world).0).1 ≡ true
      → (N.hijack (N.fake_cert r (N.filter r s.world).0).0).1 ≡ true
      → let c = s.counters.requests in
        let c' = (dumps configured rs (serve N true configured r s)).counters.requests in
        (c'.total_requests ≡ c.total_requests + 1)
        × (c'.success_requests + c'.failed_requests
            ≡ c.success_requests + c.failed_requests + length rs)
  serve-decrypted configured r rs s h connect passed made taken =
      let e = serve-connect configured r s connect passed made taken in
      let t = serve N true configured r s in
      let balanced : IsBalanced t.counters = subst IsBalanced (sym e) h in
      ground (arith, ap (λ c. c.requests) e, dumps-counted configured rs t balanced)
