-- ===== src/Upstream/Handlers.antt =====
-- The handlers of a client's request: `nextProxy`, `tunnelHTTPS`, `injectHTTPS` and `serve` of
-- mitm/mitm.go, `replayRequest` and `Dump` of mitm/dump.go.
use proxy_in_a_box.Prelude.{
  ℕ, zero, suc, ◌*◌, Bool, true, false, Option, none, some, ite, List, [], ◌∷◌, Text, bytes,
  text_dec, length, ◌==◌, ◌||◌, if◌then◌else◌,
}
use proxy_in_a_box.Prelude.Int.{ℤ}
use proxy_in_a_box.Scheduling.{contains}
use proxy_in_a_box.Upstream.{
  Counters, add_total, add_success, add_failed, count_request, count_upstream, to_lower,
  upstream_attempt_limit, Request, is_safe_to_retry, Dialled, connected, deadline_error, dial_error,
  Network, response_failed, response_written,
}

module _ (N : Network) where
  open N use {World}

  -- What one handler sees: the world, the counters, and the upstreams it has tried.
  pub record State : Type 0 where
    pub world : World
    pub counters : Counters
    pub tried : List Text

  -- `for range m.upstreamAttemptLimit() * 2`, with the rounds that are left.
  unfoldable pub schedule : ℕ → Request → State → State × Option Text
  schedule zero r s = (s, none)
  schedule (suc n) r s =
      let (w, answer) = N.scheduler r s.world in
      let s' = record s { world = w } in
      elim answer [
        | none ↦ (s', none)
        | some u ↦ elim (contains u s.tried) [
          | true ↦ schedule n r s'
          | false ↦ (record s' { tried = u ∷ s.tried }, some u)
        ]
      ]

  unfoldable pub next_proxy : ℤ → Request → State → State × Option Text
  unfolding schedule
  next_proxy configured r s = schedule (upstream_attempt_limit configured * 2) r s

  abbrev pub report_target_failure : Text → Text → State → State
  report_target_failure u target s = record s { world = N.on_proxy_target_failure u target s.world }

  abbrev pub report_proxy_failure : Text → State → State
  report_proxy_failure u s = record s { world = N.on_proxy_failure u s.world }

  abbrev pub counting : (Counters → Counters) → State → State
  counting f s = record s { counters = f s.counters }

  -- A `ProxyConnectError` with status 407 or 403 is the proxy's own.
  abbrev pub is_refusal : Option ℕ → Bool
  is_refusal none = false
  is_refusal (some status) = (status == 407) || (status == 403)

  -- One failed dial: the callbacks, then the counter.
  unfoldable pub dial_failed : Text → Text → Text → Dialled → State → State
  dial_failed u target scheme connected s = s
  dial_failed u target scheme deadline_error s =
      counting (count_upstream scheme add_failed) (report_target_failure u target s)
  dial_failed u target scheme (dial_error status) s =
      counting (count_upstream scheme add_failed)
        (report_target_failure u target (if is_refusal status then report_proxy_failure u s else s))

  abbrev pub is_connected : Dialled → Bool
  is_connected connected = true
  is_connected _ = false

  abbrev pub target_key : Request → Text
  target_key r = if length r.host == 0 then bytes ":443" else r.host

  -- The attempts of `tunnelHTTPS` that are left; `some scheme` when `remoteConn` is open.
  unfoldable pub tunnel_attempts : ℕ → ℤ → Request → State → State × Option Text
  unfolding next_proxy dial_failed
  tunnel_attempts zero configured r s = (s, none)
  tunnel_attempts (suc n) configured r s =
      let (s', chosen) = next_proxy configured r s in
      elim chosen [
        | none ↦ (s', none)
        | some u ↦ elim (N.parse u) [
          | none ↦ tunnel_attempts n configured r (report_target_failure u (target_key r) s')
          | some scheme ↦
              let s'' = counting (count_upstream scheme add_total) s' in
              let (w, result) = N.dial u r s''.world in
              elim (is_connected result) [
                | true ↦ (record s'' { world = w }, some scheme)
                | false ↦
                    tunnel_attempts n configured r
                      (dial_failed u (target_key r) scheme result (record s'' { world = w }))
              ]
        ]
      ]

  abbrev pub fresh : N.World → Counters → State
  fresh w c = record { world = w; counters = c; tried = [] }

  -- Up to the two goroutines that copy; the result tells whether the tunnel stands.
  unfoldable pub tunnel_https : ℤ → Request → State → State × Bool
  unfolding tunnel_attempts
  tunnel_https configured r s =
      let (s', remote) =
        tunnel_attempts (upstream_attempt_limit configured) configured r
          (record s { tried = [] }) in
      elim remote [
        | none ↦ (counting (count_request add_failed) s', false)
        | some scheme ↦
            let (w, taken) = N.hijack s'.world in
            let s'' = record s' { world = w } in
            if taken
            then (
              counting (count_upstream scheme add_success)
                  (counting (count_request add_success) s''),
              true,
            )
            else (
              counting (count_upstream scheme add_failed) (counting (count_request add_failed) s''),
              false,
            )
      ]

  -- The attempts of `replayRequest` that are left; `some scheme` with a response.
  unfoldable pub replay_attempts : ℕ → ℤ → Request → State → State × Option Text
  unfolding next_proxy
  replay_attempts zero configured r s = (s, none)
  replay_attempts (suc n) configured r s =
      let (s', chosen) = next_proxy configured r s in
      elim chosen [
        | none ↦ (s', none)
        | some u ↦ elim (N.parse u) [
          | none ↦ replay_attempts n configured r (report_target_failure u r.host s')
          | some parsed ↦
              let scheme = to_lower parsed in
              let s'' = counting (count_upstream scheme add_total) s' in
              let (w, response) = N.send u r s''.world in
              let sent = record s'' { world = w } in
              elim response [
                | none ↦ replay_attempts n configured r (
                    report_target_failure u r.host
                      (counting (count_upstream scheme add_failed) sent))
                | some status ↦ elim (status == 407) [
                  | true ↦ replay_attempts n configured r (
                      report_target_failure u r.host
                        (report_proxy_failure u (counting (count_upstream scheme add_failed) sent)))
                  | false ↦ (sent, some scheme)
                ]
              ]
        ]
      ]

  abbrev pub replay_limit : ℤ → Request → ℕ
  replay_limit configured r = if is_safe_to_retry r then upstream_attempt_limit configured else 1

  unfoldable pub replay_request : ℤ → Request → State → State × Option Text
  unfolding replay_attempts
  replay_request configured r s =
      replay_attempts (replay_limit configured r) configured r (record s { tried = [] })

  -- The part of `Dump` after the response is there.
  unfoldable pub relay : Request → Text → State → State
  unfolding response_failed response_written
  relay r scheme s =
      let (w, body) = N.read_response s.world in
      elim body [
        | none ↦ counting (response_failed scheme) (record s { world = w })
        | some n ↦
            let (w', written) = N.write_body n w in
            elim written [
              | none ↦ counting (response_failed scheme) (record s { world = w' })
              | some m ↦
                  counting (response_written scheme r.content_length m) (record s { world = w' })
            ]
      ]

  unfoldable pub dump : ℤ → Request → State → State
  unfolding replay_request relay
  dump configured r s =
      let (w, encoded) = N.dump_request r s.world in
      let s' = record s { world = w } in
      if encoded
      then (let (s'', response) = replay_request configured r s' in
          elim response [
            | none ↦ counting (count_request add_failed) s''
            | some scheme ↦ relay r scheme s''
          ])
      else counting (count_request add_failed) s'

  -- The result tells whether the connection is handed to a server of `Dump` calls.
  unfoldable pub inject_https : Request → State → State × Bool
  inject_https r s =
      let (w, made) = N.fake_cert r s.world in
      if made
      then (let (w', taken) = N.hijack w in
          let s' = record s { world = w' } in
          if taken then (s', true) else (counting (count_request add_failed) s', false))
      else (counting (count_request add_failed) (record s { world = w }), false)

  abbrev pub is_connect : Request → Bool
  is_connect r = ite (text_dec r.method (bytes "CONNECT")) true false

  unfoldable pub serve : Bool → ℤ → Request → State → State
  unfolding tunnel_https inject_https dump
  serve enable_mitm configured r s =
      let s' = counting (count_request add_total) s in
      let (w, allowed) = N.filter r s'.world in
      let s'' = record s' { world = w } in
      if allowed
      then if is_connect r
        then if enable_mitm then (inject_https r s'').0 else (tunnel_https configured r s'').0
        else dump configured r s''
      else counting (count_request add_failed) s''
