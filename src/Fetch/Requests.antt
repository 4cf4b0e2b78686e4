-- ===== src/Fetch/Requests.antt =====
-- The retry loop of `getURLThroughProxyWithRetryLimit` with its settings and callers. The clock, HTTP
-- and the dialers are the interface `Web`; every call threads its state.
use proxy_in_a_box.Prelude.{
  ℕ, zero, suc, ◌+◌, ◌*◌, Bool, true, false, ◌⊎◌, inl, inr, Option, none, some, List, [], ◌∷◌, ◌++◌,
  Text, bytes, Map, insert, length, ltb, leb, if◌then◌else◌, Time, Duration, second, unix,
}
use proxy_in_a_box.Prelude.Int.{ℤ, pos, negsuc}
use proxy_in_a_box.Statistics.{NetworkRateBucket, record_rate}
use proxy_in_a_box.RateLimit.{AttemptRateLimiter, reserve}

-- The settings, of the configured values, which may be negative.
unfoldable pub configured_source_fetch_retries : ℤ → ℕ
configured_source_fetch_retries (pos n) = if leb n 0 then 2 else if ltb 5 n then 5 else n
configured_source_fetch_retries (negsuc n) = 2

unfoldable pub configured_source_fetch_timeout : ℤ → Duration
configured_source_fetch_timeout (pos n) = if ltb 0 n then n else 20 * second
configured_source_fetch_timeout (negsuc n) = 20 * second

unfoldable pub configured_source_response_limit : ℤ → ℕ
configured_source_response_limit (pos n) = if ltb 0 n then n else 4 * 1024 * 1024
configured_source_response_limit (negsuc n) = 4 * 1024 * 1024

-- A request as it goes out; an empty proxy address is none.
pub record Outgoing : Type 0 where
  pub url : Text
  pub timeout : Duration
  pub proxy : Text
  pub headers : Map Text

pub record Web : Type 1 where
  pub World : Type 0
  pub Error : Type 0
  -- `time.Now()`, and a timer that fires after the duration
  pub now : World → World × Time
  pub sleep : Duration → World → World
  -- The error of `url.Parse` or `xproxy.FromURL` on an address of a proxy, and of `http.NewRequest`.
  pub refuses_proxy : Text → Option Error
  pub refuses_url : Text → Option Error
  pub canonical_header_key : Text → Text
  -- `httpClient.Do`; `io.ReadAll` of the body of its response, through an `io.LimitReader` or not;
  -- `resp.Body.Close()`
  pub send : Outgoing → World → World × Option Error
  pub read_all : Option ℕ → World → World × (Text × Option Error)
  pub close : World → World × Option Error
  -- `netErr.Timeout()` of an error that is a `net.Error`
  pub is_timeout : Error → Bool
  -- `rand.IntN`; the dial of a host through a proxy within a timeout, and the TLS handshake with a server name on the connection,
  -- which the caller closes
  pub random : ℕ → World → World × ℕ
  pub dial_through : Text → Text → Duration → World → World × Option Error
  pub handshake : Text → Duration → World → World × Option Error
  pub close_connection : World → World

-- The counters of `runtimeMetrics` that a request changes, its window of rates, and
-- `validationAttemptLimiter`, which is nil without `Init`.
pub record Traffic : Type 0 where
  pub limiter : Option AttemptRateLimiter
  pub rate_limited : ℕ
  pub rate_limit_wait_nanos : ℕ
  pub network_attempts : ℕ
  pub network_response_bytes : ℕ
  pub rates : List NetworkRateBucket

unfoldable pub record_network_attempt : Time → Bool → Traffic → Traffic
record_network_attempt at validation t = record t {
  network_attempts = t.network_attempts + 1;
  rates = if validation then record_rate (unix at) 1 0 t.rates else t.rates;
}

unfoldable pub record_network_response_bytes : Time → ℕ → Bool → Traffic → Traffic
record_network_response_bytes at n validation t = record t {
  network_response_bytes = t.network_response_bytes + n;
  rates = if validation then record_rate (unix at) 0 n t.rates else t.rates;
}

-- The time that a reservation makes its caller wait is counted when it is positive.
unfoldable pub count_wait : Duration → Traffic → Traffic
count_wait waited t =
    if ltb 0 waited
    then record t {
      rate_limited = t.rate_limited + 1;
      rate_limit_wait_nanos = t.rate_limit_wait_nanos + waited;
    }
    else t

pub data FetchError (N : Web) : Type 0 where
  bad_proxy : N.Error → FetchError N
  bad_request : N.Error → FetchError N
  request_failed : N.Error → FetchError N
  read_failed : N.Error → FetchError N
  close_failed : N.Error → FetchError N
  oversized : ℕ → FetchError N

abbrev pub user_agent : Text
user_agent =
    bytes
      "Mozilla/5.0 (Macintosh; Intel Mac OS X 10_15_7) AppleWebKit/537.36 (KHTML, like Gecko) Chrome/128.0.0.0 Safari/537.36"

-- `strings.Join(v, ";")`
unfoldable pub join_values : List Text → Text
join_values [] = []
join_values (v ∷ []) = v
join_values (v ∷ v' ∷ vs) = v ++ (59 ∷ join_values (v' ∷ vs))

module _ (N : Web) where
  pub record Fetcher : Type 0 where
    pub world : N.World
    pub traffic : Traffic

  -- `([]byte, error)`: a nil body is the empty one.
  abbrev pub Reply : Type 0
  Reply = Text × Option (FetchError N)

  -- `attemptRateLimiter.Wait`
  unfoldable pub wait : AttemptRateLimiter → Fetcher → Fetcher × Duration
  wait l f =
      let (w, t) = N.now f.world in
      let (l', waited) = reserve t l in
      let w' = if ltb 0 waited then N.sleep waited w else w in
      (record { world = w'; traffic = record f.traffic { limiter = some l' } }, waited)

  unfoldable pub wait_for_validation_attempt : Fetcher → Fetcher
  unfolding wait
  wait_for_validation_attempt f =
      let f' : Fetcher = elim f.traffic.limiter [
        | none ↦ f
        | some l ↦
            let (f', waited) = wait l f in record f' { traffic = count_wait waited f'.traffic }
      ] in
      let (w, t) = N.now f'.world in
      record { world = w; traffic = record_network_attempt t true f'.traffic }

  unfoldable pub count_direct_attempt : Fetcher → Fetcher
  count_direct_attempt f =
      let (w, t) = N.now f.world in
      record { world = w; traffic = record_network_attempt t false f.traffic }

  -- What becomes of a body: the three tests after the response is closed.
  unfoldable pub accept_body : ℕ → Text → Option N.Error → Option N.Error → Text ⊎ FetchError N
  accept_body limit body (some e) closed = inr (FetchError.read_failed e)
  accept_body limit body none (some e) = inr (FetchError.close_failed e)
  accept_body limit body none none =
      if ltb 0 limit
      then (if ltb limit (length body) then inr (FetchError.oversized limit) else inl body)
      else inl body

  -- One round of the loop after the wait: the body, or the error that is kept.
  unfoldable pub exchange : ℕ → Outgoing → Fetcher → Fetcher × (Text ⊎ FetchError N)
  exchange limit q f =
      let (w, failed) = N.send q f.world in
      elim failed [
        | some e ↦ (record f { world = w }, inr (FetchError.request_failed e))
        | none ↦
            let (w1, (body, unread)) =
              N.read_all (if ltb 0 limit then some (limit + 1) else none) w in
            let (w2, t) = N.now w1 in
            let (w3, unclosed) = N.close w2 in
            (
              record {
                world = w3;
                traffic =
                    record_network_response_bytes t (length body) (ltb 0 (length q.proxy))
                      f.traffic;
              },
              accept_body limit body unread unclosed,
            )
      ]

  -- The wait or the count before a request goes out.
  unfoldable pub prepare_attempt : Outgoing → Fetcher → Fetcher
  prepare_attempt q f =
      if ltb 0 (length q.proxy) then wait_for_validation_attempt f else count_direct_attempt f

  unfoldable pub fetch_loop : ℕ → ℕ → Outgoing → Option (FetchError N) → Fetcher → Fetcher × Reply
  fetch_loop zero limit q last f = (f, ([], last))
  fetch_loop (suc retry) limit q last f =
      let (f', r) = exchange limit q (prepare_attempt q f) in
      elim r [ inl body ↦ (f', (body, none)) | inr e ↦ fetch_loop retry limit q (some e) f' ]

  unfoldable pub set_headers : List (Text × List Text) → Map Text → Map Text
  set_headers [] m = m
  set_headers ((k, vs) ∷ h) m = set_headers h (insert (N.canonical_header_key k) (join_values vs) m)

  unfoldable pub set_all_headers : List (List (Text × List Text)) → Map Text → Map Text
  set_all_headers [] m = m
  set_all_headers (h ∷ hs) m = set_all_headers hs (set_headers h m)

  -- `getURLThroughProxyWithRetryLimit`. A number of retries or a limit below 1 is 0 here: the loop
  -- runs no round, or the body has no bound.
  unfoldable pub get_url :
      Text → Duration → Text → ℕ → ℕ → List (List (Text × List Text)) → Fetcher → Fetcher × Reply
  get_url url timeout proxy retry limit headers f =
      let unfit : Option N.Error = if ltb 0 (length proxy) then N.refuses_proxy proxy else none in
      elim unfit [
        | some e ↦ (f, ([], some (FetchError.bad_proxy e)))
        | none ↦ elim (N.refuses_url url) [
          | some e ↦ (f, ([], some (FetchError.bad_request e)))
          | none ↦
              fetch_loop retry limit
                (record {
                  url = url;
                  timeout = timeout;
                  proxy = proxy;
                  headers =
                      set_all_headers headers
                        (insert (N.canonical_header_key (bytes "User-Agent")) user_agent []);
                })
                none f
        ]
      ]
