-- ===== src/Fetch/Callers.antt =====
-- The callers of the retry loop that keep no other state: `GetDocFromURL` for sources and
-- `ValidateProxy` for the command test-source.
use proxy_in_a_box.Prelude.{
  ℕ, ◌-◌, ◌*◌, Bool, ◌⊎◌, inl, inr, Option, none, some, List, [], Text, bytes, text_dec, length,
  ◌==◌, if◌then◌else◌, second, unix,
}
use proxy_in_a_box.Prelude.Int.{ℤ}
use proxy_in_a_box.Endpoint.{Proxy, uri}
use proxy_in_a_box.Admission.{
  trim_space, configured_health_check_retries, configured_health_response_body_limit,
}
use proxy_in_a_box.Fetch.{parse_cloudflare_trace}
use proxy_in_a_box.Fetch.Requests.{
  Web, FetchError, Fetcher, get_url, configured_source_fetch_retries,
  configured_source_fetch_timeout, configured_source_response_limit,
}

-- The configuration that the two read; a number may be negative.
pub record Settings : Type 0 where
  pub retries : ℤ
  pub timeout : ℤ
  pub response_body_limit : ℤ
  pub proxy_fallback : Bool
  pub health_check_retries : ℤ
  pub health_response_body_limit : ℤ

pub data DocError (N : Web) : Type 0 where
  direct : FetchError N → DocError N
  direct_and_fallback : FetchError N → FetchError N → DocError N

pub data CheckError (N : Web) : Type 0 where
  connect_failed : FetchError N → CheckError N
  no_ip : CheckError N
  ip_mismatch : CheckError N

abbrev pub verify_endpoint : Text
verify_endpoint = bytes "https://blog.cloudflare.com/cdn-cgi/trace"

module _ (N : Web) where
  -- The one proxy that may be tried after the direct fetch. `random` is the answer of `RandomProxy`,
  -- and `none` also stands for a nil `CI`.
  unfoldable pub fallback_proxy : Settings → Option Text → Option Text
  fallback_proxy c random =
      if c.proxy_fallback
      then elim random [ none ↦ none | some u ↦ if length u == 0 then none else some u ]
      else none

  unfoldable pub get_doc_from_url :
      Settings
      → Text
      → List (List (Text × List Text))
      → Option Text
      → Fetcher N
      → Fetcher N × (Text ⊎ DocError N)
  get_doc_from_url c url headers random f =
      let timeout = configured_source_fetch_timeout c.timeout in
      let limit = configured_source_response_limit c.response_body_limit in
      let (f', (body, failed)) =
        get_url N url timeout [] (configured_source_fetch_retries c.retries) limit headers f in
      elim failed [
        | none ↦ (f', inl body)
        | some e ↦ elim (fallback_proxy c random) [
          | none ↦ (f', inr (DocError.direct e))
          | some proxy ↦
              let (f2, (body', failed')) = get_url N url timeout proxy 1 limit headers f' in
              elim failed' [
                | none ↦ (f2, inl body')
                | some e' ↦ (f2, inr (DocError.direct_and_fallback e e'))
              ]
        ]
      ]

  -- The trace that a proxy is checked by, through the proxy itself.
  unfoldable pub fetch_trace :
      Settings → ℕ → Text → Fetcher N → Fetcher N × (Text × Option (FetchError N))
  fetch_trace c timeout proxy =
      get_url N verify_endpoint timeout proxy
        (configured_health_check_retries c.health_check_retries)
        (configured_health_response_body_limit c.health_response_body_limit) []

  -- The country and the seconds that the check took. The clock, read in whole seconds, does not go
  -- back.
  unfoldable pub validate_proxy :
      Settings → Proxy → Fetcher N → Fetcher N × ((Text × ℕ) ⊎ CheckError N)
  validate_proxy c p f =
      let ip = trim_space p.ip in
      let (w, start) = N.now f.world in
      let f1 : Fetcher N = record f { world = w } in
      let (f2, (body, failed)) = fetch_trace c (7 * second) (uri (record p { ip = ip })) f1 in
      elim failed [
        | some e ↦ (f2, inr (CheckError.connect_failed e))
        | none ↦ elim (parse_cloudflare_trace body) [
          | none ↦ (f2, inr CheckError.no_ip)
          | some trace ↦ elim (text_dec trace.ip ip) [
            | no _ ↦ (f2, inr CheckError.ip_mismatch)
            | yes _ ↦
                let (w', end') = N.now f2.world in
                (record f2 { world = w' }, inl (trace.loc, unix end' - unix start))
          ]
        ]
      ]
