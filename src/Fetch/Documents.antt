-- ===== src/Fetch/Documents.antt =====
-- What a fetch of a source document costs, and what it returns.
use proxy_in_a_box.Prelude.{
  ℕ, ◌+◌, ◌≤◌, ◌<◌, ◌≡◌, refl, ◌⊎◌, inl, inr, Option, none, some, Option-cases, List, [], Text,
  length, arith,
}
use proxy_in_a_box.Prelude.Int.{ℤ, pos, negsuc}
use proxy_in_a_box.Fetch.Requests.{
  Web, FetchError, Fetcher, get_url, configured_source_fetch_retries,
  configured_source_fetch_timeout, configured_source_response_limit,
}
use proxy_in_a_box.Fetch.Callers.{Settings, DocError, fallback_proxy, get_doc_from_url}
use proxy_in_a_box.Fetch.Retries.{Counts, get_url-Fetched}

source_fetch-bounds :
    (retries limit : ℤ)
    → (1 ≤ configured_source_fetch_retries retries)
      × (configured_source_fetch_retries retries ≤ 5)
      × (0 < configured_source_response_limit limit)
unfolding configured_source_fetch_retries configured_source_response_limit
source_fetch-bounds (pos n) (pos m) = ground arith
source_fetch-bounds (pos n) (negsuc m) = ground arith
source_fetch-bounds (negsuc n) (pos m) = ground arith
source_fetch-bounds (negsuc n) (negsuc m) = ground arith

module _ (N : Web) (sent : N.World → ℕ) (C : Counts N sent) where
  -- How a fetch of a document ends: the requests that went out, and the result.
  abbrev pub Documented :
      Settings → Option Text → Fetcher N → Fetcher N × (Text ⊎ DocError N) → Type 0
  Documented c random f r =
      (r.0.traffic.network_attempts + sent f.world ≡ f.traffic.network_attempts + sent r.0.world)
      × ((sent r.0.world ≤ sent f.world + 5)
          ⊎ ((proxy : Text) × (fallback_proxy N c random ≡ some proxy)
              × (sent r.0.world ≤ sent f.world + 6)))
      × (((body : Text) × (r.1 ≡ inl body)
            × (length body ≤ configured_source_response_limit c.response_body_limit))
          ⊎ (((e : FetchError N) × (r.1 ≡ inr (DocError.direct e))
                × (fallback_proxy N c random ≡ none))
              ⊎ ((e : FetchError N) × (e' : FetchError N) × (r.1
                    ≡ inr (DocError.direct_and_fallback e e')))))

  -- Each request of a fetch that goes out is counted as an attempt. There are at most five, and a sixth only when the fallback is configured and a proxy is
  -- known. A document that is returned is within the configured limit; and a fetch fails with the error of the direct requests alone only if there is no fallback.
  pub get_doc_from_url-Documented :
      (c : Settings) (url : Text) (headers : List (List (Text × List Text))) (random : Option Text)
      (f : Fetcher N)
      → Documented c random f (get_doc_from_url N c url headers random f)
  unfolding get_doc_from_url
  get_doc_from_url-Documented c url headers random f =
      let timeout = configured_source_fetch_timeout c.timeout in
      let limit = configured_source_response_limit c.response_body_limit in
      let retries = configured_source_fetch_retries c.retries in
      let (some', few, bounded) = source_fetch-bounds c.retries c.response_body_limit in
      let r = get_url N url timeout [] retries limit headers f in
      let (paid, ending) = get_url-Fetched N sent C url timeout [] retries limit headers f some' in
      elim ending [
        | inl (good, sent', most, below) ↦
            rw (get_doc_from_url, good)
              (paid, inl (omega (arith, most)), inl (_, refl, omega (arith, below)))
        | inr ((e, bad), empty, all) ↦ elim (Option-cases (fallback_proxy N c random)) [
          | inl no_fallback ↦
              rw (get_doc_from_url, bad, no_fallback)
                (paid, inl (omega (arith, all)), inr (inl (_, refl, refl)))
          | inr (proxy, chosen) ↦
              let (paid', ending') =
                get_url-Fetched N sent C url timeout proxy 1 limit headers r.0 (omega arith) in
              elim ending' [
                | inl (good, sent', most, below) ↦
                    rw (get_doc_from_url, bad, chosen, good)
                      (
                        omega (arith, paid, paid'),
                        inr (_, refl, omega (arith, all, most)),
                        inl (_, refl, omega (arith, below)),
                      )
                | inr ((e', bad'), empty', all') ↦
                    rw (get_doc_from_url, bad, chosen, bad')
                      (
                        omega (arith, paid, paid'),
                        inr (_, refl, omega (arith, all, all')),
                        inr (inr (_, _, refl)),
                      )
              ]
        ]
      ]
