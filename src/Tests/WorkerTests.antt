-- ===== src/Tests/WorkerTests.antt =====
-- Tests of the requests and of the workers (crawler/crawler.go, crawler/verify.go), on a scripted
-- network.
use proxy_in_a_box.Prelude.{
  ℕ, ◌+◌, ◌≡◌, refl, ◌⊎◌, true, false, Option, none, some, List, [], ◌∷◌, ◌++◌, Text, bytes,
  text_dec, lookup, length, second, arith,
}
use proxy_in_a_box.Scheduling.{contains}
use proxy_in_a_box.Endpoint.{Proxy, uri}
use proxy_in_a_box.Store.Tables.{tables}
use proxy_in_a_box.Admission.{trim_space}
use proxy_in_a_box.Fetch.{parse_cloudflare_trace}
use proxy_in_a_box.Fetch.Trace.{print_trace, parse_cloudflare_trace-print}
use proxy_in_a_box.Fetch.Requests.{get_url}
use proxy_in_a_box.Fetch.Callers.{get_doc_from_url}
use proxy_in_a_box.Fetch.Retries.{Fetched, get_url-Fetched}
use proxy_in_a_box.Fetch.Documents.{Documented, get_doc_from_url-Documented}
use proxy_in_a_box.Workers.State.{Crawler}
use proxy_in_a_box.Workers.Candidate.{validator_round}
use proxy_in_a_box.Workers.Routine.{verify, get_delay}
use proxy_in_a_box.Workers.Pending.{jobs_for, verify-released}
use proxy_in_a_box.Workers.Claims.{queued, release_queued, validator_round-releases}
use proxy_in_a_box.Tests.Fixtures.{endpoint, first_proxy}
use proxy_in_a_box.Tests.WorkerFixtures.{
  web, web-Counts, fetcher, settings, check_settings, crawler,
}

abbrev candidate : Proxy
candidate = endpoint 0 (bytes "4.4.4.4") (bytes "1")

abbrev fields : List (Text × Text)
fields = (bytes "ip", bytes "4.4.4.4") ∷ (bytes "loc", bytes "JP") ∷ []

abbrev trace_body : Text
trace_body = bytes "ip=4.4.4.4" ++ (10 ∷ bytes "loc=JP")

parse_cloudflare_trace-print_example :
    parse_cloudflare_trace (print_trace fields)
    ≡ some (record { ip = bytes "4.4.4.4"; loc = bytes "JP" })
unfolding lookup text_dec trim_space
parse_cloudflare_trace-print_example =
    parse_cloudflare_trace-print fields ((refl, refl, refl, (refl, refl, refl, tt)))

-- The first request fails, the second brings a body.
get_url-Fetched_example :
    Fetched web
      (λ w. w.sent)
      web-Counts
      2
      100
      (fetcher (none ∷ some trace_body ∷ []))
      (get_url web (bytes "http://l") second [] 2 100 [] (fetcher (none ∷ some trace_body ∷ [])))
get_url-Fetched_example =
    get_url-Fetched web (λ w. w.sent) web-Counts (bytes "http://l") second [] 2 100 []
      (fetcher (none ∷ some trace_body ∷ [])) (omega arith)

get_doc_from_url-Documented_example :
    Documented web
      (λ w. w.sent)
      web-Counts
      settings
      (some (bytes "http://1.1.1.1:80"))
      (fetcher (none ∷ none ∷ some trace_body ∷ []))
      (get_doc_from_url web settings
        (bytes "http://l")
        []
        (some (bytes "http://1.1.1.1:80"))
        (fetcher (none ∷ none ∷ some trace_body ∷ [])))
get_doc_from_url-Documented_example =
    get_doc_from_url-Documented web (λ w. w.sent) web-Counts settings (bytes "http://l") []
      (some (bytes "http://1.1.1.1:80")) (fetcher (none ∷ none ∷ some trace_body ∷ []))

-- Both proxies are due; the first answers with its address, the second does not answer.
abbrev answers : List (Option Text)
answers = some (bytes "ip=1.1.1.1") ∷ []

verify-released_example :
    let s = crawler answers in
    let s' = verify tables web (λ d. some d.proxies) (λ d p. some true) s in
    let s2 = get_delay tables web check_settings (length s'.verify_jobs) s' in
    ((n : ℕ) × (jobs_for (uri first_proxy) s'.verify_jobs ≡ 0 + n)
      × ((n ≡ 0) ⊎ ((n ≡ 1) × (contains (uri first_proxy) [] ≡ false))))
    × (s2.verify_jobs ≡ [])
    × (contains (uri first_proxy) s2.pending_verify ≡ contains (uri first_proxy) [])
verify-released_example =
    verify-released tables web check_settings (λ d. some d.proxies) (λ d p. some true)
      (crawler answers) (uri first_proxy)

abbrev traced_crawler : Crawler tables web
traced_crawler = crawler (some trace_body ∷ [])

validator_round-releases_example :
    let s' = validator_round tables web check_settings candidate traced_crawler in
    (s'.pending_validate ≡ [])
    × (queued tables web s'
        ≡ release_queued tables web (uri candidate) (queued tables web traced_crawler))
unfolding contains trim_space
validator_round-releases_example =
    validator_round-releases tables web check_settings candidate traced_crawler
