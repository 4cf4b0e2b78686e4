-- ===== src/Sources/Round.antt =====
-- A round of `fetchSource`, and the statuses that the dashboard shows (crawler/source.go). Lua
-- scripts, `json.Unmarshal` and the shuffle are what `Readers` gives.
use proxy_in_a_box.Prelude.{
  ℕ, ◌+◌, inl, inr, Bool, true, false, Option, none, some, ite, List, [], ◌∷◌, map, Text, bytes,
  text_dec, Map, lookup, insert, length, get_elem?, set, ◌==◌, if◌then◌else◌, Time,
}
use proxy_in_a_box.Prelude.Int.{ℤ}
use proxy_in_a_box.Endpoint.{Proxy}
use proxy_in_a_box.Store.{Store}
use proxy_in_a_box.Pool.{random_proxy}
use proxy_in_a_box.Admission.{prune, counter_at, SourceCandidateCounter, enqueue_source_candidates}
use proxy_in_a_box.Fetch.Requests.{Web, Fetcher}
use proxy_in_a_box.Fetch.Callers.{Settings, get_doc_from_url}
use proxy_in_a_box.Workers.State.{Crawler, clock, with_failures}
use proxy_in_a_box.Sources.{Source, parse_text_response}
use proxy_in_a_box.Sources.Json.{Json, parse_json_response}

-- The error of a fetch is kept as whether there was one.
pub record SourceStatus : Type 0 where
  pub name : Text
  pub kind : Text
  pub last_fetch : Time
  pub proxy_count : ℕ
  pub failed : Bool
  pub interval : Text
  pub available_count : ℕ

-- The status that `FetchAllSources` starts from.
abbrev pub new_status : Source → SourceStatus
new_status src = record {
  name = src.name;
  kind = src.kind;
  last_fetch = 0;
  proxy_count = 0;
  failed = false;
  interval = src.interval;
  available_count = 0;
}

unfoldable pub new_statuses : List Source → List SourceStatus
new_statuses = map new_status

-- `updateSourceStatus`; an index out of range changes nothing.
unfoldable pub update_source_status : ℕ → ℕ → Bool → Time → List SourceStatus → List SourceStatus
update_source_status i count failed now l = elim (get_elem? l i) [
  | none ↦ l
  | some s ↦ set l i (record s { last_fetch = now; proxy_count = count; failed = failed })
]

-- `countBySource[source]++` over the pool; a missing key reads as 0.
abbrev pub count_of : Text → Map ℕ → ℕ
count_of k m = elim (lookup k m) [ none ↦ 0 | some n ↦ n ]

unfoldable pub count_by_source : List Proxy → Map ℕ → Map ℕ
count_by_source [] m = m
count_by_source (p ∷ ps) m = count_by_source ps (insert p.source (count_of p.source m + 1) m)

-- `UpdateSourceAvailableCounts`
unfoldable pub update_source_available_counts : List Proxy → List SourceStatus → List SourceStatus
update_source_available_counts ps l =
    let counts = count_by_source ps [] in
    map {A = SourceStatus}
      (λ (s : SourceStatus). record s { available_count = count_of s.name counts }) l

-- `GetSourceStatuses`: each status with the counter of its source.
unfoldable pub get_source_statuses :
    Map SourceCandidateCounter → List SourceStatus → List (SourceStatus × SourceCandidateCounter)
get_source_statuses counters = map (λ s. (s, counter_at s.name counters))

-- `header` is what a source's headers are sent as: no header, or one with all of them.
unfoldable pub http_headers : Source → List (List (Text × List Text))
http_headers src =
    if length src.headers == 0 then [] else map (λ h. (h.0, h.1 ∷ [])) src.headers ∷ []

module _ (S : Store) (N : Web) where
  -- `json.Unmarshal` with the texts of `%v`, `runScript`, the numbers of `rand.IntN` in
  -- `RandomProxy`, and the shuffle with the clock readings of the queueing loop.
  pub record Readers : Type 0 where
    pub unmarshal : Text → Option Json
    pub printed : Json → Text
    pub run_script : Source → Fetcher N → Fetcher N × Option (List Proxy)
    pub index : ℕ
    pub shuffled : List Proxy → List ((Time × Time × Time) × Proxy)

  pub record Collector : Type 0 where
    pub crawler : Crawler S N
    pub statuses : List SourceStatus

  -- The document of a source, and `none` for an error.
  unfoldable pub fetch_document :
      Readers → Settings → Source → Crawler S N → Fetcher N × Option Text
  fetch_document r c src s =
      let chosen = random_proxy r.index s.candidates.cache.proxies in
      let (f, result) = get_doc_from_url N c src.url (http_headers src) chosen s.fetcher in
      elim result [ inl body ↦ (f, some body) | inr e ↦ (f, none) ]

  unfoldable pub read_text : Source → Option Text → Option (List Proxy)
  read_text src none = none
  read_text src (some body) = some (parse_text_response body src)

  unfoldable pub read_json : Readers → Source → Option Text → Option (List Proxy)
  read_json r src none = none
  read_json r src (some body) = parse_json_response r.printed (r.unmarshal body) src

  -- The three kinds of source, each with the proxies that it gave, `none` for an error; no result
  -- for another kind. The body of `TestFetchSource` is the same.
  unfoldable pub fetch_proxies :
      Readers → Settings → Source → Crawler S N → Option (Fetcher N × Option (List Proxy))
  fetch_proxies r c src s =
      ite (text_dec src.kind (bytes "text"))
        (let (f, body) = fetch_document r c src s in some (f, read_text src body))
        (ite (text_dec src.kind (bytes "json"))
          (let (f, body) = fetch_document r c src s in some (f, read_json r src body))
          (ite (text_dec src.kind (bytes "script")) (some (r.run_script src s.fetcher)) none))

  unfoldable pub set_status : ℕ → ℕ → Bool → Collector → Collector
  set_status i count failed s =
      let (c, t) = clock S N s.crawler in
      record { crawler = c; statuses = update_source_status i count failed t s.statuses }

  -- What follows a fetch: the candidates are queued after the status is set.
  unfoldable pub conclude_fetch :
      Readers → ℤ → Source → ℕ → Option (List Proxy) → Collector → Collector
  conclude_fetch r limit src i none s = set_status i 0 true s
  conclude_fetch r limit src i (some ps) s =
      let s' = set_status i (length ps) false s in
      let c = s'.crawler in
      record s' {
        crawler = record c {
          candidates = enqueue_source_candidates S limit src.name (r.shuffled ps) c.candidates;
        };
      }

  -- One round of `fetchSource`, and whether there is another one.
  unfoldable pub fetch_source : Readers → Settings → ℤ → Source → ℕ → Collector → Collector × Bool
  fetch_source r c limit src i s =
      let (s1, t) = clock S N s.crawler in
      let s2 = with_failures S N (prune t) s1 in
      elim (fetch_proxies r c src s2) [
        | none ↦ (set_status i 0 true (record s { crawler = s2 }), false)
        | some (f, ps) ↦ (
          conclude_fetch r limit src i ps (record s { crawler = record s2 { fetcher = f } }),
          true,
        )
      ]
