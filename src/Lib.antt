-- ===== src/Lib.antt =====
-- proxy-in-a-box: a proxy server that sends each request through one of a pool of public proxies,
-- which a crawler finds, checks and quarantines.
--
-- The program's parts and the files that model them, by the paths of the repository:
--
-- - Endpoint.antt: `Proxy` and its URI (proxy.go) and `BlockedIP` (blocked_ip.go).
-- - Pool.antt: `proxyEntry`, `proxyList` and the reads of the pool (service/memcache.go). Pool/Removal
--   reads the backward loops that cut entries out, Pool/Index relates entries and index, Pool/Rotation
--   follows `GetProxy`.
-- - Scheduling.antt: `domainScheduling`, `PickProxy`, `MarkProxyTargetFailure` and a tick of `gc`
--   (service/memcache.go). Scheduling/Selection and Pick are about one choice, Spacing and Circuit about
--   histories of picks, reports and ticks, Collector about the tick.
-- - Lifecycle.antt: `MemCache` and its methods that keep pool, locks and database together
--   (service/memcache.go). Lifecycle/Health has the delays and the
--   columns of a verification, Lifecycle/Invariant and History are about all of them, Backoff, Quarantine,
--   Admission and Locking about one each.
-- - Store.antt: the database, as the statements that service/memcache.go issues and what it relies on;
--   gorm and SQLite implement it. Store/Tables fills the interface by two lists of rows.
-- - Migration.antt: `migrateDB` of proxyinabox.go. Migration/Order and Endpoints are about the
--   rows it keeps.
-- - Upstream.antt and Upstream/Handlers: the counters of mitm/request_stats.go, `nextProxy`,
--   `tunnelHTTPS`, `injectHTTPS` and `serve` of mitm/mitm.go, `replayRequest` and `Dump` of mitm/dump.go.
--   Upstream/Attempts is about how often requests go out, Balance, Settlement, Outcome and Accounting
--   about the counters.
-- - Admission.antt: crawler/validation_policy.go (Admission/Policy) and
--   crawler/candidate_admission.go, with Admission/Retry about the failure cache, Admission/Queueing about the loop that queues jobs and
--   Admission/Window about the ring of outcomes.
-- - RateLimit.antt: the token bucket of crawler/rate_limit.go, in exact arithmetic in place of floating
--   point. RateLimit/Bucket is about one reservation, Spacing about the
--   pace of many.
-- - Statistics.antt: the rings of crawler/verification_stats.go and crawler/runtime_stats.go, with
--   Statistics/Rates about the second of them.
-- - Maintenance.antt: the queries of service/proxy.go and cmd/proxy-in-a-box/maintenance_trend.go, with
--   Maintenance/Due and Maintenance/Levels.
-- - Fetch.antt and Fetch/Requests, Callers: the trace of Cloudflare, the retry loop, `GetDocFromURL` and
--   `ValidateProxy` of crawler/crawler.go, with the waits of crawler/rate_limit.go and the counts of
--   crawler/runtime_stats.go. Fetch/Retries and Documents are about what requests cost and return,
--   Fetch/Trace about the trace.
-- - Workers.antt and Workers/State, Candidate, Routine, Settings, Startup, Slots: `validator` of
--   crawler/crawler.go and `getDelay`, `Verify`, `Init` of crawler/verify.go. A round of a worker is a
--   function on the shared state, and the channels of slots with the gauges beside them are a step
--   relation on all workers. Workers/Ends names the ways in which a check of a candidate ends,
--   Outcomes, Claims and Pending are about the rounds,
--   Workers/Slots/Counts, Bounds and Drain about the relation.
-- - Sources.antt and Sources/Json, Round: the documents of crawler/source.go, the round of `fetchSource`
--   and the statuses. Sources/TextLines and Rows are about text and JSON documents, Counts about the
--   available counts.
-- - Browser.antt: the sessions of crawler/browser.go and their ownership in crawler/engine.go.
--   Browser/Census counts processes, Sessions is about their start and stop, Scripts about the calls of scripts.
-- - Dialers.antt: the dials of mitm/proxy_dialer.go. Dialers/Connections is about the connections they
--   leave open, Request about the bytes of a SOCKS4 request.
-- - Prelude and its children: byte strings, maps, lists, time and integers. Tests and its children run
--   the definitions on concrete inputs.
--
-- How they interact: main wires `PickProxy`, `MarkProxyUnavailable` and `MarkProxyTargetFailure` into the
-- proxy server as its scheduler and its two failure callbacks, which the interface `Network` of
-- Upstream.antt stands for, with the network itself; the crawler's admission asks `MemCache` whether an
-- IP is locked, whether a proxy is in the pool and whether its validation is due; the workers take what
-- it queued, check it with the requests of Fetch and report to `MemCache`, the failure cache and the
-- counters. HTTP, the clock and the dialers are the interface `Web` of Fetch/Requests.
--
-- State and steps: a Go object is a record, a method a function from the state and its arguments to the
-- new state and its results. A mutex that is held through a method makes it one step, and a history is a
-- list of steps in the order in which the mutex lets them through. Each read of the clock is an
-- argument, so that a history has its own readings. Strings are lists of bytes. A Go map is an
-- association list, whose order no theorem depends on; `sort.Stable` has one result, which an insertion
-- sort computes. A shuffle or a random index is an argument.
--
-- Bounds: instants are nanoseconds since the year 1 and lie after 1970, and counters do not reach 2^63,
-- so none of them wraps. The loop of `nextProxy` has twice the attempt limit as rounds and the attempt
-- loops have the attempt limit, as in the code: the number of rounds is the recursion's argument and
-- no other fuel is used, but for the poll of `waitForCDP` (Browser.antt), which sleeps so long
-- that its deadline comes first.
--
-- A round of a worker runs here without steps of others in between; each operation that it makes on shared
-- state is a function of its own. The slots are followed through every interleaving.
--
-- Not modelled: the transport and TLS settings of a request, which the HTTP library uses; the Lua
-- interpreter with its bindings (crawler/engine.go), which Sources/Round takes as a parameter; the reading
-- of the sources' YAML files; certificates and listeners of mitm; configuration and
-- wiring (proxyinabox.go, cmd/proxy-in-a-box); floating-point rates; and log output.
mod Prelude
pub mod Endpoint
pub mod Pool
pub mod Scheduling
pub mod Store
pub mod Migration
pub mod Lifecycle
pub mod Upstream
pub mod Fetch
pub mod Workers
pub mod Sources
pub mod Browser
pub mod Dialers
pub mod Statistics
pub mod RateLimit
pub mod Maintenance
pub mod Admission
mod Tests
