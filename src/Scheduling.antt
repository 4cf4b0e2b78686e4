-- ===== src/Scheduling.antt =====
-- Scheduling by domain: `domainScheduling`, `PickProxy`, `MarkProxyTargetFailure` and the collector
-- `gc` of service/memcache.go. The two mutexes that `PickProxy` holds make it one step. Each read
-- of the clock is an argument; counters and Unix seconds do not reach 2^63.
pub mod Selection
pub mod Pick
pub mod Collector
pub mod Spacing
pub mod Circuit
use proxy_in_a_box.Prelude.{
  ℕ, zero, suc, ◌+◌, ◌-◌, ◌*◌, ◌<◌, Bool, true, false, not, Option, none, some, ite, List, [], ◌∷◌,
  ◌++◌, map, reverse, Text, text_dec, Map, lookup, insert, delete, length, take, drop, leb, ltb,
  ◌==◌, if◌then◌else◌, Time, Duration, unix, before, minute,
}
use proxy_in_a_box.Endpoint.{Proxy}
use proxy_in_a_box.Pool.{ProxyEntry, ProxyList, entry_uri}

-- A Go map without the key gives the empty list, or a nil map, which reads as an empty one.
pub record DomainScheduling : Type 0 where
  pub dl : Map (List ProxyEntry)
  pub target_failures : Map (Map Time)
  pub failure_ttl : Duration

pub data PickResult : Type 0 where
  picked : Text → PickResult
  pool_empty : PickResult
  no_free_agent : PickResult

unfoldable pub entries_of : Text → Map (List ProxyEntry) → List ProxyEntry
entries_of domain m = elim (lookup domain m) [ none ↦ [] | some es ↦ es ]

unfoldable pub failures_of : Text → Map (Map Time) → Map Time
failures_of target m = elim (lookup target m) [ none ↦ [] | some fs ↦ fs ]

unfoldable pub contains : Text → List Text → Bool
contains k [] = false
contains k (x ∷ xs) = ite (text_dec x k) true (contains k xs)

-- The entries that were handed out for the domain in the last three seconds.
unfoldable pub recent_entries : ℕ → List ProxyEntry → List ProxyEntry
recent_entries now [] = []
recent_entries now (e ∷ es) =
    if ltb (now - e.n) 3 then e ∷ recent_entries now es else recent_entries now es

-- The circuits that are still open.
unfoldable pub open_failures : Time → Map Time → Map Time
open_failures now [] = []
open_failures now ((u, expires_at) ∷ fs) =
    if before now expires_at then (u, expires_at) ∷ open_failures now fs else open_failures now fs

-- The map of circuits is pruned in place, and dropped when it is empty.
unfoldable pub prune_failures : Time → Text → Map (Map Time) → Map (Map Time)
prune_failures now target m =
    let fs = open_failures now (failures_of target m) in
    if length fs == 0 then delete target m else insert target fs m

-- The copy of the pool that is sorted holds pointers to its entries: here, their positions.
unfoldable pub numbered : ℕ → List ProxyEntry → List (ℕ × ProxyEntry)
numbered i [] = []
numbered i (e ∷ es) = (i, e) ∷ numbered (suc i) es

-- `sort.Stable` by the use count: a stable sort has one result.
unfoldable pub insert_entry : ℕ × ProxyEntry → List (ℕ × ProxyEntry) → List (ℕ × ProxyEntry)
insert_entry x [] = x ∷ []
insert_entry x (y ∷ ys) = if ltb (y.1).n (x.1).n then y ∷ insert_entry x ys else x ∷ y ∷ ys

unfoldable pub sort_stable : List (ℕ × ProxyEntry) → List (ℕ × ProxyEntry)
unfolding insert_entry
sort_stable [] = []
sort_stable (x ∷ xs) = insert_entry x (sort_stable xs)

unfoldable pub is_free : Map Time → List Text → ProxyEntry → Bool
is_free failed candidate e = elim (lookup (entry_uri e) failed) [
  | none ↦ not (contains e.p.ip candidate)
  | some _ ↦ false
]

-- The loop over the sorted copy, up to the first entry that may be used.
unfoldable pub first_free : Map Time → List Text → List (ℕ × ProxyEntry) → Option (ℕ × ProxyEntry)
first_free failed candidate [] = none
first_free failed candidate (x ∷ xs) =
    if is_free failed candidate x.1 then some x else first_free failed candidate xs

-- `entry.atomicAddN(1)`, through the pointer.
unfoldable pub bump : ℕ → List ProxyEntry → List ProxyEntry
bump i [] = []
bump zero (e ∷ es) = record e { n = e.n + 1 } ∷ es
bump (suc i) (e ∷ es) = e ∷ bump i es

abbrev pub ips : List ProxyEntry → List Text
ips = map (λ e. e.p.ip)

-- The entry that `PickProxy` settles on, with its position. `later` is the second clock reading.
unfoldable pub chosen : ProxyList → DomainScheduling → Time → Time → Text → Option (ℕ × ProxyEntry)
chosen l s now later domain =
    first_free (open_failures later (failures_of domain s.target_failures))
      (ips (recent_entries (unix now) (entries_of domain s.dl))) (sort_stable (numbered 0 l.pl))

unfoldable pub pick_proxy :
    ProxyList → DomainScheduling → Time → Time → Text → ProxyList × DomainScheduling × PickResult
pick_proxy l s now later domain =
    if length l.pl == 0
    then (l, s, pool_empty)
    else let recent = recent_entries (unix now) (entries_of domain s.dl) in
      let tf = prune_failures later domain s.target_failures in
      elim (chosen l s now later domain) [
        | none ↦
            (l, record s { dl = insert domain recent s.dl; target_failures = tf }, no_free_agent)
        | some (i, e) ↦ (
          record l { pl = bump i l.pl },
          record s {
            dl = insert domain (recent ++ record { p = e.p; n = unix now } ∷ []) s.dl;
            target_failures = tf;
          },
          picked (entry_uri e),
        )
      ]

-- `ttl` is `configuredTargetFailureTTL()`, which replaces a lifetime that is not positive.
unfoldable pub mark_proxy_target_failure :
    Duration → Time → Text → Text → DomainScheduling → DomainScheduling
mark_proxy_target_failure ttl now u target s =
    if length u == 0
    then s
    else if length target == 0
    then s
    else let life = if s.failure_ttl == 0 then ttl else s.failure_ttl in
      record s {
        target_failures =
            insert target (insert u (now + life) (failures_of target s.target_failures))
              s.target_failures;
        failure_ttl = life;
      }

-- `configuredTargetFailureTTL`, of the configured value.
unfoldable pub configured_target_failure_ttl : Duration → Duration
configured_target_failure_ttl configured = if ltb 0 configured then configured else 10 * minute

-- The collector's first loop over a domain: the positions of the entries older than three seconds,
-- last first.
unfoldable pub stale_positions : ℕ → ℕ → List ProxyEntry → List ℕ
stale_positions now i [] = []
stale_positions now i (e ∷ es) =
    if ltb 3 (now - e.n) then i ∷ stale_positions now (suc i) es else stale_positions now (suc i) es

-- `append(v[:i], v[i+1:]...)` writes into the array of `v`: what follows `i` moves down by one,
-- and the last slot keeps its value.
unfoldable pub shift_down : ℕ → List ProxyEntry → List ProxyEntry
shift_down i v = take i v ++ (drop (suc i) v ++ drop (length v - 1) v)

unfoldable pub shift_all : List ℕ → List ProxyEntry → List ProxyEntry
unfolding shift_down
shift_all [] v = v
shift_all (i ∷ is) v = shift_all is (shift_down i v)

-- `v` keeps its length through the loop, so each assignment to `dl[k]` is one shorter than `v`.
unfoldable pub collect_entries : ℕ → List ProxyEntry → List ProxyEntry
unfolding stale_positions shift_all
collect_entries now v = elim (reverse (stale_positions now 0 v)) [
  | [] ↦ v
  | i ∷ is ↦ take (length v - 1) (shift_all (i ∷ is) v)
]

unfoldable pub collect_domains : ℕ → Map (List ProxyEntry) → Map (List ProxyEntry)
unfolding collect_entries
collect_domains now [] = []
collect_domains now ((k, v) ∷ m) =
    let v' = collect_entries now v in
    if length v' == 0 then collect_domains now m else (k, v') ∷ collect_domains now m

unfoldable pub collect_failures : Time → Map (Map Time) → Map (Map Time)
unfolding open_failures
collect_failures now [] = []
collect_failures now ((k, fs) ∷ m) =
    let fs' = open_failures now fs in
    if length fs' == 0 then collect_failures now m else (k, fs') ∷ collect_failures now m

-- One tick of the collector.
unfoldable pub gc : Time → DomainScheduling → DomainScheduling
gc now s = record s {
  dl = collect_domains (unix now) s.dl;
  target_failures = collect_failures now s.target_failures;
}
