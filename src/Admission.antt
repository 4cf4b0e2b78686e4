-- ===== src/Admission.antt =====
-- Which candidates of a source are queued for validation: the failure cache and the settings of
-- crawler/validation_policy.go, and the counters and the limit of crawler/candidate_admission.go.
-- Each mutex makes its operation one step; each read of the clock is an argument.
mod Policy
pub mod Queueing
pub mod Window
pub mod Retry
unfoldable pub use Policy.*
use proxy_in_a_box.Prelude.{
  ℕ, zero, suc, ◌+◌, ◌-◌, ◌*◌, ◌/◌, ◌%◌, max, Bool, true, false, not, ◌&&◌, ◌||◌, Option, none,
  some, ite, List, [], ◌∷◌, ◌++◌, reverse, Text, bytes, text_dec, Map, lookup, insert, delete,
  length, set, get_or, replicate, leb, ltb, ◌==◌, if◌then◌else◌, Time, Duration, before, minute,
  hour,
}
use proxy_in_a_box.Prelude.Int.{ℤ, pos, negsuc}
use proxy_in_a_box.Endpoint.{Proxy, uri}
use proxy_in_a_box.Pool.{has_proxy}
use proxy_in_a_box.Scheduling.{contains}
use proxy_in_a_box.Store.{Store}
use proxy_in_a_box.Lifecycle.{Cache, is_ip_locked, is_proxy_validation_due}

pub record SourceCandidateCounter : Type 0 where
  pub checks : ℕ
  pub success : ℕ
  pub failure : ℕ
  pub admitted : ℕ
  pub capped : ℕ
  pub filtered : ℕ
  pub duplicate : ℕ
  pub recent_outcomes : List Bool
  pub recent_count : ℕ
  pub recent_success : ℕ
  pub recent_index : ℕ

abbrev pub window_size : ℕ
window_size = 256

unfoldable pub new_counter : SourceCandidateCounter
new_counter = record {
  checks = 0;
  success = 0;
  failure = 0;
  admitted = 0;
  capped = 0;
  filtered = 0;
  duplicate = 0;
  recent_outcomes = replicate window_size false;
  recent_count = 0;
  recent_success = 0;
  recent_index = 0;
}

unfoldable pub configured_max_candidates_per_fetch : ℤ → ℕ
configured_max_candidates_per_fetch (pos n) =
    if leb n 0 then 200 else if ltb 10000 n then 10000 else n
configured_max_candidates_per_fetch (negsuc n) = 200

unfoldable pub source_candidate_limit : ℤ → SourceCandidateCounter → ℕ
unfolding configured_max_candidates_per_fetch
source_candidate_limit configured c =
    let limit = configured_max_candidates_per_fetch configured in
    if ltb c.recent_count 100
    then limit
    else if ltb (c.recent_success * 400) c.recent_count
    then max 1 (limit / 8)
    else if ltb (c.recent_success * 200) c.recent_count
    then max 1 (limit / 4)
    else if ltb (c.recent_success * 100) c.recent_count
    then max 1 (limit / 2)
    else limit

unfoldable pub counter_at : Text → Map SourceCandidateCounter → SourceCandidateCounter
counter_at k m = elim (lookup k m) [ none ↦ new_counter | some c ↦ c ]

abbrev pub source_key : Text → Text
source_key source = if length source == 0 then bytes "unknown" else source

-- `updateSourceCandidateCounter`: an unnamed source counts as `unknown`.
unfoldable pub update_source_candidate_counter :
    Text
    → (SourceCandidateCounter → SourceCandidateCounter)
    → Map SourceCandidateCounter
    → Map SourceCandidateCounter
update_source_candidate_counter source f m =
    let k = source_key source in insert k (f (counter_at k m)) m

unfoldable pub record_source_candidate_attempt :
    Text → Map SourceCandidateCounter → Map SourceCandidateCounter
unfolding update_source_candidate_counter
record_source_candidate_attempt source =
    update_source_candidate_counter source (λ c. record c { checks = c.checks + 1 })

abbrev pub bit : Bool → ℕ
bit true = 1
bit false = 0

-- The ring of the last outcomes, overwritten at the index. What is dropped from a full ring was
-- counted, so the subtraction does not stop at 0.
unfoldable pub record_result : Bool → SourceCandidateCounter → SourceCandidateCounter
record_result ok c =
    let full = c.recent_count == window_size in
    let dropped = bit (full && get_or c.recent_outcomes c.recent_index false) in
    record c {
      success = c.success + bit ok;
      failure = c.failure + bit (not ok);
      recent_outcomes = set c.recent_outcomes c.recent_index ok;
      recent_count = if full then c.recent_count else c.recent_count + 1;
      recent_success = c.recent_success - dropped + bit ok;
      recent_index = (c.recent_index + 1) % window_size;
    }

unfoldable pub record_source_candidate_result :
    Text → Bool → Map SourceCandidateCounter → Map SourceCandidateCounter
unfolding update_source_candidate_counter
record_source_candidate_result source ok = update_source_candidate_counter source (record_result ok)

-- `strings.TrimSpace`, of ASCII text.
abbrev pub is_space : ℕ → Bool
is_space c = (leb 9 c && leb c 13) || (c == 32)

unfoldable pub trim_left : Text → Text
trim_left [] = []
trim_left (c ∷ cs) = if is_space c then trim_left cs else c ∷ cs

unfoldable pub trim_space : Text → Text
unfolding trim_left
trim_space s = reverse (trim_left (reverse (trim_left s)))

module _ (S : Store) where
  -- The process-wide state: the cache, the failure cache, the counters, `queuedCandidates` with its count, the jobs
  -- that were sent to `ValidateJobs`, and the count of duplicates.
  pub record Candidates : Type 0 where
    pub cache : Cache S
    pub failures : Map CandidateFailure
    pub counters : Map SourceCandidateCounter
    pub queued : List Text
    pub queued_count : ℕ
    pub jobs : List Proxy
    pub skip_duplicate : ℕ

  abbrev pub counting :
      Text → (SourceCandidateCounter → SourceCandidateCounter) → Candidates → Candidates
  counting source f s = record s { counters = update_source_candidate_counter source f s.counters }

  abbrev pub add_filtered : SourceCandidateCounter → SourceCandidateCounter
  add_filtered c = record c { filtered = c.filtered + 1 }

  abbrev pub add_duplicate : SourceCandidateCounter → SourceCandidateCounter
  add_duplicate c = record c { duplicate = c.duplicate + 1 }

  abbrev pub add_admitted : SourceCandidateCounter → SourceCandidateCounter
  add_admitted c = record c { admitted = c.admitted + 1 }

  abbrev pub add_capped : ℕ → SourceCandidateCounter → SourceCandidateCounter
  add_capped n c = record c { capped = c.capped + n }

  abbrev pub prepared : Text → Proxy → Proxy
  prepared source p = record p {
    source = if length p.source == 0 then source else p.source;
    ip = trim_space p.ip;
  }

  -- One round of the loop, and whether the candidate was queued. The clock is read up to three
  -- times.
  unfoldable pub consider : Text → Time × Time × Time → Proxy → Candidates → Candidates × Bool
  unfolding contains
  consider source (t, t', t'') candidate s =
      let p = prepared source candidate in
      let u = uri p in
      let (c, locked) = is_ip_locked S t p.ip s.cache in
      let s' = record s { cache = c } in
      if locked
      then (counting source add_filtered s', false)
      else if has_proxy u c.proxies
      then (counting source add_filtered (record s' { failures = clear u s.failures }), false)
      else (let (c', due) = is_proxy_validation_due S t' u c in
          let s'' = record s' { cache = c' } in
          if not due || not (is_due u t'' s.failures)
          then (counting source add_filtered s'', false)
          else if contains u s.queued
          then (
            counting source add_duplicate (record s'' { skip_duplicate = s.skip_duplicate + 1 }),
            false,
          )
          else (
            counting source add_admitted (record s'' {
              queued = u ∷ s.queued;
              queued_count = s.queued_count + 1;
              jobs = s.jobs ++ p ∷ [];
            }),
            true,
          ))

  -- The loop, with the number of candidates that may still be admitted.
  unfoldable pub enqueue_loop :
      Text → ℕ → List ((Time × Time × Time) × Proxy) → Candidates → Candidates
  unfolding consider
  enqueue_loop source limit [] s = s
  enqueue_loop source zero (x ∷ xs) s = counting source (add_capped (length (x ∷ xs))) s
  enqueue_loop source (suc limit) ((t, p) ∷ xs) s =
      let (s', admitted) = consider source t p s in
      elim admitted [
        | true ↦ enqueue_loop source limit xs s'
        | false ↦ enqueue_loop source (suc limit) xs s'
      ]

  -- The candidates in the order after `rand.Shuffle`. The limit is read under the source's own name.
  unfoldable pub enqueue_source_candidates :
      ℤ → Text → List ((Time × Time × Time) × Proxy) → Candidates → Candidates
  unfolding enqueue_loop
  enqueue_source_candidates configured source xs s =
      enqueue_loop source (source_candidate_limit configured (counter_at source s.counters)) xs s
