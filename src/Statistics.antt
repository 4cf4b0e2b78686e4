-- ===== src/Statistics.antt =====
-- The crawler's counts: health checks by calendar minute (crawler/verification_stats.go) and
-- validation traffic by second (crawler/runtime_stats.go), each in a ring of 60 buckets. Each mutex
-- makes its operation one step; counters do not reach 2^64, and the clock reads after 1970.
pub mod Rates
use proxy_in_a_box.Prelude.{
  ℕ, suc, ◌+◌, ◌-◌, ◌*◌, ◌/◌, ◌%◌, max, Bool, true, false, not, ◌&&◌, ◌||◌, List, [], ◌∷◌, set,
  get_or, replicate, leb, ltb, ◌==◌, if◌then◌else◌, Time, unix,
}

abbrev pub ring_size : ℕ
ring_size = 60

pub record NetworkRateBucket : Type 0 where
  pub second : ℕ
  pub attempts : ℕ
  pub bytes : ℕ

pub record NetworkRateSnapshot : Type 0 where
  pub last_second : ℕ
  pub attempts60s : ℕ
  pub bytes60s : ℕ
  pub peak60s : ℕ
  pub window_seconds : ℕ

abbrev pub empty_bucket : ℕ → NetworkRateBucket
empty_bucket n = record { second = n; attempts = 0; bytes = 0 }

abbrev pub bucket_at : ℕ → List NetworkRateBucket → NetworkRateBucket
bucket_at i w = get_or w i (empty_bucket 0)

-- `record` at the second `n`. A bucket of a later second is left alone.
unfoldable pub record_rate : ℕ → ℕ → ℕ → List NetworkRateBucket → List NetworkRateBucket
record_rate n attempts bytes w =
    let i = n % ring_size in
    let bucket = bucket_at i w in
    if ltb n bucket.second
    then w
    else let current = if bucket.second == n then bucket else empty_bucket n in
      set w i
        (record current { attempts = current.attempts + attempts; bytes = current.bytes + bytes })

-- `bucket.second >= second-59 && bucket.second <= second`
abbrev pub in_window : ℕ → ℕ → Bool
in_window now n = ltb now (n + ring_size) && leb n now

-- One bucket of the loop.
unfoldable pub take_bucket : ℕ → NetworkRateBucket → NetworkRateSnapshot → NetworkRateSnapshot
take_bucket now b r =
    if in_window now b.second
    then record r {
      attempts60s = r.attempts60s + b.attempts;
      bytes60s = r.bytes60s + b.bytes;
      peak60s = max r.peak60s b.attempts;
      last_second = if b.second + 1 == now then b.attempts else r.last_second;
    }
    else r

unfoldable pub collect_rates :
    ℕ → List NetworkRateBucket → NetworkRateSnapshot → NetworkRateSnapshot
collect_rates now [] r = r
collect_rates now (b ∷ bs) r = collect_rates now bs (take_bucket now b r)

-- The two averages are the sums over `window_seconds`, as floating-point numbers.
abbrev pub empty_snapshot : ℕ → ℕ → NetworkRateSnapshot
empty_snapshot now started = record {
  last_second = 0;
  attempts60s = 0;
  bytes60s = 0;
  peak60s = 0;
  window_seconds = if ltb (now + 1) (started + 60) then max 1 (now + 1 - started) else 60;
}

unfoldable pub snapshot_rates : ℕ → ℕ → List NetworkRateBucket → NetworkRateSnapshot
snapshot_rates now started w = collect_rates now w (empty_snapshot now started)

pub record VerificationStats : Type 0 where
  pub routine_success : ℕ
  pub routine_failure : ℕ
  pub candidate_success : ℕ
  pub candidate_failure : ℕ

pub record CheckMinute : Type 0 where
  pub minute : ℕ
  pub counts : VerificationStats

pub record VerificationCounters : Type 0 where
  pub totals : VerificationStats
  pub recent : List CheckMinute

abbrev pub no_checks : VerificationStats
no_checks = record {
  routine_success = 0;
  routine_failure = 0;
  candidate_success = 0;
  candidate_failure = 0;
}

-- One more check, by who made it and how it ended.
abbrev pub add_check : Bool → Bool → VerificationStats → VerificationStats
add_check true true s = record s { routine_success = s.routine_success + 1 }
add_check true false s = record s { routine_failure = s.routine_failure + 1 }
add_check false true s = record s { candidate_success = s.candidate_success + 1 }
add_check false false s = record s { candidate_failure = s.candidate_failure + 1 }

abbrev pub empty_minute : ℕ → CheckMinute
empty_minute n = record { minute = n; counts = no_checks }

unfoldable pub record_recent : Time → Bool → Bool → List CheckMinute → List CheckMinute
record_recent at routine success w =
    let n = unix at / 60 in
    let i = n % ring_size in
    let bucket = get_or w i (empty_minute 0) in
    let current = if bucket.minute == n then bucket else empty_minute n in
    set w i (record current { counts = add_check routine success current.counts })

-- `recordRoutineAt` and `recordCandidateAt`.
unfoldable pub record_check : Time → Bool → Bool → VerificationCounters → VerificationCounters
unfolding record_recent
record_check at routine success c = record c {
  totals = add_check routine success c.totals;
  recent = record_recent at routine success c.recent;
}

abbrev pub add_stats : VerificationStats → VerificationStats → VerificationStats
add_stats a b = record {
  routine_success = a.routine_success + b.routine_success;
  routine_failure = a.routine_failure + b.routine_failure;
  candidate_success = a.candidate_success + b.candidate_success;
  candidate_failure = a.candidate_failure + b.candidate_failure;
}

unfoldable pub recent_loop : ℕ → List CheckMinute → VerificationStats → VerificationStats
recent_loop n [] r = r
recent_loop n (b ∷ bs) r =
    recent_loop n bs (if in_window n b.minute then add_stats r b.counts else r)

unfoldable pub recent_snapshot : Time → VerificationCounters → VerificationStats
unfolding recent_loop
recent_snapshot now c = recent_loop (unix now / 60) c.recent no_checks
