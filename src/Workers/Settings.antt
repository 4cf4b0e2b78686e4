-- ===== src/Workers/Settings.antt =====
-- The numbers of workers and of attempts per second (crawler/verify.go), of the configured values,
-- which may be negative.
use proxy_in_a_box.Prelude.{
  ℕ, ◌-◌, ◌/◌, ◌≤◌, ◌<◌, min, max, ◌⊎◌, ◌≡◌, leb, ltb, if◌then◌else◌, arith,
}
use proxy_in_a_box.Prelude.Int.{ℤ, pos, negsuc}

unfoldable pub configured_verification_workers : ℤ → ℕ
configured_verification_workers (pos n) = if leb n 0 then 20 else if ltb 256 n then 256 else n
configured_verification_workers (negsuc n) = 20

unfoldable pub validation_rate : ℤ → ℕ
validation_rate (pos n) = if leb n 0 then 50 else if ltb 1000 n then 1000 else n
validation_rate (negsuc n) = 50

unfoldable pub validation_burst : ℕ → ℤ → ℕ
validation_burst rate (pos n) = if leb n 0 then min rate 20 else if ltb rate n then rate else n
validation_burst rate (negsuc n) = min rate 20

unfoldable pub configured_validation_rate : ℤ → ℤ → ℕ × ℕ
unfolding validation_rate validation_burst
configured_validation_rate rate burst =
    let rate' = validation_rate rate in (rate', validation_burst rate' burst)

-- What is reserved before the last test, which keeps a worker for candidates.
unfoldable pub reserved_or_default : ℕ → ℤ → ℕ
reserved_or_default workers (pos n) = if leb n 0 then max 1 (workers / 5) else n
reserved_or_default workers (negsuc n) = max 1 (workers / 5)

unfoldable pub configured_routine_reserved_workers : ℤ → ℕ → ℕ
unfolding reserved_or_default
configured_routine_reserved_workers configured workers =
    if leb workers 1
    then 0
    else (let reserved = reserved_or_default workers configured in
        if leb workers reserved then workers - 1 else reserved)

-- Whatever is configured, there is a worker, a worker for candidates, and, of two workers or more,
-- one for routine checks.
pub reserved-workers :
    (configured reserve : ℤ)
    → let workers = configured_verification_workers configured in
      let reserved = configured_routine_reserved_workers reserve workers in
      (1 ≤ workers) × (workers ≤ 256) × (reserved < workers) × ((workers ≡ 1) ⊎ (1 ≤ reserved))
unfolding configured_verification_workers configured_routine_reserved_workers reserved_or_default
reserved-workers (pos n) (pos m) = ground arith
reserved-workers (pos n) (negsuc m) = ground arith
reserved-workers (negsuc n) (pos m) = ground arith
reserved-workers (negsuc n) (negsuc m) = ground arith

-- Whatever is configured, the rate is from 1 to 1000 and the burst from 1 to the rate.
pub configured_validation_rate-bounds :
    (rate burst : ℤ)
    → let (rate', burst') = configured_validation_rate rate burst in
      (1 ≤ rate') × (rate' ≤ 1000) × (1 ≤ burst') × (burst' ≤ rate')
unfolding configured_validation_rate validation_rate validation_burst
configured_validation_rate-bounds (pos n) (pos m) = ground arith
configured_validation_rate-bounds (pos n) (negsuc m) = ground arith
configured_validation_rate-bounds (negsuc n) (pos m) = ground arith
configured_validation_rate-bounds (negsuc n) (negsuc m) = ground arith
