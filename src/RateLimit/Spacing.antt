-- ===== src/RateLimit/Spacing.antt =====
-- How many reservations fit into an interval.
use proxy_in_a_box.Prelude.{
  ℕ, suc, ◌+◌, ◌-◌, ◌*◌, ◌≤◌, ◌<◌, ◌≡◌, refl, inl, List, [], ◌∷◌, ◌++◌, length, Time, second, arith,
}
use proxy_in_a_box.RateLimit.{AttemptRateLimiter, new_attempt_rate_limiter, refill, reserve}
use proxy_in_a_box.RateLimit.Bucket.{
  IsPaid, reserve-IsPaid, IsSpent, reserve-granted, IsCapped, reserve-IsCapped, reserve-first,
}

-- The reservations of a fresh limiter, the latest first.
unfoldable pub reserved : ℕ → ℕ → Time → List Time → AttemptRateLimiter
reserved rate burst start [] = new_attempt_rate_limiter rate burst start
reserved rate burst start (t ∷ ts) = (reserve t (reserved rate burst start ts)).0

abbrev pub latest : Time → List Time → Time
latest start [] = start
latest start (t ∷ ts) = t

-- The clock does not go back, from the start of the limiter on.
abbrev pub IsForward : Time → List Time → Type 0
IsForward start [] = Unit {0}
IsForward start (t ∷ ts) = (latest start ts ≤ t) × IsForward start ts

-- The time at which a reservation at `t` is granted after those of `ts`.
abbrev pub granted : ℕ → ℕ → Time → Time → List Time → Time
granted rate burst start t ts = t + (reserve t (reserved rate burst start ts)).1

fields-reserved :
    (rate burst start : ℕ) (ts : List Time)
    → ((reserved rate burst start ts).rate ≡ rate) × ((reserved rate burst start ts).burst ≡ burst)
unfolding reserved reserve refill new_attempt_rate_limiter
fields-reserved rate burst start [] = (refl, refl)
fields-reserved rate burst start (t ∷ ts) = ground (arith, fields-reserved rate burst start ts)

-- One set of parameters, with a positive rate and burst.
module _ (rate burst start : ℕ) (some : 0 < rate) (room : 0 < burst) where
  reserved-rate : (ts : List Time) → 0 < (reserved rate burst start ts).rate
  reserved-rate ts = omega (arith, fields-reserved rate burst start ts)

  reserved-IsCapped : (ts : List Time) → IsCapped (reserved rate burst start ts)
  unfolding reserved new_attempt_rate_limiter
  reserved-IsCapped [] = omega arith
  reserved-IsCapped (t ∷ ts) =
      reserve-IsCapped t (reserved rate burst start ts) (reserved-IsCapped ts)

  reserved-IsSpent :
      (ts : List Time)
      → IsForward start ts
      → IsSpent (latest start ts) (reserved rate burst start ts)
  unfolding reserved new_attempt_rate_limiter
  reserved-IsSpent [] on = inl (omega arith)
  reserved-IsSpent (t ∷ ts) on =
      (reserve-granted (latest start ts) t (reserved rate burst start ts) (reserved-rate ts) on.0
        (reserved-IsSpent ts on.1)).1

  last-granted :
      (t : Time) (ts : List Time)
      → IsForward start (t ∷ ts)
      → granted rate burst start t ts ≡ (reserved rate burst start (t ∷ ts)).last
  unfolding reserved
  last-granted t ts on =
      (reserve-granted (latest start ts) t (reserved rate burst start ts) (reserved-rate ts) on.0
        (reserved-IsSpent ts on.1)).0

  -- The reservations from one of them on are paid for from the time at which that one is granted.
  reserved-IsPaid :
      (us : List Time) (t : Time) (ts : List Time)
      → IsPaid
          (reserved rate burst start (t ∷ ts)).last
          (suc (length us))
          (reserved rate burst start (us ++ t ∷ ts))
  unfolding reserved
  reserved-IsPaid [] t ts =
      reserve-first t (reserved rate burst start ts) (reserved-rate ts)
        (omega (arith, fields-reserved rate burst start ts)) (reserved-IsCapped ts)
  reserved-IsPaid (u ∷ us) t ts =
      reserve-IsPaid (reserved rate burst start (t ∷ ts)).last u (suc (length us))
        (reserved rate burst start (us ++ t ∷ ts)) (reserved-IsPaid us t ts)

  IsForward-after : (us ts : List Time) → IsForward start (us ++ ts) → IsForward start ts
  IsForward-after [] ts on = on
  IsForward-after (u ∷ us) ts on = IsForward-after us ts on.1

  -- In exact arithmetic, with a positive rate and burst and a clock that does not go back: after any
  -- reservations `ts`, the ones at `first`, at the times `us` and at `now` are granted within an
  -- interval, from the first grant to the last, in which the burst and the rate pay for all of them,
  -- but for half a nanosecond each. Both `ts` and `us` have the latest first.
  pub reserve-paced :
      (ts : List Time) (first : Time) (us : List Time) (now : Time)
      → IsForward start (now ∷ us ++ first ∷ ts)
      → let interval =
          granted rate burst start now (us ++ first ∷ ts) - granted rate burst start first ts in
        2 * ((length us + 2) * second)
        ≤ 2 * (burst * second) + 2 * (interval * rate) + (length us + 2) * rate
  reserve-paced ts first us now on =
      let paid = (reserved-IsPaid (now ∷ us) first ts).2 in
      let (same, same') = fields-reserved rate burst start (now ∷ us ++ first ∷ ts) in
      let begin = last-granted first ts (IsForward-after (now ∷ us) (first ∷ ts) on) in
      let end = last-granted now (us ++ first ∷ ts) on in
      let kept = rw (same, same') at paid in
      let count : (length us + 2) * rate ≡ suc (suc (length us)) * rate = grind arith in
      rw (begin, end) (omega (arith, kept, count))
