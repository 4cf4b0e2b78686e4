-- ===== src/RateLimit/Bucket.antt =====
-- What a reservation takes from the bucket, and when it is granted.
use native.Mathlib.Nat.{lt-div-mul-add}
use proxy_in_a_box.Prelude.{
  ℕ, suc, ◌+◌, ◌-◌, ◌*◌, ◌≤◌, ◌<◌, ◌≡◌, refl, sym, ap, subst, ◌⊎◌, inl, inr, false, Bool-cases, leb,
  ◌==◌, Time, before, second, arith,
}
use proxy_in_a_box.RateLimit.{AttemptRateLimiter, wait_for, refill, reserve}

-- The rounded wait makes up for the missing tokens, but for half a nanosecond.
wait_for-enough :
    (tokens rate : ℕ)
    → 0 < rate
    → 2 * second ≤ 2 * tokens + 2 * (wait_for tokens rate * rate) + rate
wait_for-enough tokens rate h =
    let q = wait_for tokens rate in
    let d = lt-div-mul-add {a = 2 * (second - tokens) + rate} {b = 2 * rate} (omega arith) in
    let e : q * (2 * rate) ≡ 2 * (q * rate) = grind arith in omega (arith, d, e)

spread : (a b c rate : ℕ) → a ≤ b → b ≤ c → (c - a) * rate ≡ (b - a) * rate + (c - b) * rate
spread a b c rate h h' = let e : c - a ≡ (b - a) + (c - b) = omega arith in rw e (grind arith)

-- After `n` reservations that began at `start`: they and the tokens left do not exceed the burst and
-- what came in, but for half a nanosecond's worth for each of them.
abbrev pub IsPaid : Time → ℕ → AttemptRateLimiter → Type 0
IsPaid start n l =
    (0 < l.rate)
    × (start ≤ l.last)
    × (2 * (n * second) + 2 * l.tokens
        ≤ 2 * (l.burst * second) + 2 * ((l.last - start) * l.rate) + n * l.rate)

refill-IsPaid :
    (start now n : ℕ) (l : AttemptRateLimiter) → IsPaid start n l → IsPaid start n (refill now l)
unfolding refill
refill-IsPaid start now n l (some, late, paid) = elim (Bool-cases (before now l.last)) [
  | inl early ↦ rw (refill, early) (some, late, paid)
  | inr on ↦
      let h : l.last ≤ now = ground arith in
      let more = spread start l.last now l.rate late h in
      rw (refill, on) (some, omega arith, omega (arith, more))
]

rate-refill : (now : Time) (l : AttemptRateLimiter) → (refill now l).rate ≡ l.rate
unfolding refill
rate-refill now l = ground arith

pub reserve-IsPaid :
    (start now n : ℕ) (l : AttemptRateLimiter)
    → IsPaid start n l
    → IsPaid start (suc n) (reserve now l).0
unfolding reserve
reserve-IsPaid start now n l paid =
    let base = refill now l in
    let (some, late, enough) = refill-IsPaid start now n l paid in
    let open' : (l.rate == 0) ≡ false = ground (arith, paid.0) in
    let more : suc n * base.rate ≡ n * base.rate + base.rate = grind arith in
    elim (Bool-cases (leb second base.tokens)) [
      | inl ready ↦
          let whole : second ≤ base.tokens = ground arith in
          rw (reserve, open', ready) (some, late, omega (arith, more))
      | inr short ↦
          let wait = wait_for base.tokens l.rate in
          let paid' = wait_for-enough base.tokens l.rate paid.0 in
          let longer = spread start base.last (base.last + wait) base.rate late (omega arith) in
          let same : base.rate ≡ l.rate = rate-refill now l in
          let step : base.last + wait - base.last ≡ wait = omega arith in
          let gap = ap (λ (x : ℕ). x * base.rate) step in
          let gap' = ap (λ (x : ℕ). wait * x) same in
          rw (reserve, open', short)
            (some, omega arith, omega (arith, enough, paid', longer, gap, gap', more, same))
    ]

-- No token is there before the time up to which reservations were granted.
abbrev pub IsSpent : Time → AttemptRateLimiter → Type 0
IsSpent prev l = (l.last ≤ prev) ⊎ (l.tokens ≡ 0)

refill-now :
    (prev now : ℕ) (l : AttemptRateLimiter)
    → prev ≤ now
    → IsSpent prev l
    → (now ≤ (refill now l).last) × (((refill now l).last ≡ now) ⊎ ((refill now l).tokens ≡ 0))
unfolding refill
refill-now prev now l on spent = elim (Bool-cases (before now l.last)) [
  | inl early ↦ rw (refill, early) (ground arith, ground arith)
  | inr on' ↦ rw (refill, on') (omega arith, inl refl)
]

-- A reservation is granted at the time that the limiter keeps.
pub reserve-granted :
    (prev now : ℕ) (l : AttemptRateLimiter)
    → 0 < l.rate
    → prev ≤ now
    → IsSpent prev l
    → (now + (reserve now l).1 ≡ (reserve now l).0.last) × IsSpent now (reserve now l).0
unfolding reserve
reserve-granted prev now l some on spent =
    let base = refill now l in
    let open' : (l.rate == 0) ≡ false = ground arith in
    let (late, kept) = refill-now prev now l on spent in
    elim (Bool-cases (leb second base.tokens)) [
      | inl ready ↦
          let whole : second ≤ base.tokens = ground arith in
          let now' : base.last ≡ now = omega (arith, late, kept) in
          rw (reserve, open', ready) (omega (arith, now'), inl (omega (arith, now')))
      | inr short ↦ rw (reserve, open', short) (omega (arith, late), inr refl)
    ]

-- The bucket holds at most the burst.
abbrev pub IsCapped : AttemptRateLimiter → Type 0
IsCapped l = l.tokens ≤ l.burst * second

refill-IsCapped :
    (now : Time) (l : AttemptRateLimiter)
    → IsCapped l
    → IsCapped (refill now l) × ((refill now l).burst ≡ l.burst)
unfolding refill
refill-IsCapped now l h = ground arith

pub reserve-IsCapped :
    (now : Time) (l : AttemptRateLimiter) → IsCapped l → IsCapped (reserve now l).0
unfolding reserve
reserve-IsCapped now l h =
    let base = refill now l in
    let (capped, same) = refill-IsCapped now l h in
    elim (Bool-cases (l.rate == 0)) [
      | inl off ↦ rw (reserve, off) h
      | inr on ↦ elim (Bool-cases (leb second base.tokens)) [
        | inl ready ↦ rw (reserve, on, ready) (omega arith)
        | inr short ↦ rw (reserve, on, short) (omega arith)
      ]
    ]

-- One reservation of a bucket that is not over the burst is paid for by the burst, from the time at
-- which it is granted on.
pub reserve-first :
    (now : Time) (l : AttemptRateLimiter)
    → 0 < l.rate
    → 0 < l.burst
    → IsCapped l
    → IsPaid (reserve now l).0.last 1 (reserve now l).0
unfolding reserve
reserve-first now l some room h =
    let base = refill now l in
    let (capped, same) = refill-IsCapped now l h in
    let rate : 0 < base.rate = subst (λ n. 0 < n) (sym (rate-refill now l)) some in
    let burst : second ≤ base.burst * second = omega (arith, same) in
    let open' : (l.rate == 0) ≡ false = ground (arith, some) in
    elim (Bool-cases (leb second base.tokens)) [
      | inl ready ↦
          let whole : second ≤ base.tokens = ground arith in
          rw (reserve, open', ready) (rate, omega arith, omega (arith, whole, capped))
      | inr short ↦ rw (reserve, open', short) (rate, omega arith, omega (arith, burst))
    ]
