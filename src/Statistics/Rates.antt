-- ===== src/Statistics/Rates.antt =====
-- The rate window agrees with the log of what was recorded.
use proxy_in_a_box.Prelude.{
  ℕ, zero, suc, ◌+◌, ◌%◌, ◌≤◌, ◌<◌, ◌≡◌, ◌≢◌, refl, ◌∙◌, ap, ◌⊎◌, inl, inr, false, Bool-cases, List,
  [], ◌∷◌, length, length-set, set, replicate, ltb, ◌==◌, if◌then◌else◌, arith,
}
use proxy_in_a_box.Statistics.{
  ring_size, NetworkRateBucket, NetworkRateSnapshot, empty_bucket, bucket_at, record_rate,
  in_window, take_bucket, collect_rates, empty_snapshot, snapshot_rates,
}

-- The attempts of the buckets in the window.
abbrev attempts_in : ℕ → List NetworkRateBucket → ℕ
attempts_in now [] = 0
attempts_in now (b ∷ bs) = (if in_window now b.second then b.attempts else 0) + attempts_in now bs

attempts-take_bucket :
    (now : ℕ) (b : NetworkRateBucket) (r : NetworkRateSnapshot)
    → (take_bucket now b r).attempts60s
      ≡ r.attempts60s + (if in_window now b.second then b.attempts else 0)
unfolding take_bucket
attempts-take_bucket now b r = elim (Bool-cases (in_window now b.second)) [
  | inl seen ↦ rw (take_bucket, seen)
  | inr out ↦ rw (take_bucket, out) (omega arith)
]

collect_rates-attempts :
    (now : ℕ) (w : List NetworkRateBucket) (r : NetworkRateSnapshot)
    → (collect_rates now w r).attempts60s ≡ r.attempts60s + attempts_in now w
unfolding collect_rates
collect_rates-attempts now [] r = omega arith
collect_rates-attempts now (b ∷ bs) r =
    omega (arith, attempts-take_bucket now b r, collect_rates-attempts now bs (take_bucket now b r))

-- A bucket replaced.
attempts_in-set :
    (now : ℕ) (w : List NetworkRateBucket) (i : ℕ) (b : NetworkRateBucket)
    → i < length w
    → attempts_in now (set w i b)
        + (if in_window now (bucket_at i w).second then (bucket_at i w).attempts else 0)
      ≡ attempts_in now w + (if in_window now b.second then b.attempts else 0)
attempts_in-set now [] i b h = absurd (omega arith)
attempts_in-set now (x ∷ xs) zero b h = omega arith
attempts_in-set now (x ∷ xs) (suc i) b h = omega (arith, attempts_in-set now xs i b (omega arith))

-- A bucket that is not empty holds a second that belongs in its slot, and none is after `last`.
abbrev pub IsPlaced : ℕ → List NetworkRateBucket → Type 0
IsPlaced last w =
    (length w ≡ ring_size)
    × ((i : ℕ)
        → i < ring_size
        → ((bucket_at i w).second ≤ last)
          × (((bucket_at i w).second % ring_size ≡ i) ⊎ ((bucket_at i w).attempts ≡ 0)))

bucket_at-set :
    (w : List NetworkRateBucket) (i j : ℕ) (b : NetworkRateBucket)
    → i < length w
    → bucket_at j (set w i b) ≡ (if i == j then b else bucket_at j w)
bucket_at-set [] i j b h = absurd (omega arith)
bucket_at-set (x ∷ xs) zero zero b h = refl
bucket_at-set (x ∷ xs) zero (suc j) b h = ground arith
bucket_at-set (x ∷ xs) (suc i) zero b h = ground arith
bucket_at-set (x ∷ xs) (suc i) (suc j) b h = ground (arith, bucket_at-set xs i j b (omega arith))

-- The bucket of the second `n` after a record, when no later second is in the ring.
record_rate-current :
    (n a b last : ℕ) (w : List NetworkRateBucket)
    → IsPlaced last w
    → last ≤ n
    → (c : NetworkRateBucket) × (record_rate n a b w ≡ set w (n % ring_size) c)
      × (c.second ≡ n)
      × (((bucket_at (n % ring_size) w).second ≡ n)
            × (c.attempts ≡ (bucket_at (n % ring_size) w).attempts + a)
          ⊎ ((bucket_at (n % ring_size) w).second ≢ n) × (c.attempts ≡ a))
unfolding record_rate
record_rate-current n a b last w (long, placed) h =
    let old = bucket_at (n % ring_size) w in
    let (early, slot) = placed (n % ring_size) (omega arith) in
    let none' : ltb n old.second ≡ false = ground arith in
    elim (Bool-cases (old.second == n)) [
      | inl same ↦ (
        record old { attempts = old.attempts + a; bytes = old.bytes + b },
        rw (record_rate, none', same),
        ground arith,
        inl (ground arith, refl),
      )
      | inr other ↦ (
        record { second = n; attempts = 0 + a; bytes = 0 + b },
        rw (record_rate, none', other),
        refl,
        inr (ground arith, omega arith),
      )
    ]

mod_early : (m n : ℕ) → m % ring_size ≡ n % ring_size → m < n → m + ring_size ≤ n
mod_early m n same less = omega arith

-- A record adds its attempts to what is in the window, and keeps the ring placed.
record_rate-adds :
    (n a b last now : ℕ) (w : List NetworkRateBucket)
    → IsPlaced last w
    → last ≤ n
    → n ≤ now
    → attempts_in now (record_rate n a b w) ≡ attempts_in now w + (if in_window now n then a else 0)
record_rate-adds n a b last now w placed h h' =
    let i = n % ring_size in
    let (c, after, at, kept) = record_rate-current n a b last w placed h in
    let inside : i < length w = omega (arith, placed.0) in
    let (early, slot) = placed.1 i (omega arith) in
    let sum = attempts_in-set now w i c inside in
    rw after (elim kept [
      | inl (same, more) ↦ ground (arith, sum, at, same, more)
      | inr (other, fresh) ↦ elim slot [
        | inl right ↦
            let old : (bucket_at i w).second + ring_size ≤ n =
              mod_early (bucket_at i w).second n right (omega arith) in
            ground (arith, sum, at, fresh, old)
        | inr unused ↦ ground (arith, sum, at, fresh, unused)
      ]
    ])

record_rate-IsPlaced :
    (n a b last : ℕ) (w : List NetworkRateBucket)
    → IsPlaced last w
    → last ≤ n
    → IsPlaced n (record_rate n a b w)
record_rate-IsPlaced n a b last w placed h =
    let i = n % ring_size in
    let (c, after, at, kept) = record_rate-current n a b last w placed h in
    let inside : i < length w = omega (arith, placed.0) in
    rw after (
      length-set w i c ∙ placed.0,
      λ j small.
          let (early, slot) = placed.1 j small in
          let e = bucket_at-set w i j c inside in
          elim (Bool-cases (i == j)) [
            | inl same ↦ let here : i ≡ j = ground arith in rw (e, same, at) (omega arith, inl here)
            | inr other ↦ rw (e, other) (omega arith, slot)
          ],
    )

-- What was recorded, the latest first: the second, and the attempts and bytes.
abbrev pub Log : Type 0
Log = List (ℕ × ℕ × ℕ)

unfoldable pub recorded : Log → List NetworkRateBucket
recorded [] = replicate ring_size (empty_bucket 0)
recorded ((n, a, b) ∷ log) = record_rate n a b (recorded log)

abbrev pub last_of : Log → ℕ
last_of [] = 0
last_of ((n, a, b) ∷ log) = n

-- The clock did not go back between records.
abbrev pub IsOrdered : Log → Type 0
IsOrdered [] = Unit {0}
IsOrdered ((n, a, b) ∷ log) = (last_of log ≤ n) × IsOrdered log

abbrev pub logged : ℕ → Log → ℕ
logged now [] = 0
logged now ((n, a, b) ∷ log) = (if in_window now n then a else 0) + logged now log

bucket_at-fresh : (k i : ℕ) → bucket_at i (replicate k (empty_bucket 0)) ≡ empty_bucket 0
bucket_at-fresh zero i = refl
bucket_at-fresh (suc k) zero = refl
bucket_at-fresh (suc k) (suc i) = bucket_at-fresh k i

attempts_in-fresh : (now k : ℕ) → attempts_in now (replicate k (empty_bucket 0)) ≡ 0
attempts_in-fresh now zero = refl
attempts_in-fresh now (suc k) = ground (arith, attempts_in-fresh now k)

fresh-IsPlaced : IsPlaced 0 (replicate ring_size (empty_bucket 0))
fresh-IsPlaced = (
  refl,
  λ i small.
      let e = bucket_at-fresh ring_size i in
      (omega (arith, ap (λ b. b.second) e), inr (ap (λ b. b.attempts) e)),
)

recorded-IsPlaced : (log : Log) → IsOrdered log → IsPlaced (last_of log) (recorded log)
unfolding recorded
recorded-IsPlaced [] h = fresh-IsPlaced
recorded-IsPlaced ((n, a, b) ∷ log) h =
    record_rate-IsPlaced n a b (last_of log) (recorded log) (recorded-IsPlaced log h.1) h.0

attempts_in-recorded :
    (now : ℕ) (log : Log)
    → IsOrdered log
    → last_of log ≤ now
    → attempts_in now (recorded log) ≡ logged now log
unfolding recorded
attempts_in-recorded now [] h late = attempts_in-fresh now ring_size
attempts_in-recorded now ((n, a, b) ∷ log) h late = omega (
  arith,
  attempts_in-recorded now log h.1 (omega (arith, h)),
  record_rate-adds n a b (last_of log) now (recorded log) (recorded-IsPlaced log h.1) h.0 late,
)

-- After any records with a clock that does not go back, the attempts of a snapshot are those that
-- were recorded in the last 60 seconds, the current one included.
pub snapshot_rates-logged :
    (now started : ℕ) (log : Log)
    → IsOrdered log
    → last_of log ≤ now
    → (snapshot_rates now started (recorded log)).attempts60s ≡ logged now log
unfolding snapshot_rates
snapshot_rates-logged now started log h late = omega (
  arith,
  collect_rates-attempts now (recorded log) (empty_snapshot now started),
  attempts_in-recorded now log h late,
)
