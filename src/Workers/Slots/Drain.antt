-- ===== src/Workers/Slots/Drain.antt =====
-- No deadlock on the two channels: what has begun ends, and routine checks have the slots that are
-- reserved for them.
use proxy_in_a_box.Prelude.{
  ℕ, suc, ◌+◌, ◌-◌, ◌*◌, ◌≤◌, ◌<◌, ◌≡◌, ◌⊎◌, inl, inr, refl, some, get_elem?-set_self, List, [],
  ◌∷◌, length, get_elem?, dec_lt, arith,
}
use proxy_in_a_box.Workers.Slots.{
  Capacity, Channels, Crew, Phase, wants_candidate_slot, wants_validation_slot, validating, leaving,
  wants_slot, checking, Move, take_candidate_slot, take_validation_slot, end_validation, leave,
  take_slot, end_check, Advance, advance, Reach,
}
use proxy_in_a_box.Workers.Slots.Counts.{
  total, total-set, total-pos, total_mono, in_candidate_slot, is_validating, is_checking,
  waits_for_candidate, waits_for_check, total-add, lt_of_get_elem?, IsCounted,
}
use proxy_in_a_box.Workers.Slots.Bounds.{Advance-IsCounted, Reach-IsCounted, slots-bound}

-- The steps that a worker still has before it.
abbrev rank : Phase → ℕ
rank wants_candidate_slot = 4
rank wants_validation_slot = 3
rank validating = 2
rank leaving = 1
rank wants_slot = 2
rank checking = 1
rank _ = 0

-- Steps that end what has begun: no worker takes up a job meanwhile.
pub data Run (k : Capacity) (s : Crew) : ℕ → Crew → Type 0 where
  stay : Run k s 0 s
  go : {n : ℕ} {t u : Crew} → Run k s n t → Advance k t u → Run k s (suc n) u

-- No worker waits for a slot, holds one or is on a gauge.
abbrev pub IsAtRest : Crew → Type 0
IsAtRest s =
    (s.channels.candidate_slots ≡ 0)
    × (s.channels.validation_slots ≡ 0)
    × (s.channels.candidate_waiting ≡ 0)
    × (s.channels.candidate_active ≡ 0)
    × (s.channels.routine_waiting ≡ 0)
    × (s.channels.routine_active ≡ 0)

Move-rank : {k : Capacity} {c c' : Channels} {p p' : Phase} → Move k c p c' p' → rank p' < rank p
Move-rank (take_candidate_slot free) = omega arith
Move-rank (take_validation_slot free) = omega arith
Move-rank end_validation = omega arith
Move-rank leave = omega arith
Move-rank (take_slot free) = omega arith
Move-rank end_check = omega arith

Advance-rank :
    {k : Capacity} {s t : Crew} → Advance k s t → total rank t.phases < total rank s.phases
Advance-rank {s = s} (advance i {p' = p'} e m) =
    omega (arith, total-set rank s.phases i p' e, Move-rank m)

rank_le : (p : Phase) → rank p ≤ 4
rank_le p = grind arith

total-rank_le : (ps : List Phase) → total rank ps ≤ 4 * length ps
total-rank_le [] = omega arith
total-rank_le (p ∷ ps) = omega (arith, rank_le p, total-rank_le ps)

-- Who is inside can always go on.
abbrev inside : Phase → ℕ
inside validating = 1
inside leaving = 1
inside checking = 1
inside _ = 0

-- The other phases, by the channel that they wait for.
abbrev wants_validation : Phase → ℕ
wants_validation wants_validation_slot = 1
wants_validation wants_slot = 1
wants_validation _ = 0

abbrev CanAdvance : Capacity → Crew → Type 0
CanAdvance k s = (t : Crew) × Advance k s t

module _ {k : Capacity} {s : Crew} (i : ℕ) where
  inside-CanAdvance : (p : Phase) → get_elem? s.phases i ≡ some p → 0 < inside p → CanAdvance k s
  inside-CanAdvance validating e h = (_, advance i e end_validation)
  inside-CanAdvance leaving e h = (_, advance i e leave)
  inside-CanAdvance checking e h = (_, advance i e end_check)
  inside-CanAdvance _ e h = absurd (omega arith)

  wants_validation-CanAdvance :
      (p : Phase)
      → get_elem? s.phases i ≡ some p
      → 0 < wants_validation p
      → s.channels.validation_slots < k.workers
      → CanAdvance k s
  wants_validation-CanAdvance wants_validation_slot e h free =
      (_, advance i e (take_validation_slot free))
  wants_validation-CanAdvance wants_slot e h free = (_, advance i e (take_slot free))
  wants_validation-CanAdvance _ e h free = absurd (omega arith)

  -- A worker that has begun and is in none of these waits for a candidate slot.
  wants_candidate-CanAdvance :
      (p : Phase)
      → get_elem? s.phases i ≡ some p
      → 0 < rank p
      → s.channels.candidate_slots < k.workers - k.reserved
      → s.channels.validation_slots < k.workers
      → CanAdvance k s
  wants_candidate-CanAdvance wants_candidate_slot e h free free' =
      (_, advance i e (take_candidate_slot free))
  wants_candidate-CanAdvance wants_validation_slot e h free free' =
      (_, advance i e (take_validation_slot free'))
  wants_candidate-CanAdvance wants_slot e h free free' = (_, advance i e (take_slot free'))
  wants_candidate-CanAdvance validating e h free free' = (_, advance i e end_validation)
  wants_candidate-CanAdvance leaving e h free free' = (_, advance i e leave)
  wants_candidate-CanAdvance checking e h free free' = (_, advance i e end_check)
  wants_candidate-CanAdvance _ e h free free' = absurd (omega arith)

-- Slots are held by workers inside, or by those that wait for the other channel.
validating-inside : (p : Phase) → is_validating p ≤ inside p
validating-inside p = grind arith

checking-inside : (p : Phase) → is_checking p ≤ inside p
checking-inside p = grind arith

candidates-inside : (p : Phase) → in_candidate_slot p ≤ inside p + wants_validation p
candidates-inside p = grind arith

-- Unless all are idle, someone can go on.
IsCounted-CanAdvance :
    {k : Capacity} {s : Crew}
    → k.reserved < k.workers
    → IsCounted k s
    → 0 < total rank s.phases
    → CanAdvance k s
IsCounted-CanAdvance {k = k} {s = s} some' n h = elim (dec_lt 0 (total inside s.phases)) [
  | yes busy ↦ let (i, p, e, h') = total-pos inside s.phases busy in inside-CanAdvance i p e h'
  | no idle ↦
      let none' : s.channels.validation_slots ≡ 0 = omega (
        arith,
        n.validation_slots,
        total_mono is_validating inside validating-inside s.phases,
        total_mono is_checking inside checking-inside s.phases,
      ) in
      elim (dec_lt 0 (total wants_validation s.phases)) [
        | yes waits ↦
            let (i, p, e, h') = total-pos wants_validation s.phases waits in
            wants_validation-CanAdvance i p e h' (omega arith)
        | no idle' ↦
            let none'' : s.channels.candidate_slots ≡ 0 = omega (
              arith,
              n.candidate_slots,
              total_mono in_candidate_slot (λ p. inside p + wants_validation p) candidates-inside
                  s.phases,
              total-add inside wants_validation s.phases,
            ) in
            let (i, p, e, h') = total-pos rank s.phases h in
            wants_candidate-CanAdvance i p e h' (omega arith) (omega arith)
      ]
]

IsCounted-IsAtRest :
    {k : Capacity} {s : Crew} → IsCounted k s → total rank s.phases ≡ 0 → IsAtRest s
IsCounted-IsAtRest {s = s} n h =
    let below : (f : Phase → ℕ) → ((p : Phase) → f p ≤ rank p) → total f s.phases ≡ 0 =
      λ f le. omega (arith, total_mono f rank le s.phases) in
    let v = below is_validating (λ p. grind arith) in
    let c = below is_checking (λ p. grind arith) in
    (
      omega (arith, n.candidate_slots, below in_candidate_slot (λ p. grind arith)),
      omega (arith, n.validation_slots, v, c),
      omega (arith, n.candidate_waiting, below waits_for_candidate (λ p. grind arith)),
      omega (arith, n.candidate_active, v),
      omega (arith, n.routine_waiting, below waits_for_check (λ p. grind arith)),
      omega (arith, n.routine_active, c),
    )

Run-IsCounted : {k : Capacity} {s t : Crew} {n : ℕ} → IsCounted k s → Run k s n t → IsCounted k t
Run-IsCounted h stay = h
Run-IsCounted h (go r a) = Advance-IsCounted (Run-IsCounted h r) a

Run-rank :
    {k : Capacity} {s t : Crew} {n : ℕ}
    → Run k s n t
    → n + total rank t.phases ≤ total rank s.phases
Run-rank stay = omega arith
Run-rank (go r a) = omega (arith, Run-rank r, Advance-rank a)

-- From a state that steps from the start lead to, with a worker that is not reserved: while no
-- worker takes up a new job, at most four steps follow for each worker, and when none can follow
-- all slots are free and no worker waits.
pub Run-drains :
    {k : Capacity} {s t : Crew} {n : ℕ}
    → k.reserved < k.workers
    → Reach k s
    → Run k s n t
    → (n ≤ 4 * length s.phases) × (IsAtRest t ⊎ ((u : Crew) × Advance k t u))
Run-drains {s = s} {t = t} some' r run =
    let n = Run-IsCounted (Reach-IsCounted r) run in
    (
      omega (arith, Run-rank run, total-rank_le s.phases),
      elim (dec_lt 0 (total rank t.phases)) [
        | yes busy ↦ inr (IsCounted-CanAdvance some' n busy)
        | no idle ↦ inl (IsCounted-IsAtRest n (omega arith))
      ],
    )

-- After any steps from the start, a routine check that waits gets a slot at once while fewer
-- routine checks run than workers are reserved for them, whatever the candidates do.
pub routine_checks-reserved :
    {k : Capacity} {s : Crew} (i : ℕ)
    → Reach k s
    → get_elem? s.phases i ≡ some wants_slot
    → k.reserved ≤ k.workers
    → s.channels.routine_active < k.reserved
    → (t : Crew) × Advance k s t
      × (t.channels.routine_active ≡ s.channels.routine_active + 1)
      × (get_elem? t.phases i ≡ some checking)
routine_checks-reserved {s = s} i r e most few =
    let n = Reach-IsCounted r in
    let b = slots-bound r in
    (
      _,
      advance i e (take_slot (omega (arith, n.validation_slots, b))),
      refl,
      get_elem?-set_self s.phases i checking (lt_of_get_elem? s.phases i e),
    )
