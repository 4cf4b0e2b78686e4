-- ===== src/Workers/Slots/Bounds.antt =====
-- The counts hold in every reachable state, and bound the checks that run at once.
use proxy_in_a_box.Prelude.{ℕ, ◌+◌, ◌-◌, ◌≤◌, ◌≡◌, some, set, get_elem?, arith}
use proxy_in_a_box.Workers.Slots.{
  Capacity, Channels, Crew, Phase, Begin, begin_candidate, begin_routine, Move, take_candidate_slot,
  take_validation_slot, end_validation, leave, take_slot, end_check, Advance, advance, Step, begins,
  advances, Reach, start, later,
}
use proxy_in_a_box.Workers.Slots.Counts.{
  total, total_mono, in_candidate_slot, is_validating, is_checking, waits_for_candidate,
  waits_for_check, validating-in_candidate_slot, IsCounted, held, moved-IsCounted, init-IsCounted,
}

Move-IsCounted :
    {k : Capacity} {s : Crew} {c : Channels} (i : ℕ) {p p' : Phase}
    → IsCounted k s
    → get_elem? s.phases i ≡ some p
    → Move k s.channels p c p'
    → IsCounted k (record { channels = c; phases = set s.phases i p' })
Move-IsCounted i {p = p} {p' = p'} n e (take_candidate_slot free) =
    moved-IsCounted n i e _ p' (ground arith) (omega arith) n.few
Move-IsCounted i {p' = p'} n e (take_validation_slot free) =
    let h = held n i e in
    moved-IsCounted n i e _ p' (ground arith) (omega (arith, h, n.few_candidates))
      (omega (arith, h, n.few))
Move-IsCounted i {p' = p'} n e end_validation =
    let h = held n i e in
    moved-IsCounted n i e _ p' (ground arith) (omega (arith, h, n.few_candidates))
      (omega (arith, h, n.few))
Move-IsCounted i {p' = p'} n e leave =
    let h = held n i e in
    moved-IsCounted n i e _ p' (ground arith) (omega (arith, h, n.few_candidates))
      (omega (arith, h, n.few))
Move-IsCounted i {p' = p'} n e (take_slot free) =
    let h = held n i e in
    moved-IsCounted n i e _ p' (ground arith) (omega (arith, h, n.few_candidates))
      (omega (arith, h, n.few))
Move-IsCounted i {p' = p'} n e end_check =
    let h = held n i e in
    moved-IsCounted n i e _ p' (ground arith) (omega (arith, h, n.few_candidates))
      (omega (arith, h, n.few))

Begin-IsCounted :
    {k : Capacity} {s : Crew} {c : Channels} (i : ℕ) {p p' : Phase}
    → IsCounted k s
    → get_elem? s.phases i ≡ some p
    → Begin s.channels p c p'
    → IsCounted k (record { channels = c; phases = set s.phases i p' })
Begin-IsCounted i {p' = p'} n e begin_candidate =
    moved-IsCounted n i e _ p' (ground arith) n.few_candidates n.few
Begin-IsCounted i {p' = p'} n e begin_routine =
    moved-IsCounted n i e _ p' (ground arith) n.few_candidates n.few

pub Advance-IsCounted : {k : Capacity} {s t : Crew} → IsCounted k s → Advance k s t → IsCounted k t
Advance-IsCounted n (advance i e m) = Move-IsCounted i n e m

Step-IsCounted : {k : Capacity} {s t : Crew} → IsCounted k s → Step k s t → IsCounted k t
Step-IsCounted n (begins i e b) = Begin-IsCounted i n e b
Step-IsCounted n (advances a) = Advance-IsCounted n a

pub Reach-IsCounted : {k : Capacity} {s : Crew} → Reach k s → IsCounted k s
Reach-IsCounted {k = k} start = init-IsCounted k
Reach-IsCounted (later r s) = Step-IsCounted (Reach-IsCounted r) s

-- After any steps from the start, at most `workers - reserved` candidates hold a candidate slot, at
-- most `workers` checks run, candidates and routine ones together, and of these at most
-- `workers - reserved` are of candidates; the gauges are the numbers of workers that wait and that
-- check.
pub slots-bound :
    {k : Capacity} {s : Crew}
    → Reach k s
    → (s.channels.candidate_slots ≤ k.workers - k.reserved)
      × (total is_validating s.phases + total is_checking s.phases ≤ k.workers)
      × (total is_validating s.phases ≤ k.workers - k.reserved)
      × (s.channels.candidate_active ≡ total is_validating s.phases)
      × (s.channels.routine_active ≡ total is_checking s.phases)
      × (s.channels.candidate_waiting ≡ total waits_for_candidate s.phases)
      × (s.channels.routine_waiting ≡ total waits_for_check s.phases)
slots-bound {s = s} r =
    let n = Reach-IsCounted r in
    let held = total_mono is_validating in_candidate_slot validating-in_candidate_slot s.phases in
    (
      n.few_candidates,
      omega (arith, n.few, n.validation_slots),
      omega (arith, held, n.few_candidates, n.candidate_slots),
      n.candidate_active,
      n.routine_active,
      n.candidate_waiting,
      n.routine_waiting,
    )
