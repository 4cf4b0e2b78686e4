-- ===== src/Tests/SlotTests.antt =====
-- Tests of the slots of the workers (crawler/verify.go).
use proxy_in_a_box.Prelude.{◌+◌, ◌-◌, ◌*◌, ◌≤◌, ◌≡◌, refl, ◌⊎◌, some, get_elem?, length, arith}
use proxy_in_a_box.Workers.Slots.{
  Capacity, Crew, Phase, checking, begin_candidate, begin_routine, take_candidate_slot, Advance,
  advance, begins, Reach, start, later,
}
use proxy_in_a_box.Workers.Slots.Counts.{
  total, is_validating, is_checking, waits_for_candidate, waits_for_check,
}
use proxy_in_a_box.Workers.Slots.Bounds.{slots-bound}
use proxy_in_a_box.Workers.Slots.Drain.{
  Run, stay, go, IsAtRest, Run-drains, routine_checks-reserved,
}

abbrev two : Capacity
two = record { workers = 2; reserved = 1 }

-- A candidate waits for a slot, then a routine check does.
abbrev Waiting : Type 0
Waiting =
    (s : Crew) × Reach two s
    × (get_elem? s.phases 2 ≡ some Phase.wants_slot)
    × (s.channels.routine_active ≡ 0)

abbrev waiting : Waiting
waiting = (
  _,
  later (later start (begins 0 refl begin_candidate)) (begins 2 refl begin_routine),
  refl,
  refl,
)

abbrev Started : Type 0
Started = (t : Crew) × Run two waiting.0 1 t

abbrev started : Started
started = (_, go stay (advance 0 refl (take_candidate_slot (omega arith))))

slots-bound_example :
    let s = waiting.0 in
    (s.channels.candidate_slots ≤ 2 - 1)
    × (total is_validating s.phases + total is_checking s.phases ≤ 2)
    × (total is_validating s.phases ≤ 2 - 1)
    × (s.channels.candidate_active ≡ total is_validating s.phases)
    × (s.channels.routine_active ≡ total is_checking s.phases)
    × (s.channels.candidate_waiting ≡ total waits_for_candidate s.phases)
    × (s.channels.routine_waiting ≡ total waits_for_check s.phases)
slots-bound_example = slots-bound waiting.1

Run-drains_example :
    (1 ≤ 4 * length (waiting.0).phases)
    × (IsAtRest started.0 ⊎ ((u : Crew) × Advance two started.0 u))
Run-drains_example = Run-drains (omega arith) waiting.1 started.1

routine_checks-reserved_example :
    (t : Crew) × Advance two waiting.0 t
    × (t.channels.routine_active ≡ 0 + 1)
    × (get_elem? t.phases 2 ≡ some checking)
routine_checks-reserved_example =
    routine_checks-reserved 2 waiting.1 waiting.2 (omega arith) (omega arith)
