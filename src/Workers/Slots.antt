-- ===== src/Workers/Slots.antt =====
-- The two channels of slots that the validators and the checkers share, as one step relation: each
-- constructor of `Begin` and `Move` is one channel operation of `validator` (crawler/crawler.go) or
-- `getDelay` (crawler/verify.go), with the gauges that are set beside it. What a worker does while
-- it holds its slots is left open here.
pub mod Counts
pub mod Bounds
pub mod Drain
use proxy_in_a_box.Prelude.{
  ℕ, ◌+◌, ◌-◌, ◌<◌, ◌≡◌, Option, some, List, [], ◌∷◌, ◌++◌, get_elem?, set, replicate,
}

-- The channels, by how full they are, and the gauges of `runtimeMetrics`.
pub record Channels : Type 0 where
  pub candidate_slots : ℕ
  pub validation_slots : ℕ
  pub candidate_waiting : ℕ
  pub candidate_active : ℕ
  pub routine_waiting : ℕ
  pub routine_active : ℕ

-- The capacities that `Init` gives the channels.
pub record Capacity : Type 0 where
  pub workers : ℕ
  pub reserved : ℕ

-- Where a goroutine stands.
pub data Phase : Type 0 where
  validator_idle : Phase
  wants_candidate_slot : Phase  -- before `acquireCandidateSlot`
  wants_validation_slot : Phase  -- before `acquireValidationSlot`
  validating : Phase
  leaving : Phase  -- before `releaseCandidateSlot`
  checker_idle : Phase
  wants_slot : Phase
  checking : Phase

-- A worker takes up a job that needs a check.
pub data Begin (c : Channels) : Phase → Channels → Phase → Type 0 where
  begin_candidate :
      Begin c validator_idle
        (record c { candidate_waiting = c.candidate_waiting + 1 })
        wants_candidate_slot
  begin_routine :
      Begin c checker_idle (record c { routine_waiting = c.routine_waiting + 1 }) wants_slot

-- The other steps. A send to a full channel blocks.
pub data Move (k : Capacity) (c : Channels) : Phase → Channels → Phase → Type 0 where
  take_candidate_slot :
      c.candidate_slots < k.workers - k.reserved
      → Move k c wants_candidate_slot
          (record c { candidate_slots = c.candidate_slots + 1 })
          wants_validation_slot
  take_validation_slot :
      c.validation_slots < k.workers
      → Move k c wants_validation_slot
          (record c {
            validation_slots = c.validation_slots + 1;
            candidate_waiting = c.candidate_waiting - 1;
            candidate_active = c.candidate_active + 1;
          })
          validating
  end_validation :
      Move k c validating
        (record c {
          candidate_active = c.candidate_active - 1;
          validation_slots = c.validation_slots - 1;
        })
        leaving
  leave : Move k c leaving (record c { candidate_slots = c.candidate_slots - 1 }) validator_idle
  take_slot :
      c.validation_slots < k.workers
      → Move k c wants_slot
          (record c {
            validation_slots = c.validation_slots + 1;
            routine_waiting = c.routine_waiting - 1;
            routine_active = c.routine_active + 1;
          })
          checking
  end_check :
      Move k c checking
        (record c {
          routine_active = c.routine_active - 1;
          validation_slots = c.validation_slots - 1;
        })
        checker_idle

pub record Crew : Type 0 where
  pub channels : Channels
  pub phases : List Phase

-- One worker moves; the others stand still.
pub data Advance (k : Capacity) (s : Crew) : Crew → Type 0 where
  advance :
      (i : ℕ) {p p' : Phase} {c : Channels}
      → get_elem? s.phases i ≡ some p
      → Move k s.channels p c p'
      → Advance k s (record { channels = c; phases = set s.phases i p' })

pub data Step (k : Capacity) (s : Crew) : Crew → Type 0 where
  begins :
      (i : ℕ) {p p' : Phase} {c : Channels}
      → get_elem? s.phases i ≡ some p
      → Begin s.channels p c p'
      → Step k s (record { channels = c; phases = set s.phases i p' })
  advances : {t : Crew} → Advance k s t → Step k s t

-- `Init` makes empty channels and starts as many validators as checkers.
abbrev pub init : Capacity → Crew
init k = record {
  channels = record {
    candidate_slots = 0;
    validation_slots = 0;
    candidate_waiting = 0;
    candidate_active = 0;
    routine_waiting = 0;
    routine_active = 0;
  };
  phases = replicate k.workers validator_idle ++ replicate k.workers checker_idle;
}

pub data Reach (k : Capacity) : Crew → Type 0 where
  start : Reach k (init k)
  later : {s t : Crew} → Reach k s → Step k s t → Reach k t
