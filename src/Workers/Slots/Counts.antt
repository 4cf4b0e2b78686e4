-- ===== src/Workers/Slots/Counts.antt =====
-- How many workers stand where, and that the channels and the gauges count them.
use proxy_in_a_box.Prelude.{
  ℕ, zero, suc, ◌+◌, ◌-◌, ◌≤◌, ◌<◌, ◌≡◌, refl, sym, some, List, [], ◌∷◌, ◌++◌, length, get_elem?,
  set, replicate, dec_lt, arith,
}
use proxy_in_a_box.Workers.Slots.{
  Capacity, Channels, Crew, Phase, validator_idle, wants_candidate_slot, wants_validation_slot,
  validating, leaving, checker_idle, wants_slot, checking, init,
}

abbrev pub total : (Phase → ℕ) → List Phase → ℕ
total f [] = 0
total f (p ∷ ps) = f p + total f ps

pub total-set :
    (f : Phase → ℕ) (ps : List Phase) (i : ℕ) {p : Phase} (p' : Phase)
    → get_elem? ps i ≡ some p
    → total f (set ps i p') + f p ≡ total f ps + f p'
total-set f [] i p' e = grind arith
total-set f (q ∷ ps) zero {p = p} p' e = let h : q ≡ p = grind arith in rw h (omega arith)
total-set f (q ∷ ps) (suc i) p' e = omega (arith, total-set f ps i p' e)

-- Some worker counts for a positive total.
pub total-pos :
    (f : Phase → ℕ) (ps : List Phase)
    → 0 < total f ps
    → (i : ℕ) × (p : Phase) × (get_elem? ps i ≡ some p) × (0 < f p)
total-pos f [] h = absurd (omega arith)
total-pos f (p ∷ ps) h = elim (dec_lt 0 (f p)) [
  | yes here ↦ (0, p, refl, here)
  | no none' ↦
      let (i, q, found, counted) = total-pos f ps (omega arith) in (suc i, q, found, counted)
]

pub total_mono :
    (f g : Phase → ℕ) → ((p : Phase) → f p ≤ g p) → (ps : List Phase) → total f ps ≤ total g ps
total_mono f g le [] = omega arith
total_mono f g le (p ∷ ps) = omega (arith, le p, total_mono f g le ps)

pub total-add :
    (f g : Phase → ℕ) (ps : List Phase) → total (λ p. f p + g p) ps ≡ total f ps + total g ps
total-add f g [] = refl
total-add f g (p ∷ ps) = omega (arith, total-add f g ps)

pub lt_of_get_elem? {ℓ} :
    {A : Type ℓ} (xs : List A) (i : ℕ) {x : A} → get_elem? xs i ≡ some x → i < length xs
lt_of_get_elem? [] i e = grind arith
lt_of_get_elem? (y ∷ xs) zero e = omega arith
lt_of_get_elem? (y ∷ xs) (suc i) e = omega (arith, lt_of_get_elem? xs i e)

pub total-init :
    (f : Phase → ℕ)
    → f validator_idle ≡ 0
    → f checker_idle ≡ 0
    → (k : Capacity) → total f (init k).phases ≡ 0
total-init f e e' k = first k.workers
  where
    second : (m : ℕ) → total f (replicate m checker_idle) ≡ 0
    second zero = refl
    second (suc m) = omega (arith, second m)

    first : (n : ℕ) → total f (replicate n validator_idle ++ replicate k.workers checker_idle) ≡ 0
    first zero = second k.workers
    first (suc n) = omega (arith, first n)

-- What a phase holds, and which gauge it is on.
abbrev pub in_candidate_slot : Phase → ℕ
in_candidate_slot wants_validation_slot = 1
in_candidate_slot validating = 1
in_candidate_slot leaving = 1
in_candidate_slot _ = 0

abbrev pub is_validating : Phase → ℕ
is_validating validating = 1
is_validating _ = 0

abbrev pub is_checking : Phase → ℕ
is_checking checking = 1
is_checking _ = 0

abbrev pub waits_for_candidate : Phase → ℕ
waits_for_candidate wants_candidate_slot = 1
waits_for_candidate wants_validation_slot = 1
waits_for_candidate _ = 0

abbrev pub waits_for_check : Phase → ℕ
waits_for_check wants_slot = 1
waits_for_check _ = 0

-- Who validates a candidate holds a candidate slot.
pub validating-in_candidate_slot : (p : Phase) → is_validating p ≤ in_candidate_slot p
validating-in_candidate_slot p = grind arith

pub record IsCounted (k : Capacity) (s : Crew) : Type 0 where
  pub candidate_slots : s.channels.candidate_slots ≡ total in_candidate_slot s.phases
  pub validation_slots :
      s.channels.validation_slots ≡ total is_validating s.phases + total is_checking s.phases
  pub candidate_waiting : s.channels.candidate_waiting ≡ total waits_for_candidate s.phases
  pub candidate_active : s.channels.candidate_active ≡ total is_validating s.phases
  pub routine_waiting : s.channels.routine_waiting ≡ total waits_for_check s.phases
  pub routine_active : s.channels.routine_active ≡ total is_checking s.phases
  pub few_candidates : s.channels.candidate_slots ≤ k.workers - k.reserved
  pub few : s.channels.validation_slots ≤ k.workers

pub init-IsCounted : (k : Capacity) → IsCounted k (init k)
init-IsCounted k = record {
  candidate_slots = omega (arith, total-init in_candidate_slot refl refl k);
  validation_slots =
      omega (arith, total-init is_validating refl refl k, total-init is_checking refl refl k);
  candidate_waiting = omega (arith, total-init waits_for_candidate refl refl k);
  candidate_active = omega (arith, total-init is_validating refl refl k);
  routine_waiting = omega (arith, total-init waits_for_check refl refl k);
  routine_active = omega (arith, total-init is_checking refl refl k);
  few_candidates = omega arith;
  few = omega arith;
}

-- What one worker holds is among what is counted.
pub total-get_elem? :
    (f : Phase → ℕ) (ps : List Phase) (i : ℕ) {p : Phase}
    → get_elem? ps i ≡ some p
    → f p ≤ total f ps
total-get_elem? f [] i e = grind arith
total-get_elem? f (q ∷ ps) zero {p = p} e = let h : q ≡ p = grind arith in rw (sym h) (omega arith)
total-get_elem? f (q ∷ ps) (suc i) e = omega (arith, total-get_elem? f ps i e)

-- The gauges change by what the worker that moves is counted for.
abbrev pub IsBalanced : Channels → Phase → Channels → Phase → Type 0
IsBalanced c p c' p' =
    (c'.candidate_slots + in_candidate_slot p ≡ c.candidate_slots + in_candidate_slot p')
    × (c'.validation_slots + (is_validating p + is_checking p)
        ≡ c.validation_slots + (is_validating p' + is_checking p'))
    × (c'.candidate_waiting + waits_for_candidate p ≡ c.candidate_waiting + waits_for_candidate p')
    × (c'.candidate_active + is_validating p ≡ c.candidate_active + is_validating p')
    × (c'.routine_waiting + waits_for_check p ≡ c.routine_waiting + waits_for_check p')
    × (c'.routine_active + is_checking p ≡ c.routine_active + is_checking p')

module _ {k : Capacity} {s : Crew} (n : IsCounted k s) (i : ℕ) {p : Phase}
    (e : get_elem? s.phases i ≡ some p) where
  pub held :
      (in_candidate_slot p ≤ s.channels.candidate_slots)
      × (is_validating p + is_checking p ≤ s.channels.validation_slots)
      × (waits_for_candidate p ≤ s.channels.candidate_waiting)
      × (is_validating p ≤ s.channels.candidate_active)
      × (waits_for_check p ≤ s.channels.routine_waiting)
      × (is_checking p ≤ s.channels.routine_active)
  held =
      let v = total-get_elem? is_validating s.phases i e in
      let h = total-get_elem? is_checking s.phases i e in
      (
        omega (arith, total-get_elem? in_candidate_slot s.phases i e, n.candidate_slots),
        omega (arith, v, h, n.validation_slots),
        omega (arith, total-get_elem? waits_for_candidate s.phases i e, n.candidate_waiting),
        omega (arith, v, n.candidate_active),
        omega (arith, total-get_elem? waits_for_check s.phases i e, n.routine_waiting),
        omega (arith, h, n.routine_active),
      )

  pub moved-IsCounted :
      (c : Channels) (p' : Phase)
      → IsBalanced s.channels p c p'
      → c.candidate_slots ≤ k.workers - k.reserved
      → c.validation_slots ≤ k.workers
      → IsCounted k (record { channels = c; phases = set s.phases i p' })
  moved-IsCounted c p' b few_candidates few =
      let v = total-set is_validating s.phases i p' e in
      let h = total-set is_checking s.phases i p' e in
      record {
        candidate_slots =
            omega (arith, b.0, total-set in_candidate_slot s.phases i p' e, n.candidate_slots);
        validation_slots = omega (arith, b.1, v, h, n.validation_slots);
        candidate_waiting =
            omega (arith, b.2, total-set waits_for_candidate s.phases i p' e, n.candidate_waiting);
        candidate_active = omega (arith, b.3, v, n.candidate_active);
        routine_waiting =
            omega (arith, b.4, total-set waits_for_check s.phases i p' e, n.routine_waiting);
        routine_active = omega (arith, b.5, h, n.routine_active);
        few_candidates = few_candidates;
        few = few;
      }
