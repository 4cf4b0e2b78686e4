-- ===== src/Admission/Window.antt =====
-- The ring of a source's last outcomes (`recordSourceCandidateResult`) agrees with their log.
use proxy_in_a_box.Prelude.{
  ℕ, zero, suc, ◌+◌, ◌-◌, ◌%◌, min, ◌≤◌, ◌<◌, ◌≡◌, ◌≢◌, refl, sym, ap, ◌∙◌, inl, inr, Bool, true,
  false, Bool-cases, ◌&&◌, List, [], ◌∷◌, length, length-set, set, get_or, take, replicate,
  length-replicate, ltb, ◌==◌, if◌then◌else◌, arith,
}
use proxy_in_a_box.Admission.{SourceCandidateCounter, window_size, new_counter, bit, record_result}

-- The outcomes, the latest first.
unfoldable pub outcomes : List Bool → SourceCandidateCounter
unfolding record_result
outcomes [] = new_counter
outcomes (ok ∷ oks) = record_result ok (outcomes oks)

abbrev pub successes : List Bool → ℕ
successes [] = 0
successes (ok ∷ oks) = bit ok + successes oks

get_or-set :
    (xs : List Bool) (i j : ℕ) (b : Bool)
    → i < length xs
    → get_or (set xs i b) j false ≡ (if i == j then b else get_or xs j false)
get_or-set [] i j b h = absurd (omega arith)
get_or-set (x ∷ xs) zero zero b h = refl
get_or-set (x ∷ xs) zero (suc j) b h = ground arith
get_or-set (x ∷ xs) (suc i) zero b h = ground arith
get_or-set (x ∷ xs) (suc i) (suc j) b h = ground (arith, get_or-set xs i j b (omega arith))

-- The slot of the outcome that is `k` before the latest, when the next goes to slot `i`.
abbrev slot : ℕ → ℕ → ℕ
slot i k = if ltb k i then i - 1 - k else i + window_size - 1 - k

-- The ring holds the last outcomes of the log, and its counts are theirs.
record IsWindow (oks : List Bool) (c : SourceCandidateCounter) : Type 0 where
  size : length c.recent_outcomes ≡ window_size
  inside : c.recent_index < window_size
  counted : c.recent_count ≡ min window_size (length oks)
  holds :
      (k : ℕ)
      → k < window_size
      → get_or c.recent_outcomes (slot c.recent_index k) false ≡ get_or oks k false
  sum : c.recent_success ≡ successes (take window_size oks)

successes-take-suc :
    (n : ℕ) (oks : List Bool)
    → successes (take (suc n) oks) ≡ successes (take n oks) + bit (get_or oks n false)
successes-take-suc zero [] = refl
successes-take-suc zero (ok ∷ oks) = omega arith
successes-take-suc (suc n) [] = refl
successes-take-suc (suc n) (ok ∷ oks) = omega (arith, successes-take-suc n oks)

get_or-past : (oks : List Bool) (k : ℕ) → length oks ≤ k → get_or oks k false ≡ false
get_or-past [] k h = refl
get_or-past (ok ∷ oks) zero h = absurd (omega arith)
get_or-past (ok ∷ oks) (suc k) h = get_or-past oks k (omega arith)

slot_last : (i : ℕ) → i < window_size → slot i (window_size - 1) ≡ i
slot_last i h = ground arith

slot_zero : (i : ℕ) → i < window_size → slot ((i + 1) % window_size) 0 ≡ i
slot_zero i h = elim (Bool-cases (ltb 0 ((i + 1) % window_size))) [
  | inl more ↦ rw more (ground arith)
  | inr none' ↦ rw none' (ground arith)
]

slot-suc :
    (i k : ℕ)
    → i < window_size
    → suc k < window_size
    → slot ((i + 1) % window_size) (suc k) ≡ slot i k
slot-suc i k h h' = elim (Bool-cases (i == window_size - 1)) [
  | inl wraps ↦ let e : (i + 1) % window_size ≡ 0 = ground arith in rw e (ground arith)
  | inr stays ↦ let e : (i + 1) % window_size ≡ i + 1 = ground arith in rw e (ground arith)
]

slot-ne : (i k : ℕ) → i < window_size → suc k < window_size → (i == slot i k) ≡ false
slot-ne i k h h' = ground arith

-- The outcome that leaves the window is the one that the ring drops.
dropped_lem :
    (oks : List Bool) (c : SourceCandidateCounter)
    → IsWindow oks c
    → (c.recent_count == window_size) && get_or c.recent_outcomes c.recent_index false
      ≡ get_or oks (window_size - 1) false
dropped_lem oks c w =
    let last = w.holds (window_size - 1) (omega arith) in
    elim (Bool-cases (c.recent_count == window_size)) [
      | inl full ↦ rw full (
          ap (λ i. get_or c.recent_outcomes i false) (sym (slot_last c.recent_index w.inside))
          ∙ last)
      | inr short ↦
          let few : length oks ≤ window_size - 1 = ground (arith, w.counted) in
          rw (short, get_or-past oks (window_size - 1) few)
    ]

count_next :
    (n m : ℕ)
    → n ≡ min window_size m
    → (if n == window_size then n else n + 1) ≡ min window_size (suc m)
count_next n m e = elim (Bool-cases (n == window_size)) [
  | inl full ↦ rw full (ground (arith, full))
  | inr short ↦ let few : n ≢ window_size = ground arith in rw short (omega arith)
]

record_result-holds :
    (ok : Bool) (oks : List Bool) (c : SourceCandidateCounter)
    → IsWindow oks c
    → (k : ℕ) → k < window_size
    → get_or
        (set c.recent_outcomes c.recent_index ok)
        (slot ((c.recent_index + 1) % window_size) k)
        false
      ≡ get_or (ok ∷ oks) k false
record_result-holds ok oks c w zero small =
    let i = c.recent_index in
    let here = get_or-set c.recent_outcomes i i ok (omega (arith, w.size, w.inside)) in
    let same : (i == i) ≡ true = ground arith in rw (slot_zero i w.inside) (rw same at here)
record_result-holds ok oks c w (suc k) small =
    let i = c.recent_index in
    let there = get_or-set c.recent_outcomes i (slot i k) ok (omega (arith, w.size, w.inside)) in
    rw (slot-suc i k w.inside small)
      ((rw (slot-ne i k w.inside small) at there) ∙ w.holds k (omega arith))

record_result-IsWindow :
    (ok : Bool) (oks : List Bool) (c : SourceCandidateCounter)
    → IsWindow oks c
    → IsWindow (ok ∷ oks) (record_result ok c)
unfolding record_result
record_result-IsWindow ok oks c w = record {
  size = length-set c.recent_outcomes c.recent_index ok ∙ w.size;
  inside = omega arith;
  counted = count_next c.recent_count (length oks) w.counted;
  holds = record_result-holds ok oks c w;
  sum =
      let whole = successes-take-suc (window_size - 1) oks in
      rw (dropped_lem oks c w) (omega (arith, w.sum, whole));
}

get_or-fresh : (n k : ℕ) → get_or (replicate n false) k false ≡ false
get_or-fresh zero k = refl
get_or-fresh (suc n) zero = refl
get_or-fresh (suc n) (suc k) = get_or-fresh n k

new_counter-IsWindow : IsWindow [] new_counter
unfolding new_counter
new_counter-IsWindow = record {
  size = length-replicate window_size false;
  inside = omega arith;
  counted = refl;
  holds = λ k small. get_or-fresh window_size (slot 0 k);
  sum = refl;
}

outcomes-IsWindow : (oks : List Bool) → IsWindow oks (outcomes oks)
unfolding outcomes
outcomes-IsWindow [] = new_counter-IsWindow
outcomes-IsWindow (ok ∷ oks) = record_result-IsWindow ok oks (outcomes oks) (outcomes-IsWindow oks)

-- After any outcomes, the recent count is their number, 256 at most, and the recent successes are
-- the successes among the last 256 of them.
pub outcomes-recent :
    (oks : List Bool)
    → ((outcomes oks).recent_count ≡ min window_size (length oks))
      × ((outcomes oks).recent_success ≡ successes (take window_size oks))
outcomes-recent oks = let w = outcomes-IsWindow oks in (w.counted, w.sum)
