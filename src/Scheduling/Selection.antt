-- ===== src/Scheduling/Selection.antt =====
-- The search over the sorted copy finds the least used free entry, the earliest one on ties.
use proxy_in_a_box.Prelude.{
  ℕ, zero, suc, ◌+◌, ◌≤◌, ◌<◌, ◌≡◌, refl, sym, subst, ◌⊎◌, inl, inr, true, false, Bool-cases,
  Option, none, some, Option-cases, List, [], ◌∷◌, Text, Map, get_elem?, ltb, if◌then◌else◌, Time,
  arith,
}
use mathlib.Core.Option.{some-injective}
use proxy_in_a_box.Pool.{ProxyEntry}
use proxy_in_a_box.Scheduling.{numbered, insert_entry, sort_stable, is_free, first_free}

module _ (failed : Map Time) (candidate : List Text) where
  -- The reference: a scan of the pool that remembers the least used free entry.
  unfoldable pub least_free : List (ℕ × ProxyEntry) → Option (ℕ × ProxyEntry)
  least_free [] = none
  least_free (x ∷ xs) =
      let best = least_free xs in
      if is_free failed candidate x.1
      then elim best [ none ↦ some x | some y ↦ if ltb (y.1).n (x.1).n then some y else some x ]
      else best

  -- Every entry of the list is used at least `n` times.
  abbrev UsedAtLeast : ℕ → List (ℕ × ProxyEntry) → Type 0
  UsedAtLeast n [] = Unit {0}
  UsedAtLeast n (x ∷ xs) = (n ≤ (x.1).n) × UsedAtLeast n xs

  abbrev IsSorted : List (ℕ × ProxyEntry) → Type 0
  IsSorted [] = Unit {0}
  IsSorted (x ∷ xs) = UsedAtLeast (x.1).n xs × IsSorted xs

  UsedAtLeast-mono :
      (m n : ℕ) (xs : List (ℕ × ProxyEntry)) → m ≤ n → UsedAtLeast n xs → UsedAtLeast m xs
  UsedAtLeast-mono m n [] h u = tt
  UsedAtLeast-mono m n (x ∷ xs) h u = (omega arith, UsedAtLeast-mono m n xs h u.1)

  insert_entry-UsedAtLeast :
      (n : ℕ) (x : ℕ × ProxyEntry) (xs : List (ℕ × ProxyEntry))
      → n ≤ (x.1).n
      → UsedAtLeast n xs
      → UsedAtLeast n (insert_entry x xs)
  unfolding insert_entry
  insert_entry-UsedAtLeast n x [] h u = (h, tt)
  insert_entry-UsedAtLeast n x (y ∷ ys) h u = ground (arith, insert_entry-UsedAtLeast n x ys h u.1)

  insert_entry-IsSorted :
      (x : ℕ × ProxyEntry) (xs : List (ℕ × ProxyEntry)) → IsSorted xs → IsSorted (insert_entry x xs)
  unfolding insert_entry
  insert_entry-IsSorted x [] s = (tt, tt)
  insert_entry-IsSorted x (y ∷ ys) s = ground (
    arith,
    insert_entry-IsSorted x ys s.1,
    insert_entry-UsedAtLeast (y.1).n x ys,
    UsedAtLeast-mono (x.1).n (y.1).n ys,
  )

  sort_stable-IsSorted : (xs : List (ℕ × ProxyEntry)) → IsSorted (sort_stable xs)
  unfolding sort_stable
  sort_stable-IsSorted [] = tt
  sort_stable-IsSorted (x ∷ xs) = insert_entry-IsSorted x (sort_stable xs) (sort_stable-IsSorted xs)

  first_free-UsedAtLeast :
      (n : ℕ) (xs : List (ℕ × ProxyEntry)) (y : ℕ × ProxyEntry)
      → UsedAtLeast n xs
      → first_free failed candidate xs ≡ some y
      → n ≤ (y.1).n
  unfolding first_free
  first_free-UsedAtLeast n [] y u e = cc
  first_free-UsedAtLeast n (x ∷ xs) y u e = ground (arith, first_free-UsedAtLeast n xs y u.1)

  -- One step of the scan, beside a result for the rest.
  abbrev scan : ℕ × ProxyEntry → Option (ℕ × ProxyEntry) → Option (ℕ × ProxyEntry)
  scan x best =
      if is_free failed candidate x.1
      then elim best [ none ↦ some x | some y ↦ if ltb (y.1).n (x.1).n then some y else some x ]
      else best

  first_free-insert_entry :
      (x : ℕ × ProxyEntry) (xs : List (ℕ × ProxyEntry))
      → IsSorted xs
      → first_free failed candidate (insert_entry x xs) ≡ scan x (first_free failed candidate xs)
  unfolding insert_entry first_free
  first_free-insert_entry x [] s = ground arith
  first_free-insert_entry x (y ∷ ys) s = elim (Option-cases (first_free failed candidate ys)) [
    | inl missing ↦ ground (arith, missing, first_free-insert_entry x ys s.1)
    | inr (z, found) ↦ ground (
      arith,
      found,
      first_free-insert_entry x ys s.1,
      first_free-UsedAtLeast (y.1).n ys z s.0 found,
    )
  ]

  pub first_free-least_free :
      (xs : List (ℕ × ProxyEntry)) → first_free failed candidate (sort_stable xs) ≡ least_free xs
  unfolding sort_stable least_free first_free
  first_free-least_free [] = refl
  first_free-least_free (x ∷ xs) = rw (
    first_free-insert_entry x (sort_stable xs) (sort_stable-IsSorted xs),
    first_free-least_free xs,
  )

  -- What the scan returns is free and least used, the earliest on ties; without a result no entry
  -- is free.
  abbrev pub IsBest : Option (ℕ × ProxyEntry) → ℕ → List ProxyEntry → Type 0
  IsBest none i es =
      (j : ℕ) (e : ProxyEntry) → get_elem? es j ≡ some e → is_free failed candidate e ≡ false
  IsBest (some (k, best)) i es =
      (m : ℕ) × (k ≡ i + m)
      × (get_elem? es m ≡ some best)
      × (is_free failed candidate best ≡ true)
      × ((j : ℕ) (e : ProxyEntry)
          → get_elem? es j ≡ some e
          → is_free failed candidate e ≡ true
          → (best.n < e.n) ⊎ ((best.n ≡ e.n) × (m ≤ j)))

  -- The comparison of one entry with those of a list.
  abbrev AtMost : ProxyEntry → ℕ → List ProxyEntry → Type 0
  AtMost best m es =
      (j : ℕ) (e : ProxyEntry)
      → get_elem? es j ≡ some e
      → is_free failed candidate e ≡ true
      → (best.n < e.n) ⊎ ((best.n ≡ e.n) × (m ≤ j))

  -- The head is best when no free entry of the tail is used less.
  AtMost-head :
      (e : ProxyEntry) (es : List ProxyEntry)
      → ((j : ℕ) (x : ProxyEntry)
          → get_elem? es j ≡ some x
          → is_free failed candidate x ≡ true
          → e.n ≤ x.n)
      → AtMost e 0 (e ∷ es)
  AtMost-head e es h zero x at free = ground arith
  AtMost-head e es h (suc j) x at free = ground (arith, h j x at free)

  -- The best of the tail stays best when the head is used more, or is not free.
  AtMost-tail :
      (e best : ProxyEntry) (m : ℕ) (es : List ProxyEntry)
      → (is_free failed candidate e ≡ true → best.n < e.n)
      → AtMost best m es
      → AtMost best (suc m) (e ∷ es)
  AtMost-tail e best m es h rest zero x at free =
      let same : e ≡ x = some-injective e x at in
      ground (arith, h (subst (λ y. is_free failed candidate y ≡ true) (sym same) free))
  AtMost-tail e best m es h rest (suc j) x at free = ground (arith, rest j x at free)

  none-cons :
      (i : ℕ) (e : ProxyEntry) (es : List ProxyEntry)
      → is_free failed candidate e ≡ false
      → IsBest none (suc i) es
      → IsBest none i (e ∷ es)
  none-cons i e es h rest zero x at =
      subst (λ y. is_free failed candidate y ≡ false) (some-injective e x at) h
  none-cons i e es h rest (suc j) x at = rest j x at

  scan-IsBest :
      (i : ℕ) (e : ProxyEntry) (es : List ProxyEntry) (best : Option (ℕ × ProxyEntry))
      → IsBest best (suc i) es
      → IsBest (scan (i, e) best) i (e ∷ es)
  scan-IsBest i e es none h = elim (Bool-cases (is_free failed candidate e)) [
    | inl free ↦ rw free (
      0,
      omega arith,
      refl,
      free,
      AtMost-head e es (λ j x at f. absurd (ground (arith, h j x at))),
    )
    | inr taken ↦ rw taken (none-cons i e es taken h)
  ]
  scan-IsBest i e es (some (k, b)) (m, pos, at, free_b, rest) =
      elim (Bool-cases (is_free failed candidate e)) [
        | inr taken ↦
            rw taken (
              suc m,
              omega arith,
              at,
              free_b,
              AtMost-tail e b m es (λ f. absurd (ground arith)) rest,
            )
        | inl free ↦ elim (Bool-cases (ltb b.n e.n)) [
          | inl less ↦
              rw (free, less)
                (suc m, omega arith, at, free_b, AtMost-tail e b m es (λ f. ground arith) rest)
          | inr more ↦
              rw (free, more)
                (
                  0,
                  omega arith,
                  refl,
                  free,
                  AtMost-head e es (λ j x at' f. ground (arith, rest j x at' f)),
                )
        ]
      ]

  least_free-IsBest : (i : ℕ) (es : List ProxyEntry) → IsBest (least_free (numbered i es)) i es
  unfolding least_free numbered
  least_free-IsBest i [] = λ j e at. cc
  least_free-IsBest i (e ∷ es) =
      scan-IsBest i e es (least_free (numbered (suc i) es)) (least_free-IsBest (suc i) es)

  -- The search of the sorted copy is best.
  pub first_free-IsBest :
      (es : List ProxyEntry)
      → IsBest (first_free failed candidate (sort_stable (numbered 0 es))) 0 es
  first_free-IsBest es = rw (first_free-least_free (numbered 0 es)) (least_free-IsBest 0 es)
