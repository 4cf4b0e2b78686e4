-- ===== src/Scheduling/Collector.antt =====
-- What a tick of the collector leaves of one domain's list (`gc` of service/memcache.go).
use mathlib.Core.List.{map-append, reverse-cons, reverse-reverse}
use proxy_in_a_box.Prelude.{
  ℕ, zero, suc, ◌-◌, ◌<◌, ◌≡◌, ◌≢◌, refl, sym, ap, ◌∙◌, ◌⊎◌, inl, inr, Bool, true, false,
  Bool-cases, ◌||◌, List, [], ◌∷◌, ◌++◌, map, reverse, length, length-append, take, drop, ltb,
  if◌then◌else◌, length-drop, length-take, take-length-append, arith,
}
use proxy_in_a_box.Pool.{ProxyEntry}
use proxy_in_a_box.Scheduling.{stale_positions, shift_down, shift_all, collect_entries}

module _ (now : ℕ) where
  abbrev pub is_stale : ProxyEntry → Bool
  is_stale e = ltb 3 (now - e.n)

  unfoldable pub some_stale : List ProxyEntry → Bool
  some_stale [] = false
  some_stale (e ∷ es) = is_stale e || some_stale es

  -- The array of `v` after the loop, by recursion on `v`.
  unfoldable pub array : List ProxyEntry → List ProxyEntry
  array [] = []
  array (e ∷ es) = if is_stale e then shift_down 0 (e ∷ array es) else e ∷ array es

  -- The slice that is kept, by recursion on `v`.
  unfoldable pub collected : List ProxyEntry → List ProxyEntry
  collected [] = []
  collected (e ∷ es) = if is_stale e then array es else e ∷ collected es

  stale_positions-suc :
      (i : ℕ) (es : List ProxyEntry)
      → stale_positions now (suc i) es ≡ map suc (stale_positions now i es)
  unfolding stale_positions
  stale_positions-suc i [] = refl
  stale_positions-suc i (e ∷ es) = ground (arith, stale_positions-suc (suc i) es)

reverse-map : (is : List ℕ) → reverse (map suc is) ≡ map suc (reverse is)
reverse-map [] = refl
reverse-map (i ∷ is) =
    rw (reverse-cons (suc i) (map suc is), reverse-cons i is, map-append, reverse-map is)

shift_down-length : (i : ℕ) (es : List ProxyEntry) → es ≢ [] → shift_down i es ≢ []
unfolding shift_down
shift_down-length i [] h = absurd (h refl)
shift_down-length zero (e ∷ []) h = λ k. cc
shift_down-length zero (e ∷ x ∷ es) h = λ k. cc
shift_down-length (suc i) (e ∷ es) h = λ k. cc

shift_down-suc :
    (i : ℕ) (e : ProxyEntry) (es : List ProxyEntry)
    → es ≢ []
    → shift_down (suc i) (e ∷ es) ≡ e ∷ shift_down i es
unfolding shift_down
shift_down-suc i e [] h = absurd (h refl)
shift_down-suc i e (x ∷ es) h =
    let outer : suc (suc (length es)) - 1 ≡ suc (length es) = omega arith in
    let inner : suc (length es) - 1 ≡ length es = omega arith in rw (outer, inner)

shift_all-suc :
    (is : List ℕ) (e : ProxyEntry) (es : List ProxyEntry)
    → es ≢ []
    → shift_all (map suc is) (e ∷ es) ≡ e ∷ shift_all is es
unfolding shift_all
shift_all-suc [] e es h = refl
shift_all-suc (i ∷ is) e es h =
    ap (shift_all (map suc is)) (shift_down-suc i e es h)
    ∙ shift_all-suc is e (shift_down i es) (shift_down-length i es h)

shift_all-append :
    (is js : List ℕ) (es : List ProxyEntry)
    → shift_all (is ++ js) es ≡ shift_all js (shift_all is es)
unfolding shift_all
shift_all-append [] js es = refl
shift_all-append (i ∷ is) js es = shift_all-append is js (shift_down i es)

module _ (now : ℕ) where
  shift_all-cons :
      (e : ProxyEntry) (es : List ProxyEntry)
      → shift_all (reverse (stale_positions now 1 es)) (e ∷ es)
        ≡ e ∷ shift_all (reverse (stale_positions now 0 es)) es
  unfolding stale_positions shift_all
  shift_all-cons e [] = refl
  shift_all-cons e (x ∷ es) =
      rw (stale_positions-suc now 0 (x ∷ es), reverse-map)
        (shift_all-suc (reverse (stale_positions now 0 (x ∷ es))) e (x ∷ es) (λ k. cc))

  shift_all-array :
      (es : List ProxyEntry) → shift_all (reverse (stale_positions now 0 es)) es ≡ array now es
  unfolding stale_positions array shift_all
  shift_all-array [] = refl
  shift_all-array (e ∷ es) = elim (Bool-cases (is_stale now e)) [
    | inl old ↦
        rw (old, reverse-cons 0 (stale_positions now 1 es))
          (rw (shift_all-append, shift_all-cons e es, shift_all-array es))
    | inr new ↦ rw new (rw (shift_all-cons e es, shift_all-array es))
  ]

  length-array : (es : List ProxyEntry) → length (array now es) ≡ length es
  unfolding array shift_down
  length-array [] = refl
  length-array (e ∷ es) = ground (
    arith,
    length-array es,
    length-append (array now es) (drop (length (array now es)) (e ∷ array now es)),
    length-drop (length (array now es)) (e ∷ array now es),
  )

  stale_positions-length : (es : List ProxyEntry) → stale_positions now 0 es ≢ [] → 0 < length es
  unfolding stale_positions
  stale_positions-length [] h = absurd (h refl)
  stale_positions-length (e ∷ es) h = omega arith

  -- The loop with no stale entry, and with one at least.
  abbrev Collects : List ProxyEntry → Type 0
  Collects es =
      ((some_stale now es ≡ false) × (stale_positions now 0 es ≡ []) × (collected now es ≡ es))
      ⊎ ((some_stale now es ≡ true)
          × (stale_positions now 0 es ≢ [])
          × (take (length es - 1) (array now es) ≡ collected now es))

  Collects-stale :
      (e : ProxyEntry) (es : List ProxyEntry) → is_stale now e ≡ true → Collects (e ∷ es)
  unfolding some_stale stale_positions collected array shift_down
  Collects-stale e es old =
      let size : suc (length es) - 1 ≡ length (array now es) = omega (arith, length-array es) in
      rw (old, size) (inr (refl, λ k. cc, take-length-append (array now es) _))

  Collects-fresh :
      (e : ProxyEntry) (es : List ProxyEntry)
      → is_stale now e ≡ false
      → Collects es
      → Collects (e ∷ es)
  unfolding some_stale stale_positions collected array
  Collects-fresh e es new (inl (some, at, kept)) =
      rw (new, some, stale_positions-suc now 0 es, at, kept) (inl (refl, refl, refl))
  Collects-fresh e es new (inr (some, at, kept)) =
      let size : suc (length es) - 1 ≡ suc (length es - 1) =
        omega (arith, stale_positions-length es at) in
      rw (new, some, stale_positions-suc now 0 es, size)
        (inr (refl, map-nonempty at, ap (◌∷◌ e) kept))
    where
      map-nonempty : {is : List ℕ} → is ≢ [] → map suc is ≢ []
      map-nonempty {is = []} h = λ k. h refl
      map-nonempty {is = i ∷ is} h = λ k. cc

  Collects-all : (es : List ProxyEntry) → Collects es
  unfolding some_stale stale_positions collected
  Collects-all [] = inl (refl, refl, refl)
  Collects-all (e ∷ es) = elim (Bool-cases (is_stale now e)) [
    | inl old ↦ Collects-stale e es old
    | inr new ↦ Collects-fresh e es new (Collects-all es)
  ]

  reverse-nonempty : (is : List ℕ) → is ≢ [] → (j : ℕ) × (js : List ℕ) × (reverse is ≡ j ∷ js)
  reverse-nonempty is h = go (reverse is) refl
    where
      go : (ks : List ℕ) → reverse is ≡ ks → (j : ℕ) × (js : List ℕ) × (reverse is ≡ j ∷ js)
      go [] e = absurd (h (sym (reverse-reverse is) ∙ ap reverse e))
      go (j ∷ js) e = (j, js, e)

  pub collect_entries-collected : (es : List ProxyEntry) → collect_entries now es ≡ collected now es
  unfolding collect_entries
  collect_entries-collected es = elim (Collects-all es) [
    | inl (_, at, kept) ↦ rw (collect_entries, at, kept)
    | inr (_, at, kept) ↦
        let (j, js, turned) = reverse-nonempty _ at in
        rw (turned, collect_entries) (rw (← turned) (rw (shift_all-array es) kept))
  ]

  -- However many entries of a domain are stale, a tick makes its list shorter by one only, so with
  -- two or more of them stale slots stay behind.
  pub length-collect_entries :
      (es : List ProxyEntry)
      → length (collect_entries now es) ≡ length es - (if some_stale now es then 1 else 0)
  length-collect_entries es = elim (Collects-all es) [
    | inl (some, at, kept) ↦ rw (some, collect_entries-collected es, kept) (omega arith)
    | inr (some, at, kept) ↦
        rw (some, collect_entries-collected es, ← kept)
          (omega (arith, length-take (length es - 1) (array now es), length-array es))
  ]
