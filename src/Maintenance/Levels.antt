-- ===== src/Maintenance/Levels.antt =====
-- When the maintenance display is alarming.
use mathlib.Core.List.{Memᴰ}
use proxy_in_a_box.Prelude.{
  ℕ, ◌/◌, ◌≤◌, ◌<◌, ◌≡◌, sym, ap, ◌∙◌, [], ◌∷◌, inl, inr, Bool, true, Time, some, Option-cases,
  Bool-cases, List, arith,
}
use proxy_in_a_box.Maintenance.{
  BacklogSample, MaintenanceStats, MaintenanceSnapshot, red, due_count, trend_of, due_level,
  classify_maintenance, last_with, is_old, is_mid, trend,
}

due_level-red :
    (m : MaintenanceSnapshot) (available : ℕ)
    → due_level m available ≡ red
    → (m.backlog.ready ≡ true)
      × (m.backlog.due_stalled ≡ true)
      × (m.backlog.due_growing ≡ true)
      × (20 ≤ due_count m.stats)
      × (available / 5 ≤ due_count m.stats)
unfolding due_level
due_level-red m available e = ground arith

-- The sample that is found is one of the list and passes the test.
last_with-passes :
    (test : BacklogSample → Bool) (xs : List BacklogSample) (x : BacklogSample)
    → last_with test xs ≡ some x
    → Memᴰ x xs × (test x ≡ true)
unfolding last_with
last_with-passes test [] x e = absurd (cc e)
last_with-passes test (y ∷ ys) x e = elim (Option-cases (last_with test ys)) [
  | inr (z, later) ↦
      let (there, passes) = last_with-passes test ys x (ground (arith, e, later)) in
      (Memᴰ.tail there, passes)
  | inl missing ↦ elim (Bool-cases (test y)) [
    | inl passes ↦
        let same : x ≡ y = ground (arith, e, missing, passes) in
        (Memᴰ.head same, ap test same ∙ passes)
    | inr fails ↦ absurd (ground (arith, e, missing, fails))
  ]
]

-- A ready trend compares two samples of their ages with the present counts.
trend-ready :
    (now : Time) (current : MaintenanceStats) (samples : List BacklogSample)
    → (trend now current samples).ready ≡ true
    → (old mid : BacklogSample) × (Memᴰ old samples × (is_old now old ≡ true))
      × (Memᴰ mid samples × (is_mid now mid ≡ true))
      × (trend now current samples ≡ trend_of old mid current)
unfolding trend
trend-ready now current samples e = elim (Option-cases (last_with (is_old now) samples)) [
  | inl missing ↦ absurd (cc (rw (trend, missing) at e))
  | inr (old, found) ↦ elim (Option-cases (last_with (is_mid now) samples)) [
    | inl missing ↦ absurd (cc (rw (trend, found, missing) at e))
    | inr (mid, found') ↦ (
      old,
      mid,
      last_with-passes (is_old now) samples old found,
      last_with-passes (is_mid now) samples mid found',
      rw (trend, found, found'),
    )
  ]
]

-- The due level is red only if at least 20 proxies, and a fifth of the available ones, are due, and
-- one of the samples, of 10 to 15 minutes ago, had fewer, but some, with another of them, of 5 to 10
-- minutes ago, in between. The trend of the snapshot is that of the samples and its own counts.
pub classify_maintenance-red :
    (now : Time) (m : MaintenanceSnapshot) (available : ℕ) (samples : List BacklogSample)
    → m.backlog ≡ trend now m.stats samples
    → (classify_maintenance m available).due ≡ red
    → (20 ≤ due_count m.stats)
      × (available / 5 ≤ due_count m.stats)
      × ((old mid : BacklogSample) × (Memᴰ old samples × (is_old now old ≡ true))
          × (Memᴰ mid samples × (is_mid now mid ≡ true))
          × (0 < old.due)
          × (old.due < due_count m.stats)
          × (old.due ≤ mid.due)
          × (mid.due ≤ due_count m.stats))
unfolding classify_maintenance
classify_maintenance-red now m available samples own e =
    let (ready, stalled, growing, twenty, fifth) = due_level-red m available e in
    let (old, mid, is_old', is_mid', same) =
      trend-ready now m.stats samples (ap (λ t. t.ready) (sym own) ∙ ready) in
    let grows = ap (λ t. t.due_growing) (sym (own ∙ same)) ∙ growing in
    let stalls = ap (λ t. t.due_stalled) (sym (own ∙ same)) ∙ stalled in
    (
      twenty,
      fifth,
      (
        old,
        mid,
        is_old',
        is_mid',
        ground (arith, stalls),
        ground (arith, grows),
        ground (arith, grows),
        ground (arith, grows),
      ),
    )
