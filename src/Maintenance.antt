-- ===== src/Maintenance.antt =====
-- The trend of the backlog of due proxies and its classification
-- (cmd/proxy-in-a-box/maintenance_trend.go); the backlog itself is in Backlog.
mod Backlog
pub mod Due
pub mod Levels
unfoldable pub use Backlog.*
use proxy_in_a_box.Prelude.{
  ℕ, suc, ◌+◌, ◌-◌, ◌*◌, ◌/◌, max, Bool, true, false, not, ◌&&◌, ◌||◌, Option, none, some, ite,
  List, [], ◌∷◌, ◌++◌, Text, text_dec, length, select, leb, ltb, ◌==◌, if◌then◌else◌, Time,
  Duration, before, minute, hour,
}
use proxy_in_a_box.Prelude.Int.{ℤ, pos, negsuc, sub_ℕ}
use proxy_in_a_box.Endpoint.{Proxy, BlockedIp}
use proxy_in_a_box.Statistics.{VerificationStats}

abbrev pub maintenance_sample_interval : Duration
maintenance_sample_interval = 5 * minute

abbrev pub maintenance_trend_window : Duration
maintenance_trend_window = 10 * minute

pub record BacklogSample : Type 0 where
  pub at : Time
  pub due : ℕ
  pub waiting : ℕ

pub record BacklogTrend : Type 0 where
  pub ready : Bool
  pub due_delta : ℤ
  pub waiting_delta : ℤ
  pub due_stalled : Bool
  pub due_growing : Bool
  pub waiting_growing : Bool
  pub waiting_baseline : ℕ

abbrev pub due_count : MaintenanceStats → ℕ
due_count s = s.healthy_due + s.quarantined_ready

unfoldable pub drop_before : Time → List BacklogSample → List BacklogSample
drop_before cutoff [] = []
drop_before cutoff (x ∷ xs) = if before x.at cutoff then drop_before cutoff xs else x ∷ xs

unfoldable pub record_backlog : Time → MaintenanceStats → List BacklogSample → List BacklogSample
unfolding drop_before
record_backlog at stats samples =
    drop_before (at - 2 * maintenance_trend_window) (
      samples
      ++ record { at = at; due = due_count stats; waiting = stats.quarantined_waiting } ∷ [])

-- The last sample that passes a test, as the loop leaves it.
unfoldable pub last_with : (BacklogSample → Bool) → List BacklogSample → Option BacklogSample
last_with test [] = none
last_with test (x ∷ xs) = elim (last_with test xs) [
  | some y ↦ some y
  | none ↦ if test x then some x else none
]

-- Ages are compared with positive bounds, so that of a later sample may stop at 0.
abbrev pub is_old : Time → BacklogSample → Bool
is_old now s =
    leb maintenance_trend_window (now - s.at)
    && leb (now - s.at) (maintenance_trend_window + maintenance_sample_interval)

abbrev pub is_mid : Time → BacklogSample → Bool
is_mid now s =
    leb maintenance_sample_interval (now - s.at) && ltb (now - s.at) maintenance_trend_window

abbrev pub no_trend : BacklogTrend
no_trend = record {
  ready = false;
  due_delta = pos 0;
  waiting_delta = pos 0;
  due_stalled = false;
  due_growing = false;
  waiting_growing = false;
  waiting_baseline = 0;
}

abbrev pub trend_of : BacklogSample → BacklogSample → MaintenanceStats → BacklogTrend
trend_of old mid current =
    let due = due_count current in
    record {
      ready = true;
      due_delta = sub_ℕ due old.due;
      waiting_delta = sub_ℕ current.quarantined_waiting old.waiting;
      due_stalled = ltb 0 due && (ltb 0 old.due && (leb old.due mid.due && leb mid.due due));
      due_growing = ltb old.due due && (leb old.due mid.due && leb mid.due due);
      waiting_growing = ltb old.waiting mid.waiting && ltb mid.waiting current.quarantined_waiting;
      waiting_baseline = old.waiting;
    }

unfoldable pub trend : Time → MaintenanceStats → List BacklogSample → BacklogTrend
unfolding last_with
trend now current samples = elim (last_with (is_old now) samples) [
  | none ↦ no_trend
  | some old ↦ elim (last_with (is_mid now) samples) [
    | none ↦ no_trend
    | some mid ↦ trend_of old mid current
  ]
]

pub data Level : Type 0 where
  gray neutral green yellow red : Level

-- The fields of `maintenanceSnapshot` that the classification reads.
pub record MaintenanceSnapshot : Type 0 where
  pub stats : MaintenanceStats
  pub backlog : BacklogTrend
  pub source_total : ℕ
  pub source_errors : ℕ
  pub source_pending : ℕ
  pub recent_checks : VerificationStats

pub record MaintenanceLevels : Type 0 where
  pub due : Level
  pub waiting : Level
  pub sources : Level
  pub checks : Level

unfoldable pub due_level : MaintenanceSnapshot → ℕ → Level
due_level m available =
    let due = due_count m.stats in
    let t = m.backlog in
    if due == 0
    then green
    else if not t.ready
    then gray
    else if t.due_stalled && (t.due_growing && leb (max 20 (available / 5)) due)
    then red
    else if t.due_stalled
    then yellow
    else green

unfoldable pub waiting_level : MaintenanceSnapshot → ℕ → Level
waiting_level m available =
    let waiting = m.stats.quarantined_waiting in
    let t = m.backlog in
    let baseline = max 1 t.waiting_baseline in
    if t.ready
      && (t.waiting_growing
          && (leb (max 10 (available / 10)) waiting && leb (2 * baseline) waiting))
    then if leb (max 20 (available / 2)) waiting && leb (3 * baseline) waiting then red else yellow
    else neutral

unfoldable pub sources_level : MaintenanceSnapshot → Level
sources_level m =
    if m.source_total == 0
    then gray
    else if leb m.source_total (m.source_errors * 2)
    then red
    else if ltb 0 m.source_errors
    then yellow
    else if ltb 0 m.source_pending
    then gray
    else green

abbrev pub is_red : Level → Bool
is_red red = true
is_red _ = false

unfoldable pub checks_level : MaintenanceSnapshot → Level → Level
checks_level m due =
    let c = m.recent_checks in
    let total = c.routine_success + c.routine_failure in
    if ltb total 10
    then gray
    else if c.routine_success == 0
    then red
    else if is_red due && ltb total (c.routine_failure * 2)
    then red
    else if ltb total (c.routine_failure * 2)
    then neutral
    else green

unfoldable pub classify_maintenance : MaintenanceSnapshot → ℕ → MaintenanceLevels
unfolding due_level waiting_level sources_level checks_level
classify_maintenance m available = record {
  due = due_level m available;
  waiting = waiting_level m available;
  sources = sources_level m;
  checks = checks_level m (due_level m available);
}
