-- ===== src/Maintenance/Backlog.antt =====
-- The due proxies of the periodic check, as the queries of service/proxy.go select them. The rows are
-- those of the two tables, each query one step; numbers of rows do not reach 2^63.
use proxy_in_a_box.Prelude.{
  ℕ, ◌+◌, ◌-◌, ◌*◌, Bool, true, false, not, ◌&&◌, ◌||◌, ite, List, [], ◌∷◌, text_dec, length, leb,
  ltb, ◌==◌, if◌then◌else◌, Time, Duration, hour,
}
use proxy_in_a_box.Prelude.Int.{ℤ, pos, negsuc}
use proxy_in_a_box.Endpoint.{Proxy, BlockedIp}

unfoldable pub proxy_verify_interval : ℤ → Duration
proxy_verify_interval (pos n) = if ltb 0 n then n else 2 * hour
proxy_verify_interval (negsuc n) = 2 * hour

-- `last_verify < now - interval`
abbrev pub is_stale : ℤ → Time → Proxy → Bool
is_stale configured now p = ltb (p.last_verify + proxy_verify_interval configured) now

-- The condition of `GetUnVerified` and `IsUnVerified`.
abbrev pub needs_check : ℤ → Time → Proxy → Bool
needs_check configured now p =
    (p.available && is_stale configured now p) || (not p.available && leb p.next_verify_at now)

-- `ip NOT IN (SELECT ip FROM blocked_ips WHERE locked_until > now)`
unfoldable pub is_unlocked : List BlockedIp → Time → Proxy → Bool
is_unlocked [] now p = true
is_unlocked (b ∷ bs) now p =
    not (ite (text_dec b.ip p.ip) (ltb now b.locked_until) false) && is_unlocked bs now p

-- The rows that pass a test.
unfoldable pub rows_with : (Proxy → Bool) → List Proxy → List Proxy
rows_with test [] = []
rows_with test (p ∷ ps) = if test p then p ∷ rows_with test ps else rows_with test ps

unfoldable pub get_un_verified : ℤ → Time → List BlockedIp → List Proxy → List Proxy
unfolding is_unlocked rows_with
get_un_verified configured now blocked =
    rows_with (λ p. needs_check configured now p && is_unlocked blocked now p)

unfoldable pub is_un_verified : ℤ → Time → List BlockedIp → List Proxy → ℕ → Bool
unfolding is_unlocked rows_with
is_un_verified configured now blocked rows i = ltb 0 (
    length (
      rows_with (λ p. (p.id == i) && (needs_check configured now p && is_unlocked blocked now p))
        rows))

pub record MaintenanceStats : Type 0 where
  pub healthy_due : ℕ
  pub quarantined_ready : ℕ
  pub quarantined_waiting : ℕ

-- The rows that are ready are among those counted in the total, so the difference does not stop
-- at 0.
unfoldable pub get_maintenance_stats : ℤ → Time → List BlockedIp → List Proxy → MaintenanceStats
unfolding is_unlocked rows_with
get_maintenance_stats configured now blocked rows =
    let ready = length (
      rows_with (λ p. (not p.available && leb p.next_verify_at now) && is_unlocked blocked now p)
        rows) in
    record {
      healthy_due = length (
          rows_with (λ p. (p.available && is_stale configured now p) && is_unlocked blocked now p)
            rows);
      quarantined_ready = ready;
      quarantined_waiting = length (rows_with (λ p. not p.available) rows) - ready;
    }
