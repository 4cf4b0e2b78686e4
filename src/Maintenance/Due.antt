-- ===== src/Maintenance/Due.antt =====
-- The counts of due proxies and the list of them.
use proxy_in_a_box.Prelude.{
  ℕ, ◌+◌, ◌≡◌, inl, inr, Bool, Bool-cases, List, [], ◌∷◌, length, if◌then◌else◌, Time, arith,
}
use proxy_in_a_box.Prelude.Int.{ℤ}
use proxy_in_a_box.Endpoint.{Proxy, BlockedIp}
use proxy_in_a_box.Maintenance.{rows_with, get_un_verified, get_maintenance_stats, due_count}

abbrev counted : (Proxy → Bool) → List Proxy → ℕ
counted test ps = length (rows_with test ps)

-- Two tests that exclude each other count as their disjunction.
counted-or :
    (a b c : Proxy → Bool) (ps : List Proxy)
    → ((p : Proxy) → (if a p then 1 else 0) + (if b p then 1 else 0) ≡ (if c p then 1 else 0))
    → counted a ps + counted b ps ≡ counted c ps
unfolding rows_with
counted-or a b c [] h = omega arith
counted-or a b c (p ∷ ps) h = ground (arith, h p, counted-or a b c ps h)

-- The due count of the maintenance statistics is the number of proxies that the periodic check
-- gets from the same rows at the same time.
pub get_maintenance_stats-due :
    (configured : ℤ) (now : Time) (blocked : List BlockedIp) (rows : List Proxy)
    → due_count (get_maintenance_stats configured now blocked rows)
      ≡ length (get_un_verified configured now blocked rows)
unfolding get_maintenance_stats get_un_verified
get_maintenance_stats-due configured now blocked rows = counted-or _ _ _ rows λ p.
    elim (Bool-cases p.available) [ inl up ↦ ground (arith, up) | inr down ↦ ground (arith, down) ]
