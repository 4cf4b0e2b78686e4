-- ===== src/Tests/ServiceTests.antt =====
-- Tests of the pool and the scheduler (service/memcache.go).
use proxy_in_a_box.Prelude.{
  ℕ, ◌-◌, ◌<◌, ◌≤◌, ◌≡◌, ◌≢◌, refl, ◌⊎◌, ◌↔◌, some, true, false, List, [], ◌∷◌, ◌++◌, Text, bytes,
  text_dec, lookup, insert, delete, length, get_elem?, take, drop, unix, second, remove_at,
  if◌then◌else◌, arith,
}
use proxy_in_a_box.Endpoint.{uri, normal_protocol}
use proxy_in_a_box.Endpoint.Identity.{uri_injective}
use proxy_in_a_box.Pool.{ProxyEntry, entry_uri, get_proxy, remove_loop}
use proxy_in_a_box.Pool.Rotation.{serve, offers, get_proxy-rotation}
use proxy_in_a_box.Scheduling.{
  picked, no_free_agent, entries_of, failures_of, contains, recent_entries, open_failures,
  prune_failures, numbered, sort_stable, is_free, first_free, bump, chosen, pick_proxy,
  mark_proxy_target_failure, collect_entries,
}
use proxy_in_a_box.Scheduling.Pick.{free_for, pick_proxy-least, pick_proxy-no_free_agent}
use proxy_in_a_box.Scheduling.Collector.{some_stale, length-collect_entries}
use proxy_in_a_box.Scheduling.Spacing.{picks, run, pick_proxy-spacing}
use proxy_in_a_box.Scheduling.Circuit.{mark_proxy_target_failure-excludes}
use proxy_in_a_box.Tests.Fixtures.{
  at, first_proxy, second_proxy, entry, two_proxies, no_history, site,
}

program : Unit {0}
unfolding uri normal_protocol text_dec lookup delete insert remove_at remove_loop get_proxy
    entries_of failures_of contains recent_entries open_failures prune_failures numbered sort_stable
    is_free first_free bump chosen pick_proxy unix mark_proxy_target_failure
program = tt

abbrev a : Text
a = bytes "http://1.1.1.1:80"

abbrev b : Text
b = bytes "http://2.2.2.2:81"

-- The first pick takes the first entry, the second the other.
pick_first : (pick_proxy two_proxies no_history (at 0) (at 0) site).2 ≡ picked a
unfolding program
pick_first = refl

pick_second :
    (pick_proxy two_proxies
      (pick_proxy two_proxies no_history (at 0) (at 0) site).1
      (at 2)
      (at 2)
      site).2
    ≡ picked b
unfolding program
pick_second = refl

uri_injective_example :
    (normal_protocol first_proxy.protocol
      ≡ normal_protocol (record first_proxy { protocol = [] }).protocol)
    × (first_proxy.ip ≡ first_proxy.ip)
    × (first_proxy.port ≡ first_proxy.port)
unfolding program
uri_injective_example =
    uri_injective first_proxy (record first_proxy { protocol = [] }) (omega arith) tt (omega arith)
      (omega arith) refl

get_proxy-rotation_example :
    (serve 2 two_proxies).1 ≡ offers (drop 1 two_proxies.pl ++ take 1 two_proxies.pl)
get_proxy-rotation_example = get_proxy-rotation two_proxies

pick_proxy-least_example :
    (i : ℕ) × (e : ProxyEntry) × (get_elem? two_proxies.pl i ≡ some e)
    × (entry_uri e ≡ a)
    × (free_for no_history (at 0) (at 0) site e ≡ true)
    × ((pick_proxy two_proxies no_history (at 0) (at 0) site).0
        ≡ record two_proxies { pl = bump i two_proxies.pl })
    × ((j : ℕ) (x : ProxyEntry)
        → get_elem? two_proxies.pl j ≡ some x
        → free_for no_history (at 0) (at 0) site x ≡ true
        → (e.n < x.n) ⊎ ((e.n ≡ x.n) × (i ≤ j)))
pick_proxy-least_example = pick_proxy-least two_proxies no_history (at 0) (at 0) site a pick_first

pick_proxy-no_free_agent_example :
    ((pick_proxy two_proxies no_history (at 0) (at 0) site).2 ≡ no_free_agent) ↔ (
      (two_proxies.pl ≢ [])
      × ((j : ℕ) (x : ProxyEntry)
          → get_elem? two_proxies.pl j ≡ some x
          → free_for no_history (at 0) (at 0) site x ≡ false))
pick_proxy-no_free_agent_example =
    pick_proxy-no_free_agent two_proxies no_history (at 0) (at 0) site

pick_proxy-spacing_example :
    (i j : ℕ) × (e e' : ProxyEntry) × (get_elem? two_proxies.pl i ≡ some e)
    × (entry_uri e ≡ a)
    × (get_elem? two_proxies.pl j ≡ some e')
    × (entry_uri e' ≡ b)
    × (e.p.ip ≢ e'.p.ip)
unfolding program run
pick_proxy-spacing_example =
    pick_proxy-spacing two_proxies two_proxies no_history (at 0) (at 0) (at 2) (at 2) site a b
      (picks two_proxies (at 1) (at 1) (bytes "c.d") ∷ []) pick_first (omega arith) (omega arith)
      refl

mark_proxy_target_failure-excludes_example :
    (pick_proxy two_proxies
      (run
        (picks two_proxies (at 1) (at 1) site ∷ [])
        (mark_proxy_target_failure second (at 0) a site no_history))
      (at 599)
      (at 599)
      site).2
    ≢ picked a
unfolding mark_proxy_target_failure
mark_proxy_target_failure-excludes_example =
    mark_proxy_target_failure-excludes second (at 0) a site no_history
      (picks two_proxies (at 1) (at 1) site ∷ []) two_proxies (at 599) (at 599) (λ e. cc) (λ e. cc)
      (omega arith) (omega arith) (omega arith)

abbrev old_uses : List ProxyEntry
old_uses = entry first_proxy 1 ∷ entry second_proxy 2 ∷ entry first_proxy 99 ∷ []

-- The two stale uses: one slot goes, and the fresh entry is there twice.
collect_two_stale : collect_entries 100 old_uses ≡ entry first_proxy 99 ∷ entry first_proxy 99 ∷ []
unfolding collect_entries
collect_two_stale = refl

length-collect_entries_example :
    length (collect_entries 100 old_uses)
    ≡ length old_uses - (if some_stale 100 old_uses then 1 else 0)
length-collect_entries_example = length-collect_entries 100 old_uses
