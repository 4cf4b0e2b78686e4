-- ===== src/Scheduling/Spacing.antt =====
-- Two picks for one domain within three seconds use different IPs, whatever happens in between.
use proxy_in_a_box.Prelude.{
  ℕ, suc, ◌+◌, ◌-◌, ◌≤◌, ◌<◌, ◌≡◌, ◌≢◌, refl, sym, ◌⊎◌, inl, inr, true, false, Bool-cases, some,
  List, [], ◌∷◌, ◌++◌, Text, text_dec, Map, lookup, insert, lookup-insert, length, drop, get_elem?,
  ◌==◌, ite, if_pos, if_neg, Time, Duration, unix, arith,
}
use proxy_in_a_box.Pool.{ProxyEntry, ProxyList, entry_uri}
use proxy_in_a_box.Scheduling.{
  DomainScheduling, picked, entries_of, contains, recent_entries, is_free, pick_proxy, ips,
  shift_down, collect_entries, collect_domains, mark_proxy_target_failure, gc,
}
use proxy_in_a_box.Scheduling.Pick.{free_for, picked-chosen, chosen_best, dl-pick_proxy, after_pick}
use proxy_in_a_box.Scheduling.Collector.{array, collected, collect_entries-collected}

entries_of-cons_eq :
    (d k : Text) (v : List ProxyEntry) (m : Map (List ProxyEntry))
    → k ≡ d
    → entries_of d ((k, v) ∷ m) ≡ v
unfolding entries_of lookup
entries_of-cons_eq d k v m e = ground arith

entries_of-cons_ne :
    (d k : Text) (v : List ProxyEntry) (m : Map (List ProxyEntry))
    → k ≢ d
    → entries_of d ((k, v) ∷ m) ≡ entries_of d m
unfolding entries_of lookup
entries_of-cons_ne d k v m e = ground arith

-- What can happen to the scheduler, with the pool at that moment.
pub data Event : Type 0 where
  picks : ProxyList → Time → Time → Text → Event
  marks : Duration → Time → Text → Text → Event
  collects : Time → Event

unfoldable pub occurs : Event → DomainScheduling → DomainScheduling
occurs (picks l now later domain) s = (pick_proxy l s now later domain).1
occurs (marks ttl now u target) s = mark_proxy_target_failure ttl now u target s
occurs (collects now) s = gc now s

unfoldable pub run : List Event → DomainScheduling → DomainScheduling
unfolding occurs
run [] s = s
run (e ∷ es) s = run es (occurs e s)

-- The Unix second at which an event reads the clock.
abbrev pub event_second : Event → ℕ
event_second (picks l now later domain) = unix now
event_second (marks ttl now u target) = unix now
event_second (collects now) = unix now

abbrev pub AllBefore : ℕ → List Event → Type 0
AllBefore t [] = Unit {0}
AllBefore t (e ∷ es) = (event_second e < t) × AllBefore t es

-- The list shows a use of the IP at second `n` or later.
abbrev pub UsedSince : Text → ℕ → List ProxyEntry → Type 0
UsedSince ip n [] = ⊥
UsedSince ip n (e ∷ es) = ((e.p.ip ≡ ip) × (n ≤ e.n)) ⊎ UsedSince ip n es

module _ (ip : Text) (n : ℕ) where
  UsedSince-append_left : (xs ys : List ProxyEntry) → UsedSince ip n xs → UsedSince ip n (xs ++ ys)
  UsedSince-append_left [] ys u = absurd u
  UsedSince-append_left (e ∷ es) ys (inl h) = inl h
  UsedSince-append_left (e ∷ es) ys (inr u) = inr (UsedSince-append_left es ys u)

  UsedSince-append_right : (xs ys : List ProxyEntry) → UsedSince ip n ys → UsedSince ip n (xs ++ ys)
  UsedSince-append_right [] ys u = u
  UsedSince-append_right (e ∷ es) ys u = inr (UsedSince-append_right es ys u)

  UsedSince-recent :
      (now : ℕ) (es : List ProxyEntry)
      → now < n + 3
      → UsedSince ip n es
      → UsedSince ip n (recent_entries now es)
  unfolding recent_entries
  UsedSince-recent now [] h u = u
  UsedSince-recent now (e ∷ es) h (inl (same, since)) = ground arith
  UsedSince-recent now (e ∷ es) h (inr u) = ground (arith, UsedSince-recent now es h u)

  UsedSince-contains : (es : List ProxyEntry) → UsedSince ip n es → contains ip (ips es) ≡ true
  unfolding contains
  UsedSince-contains [] u = absurd u
  UsedSince-contains (e ∷ es) (inl (same, since)) = ground arith
  UsedSince-contains (e ∷ es) (inr u) = ground (arith, UsedSince-contains es u)

  UsedSince-array :
      (now : ℕ) (es : List ProxyEntry)
      → now < n + 3
      → UsedSince ip n es
      → UsedSince ip n (array now es)
  unfolding array shift_down
  UsedSince-array now [] h u = u
  UsedSince-array now (e ∷ es) h (inl (same, since)) = ground arith
  UsedSince-array now (e ∷ es) h (inr u) =
      let rest = UsedSince-array now es h u in
      ground (
        arith,
        rest,
        UsedSince-append_left (array now es)
            (drop (suc (length (array now es)) - 1) (e ∷ array now es)) rest,
      )

  UsedSince-collected :
      (now : ℕ) (es : List ProxyEntry)
      → now < n + 3
      → UsedSince ip n es
      → UsedSince ip n (collected now es)
  unfolding collected
  UsedSince-collected now [] h u = u
  UsedSince-collected now (e ∷ es) h (inl (same, since)) = ground arith
  UsedSince-collected now (e ∷ es) h (inr u) =
      ground (arith, UsedSince-array now es h u, UsedSince-collected now es h u)

  UsedSince-filled : (es : List ProxyEntry) → UsedSince ip n es → (length es == 0) ≡ false
  UsedSince-filled [] u = absurd u
  UsedSince-filled (e ∷ es) u = ground arith

  collect_domains-UsedSince :
      (now : ℕ) (domain : Text) (m : Map (List ProxyEntry))
      → now < n + 3
      → UsedSince ip n (entries_of domain m)
      → UsedSince ip n (entries_of domain (collect_domains now m))
  unfolding collect_domains
  collect_domains-UsedSince now domain [] h u = u
  collect_domains-UsedSince now domain ((k, v) ∷ m) h u = elim (text_dec k domain) [
    | yes here ↦
        let kept : UsedSince ip n (collect_entries now v) =
          rw (collect_entries-collected now v)
            (UsedSince-collected now v h (rw (entries_of-cons_eq domain k v m here) at u)) in
        rw (UsedSince-filled _ kept) (rw (entries_of-cons_eq domain k _ _ here) kept)
    | no other ↦
        let rest =
          collect_domains-UsedSince now domain m h
            (rw (entries_of-cons_ne domain k v m other) at u) in
        elim (Bool-cases (length (collect_entries now v) == 0)) [
          | inl empty ↦ rw empty rest
          | inr filled ↦ rw (filled, entries_of-cons_ne domain k _ _ other) rest
        ]
  ]

entries_of-insert :
    (d d' : Text) (es : List ProxyEntry) (m : Map (List ProxyEntry))
    → entries_of d (insert d' es m) ≡ ite (text_dec d' d) es (entries_of d m)
unfolding entries_of
entries_of-insert d d' es m = ground (arith, lookup-insert d d' es m)

module _ (ip domain : Text) (n : ℕ) where
  abbrev pub WasUsed : DomainScheduling → Type 0
  WasUsed s = UsedSince ip n (entries_of domain s.dl)

  pick_proxy-WasUsed :
      (l : ProxyList) (s : DomainScheduling) (now later : Time) (d : Text)
      → unix now < n + 3
      → WasUsed s
      → WasUsed (pick_proxy l s now later d).1
  pick_proxy-WasUsed l s now later d h u = elim (dl-pick_proxy l s now later d) [
    | inl same ↦ rw same u
    | inr (added, grown) ↦
        rw (grown, entries_of-insert)
          (elim (text_dec d domain) [
            | yes here ↦
                rw (if_pos _ here, here)
                  (UsedSince-append_left ip n _ added (UsedSince-recent ip n (unix now) _ h u))
            | no other ↦ rw (if_neg _ other) u
          ])
  ]

  occurs-WasUsed :
      (e : Event) (s : DomainScheduling) → event_second e < n + 3 → WasUsed s → WasUsed (occurs e s)
  unfolding occurs mark_proxy_target_failure gc
  occurs-WasUsed (picks l now later d) s h u = pick_proxy-WasUsed l s now later d h u
  occurs-WasUsed (marks ttl now v target) s h u = ground arith
  occurs-WasUsed (collects now) s h u = collect_domains-UsedSince ip n (unix now) domain s.dl h u

  run-WasUsed :
      (es : List Event) (s : DomainScheduling)
      → AllBefore (n + 3) es
      → WasUsed s
      → WasUsed (run es s)
  unfolding run
  run-WasUsed [] s h u = u
  run-WasUsed (e ∷ es) s h u = run-WasUsed es (occurs e s) h.1 (occurs-WasUsed e s h.0 u)

  -- An entry that is free for the domain at such a second has another IP.
  free_for-ne :
      (e : ProxyEntry) (s : DomainScheduling) (now later : Time)
      → unix now < n + 3
      → WasUsed s
      → free_for s now later domain e ≡ true
      → e.p.ip ≢ ip
  unfolding is_free
  free_for-ne e s now later h u free = λ same.
      let recent = recent_entries (unix now) (entries_of domain s.dl) in
      ground (
        arith,
        UsedSince-contains ip n recent
            (UsedSince-recent ip n (unix now) (entries_of domain s.dl) h u),
      )

-- A pick records the use of its entry's IP.
pick_proxy-used :
    (l : ProxyList) (s : DomainScheduling) (now later : Time) (domain : Text) (i : ℕ)
    (e : ProxyEntry)
    → pick_proxy l s now later domain ≡ after_pick l s now later domain i e
    → WasUsed e.p.ip domain (unix now) (pick_proxy l s now later domain).1
pick_proxy-used l s now later domain i e left = rw left (
    rw (entries_of-insert, if_pos (text_dec domain domain) refl)
      (UsedSince-append_right e.p.ip (unix now) (recent_entries (unix now) (entries_of domain s.dl))
        _ (inl (refl, omega arith))))

-- After a pick of `u` for a domain at second `unix now`, and any events before three more seconds
-- have passed, a pick of `v` for that domain, also before they have passed, comes from an entry
-- with another IP than that of the entry of `u`.
pub pick_proxy-spacing :
    (l l' : ProxyList) (s : DomainScheduling) (now later now' later' : Time) (domain u v : Text)
    (es : List Event)
    → (pick_proxy l s now later domain).2 ≡ picked u
    → AllBefore (unix now + 3) es
    → unix now' < unix now + 3
    → (pick_proxy l' (run es (pick_proxy l s now later domain).1) now' later' domain).2 ≡ picked v
    → (i j : ℕ) × (e e' : ProxyEntry) × (get_elem? l.pl i ≡ some e)
      × (entry_uri e ≡ u)
      × (get_elem? l'.pl j ≡ some e')
      × (entry_uri e' ≡ v)
      × (e.p.ip ≢ e'.p.ip)
pick_proxy-spacing l l' s now later now' later' domain u v es first between soon second =
    let s' = run es (pick_proxy l s now later domain).1 in
    let (i, e, found, left, same) = picked-chosen l s now later domain u first in
    let (j, e', found', _, same') = picked-chosen l' s' now' later' domain v second in
    let (here, _, _) = chosen_best l s now later domain i e found in
    let (here', free, _) = chosen_best l' s' now' later' domain j e' found' in
    let used = pick_proxy-used l s now later domain i e left in
    let still =
      run-WasUsed e.p.ip domain (unix now) es (pick_proxy l s now later domain).1 between used in
    let other = free_for-ne e.p.ip domain (unix now) e' s' now' later' soon still free in
    (i, j, e, e', here, same, here', same', λ k. other (sym k))
