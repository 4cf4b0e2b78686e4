-- ===== src/Scheduling/Circuit.antt =====
-- An open circuit keeps a proxy away from its target until it expires.
use proxy_in_a_box.Prelude.{
  ◌+◌, ◌≤◌, ◌<◌, ◌≡◌, ◌≢◌, refl, ◌∙◌, ◌⊎◌, inl, inr, true, false, Bool-cases, some, List, [], ◌∷◌,
  Text, text_dec, Map, lookup, insert, delete, lookup-insert, lookup-delete, lookup-insert_self,
  length, ◌==◌, if◌then◌else◌, ite, if_pos, if_neg, Time, Duration, arith,
}
use proxy_in_a_box.Pool.{ProxyEntry, ProxyList, entry_uri}
use proxy_in_a_box.Scheduling.{
  DomainScheduling, picked, failures_of, open_failures, prune_failures, is_free, pick_proxy,
  collect_failures, mark_proxy_target_failure, gc,
}
use proxy_in_a_box.Scheduling.Pick.{free_for, picked-chosen, chosen_best, fields-pick_proxy}
use proxy_in_a_box.Scheduling.Spacing.{Event, picks, marks, collects, occurs, run}

failures_of-insert :
    (d k : Text) (fs : Map Time) (m : Map (Map Time))
    → failures_of d (insert k fs m) ≡ ite (text_dec k d) fs (failures_of d m)
unfolding failures_of
failures_of-insert d k fs m = ground (arith, lookup-insert d k fs m)

failures_of-delete :
    (d k : Text) (m : Map (Map Time))
    → failures_of d (delete k m) ≡ ite (text_dec k d) [] (failures_of d m)
unfolding failures_of
failures_of-delete d k m = ground (arith, lookup-delete d k m)

failures_of-cons :
    (d k : Text) (fs : Map Time) (m : Map (Map Time))
    → failures_of d ((k, fs) ∷ m) ≡ ite (text_dec k d) fs (failures_of d m)
unfolding failures_of lookup
failures_of-cons d k fs m = ground arith

-- When an event reads the clock for the circuits.
abbrev pub instant : Event → Time
instant (picks l now later domain) = later
instant (marks ttl now u target) = now
instant (collects now) = now

abbrev pub AllWithin : Time → Time → List Event → Type 0
AllWithin from to [] = Unit {0}
AllWithin from to (e ∷ es) = (from ≤ instant e) × (instant e < to) × AllWithin from to es

-- With a lifetime set, a mark changes nothing or stores one expiry.
mark_cases :
    (ttl : Duration) (now : Time) (v d : Text) (s : DomainScheduling) (life : Duration)
    → 0 < life
    → s.failure_ttl ≡ life
    → (mark_proxy_target_failure ttl now v d s ≡ s)
      ⊎ (mark_proxy_target_failure ttl now v d s ≡ record s {
        target_failures =
            insert d (insert v (now + life) (failures_of d s.target_failures)) s.target_failures;
        failure_ttl = life;
      })
unfolding mark_proxy_target_failure
mark_cases ttl now v d s life p same = ground arith

module _ (u : Text) (to : Time) where
  -- The circuit of `u` is open until `to` at least.
  abbrev pub IsOpenIn : Map Time → Type 0
  IsOpenIn fs = (t : Time) × (lookup u fs ≡ some t) × (to ≤ t)

  open_failures-IsOpenIn :
      (now : Time) (fs : Map Time) → now < to → IsOpenIn fs → IsOpenIn (open_failures now fs)
  unfolding lookup open_failures
  open_failures-IsOpenIn now [] h (t, at, late) = cc
  open_failures-IsOpenIn now ((k, x) ∷ fs) h (t, at, late) = elim (text_dec k u) [
    | yes here ↦ (t, ground arith, late)
    | no other ↦
        let (t', at', late') =
          open_failures-IsOpenIn now fs h (t, rw (if_neg _ other) at at, late) in
        (t', ground arith, late')
  ]

  IsOpenIn-filled : (fs : Map Time) → IsOpenIn fs → (length fs == 0) ≡ false
  unfolding lookup
  IsOpenIn-filled [] (t, at, late) = cc
  IsOpenIn-filled (f ∷ fs) h = ground arith

  module _ (target : Text) where
    abbrev pub IsOpenFor : Map (Map Time) → Type 0
    IsOpenFor m = IsOpenIn (failures_of target m)

    prune_failures-IsOpenFor :
        (now : Time) (d : Text) (m : Map (Map Time))
        → now < to
        → IsOpenFor m
        → IsOpenFor (prune_failures now d m)
    unfolding prune_failures
    prune_failures-IsOpenFor now d m h o = elim (text_dec d target) [
      | yes same ↦
          let o' : IsOpenIn (open_failures now (failures_of d m)) =
            open_failures-IsOpenIn now (failures_of d m) h (rw same o) in
          rw (IsOpenIn-filled _ o') (rw (failures_of-insert, if_pos _ same) o')
      | no other ↦ elim (Bool-cases (length (open_failures now (failures_of d m)) == 0)) [
        | inl empty ↦ rw empty (rw (failures_of-delete, if_neg _ other) o)
        | inr filled ↦ rw filled (rw (failures_of-insert, if_neg _ other) o)
      ]
    ]

    collect_failures-IsOpenFor :
        (now : Time) (m : Map (Map Time))
        → now < to
        → IsOpenFor m
        → IsOpenFor (collect_failures now m)
    unfolding collect_failures
    collect_failures-IsOpenFor now [] h o = o
    collect_failures-IsOpenFor now ((k, fs) ∷ m) h o = elim (text_dec k target) [
      | yes here ↦
          let o' : IsOpenIn (open_failures now fs) =
            open_failures-IsOpenIn now fs h (rw (failures_of-cons, if_pos _ here) at o) in
          rw (IsOpenIn-filled _ o') (rw (failures_of-cons, if_pos _ here) o')
      | no other ↦
          let rest =
            collect_failures-IsOpenFor now m h (rw (failures_of-cons, if_neg _ other) at o) in
          elim (Bool-cases (length (open_failures now fs) == 0)) [
            | inl empty ↦ rw empty rest
            | inr filled ↦ rw (filled, failures_of-cons, if_neg _ other) rest
          ]
    ]

    -- The circuit, with the lifetime that later marks will use.
    abbrev IsHeld : Duration → DomainScheduling → Type 0
    IsHeld life s = (s.failure_ttl ≡ life) × IsOpenFor s.target_failures

    pick_proxy-IsHeld :
        (l : ProxyList) (s : DomainScheduling) (now later : Time) (d : Text) (life : Duration)
        → later < to
        → IsHeld life s
        → IsHeld life (pick_proxy l s now later d).1
    pick_proxy-IsHeld l s now later d life h (ttl, o) =
        let (kept, pruned) = fields-pick_proxy l s now later d in
        (
          kept ∙ ttl,
          elim pruned [
            | inl same ↦ rw same o
            | inr cut ↦ rw cut (prune_failures-IsOpenFor later d s.target_failures h o)
          ],
        )

    -- A new mark of the pair moves its expiry, and it does not come before `to`.
    mark-IsOpenFor :
        (v d : Text) (until : Time) (m : Map (Map Time))
        → to ≤ until
        → IsOpenFor m
        → IsOpenFor (insert d (insert v until (failures_of d m)) m)
    mark-IsOpenFor v d until m h o = elim (text_dec d target) [
      | no other ↦ rw (failures_of-insert, if_neg _ other) o
      | yes same ↦
          rw (failures_of-insert, if_pos _ same)
            (elim (text_dec v u) [
              | yes it ↦ (until, rw (lookup-insert, if_pos _ it), h)
              | no other ↦ (o.0, rw (lookup-insert, if_neg _ other, same) o.1, o.2)
            ])
    ]

    occurs-IsHeld :
        (e : Event) (s : DomainScheduling) (from : Time) (life : Duration)
        → 0 < life
        → to ≡ from + life
        → from ≤ instant e
        → instant e < to
        → IsHeld life s
        → IsHeld life (occurs e s)
    unfolding occurs gc mark_proxy_target_failure
    occurs-IsHeld (picks l now later d) s from life p end a b h =
        pick_proxy-IsHeld l s now later d life b h
    occurs-IsHeld (collects now) s from life p end a b (ttl, o) =
        (ttl, collect_failures-IsOpenFor now s.target_failures b o)
    occurs-IsHeld (marks ttl now v d) s from life p end a b (same, o) =
        elim (mark_cases ttl now v d s life p same) [
          | inl kept ↦ rw kept (same, o)
          | inr set ↦
              rw set (refl, mark-IsOpenFor v d (now + life) s.target_failures (omega arith) o)
        ]

    run-IsHeld :
        (es : List Event) (s : DomainScheduling) (from : Time) (life : Duration)
        → 0 < life
        → to ≡ from + life
        → AllWithin from to es
        → IsHeld life s
        → IsHeld life (run es s)
    unfolding run
    run-IsHeld [] s from life p end within h = h
    run-IsHeld (e ∷ es) s from life p end within h =
        run-IsHeld es (occurs e s) from life p end within.2
          (occurs-IsHeld e s from life p end within.0 within.1 h)

    -- An entry with that URI is not free for the target before `to`.
    free_for-IsOpenFor :
        (e : ProxyEntry) (s : DomainScheduling) (now later : Time)
        → later < to
        → IsOpenFor s.target_failures
        → free_for s now later target e ≡ true
        → entry_uri e ≢ u
    unfolding is_free
    free_for-IsOpenFor e s now later h o free = λ same.
        let (t, at, _) = open_failures-IsOpenIn later (failures_of target s.target_failures) h o in
        ground arith

length-ne : (xs : Text) → xs ≢ [] → (length xs == 0) ≡ false
length-ne [] h = absurd (h refl)
length-ne (x ∷ xs) h = ground arith

mark_opens :
    (ttl : Duration) (now : Time) (u target : Text) (s : DomainScheduling)
    → u ≢ []
    → target ≢ []
    → 0 < ttl
    → let marked = mark_proxy_target_failure ttl now u target s in
      (0 < marked.failure_ttl)
      × IsOpenFor u (now + marked.failure_ttl) target marked.target_failures
unfolding mark_proxy_target_failure
mark_opens ttl now u target s hu ht p =
    rw (length-ne u hu, length-ne target ht)
      (
        ground arith,
        (
          now + (if s.failure_ttl == 0 then ttl else s.failure_ttl),
          rw (failures_of-insert, if_pos (text_dec target target) refl) (lookup-insert_self u _ _),
          omega arith,
        ),
      )

-- A failure of `u` for a target, reported at `now`, keeps every pick for that target from
-- returning `u` before the lifetime of the circuit is over, whatever picks, reports and
-- collections come in between, at clock readings from `now` on. The URI and the target are not
-- empty, and the configured lifetime is positive.
pub mark_proxy_target_failure-excludes :
    (ttl : Duration) (now : Time) (u target : Text) (s : DomainScheduling) (es : List Event)
    (l : ProxyList) (now' later' : Time)
    → u ≢ []
    → target ≢ []
    → 0 < ttl
    → let marked = mark_proxy_target_failure ttl now u target s in
      AllWithin now (now + marked.failure_ttl) es
      → later' < now + marked.failure_ttl
      → (pick_proxy l (run es marked) now' later' target).2 ≢ picked u
mark_proxy_target_failure-excludes ttl now u target s es l now' later' hu ht p within soon =
    λ result.
      let marked = mark_proxy_target_failure ttl now u target s in
      let (i, e, found, _, same) = picked-chosen l (run es marked) now' later' target u result in
      let (_, free, _) = chosen_best l (run es marked) now' later' target i e found in
      let (life, opened) = mark_opens ttl now u target s hu ht p in
      let held =
        run-IsHeld u (now + marked.failure_ttl) target es marked now marked.failure_ttl life refl
          within (refl, opened) in
      free_for-IsOpenFor u (now + marked.failure_ttl) target e (run es marked) now' later' soon
        held.1 free same
