-- ===== src/Scheduling/Pick.antt =====
-- What `PickProxy` returns and what it leaves (service/memcache.go).
use proxy_in_a_box.Prelude.{
  ℕ, ◌≤◌, ◌<◌, ◌≡◌, ◌≢◌, refl, sym, subst, ap, ◌∙◌, ◌↔◌, ◌⊎◌, inl, inr, Bool, true, false, Option,
  none, some, Option-cases, List, [], ◌∷◌, ◌++◌, append-nil, Text, insert, get_elem?, Time, unix,
  arith,
}
use proxy_in_a_box.Pool.{ProxyEntry, ProxyList, entry_uri}
use proxy_in_a_box.Scheduling.{
  DomainScheduling, PickResult, picked, pool_empty, no_free_agent, entries_of, failures_of,
  recent_entries, open_failures, prune_failures, is_free, chosen, pick_proxy, bump, ips,
}
use proxy_in_a_box.Scheduling.Selection.{IsBest, first_free-IsBest}

-- The entry may be handed out for the domain: its circuit is not open, and its IP was not used in
-- the last three seconds.
abbrev pub free_for : DomainScheduling → Time → Time → Text → ProxyEntry → Bool
free_for s now later domain =
    is_free (open_failures later (failures_of domain s.target_failures))
      (ips (recent_entries (unix now) (entries_of domain s.dl)))

abbrev picked_or : Text → PickResult → Text
picked_or u (picked v) = v
picked_or u _ = u

picked-injective : {u v : Text} → picked u ≡ picked v → u ≡ v
picked-injective {u} e = ap (picked_or u) e

pub List-cases {ℓ} : {A : Type ℓ} (xs : List A) → (xs ≡ []) ⊎ (xs ≢ [])
List-cases [] = inl refl
List-cases (x ∷ xs) = inr (λ e. cc)

module _ (l : ProxyList) (s : DomainScheduling) (now later : Time) (domain : Text) where
  abbrev Best : Option (ℕ × ProxyEntry) → Type 0
  Best o =
      IsBest (open_failures later (failures_of domain s.target_failures))
        (ips (recent_entries (unix now) (entries_of domain s.dl))) o 0 l.pl

  chosen-IsBest : Best (chosen l s now later domain)
  unfolding chosen
  chosen-IsBest = first_free-IsBest _ _ l.pl

  -- The state that a successful call leaves.
  abbrev pub after_pick : ℕ → ProxyEntry → ProxyList × DomainScheduling × PickResult
  after_pick i e = (
    record l { pl = bump i l.pl },
    record s {
      dl =
          insert domain
            (recent_entries (unix now) (entries_of domain s.dl)
              ++ record { p = e.p; n = unix now } ∷ [])
            s.dl;
      target_failures = prune_failures later domain s.target_failures;
    },
    picked (entry_uri e),
  )

  pub pick_proxy-some :
      (i : ℕ) (e : ProxyEntry)
      → l.pl ≢ []
      → chosen l s now later domain ≡ some (i, e)
      → pick_proxy l s now later domain ≡ after_pick i e
  unfolding pick_proxy
  pick_proxy-some i e filled found = ground (arith, found)

  pick_proxy-none :
      l.pl ≢ []
      → chosen l s now later domain ≡ none
      → (pick_proxy l s now later domain).2 ≡ no_free_agent
  unfolding pick_proxy
  pick_proxy-none filled missing = ground (arith, missing)

  pick_proxy_empty : l.pl ≡ [] → (pick_proxy l s now later domain).2 ≡ pool_empty
  unfolding pick_proxy
  pick_proxy_empty e = ground (arith, e)

  -- The choice behind a URI that is returned.
  pub picked-chosen :
      (u : Text)
      → (pick_proxy l s now later domain).2 ≡ picked u
      → (i : ℕ) × (e : ProxyEntry) × (chosen l s now later domain ≡ some (i, e))
        × (pick_proxy l s now later domain ≡ after_pick i e)
        × (entry_uri e ≡ u)
  picked-chosen u result = elim (List-cases l.pl) [
    | inl empty ↦ absurd (cc (pick_proxy_empty empty))
    | inr filled ↦ elim (Option-cases (chosen l s now later domain)) [
      | inl missing ↦ absurd (cc (pick_proxy-none filled missing))
      | inr (x, found) ↦
          let left = pick_proxy-some x.0 x.1 filled found in
          (x.0, x.1, found, left, picked-injective (sym (ap (λ t. t.2) left) ∙ result))
    ]
  ]

  -- The choice is a free entry at its position, and the first of the least used ones.
  pub chosen_best :
      (i : ℕ) (e : ProxyEntry)
      → chosen l s now later domain ≡ some (i, e)
      → (get_elem? l.pl i ≡ some e)
        × (free_for s now later domain e ≡ true)
        × ((j : ℕ) (x : ProxyEntry)
            → get_elem? l.pl j ≡ some x
            → free_for s now later domain x ≡ true
            → (e.n < x.n) ⊎ ((e.n ≡ x.n) × (i ≤ j)))
  chosen_best i e found =
      let (m, at, here, free, rest) = subst Best found chosen-IsBest in
      let same : m ≡ i = omega arith in
      (
        subst (λ k. get_elem? l.pl k ≡ some e) same here,
        free,
        λ j x at' free'. ground (arith, rest j x at' free'),
      )

  -- A URI that is returned belongs to a free entry of the pool that is used least among the free
  -- ones, and is the earliest of these in the pool; its use count grows by one.
  pub pick_proxy-least :
      (u : Text)
      → (pick_proxy l s now later domain).2 ≡ picked u
      → (i : ℕ) × (e : ProxyEntry) × (get_elem? l.pl i ≡ some e)
        × (entry_uri e ≡ u)
        × (free_for s now later domain e ≡ true)
        × ((pick_proxy l s now later domain).0 ≡ record l { pl = bump i l.pl })
        × ((j : ℕ) (x : ProxyEntry)
            → get_elem? l.pl j ≡ some x
            → free_for s now later domain x ≡ true
            → (e.n < x.n) ⊎ ((e.n ≡ x.n) × (i ≤ j)))
  pick_proxy-least u result =
      let (i, e, found, left, same) = picked-chosen u result in
      let (here, free, rest) = chosen_best i e found in
      (i, e, here, same, free, ap (λ t. t.0) left, rest)

  -- No agent is reported free exactly when the pool has entries and none of them is free.
  pub pick_proxy-no_free_agent : ((pick_proxy l s now later domain).2 ≡ no_free_agent) ↔ (
      (l.pl ≢ [])
      × ((j : ℕ) (x : ProxyEntry)
          → get_elem? l.pl j ≡ some x
          → free_for s now later domain x ≡ false))
  pick_proxy-no_free_agent = (
    λ result. elim (List-cases l.pl) [
      | inl empty ↦ absurd (cc (pick_proxy_empty empty))
      | inr filled ↦ elim (Option-cases (chosen l s now later domain)) [
        | inl missing ↦ (filled, subst Best missing chosen-IsBest)
        | inr (x, found) ↦ absurd (cc (ap (λ t. t.2) (pick_proxy-some x.0 x.1 filled found)))
      ]
    ],
    λ h. elim (Option-cases (chosen l s now later domain)) [
      | inl missing ↦ pick_proxy-none h.0 missing
      | inr (x, found) ↦
          let (here, free, rest) = chosen_best x.0 x.1 found in absurd (cc (h.1 x.0 x.1 here))
    ],
  )

  -- A pick touches the list of its own domain only: it keeps the recent entries, and may add some.
  pub dl-pick_proxy :
      ((pick_proxy l s now later domain).1.dl ≡ s.dl)
      ⊎ ((added : List ProxyEntry) × ((pick_proxy l s now later domain).1.dl
            ≡ insert domain (recent_entries (unix now) (entries_of domain s.dl) ++ added) s.dl))
  unfolding pick_proxy
  dl-pick_proxy = elim (List-cases l.pl) [
    | inl empty ↦ inl (ground (arith, empty))
    | inr filled ↦ elim (Option-cases (chosen l s now later domain)) [
      | inl missing ↦ inr (
        [],
        ground (arith, missing, append-nil (recent_entries (unix now) (entries_of domain s.dl))),
      )
      | inr (x, found) ↦ inr (
        record { p = (x.1).p; n = unix now } ∷ [],
        ap (λ t. t.1.dl) (pick_proxy-some x.0 x.1 filled found),
      )
    ]
  ]

  -- A pick prunes the circuits of its own domain, unless the pool is empty.
  pub fields-pick_proxy :
      ((pick_proxy l s now later domain).1.failure_ttl ≡ s.failure_ttl)
      × (((pick_proxy l s now later domain).1.target_failures ≡ s.target_failures)
          ⊎ ((pick_proxy l s now later domain).1.target_failures
              ≡ prune_failures later domain s.target_failures))
  unfolding pick_proxy
  fields-pick_proxy = ground arith

  -- The pool stays as it is, or one use count goes up.
  pub pool-pick_proxy :
      ((pick_proxy l s now later domain).0 ≡ l)
      ⊎ ((i : ℕ) × ((pick_proxy l s now later domain).0 ≡ record l { pl = bump i l.pl }))
  unfolding pick_proxy
  pool-pick_proxy = elim (List-cases l.pl) [
    | inl empty ↦ inl (ground (arith, empty))
    | inr filled ↦ elim (Option-cases (chosen l s now later domain)) [
      | inl missing ↦ inl (ground (arith, missing))
      | inr (x, found) ↦ inr (x.0, ap (λ t. t.0) (pick_proxy-some x.0 x.1 filled found))
    ]
  ]
