-- ===== src/Lifecycle/Locking.antt =====
-- The lock of an IP after repeated failures (`RecordFailure`, `IsIPLocked`, `clearFailureLocked` of
-- service/memcache.go).
use proxy_in_a_box.Prelude.{
  ◌+◌, ◌≤◌, ◌<◌, ◌≡◌, refl, ◌⊎◌, inl, inr, Bool, true, false, Bool-cases, none, some, Option-cases,
  List, [], ◌∷◌, Text, text_dec, lookup-insert_self, reject, length, replicate, leb, Time, before,
  arith,
}
use proxy_in_a_box.Endpoint.{BlockedIp}
use proxy_in_a_box.Pool.Removal.{remove_from_cache_locked-reject}
use proxy_in_a_box.Store.{Store, or_else}
use proxy_in_a_box.Lifecycle.{
  Cache, proxy_failure_lock_threshold, proxy_failure_lock_duration, is_ip_locked,
  clear_failure_locked, next_blocked, lock_ip, record_failure,
}

module _ (S : Store) where
  -- The two branches of a failure.
  record_failure-reached :
      (now : Time) (ip : Text) (c : Cache S)
      → leb proxy_failure_lock_threshold (next_blocked S c.db ip).consecutive_failures ≡ true
      → record_failure S now ip c ≡ lock_ip S now ip (next_blocked S c.db ip) c
  unfolding record_failure
  record_failure-reached now ip c reached = rw reached

  record_failure-below :
      (now : Time) (ip : Text) (c : Cache S)
      → leb proxy_failure_lock_threshold (next_blocked S c.db ip).consecutive_failures ≡ false
      → record_failure S now ip c
        ≡ (record c { db = or_else (S.save_blocked c.db (next_blocked S c.db ip)) c.db }, false)
  unfolding record_failure
  record_failure-below now ip c below = rw below

  lock_ip-locked :
      (now : Time) (ip : Text) (b : BlockedIp) (c : Cache S) (t : Time)
      → (is_ip_locked S t ip (lock_ip S now ip b c).0).1
        ≡ before t (now + proxy_failure_lock_duration)
  unfolding is_ip_locked lock_ip
  lock_ip-locked now ip b c t =
      ground (arith, lookup-insert_self ip (now + proxy_failure_lock_duration) c.locked_ips)

  -- A failure that reaches the threshold locks the IP, for six hours exactly, and takes all of its
  -- entries out of the pool and no others. One that does not leaves pool and locks as they are.
  pub record_failure-locks :
      (now : Time) (ip : Text) (c : Cache S)
      → let b = next_blocked S c.db ip in
        let (c', locked) = record_failure S now ip c in
        ((b.consecutive_failures < proxy_failure_lock_threshold)
          × (locked ≡ false)
          × (c'.proxies ≡ c.proxies)
          × (c'.locked_ips ≡ c.locked_ips))
        ⊎ ((proxy_failure_lock_threshold ≤ b.consecutive_failures)
            × (locked ≡ true)
            × ((t : Time)
                → (is_ip_locked S t ip c').1 ≡ before t (now + proxy_failure_lock_duration))
            × (c'.proxies.pl ≡ reject (λ e. text_dec e.p.ip ip) c.proxies.pl))
  record_failure-locks now ip c =
      let b = next_blocked S c.db ip in
      elim (Bool-cases (leb proxy_failure_lock_threshold b.consecutive_failures)) [
        | inl reached ↦ rw (record_failure-reached now ip c reached) (
            inr (
              ground arith,
              unfold lock_ip in refl,
              lock_ip-locked now ip b c,
              unfold lock_ip in remove_from_cache_locked-reject ip c.proxies,
            ))
        | inr below ↦
            rw (record_failure-below now ip c below) (inl (ground arith, refl, refl, refl))
      ]

  next_blocked-ip : (d : S.Db) (ip : Text) → (next_blocked S d ip).ip ≡ ip
  unfolding next_blocked
  next_blocked-ip d ip = elim (Option-cases (S.find_blocked d ip)) [
    | inl missing ↦ rw (next_blocked, missing)
    | inr (b, found) ↦ rw (next_blocked, found) (S.find_blocked-ip d ip b found)
  ]

  -- What is saved for an IP is counted on by its next failure.
  next_blocked-saved :
      (d d' : S.Db) (ip : Text) (b : BlockedIp)
      → b.ip ≡ ip
      → S.save_blocked d b ≡ some d'
      → (next_blocked S d' ip).consecutive_failures ≡ b.consecutive_failures + 1
  unfolding next_blocked
  next_blocked-saved d d' ip b same saved =
      let found : S.find_blocked d' ip ≡ some b = rw (← same) (S.find_blocked-save d d' b saved) in
      rw (next_blocked, found)

  -- Every save of a failure count succeeds.
  abbrev pub Saves : Type 0
  Saves = (d : S.Db) (b : BlockedIp) → (d' : S.Db) × (S.save_blocked d b ≡ some d')

  next_blocked-record_failure :
      (now : Time) (ip : Text) (c : Cache S)
      → Saves
      → (next_blocked S (record_failure S now ip c).0.db ip).consecutive_failures
        ≡ (next_blocked S c.db ip).consecutive_failures + 1
  next_blocked-record_failure now ip c saves =
      let b = next_blocked S c.db ip in
      elim (Bool-cases (leb proxy_failure_lock_threshold b.consecutive_failures)) [
        | inl reached ↦
            let d = or_else (S.disable_ip c.db ip) c.db in
            let b' = record b { locked_until = now + proxy_failure_lock_duration } in
            let (d', saved) = saves d b' in
            rw (record_failure-reached now ip c reached) (
              unfold lock_ip in
              rw saved (next_blocked-saved d d' ip b' (next_blocked-ip c.db ip) saved))
        | inr below ↦
            let (d', saved) = saves c.db b in
            rw (record_failure-below now ip c below, saved)
              (next_blocked-saved c.db d' ip b (next_blocked-ip c.db ip) saved)
      ]

  -- What the failures of an IP at given times return.
  unfoldable pub record_failures : List Time → Text → Cache S → List Bool
  record_failures [] ip c = []
  record_failures (t ∷ ts) ip c =
      (record_failure S t ip c).1 ∷ record_failures ts ip (record_failure S t ip c).0

  record_failure-result :
      (now : Time) (ip : Text) (c : Cache S)
      → (record_failure S now ip c).1
        ≡ leb proxy_failure_lock_threshold (next_blocked S c.db ip).consecutive_failures
  unfolding record_failure lock_ip
  record_failure-result now ip c = ground arith

  record_failures-locked :
      (ts : List Time) (ip : Text) (c : Cache S)
      → Saves
      → proxy_failure_lock_threshold ≤ (next_blocked S c.db ip).consecutive_failures
      → record_failures ts ip c ≡ replicate (length ts) true
  unfolding record_failures
  record_failures-locked [] ip c saves h = refl
  record_failures-locked (t ∷ ts) ip c saves h = ground (
    arith,
    record_failure-result t ip c,
    record_failures-locked ts ip (record_failure S t ip c).0 saves
        (omega (arith, next_blocked-record_failure t ip c saves)),
  )

  -- For an IP without a stored row, and as long as its failure counts can be saved, the first two
  -- failures in a row do not lock it, and each one from the third on does.
  pub record_failures-third :
      (t t' : Time) (ts : List Time) (ip : Text) (c : Cache S)
      → Saves
      → S.find_blocked c.db ip ≡ none
      → record_failures (t ∷ t' ∷ ts) ip c ≡ false ∷ false ∷ replicate (length ts) true
  unfolding record_failures
  record_failures-third t t' ts ip c saves new =
      let c' = (record_failure S t ip c).0 in
      let c'' = (record_failure S t' ip c').0 in
      let one : (next_blocked S c.db ip).consecutive_failures ≡ 1 =
        unfold next_blocked in rw (next_blocked, new) in
      let two = next_blocked-record_failure t ip c saves in
      let three = next_blocked-record_failure t' ip c' saves in
      ground (
        arith,
        one,
        two,
        three,
        record_failure-result t ip c,
        record_failure-result t' ip c',
        record_failures-locked ts ip c'' saves (omega (arith, one, two, three)),
      )

  -- A success in between starts the count again: after `clearFailureLocked`, whose delete succeeds,
  -- two more failures do not lock the IP.
  pub clear_failure_locked-resets :
      (t t' : Time) (ts : List Time) (ip : Text) (c : Cache S) (d : S.Db)
      → Saves
      → S.delete_blocked c.db ip ≡ some d
      → record_failures (t ∷ t' ∷ ts) ip (clear_failure_locked S ip c)
        ≡ false ∷ false ∷ replicate (length ts) true
  clear_failure_locked-resets t t' ts ip c d saves deleted =
      record_failures-third t t' ts ip (clear_failure_locked S ip c) saves
        (unfold clear_failure_locked in rw deleted (S.find_blocked-delete c.db d ip deleted))
