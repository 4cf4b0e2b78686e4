-- ===== src/Browser/Sessions.antt =====
-- How many browser processes run, whatever fails.
use proxy_in_a_box.Prelude.{
  ℕ, zero, suc, ◌≡◌, refl, ap, ◌∙◌, ◌⊎◌, inl, inr, Bool, true, false, ◌&&◌, Bool-cases, Option,
  none, some, Option-cases, [], ◌∷◌, Text, bytes, length, ◌==◌, if◌then◌else◌, Time, before,
}
use proxy_in_a_box.Browser.{
  new_session, Platform, build_obscura_serve_args, poll_cdp, wait_for_cdp, close_page, stop,
  connect, start, Browsers, start_session_with_proxy, destroy_active_session, Session,
  health_check_interval,
}
use proxy_in_a_box.Browser.Census.{Census, started, ended, census_of, Runs}

list-cases : (u : Text) → (u ≡ []) ⊎ ((c : ℕ) × (rest : Text) × (u ≡ c ∷ rest))
list-cases [] = inl refl
list-cases (c ∷ rest) = inr (c, rest, refl)

module _ (P : Platform) (running : P.World → Census) (o : ℕ) where
  open P use {World}

  -- Of a process that runs, with `o` overlaps: a session that has it, or none and no process.
  abbrev Started : World × Option (Session P) → Type 0
  Started r =
      ((r.1 ≡ none) × (running r.0 ≡ census_of 0 o))
      ⊎ ((s : Session P) × (r.1 ≡ some s) × (s.cmd ≡ true) × (running r.0 ≡ census_of 1 o))

  -- The active session has the one process that runs, and without one none runs; `o` processes were
  -- started while another ran.
  abbrev pub IsTidy : Browsers P → Type 0
  IsTidy b =
      ((b.active ≡ none) × (running b.world ≡ census_of 0 o))
      ⊎ ((s : Session P) × (b.active ≡ some s) × (s.cmd ≡ true) × (running b.world ≡ census_of 1 o))

module _ (P : Platform) (running : P.World → Census) (R : Runs P running) where
  open P use {World}

  poll_cdp-running :
      (n : ℕ) (deadline : Time) (port : ℕ) (w : World)
      → running (poll_cdp P n deadline port w).0 ≡ running w
  unfolding poll_cdp
  poll_cdp-running zero deadline port w = refl
  poll_cdp-running (suc n) deadline port w =
      let (w1, t) = P.now w in
      let w2 = (P.resolve_url port w1).0 in
      let same = R.running-resolve_url port w1 ∙ R.running-now w in
      elim (Bool-cases (before t deadline)) [
        | inr late ↦ rw (poll_cdp, late) (R.running-now w)
        | inl early ↦ elim (list-cases (P.resolve_url port w1).1) [
          | inl empty ↦
              rw (poll_cdp, early, empty)
                (poll_cdp-running n deadline port (P.sleep health_check_interval w2)
                  ∙ R.running-sleep health_check_interval w2
                  ∙ same)
          | inr (c, rest, e) ↦ rw (poll_cdp, early, e) same
        ]
      ]

  wait_for_cdp-running : (port : ℕ) (w : World) → running (wait_for_cdp P port w).0 ≡ running w
  unfolding wait_for_cdp
  wait_for_cdp-running port w = poll_cdp-running _ _ port (P.now w).0 ∙ R.running-now w

  pub close_page-running :
      (s : Session P) (w : World)
      → let ((w', s'), ok) = close_page P s w in
        (running w' ≡ running w) × (s'.cmd ≡ s.cmd) × (s'.cdp_ws ≡ s.cdp_ws)
  unfolding close_page
  close_page-running s w = elim (Option-cases s.page) [
    | inl bare ↦ rw (close_page, bare) (refl, refl, refl)
    | inr (page, e) ↦ elim (Bool-cases (P.close_target page w).1) [
      | inl closed ↦ rw (close_page, e, closed) (R.running-close_target page w, refl, refl)
      | inr open' ↦ rw (close_page, e, open') (R.running-close_target page w, refl, refl)
    ]
  ]

  when-running :
      (c : Bool) (x y : World) → running x ≡ running y → running (if c then x else y) ≡ running y
  when-running true x y h = h
  when-running false x y h = refl

  -- A session with a process gives it up.
  pub stop-running :
      (s : Session P) (w : World) → s.cmd ≡ true → running (stop P s w) ≡ ended (running w)
  unfolding stop
  stop-running s w h =
      let ((w1, s1), ok) = close_page P s w in
      let (same, kept, _) = close_page-running s w in
      let w2 = if s1.browser && s1.cdp_ws then P.close_browser w1 else w1 in
      let w3 = if s1.cdp_ws then P.close_socket w2 else w2 in
      let there : s1.cmd ≡ true = kept ∙ h in
      let e2 =
        when-running (s1.browser && s1.cdp_ws) (P.close_browser w1) w1
          (R.running-close_browser w1) in
      let e3 = when-running s1.cdp_ws (P.close_socket w2) w2 (R.running-close_socket w2) in
      rw (stop, there) (R.running-end_process w3 ∙ ap ended (e3 ∙ e2 ∙ same))

  connect-Started :
      {o : ℕ} (s : Session P) (w : World)
      → s.cmd ≡ true
      → running w ≡ census_of 1 o
      → Started P running o (connect P s w)
  unfolding connect
  connect-Started s w h one =
      let (w1, url) = wait_for_cdp P s.port w in
      let one1 = wait_for_cdp-running s.port w ∙ one in
      elim (Option-cases url) [
        | inl late ↦ rw (connect, late) (inl (refl, stop-running s w1 h ∙ ap ended one1))
        | inr (address, e) ↦
            let w2 = (P.connect_socket address w1).0 in
            let one2 = R.running-connect_socket address w1 ∙ one1 in
            elim (Bool-cases (P.connect_socket address w1).1) [
              | inl failed ↦
                  rw (connect, e, failed) (inl (refl, stop-running s w2 h ∙ ap ended one2))
              | inr joined ↦
                  let s2 : Session P = record s { cdp_ws = true; browser = true } in
                  let w3 = (P.connect_browser w2).0 in
                  let one3 = R.running-connect_browser w2 ∙ one2 in
                  elim (Bool-cases (P.connect_browser w2).1) [
                    | inl failed ↦
                        rw (connect, e, joined, failed)
                          (inl (refl, stop-running s2 w3 h ∙ ap ended one3))
                    | inr ready ↦ rw (connect, e, joined, ready) (inr (s2, refl, h, one3))
                  ]
            ]
      ]

  pub start-Started :
      {o : ℕ} (bin proxy : Text) (w : World)
      → running w ≡ census_of 0 o
      → Started P running o (start P bin proxy w)
  unfolding start
  start-Started bin proxy w idle =
      let bin' = if length bin == 0 then bytes "obscura" else bin in
      let w1 = (P.look_path bin' w).0 in
      let idle1 = R.running-look_path bin' w ∙ idle in
      let w2 = (P.allocate_port w1).0 in
      let idle2 = R.running-allocate_port w1 ∙ idle1 in
      elim (Bool-cases (P.look_path bin' w).1) [
        | inl missing ↦ rw (start, missing) (inl (refl, idle1))
        | inr found ↦ elim (Option-cases (P.allocate_port w1).1) [
          | inl failed ↦ rw (start, found, failed) (inl (refl, idle2))
          | inr (port, e) ↦
              let args = build_obscura_serve_args P.itoa port proxy in
              let spawned = R.running-spawn bin' args w2 in
              elim (Bool-cases (P.spawn bin' args w2).1) [
                | inl failed ↦
                    rw (start, found, e, failed) (inl (refl, (rw failed at spawned) ∙ idle2))
                | inr live ↦
                    let one = rw live at spawned in
                    rw (start, found, e, live)
                      (connect-Started
                        (record (new_session {Page = P.Page} proxy) { port = port; cmd = true })
                        (P.spawn bin' args w2).0 refl (one ∙ ap started idle2))
              ]
        ]
      ]

  pub start_session-IsTidy :
      {o : ℕ} (bin proxy : Text) (b : Browsers P)
      → b.active ≡ none
      → running b.world ≡ census_of 0 o
      → IsTidy P running o (start_session_with_proxy P bin proxy b).0
  unfolding start_session_with_proxy
  start_session-IsTidy bin proxy b bare idle = elim (start-Started bin proxy b.world idle) [
    | inl (failed, idle') ↦ rw (start_session_with_proxy, failed) (inl (bare, idle'))
    | inr (s, e, h, one) ↦ rw (start_session_with_proxy, e) (inr (s, refl, h, one))
  ]

  pub destroy-idle :
      {o : ℕ} (b : Browsers P)
      → IsTidy P running o b
      → ((destroy_active_session P b).active ≡ none)
        × (running (destroy_active_session P b).world ≡ census_of 0 o)
  unfolding destroy_active_session
  destroy-idle b h = elim h [
    | inl (bare, idle) ↦ rw (destroy_active_session, bare) (bare, idle)
    | inr (s, e, h', one) ↦
        rw (destroy_active_session, e) (refl, stop-running s b.world h' ∙ ap ended one)
  ]
