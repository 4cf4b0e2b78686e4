-- ===== src/Browser/Scripts.antt =====
-- The browser calls of scripts: at most one process runs, and none after a script.
use proxy_in_a_box.Prelude.{
  ℕ, ◌≡◌, refl, ◌∙◌, inl, inr, Bool-cases, none, some, Option-cases, List, [], ◌∷◌, Text, take,
}
use proxy_in_a_box.Browser.{
  Platform, close_page, Browsers, start_session_with_proxy, destroy_active_session, navigate,
  evaluate, navigate_active, browser_eval, is_proxied, fall_back, ensure_session, browser_fetch,
  ScriptCall, fetches, evaluates, script_call, script_calls, run_script, start_obscura, Session,
  page_navigation_timeout,
}
use proxy_in_a_box.Browser.Census.{Census, census_of, Runs}
use proxy_in_a_box.Browser.Sessions.{IsTidy, close_page-running, start_session-IsTidy, destroy-idle}

module _ (P : Platform) (running : P.World → Census) (R : Runs P running) (o : ℕ) where
  open P use {World}

  -- What keeps the process and the session's hold on it.
  navigate-running :
      (url : Text) (s : Session P) (w : World)
      → let ((w', s'), ok) = navigate P url s w in (running w' ≡ running w) × (s'.cmd ≡ s.cmd)
  unfolding navigate
  navigate-running url s w =
      let ((w1, s1), closed) = close_page P s w in
      let (same, kept, _) = close_page-running P running R s w in
      let w2 = (P.create_page w1).0 in
      let same2 = R.running-create_page w1 ∙ same in
      elim (Bool-cases closed) [
        | inr stuck ↦ rw (navigate, stuck) (same, kept)
        | inl free ↦ elim (Option-cases (P.create_page w1).1) [
          | inl failed ↦ rw (navigate, free, failed) (same2, kept)
          | inr (page, e) ↦
              let s2 : Session P = record s1 { page = some page } in
              let r = P.navigate_page page url page_navigation_timeout w2 in
              let same3 = R.running-navigate_page page url page_navigation_timeout w2 ∙ same2 in
              elim (Bool-cases r.1) [
                | inr there ↦ rw (navigate, free, e, there) (same3, kept)
                | inl failed ↦
                    let (same4, kept4, _) = close_page-running P running R s2 r.0 in
                    rw (navigate, free, e, failed) (same4 ∙ same3, kept4 ∙ kept)
              ]
        ]
      ]

  navigate_active-IsTidy :
      (url : Text) (b : Browsers P)
      → IsTidy P running o b
      → IsTidy P running o (navigate_active P url b).0
  unfolding navigate_active
  navigate_active-IsTidy url b h = elim h [
    | inl (bare, idle) ↦ rw (navigate_active, bare) (inl (bare, idle))
    | inr (s, e, h', one) ↦
        let (same, kept) = navigate-running url s b.world in
        rw (navigate_active, e) (inr (_, refl, kept ∙ h', same ∙ one))
  ]

  evaluate-running :
      (x : Text) (s : Session P) (w : World) → running (evaluate P x s w).0 ≡ running w
  unfolding evaluate
  evaluate-running x s w = elim (Option-cases s.page) [
    | inl bare ↦ rw (evaluate, bare) refl
    | inr (page, e) ↦ rw (evaluate, e) (R.running-eval_page page _ page_navigation_timeout w)
  ]

  browser_eval-IsTidy :
      (x : Text) (b : Browsers P) → IsTidy P running o b → IsTidy P running o (browser_eval P x b).0
  unfolding browser_eval
  browser_eval-IsTidy x b h = elim h [
    | inl (bare, idle) ↦ rw (browser_eval, bare) (inl (bare, idle))
    | inr (s, e, h', one) ↦
        rw (browser_eval, e) (inr (s, e, h', evaluate-running x s b.world ∙ one))
  ]

  fall_back-IsTidy :
      (bin url : Text) (b : Browsers P)
      → IsTidy P running o b
      → IsTidy P running o (fall_back P bin url b).0
  unfolding fall_back
  fall_back-IsTidy bin url b h =
      let b0 = destroy_active_session P b in
      let (bare, idle) = destroy-idle P running R b h in
      let r = start_session_with_proxy P bin [] b0 in
      let tidy = start_session-IsTidy P running R bin [] b0 bare idle in
      elim (Bool-cases r.1) [
        | inl started ↦ rw (fall_back, started) (navigate_active-IsTidy url r.0 tidy)
        | inr failed ↦ rw (fall_back, failed) tidy
      ]

  ensure_session-IsTidy :
      (bin proxy : Text) (b : Browsers P)
      → IsTidy P running o b
      → IsTidy P running o (ensure_session P bin proxy b).0
  unfolding ensure_session
  ensure_session-IsTidy bin proxy b h = elim h [
    | inl (bare, idle) ↦
        rw (ensure_session, bare) (start_session-IsTidy P running R bin proxy b bare idle)
    | inr (s, e, h', one) ↦ rw (ensure_session, e) (inr (s, e, h', one))
  ]

  browser_fetch-IsTidy :
      (bin proxy url : Text) (b : Browsers P)
      → IsTidy P running o b
      → IsTidy P running o (browser_fetch P bin proxy url b).0
  unfolding browser_fetch
  browser_fetch-IsTidy bin proxy url b h =
      let r = ensure_session P bin proxy b in
      let tidy = ensure_session-IsTidy bin proxy b h in
      let r2 = navigate_active P url r.0 in
      let tidy2 = navigate_active-IsTidy url r.0 tidy in
      let r3 = fall_back P bin url r2.0 in
      let tidy3 = fall_back-IsTidy bin url r2.0 tidy2 in
      elim (Bool-cases r.1) [
        | inr failed ↦ rw (browser_fetch, failed) tidy
        | inl there ↦ elim (Bool-cases r2.1) [
          | inl ok ↦ rw (browser_fetch, there, ok) (browser_eval-IsTidy _ r2.0 tidy2)
          | inr bad ↦ elim (Bool-cases (is_proxied P r2.0)) [
            | inr direct ↦ rw (browser_fetch, there, bad, direct) tidy2
            | inl proxied ↦ elim (Bool-cases r3.1) [
              | inl ok ↦
                  rw (browser_fetch, there, bad, proxied, ok) (browser_eval-IsTidy _ r3.0 tidy3)
              | inr bad' ↦ rw (browser_fetch, there, bad, proxied, bad') tidy3
            ]
          ]
        ]
      ]

  start_obscura-IsTidy :
      (bin : Text) (b : Browsers P)
      → IsTidy P running o b
      → IsTidy P running o (start_obscura P bin b).0
  unfolding start_obscura
  start_obscura-IsTidy bin b h = elim h [
    | inl (bare, idle) ↦
        rw (start_obscura, bare) (start_session-IsTidy P running R bin [] b bare idle)
    | inr (s, e, h', one) ↦ rw (start_obscura, e) (inr (s, e, h', one))
  ]

  script_call-IsTidy :
      (bin : Text) (x : ScriptCall P) (b : Browsers P)
      → IsTidy P running o b
      → IsTidy P running o (script_call P bin x b)
  unfolding script_call
  script_call-IsTidy bin (fetches proxy url) b h = browser_fetch-IsTidy bin proxy url b h
  script_call-IsTidy bin (evaluates x) b h = browser_eval-IsTidy x b h

  script_calls-IsTidy :
      (bin : Text) (xs : List (ScriptCall P)) (b : Browsers P)
      → IsTidy P running o b
      → IsTidy P running o (script_calls P bin xs b)
  unfolding script_calls
  script_calls-IsTidy bin [] b h = h
  script_calls-IsTidy bin (x ∷ xs) b h =
      script_calls-IsTidy bin xs (script_call P bin x b) (script_call-IsTidy bin x b h)

  -- From a state in which the active session has the one process that runs, or none runs: after each
  -- call of a script that is so again, whatever fails in the call, and the call started no process
  -- while another ran. After a script that made a browser call there is no session and no process,
  -- and no process was started while another ran.
  pub run_script-releases :
      (bin : Text) (x : ScriptCall P) (xs : List (ScriptCall P)) (n : ℕ) (b : Browsers P)
      → IsTidy P running o b
      → IsTidy P running o (script_calls P bin (take n (x ∷ xs)) b)
        × ((run_script P bin (x ∷ xs) b).active ≡ none)
        × (running (run_script P bin (x ∷ xs) b).world ≡ census_of 0 o)
  unfolding run_script
  run_script-releases bin x xs n b h =
      let (bare, idle) =
        destroy-idle P running R (script_calls P bin (x ∷ xs) b)
          (script_calls-IsTidy bin (x ∷ xs) b h) in
      (script_calls-IsTidy bin (take n (x ∷ xs)) b h, bare, idle)
