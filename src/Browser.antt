-- ===== src/Browser.antt =====
-- The browser sessions of scripts (crawler/browser.go) and who owns them (crawler/engine.go). The
-- process, the clock and the CDP connection are the interface `Platform` of System. The mutex
-- `browserScriptMu` keeps the calls of two scripts apart, so that calls follow each other.
mod System
pub mod Census
pub mod Sessions
pub mod Scripts
unfoldable pub use System.*
use proxy_in_a_box.Prelude.{
  ℕ, zero, suc, ◌+◌, ◌*◌, ◌/◌, ◌⊎◌, inl, inr, Bool, true, false, not, ◌&&◌, Option, none, some,
  List, [], ◌∷◌, ◌++◌, Text, bytes, length, ltb, ◌==◌, if◌then◌else◌, Time, Duration, before,
  second,
}

module _ (P : Platform) where
  open P use {World, Page}

  abbrev pub Session : Type 0
  Session = BrowserSession Page

  -- The poll of `waitForCDP`. Each poll sleeps the interval, so that the deadline comes after as many
  -- polls as the argument says; it is no bound of the source's own.
  unfoldable pub poll_cdp : ℕ → Time → ℕ → World → World × Option Text
  poll_cdp zero deadline port w = (w, none)
  poll_cdp (suc n) deadline port w =
      let (w1, t) = P.now w in
      if before t deadline
      then (let (w2, url) = P.resolve_url port w1 in
          elim url [
            | [] ↦ poll_cdp n deadline port (P.sleep health_check_interval w2)
            | c ∷ rest ↦ (w2, some (c ∷ rest))
          ])
      else (w1, none)

  unfoldable pub wait_for_cdp : ℕ → World → World × Option Text
  wait_for_cdp port w =
      let (w1, t) = P.now w in
      poll_cdp (cdp_connect_timeout / health_check_interval + 1) (t + cdp_connect_timeout) port w1

  -- The session keeps the page when the target could not be closed. The result is success.
  unfoldable pub close_page : Session → World → (World × Session) × Bool
  close_page s w = elim s.page [
    | none ↦ ((w, s), true)
    | some page ↦
        let (w1, closed) = P.close_target page w in
        if closed then ((w1, record s { page = none }), true) else ((w1, s), false)
  ]

  unfoldable pub stop : Session → World → World
  stop s w =
      let ((w1, s1), _) = close_page s w in
      let w2 = if s1.browser && s1.cdp_ws then P.close_browser w1 else w1 in
      let w3 = if s1.cdp_ws then P.close_socket w2 else w2 in
      if s1.cmd then P.end_process w3 else w3

  -- The connection to a process that runs; without one the process is stopped. The result of this
  -- and of the functions below is the session, `none` for an error.
  unfoldable pub connect : Session → World → World × Option Session
  connect s w =
      let (w1, url) = wait_for_cdp s.port w in
      elim url [
        | none ↦ (stop s w1, none)
        | some address ↦
            let (w2, failed) = P.connect_socket address w1 in
            if failed
            then (stop s w2, none)
            else (let s2 : Session = record s { cdp_ws = true; browser = true } in
                let (w3, failed') = P.connect_browser w2 in
                if failed' then (stop s2 w3, none) else (w3, some s2))
      ]

  -- `start`, of a session that holds nothing yet.
  unfoldable pub start : Text → Text → World → World × Option Session
  start bin proxy w =
      let bin' = if length bin == 0 then bytes "obscura" else bin in
      let (w1, missing) = P.look_path bin' w in
      if missing
      then (w1, none)
      else (let (w2, allocated) = P.allocate_port w1 in
          elim allocated [
            | none ↦ (w2, none)
            | some port ↦
                let (w3, failed) = P.spawn bin' (build_obscura_serve_args P.itoa port proxy) w2 in
                if failed
                then (w3, none)
                else connect (record (new_session {Page = Page} proxy) { port = port; cmd = true })
                    w3
          ])

  -- The world and the active session.
  pub record Browsers : Type 0 where
    pub world : World
    pub active : Option Session

  -- `startSessionWithProxy`, and whether there is a session
  unfoldable pub start_session_with_proxy : Text → Text → Browsers → Browsers × Bool
  start_session_with_proxy bin proxy b =
      let (w, started) = start bin proxy b.world in
      elim started [
        | none ↦ (record b { world = w }, false)
        | some s ↦ (record { world = w; active = some s }, true)
      ]

  unfoldable pub destroy_active_session : Browsers → Browsers
  destroy_active_session b = elim b.active [
    | none ↦ b
    | some s ↦ record { world = stop s b.world; active = none }
  ]

  -- `navigate`, and whether it succeeded. A page that cannot be closed keeps the session where it is.
  unfoldable pub navigate : Text → Session → World → (World × Session) × Bool
  navigate url s w =
      let ((w1, s1), closed) = close_page s w in
      if closed
      then (let (w2, created) = P.create_page w1 in
          elim created [
            | none ↦ ((w2, s1), false)
            | some page ↦
                let s2 : Session = record s1 { page = some page } in
                let (w3, failed) = P.navigate_page page url page_navigation_timeout w2 in
                if failed then ((close_page s2 w3).0, false) else ((w3, s2), true)
          ])
      else ((w1, s1), false)

  unfoldable pub evaluate : Text → Session → World → World × Option Text
  evaluate expression s w = elim s.page [
    | none ↦ (w, none)
    | some page ↦ P.eval_page page (bytes "() => " ++ expression) page_navigation_timeout w
  ]

  -- Navigation in the active session, whose record is shared.
  unfoldable pub navigate_active : Text → Browsers → Browsers × Bool
  navigate_active url b = elim b.active [
    | none ↦ (b, false)
    | some s ↦
        let ((w, s'), ok) = navigate url s b.world in (record { world = w; active = some s' }, ok)
  ]

  unfoldable pub browser_eval : Text → Browsers → Browsers × Option Text
  browser_eval expression b = elim b.active [
    | none ↦ (b, none)
    | some s ↦ let (w, r) = evaluate expression s b.world in (record b { world = w }, r)
  ]

  -- Whether the active session goes through a proxy.
  abbrev pub is_proxied : Browsers → Bool
  is_proxied b = elim b.active [ none ↦ false | some s ↦ ltb 0 (length s.proxy_addr) ]

  -- The second attempt, with a session of its own and no proxy.
  unfoldable pub fall_back : Text → Text → Browsers → Browsers × Bool
  fall_back bin url b =
      let (b1, started) = start_session_with_proxy bin [] (destroy_active_session b) in
      if started then navigate_active url b1 else (b1, false)

  -- The active session, or a new one through the proxy that `RandomProxy` gave.
  unfoldable pub ensure_session : Text → Text → Browsers → Browsers × Bool
  ensure_session bin proxy b = elim b.active [
    | none ↦ start_session_with_proxy bin proxy b
    | some s ↦ (b, true)
  ]

  unfoldable pub browser_fetch : Text → Text → Text → Browsers → Browsers × Option Text
  browser_fetch bin proxy url b =
      let (b1, there) = ensure_session bin proxy b in
      if there
      then (let (b2, ok) = navigate_active url b1 in
          if ok
          then browser_eval (bytes "document.body.innerHTML") b2
          else if is_proxied b2
          then (let (b3, ok') = fall_back bin url b2 in
              if ok' then browser_eval (bytes "document.body.innerHTML") b3 else (b3, none))
          else (b2, none))
      else (b1, none)

  abbrev pub release_browser : Browsers → Browsers
  release_browser = destroy_active_session

  -- `StartObscura`, and whether it started one
  unfoldable pub start_obscura : Text → Browsers → Browsers × Bool
  start_obscura bin b = elim b.active [
    | some s ↦ (b, false)
    | none ↦ start_session_with_proxy bin [] b
  ]

  -- The browser calls of a script, each with the proxy that `RandomProxy` would give.
  pub data ScriptCall : Type 0 where
    fetches : Text → Text → ScriptCall
    evaluates : Text → ScriptCall

  unfoldable pub script_call : Text → ScriptCall → Browsers → Browsers
  script_call bin (fetches proxy url) b = (browser_fetch bin proxy url b).0
  script_call bin (evaluates expression) b = (browser_eval expression b).0

  unfoldable pub script_calls : Text → List ScriptCall → Browsers → Browsers
  script_calls bin [] b = b
  script_calls bin (x ∷ xs) b = script_calls bin xs (script_call bin x b)

  -- `runScript`, as far as the browser goes: the first call takes the browser, and whoever took it
  -- releases it at the end, however the script ends.
  unfoldable pub run_script : Text → List ScriptCall → Browsers → Browsers
  run_script bin calls b =
      let b' = script_calls bin calls b in elim calls [ [] ↦ b' | x ∷ xs ↦ release_browser b' ]
