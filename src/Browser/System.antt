-- ===== src/Browser/System.antt =====
-- The session of a browser and the calls of crawler/browser.go that are not the repository's: the
-- process, the clock and the CDP connection.
use proxy_in_a_box.Prelude.{
  ℕ, ◌*◌, Bool, false, Option, none, List, [], ◌∷◌, ◌++◌, Text, bytes, length, ◌==◌, if◌then◌else◌,
  Time, Duration, second,
}

abbrev pub millisecond : Duration
millisecond = 1000000

abbrev pub cdp_connect_timeout : Duration
cdp_connect_timeout = 30 * second

abbrev pub page_navigation_timeout : Duration
page_navigation_timeout = 60 * second

abbrev pub health_check_interval : Duration
health_check_interval = 300 * millisecond

-- What a session holds: its process, its connection, the Rod browser on it, and its page.
pub record BrowserSession (Page : Type 0) : Type 0 where
  pub proxy_addr : Text
  pub port : ℕ
  pub cmd : Bool
  pub cdp_ws : Bool
  pub browser : Bool
  pub page : Option Page

abbrev pub new_session : {Page : Type 0} → Text → BrowserSession Page
new_session proxy = record {
  proxy_addr = proxy;
  port = 0;
  cmd = false;
  cdp_ws = false;
  browser = false;
  page = none;
}

-- The calls that are not the repository's; `true` or `none` is an error where the code has one.
pub record Platform : Type 1 where
  pub World : Type 0
  pub Page : Type 0
  pub now : World → World × Time
  pub sleep : Duration → World → World
  pub look_path : Text → World → World × Bool
  pub allocate_port : World → World × Option ℕ
  -- `cmd.Start()`, and whether it failed
  pub spawn : Text → List Text → World → World × Bool
  -- `launcher.ResolveURL`, with the empty text for an error
  pub resolve_url : ℕ → World → World × Text
  pub connect_socket : Text → World → World × Bool
  pub connect_browser : World → World × Bool
  pub close_browser : World → World
  pub close_socket : World → World
  -- an interrupt and, when the process has not ended in time, a kill: the process has ended then
  pub end_process : World → World
  pub create_page : World → World × Option Page
  -- `Page.navigate` with its result, `Target.closeTarget` with success, and an evaluation
  pub navigate_page : Page → Text → Duration → World → World × Bool
  pub close_target : Page → World → World × Bool
  pub eval_page : Page → Text → Duration → World → World × Option Text
  -- `strconv.Itoa`
  pub itoa : ℕ → Text

unfoldable pub build_obscura_serve_args : (ℕ → Text) → ℕ → Text → List Text
build_obscura_serve_args itoa port proxy =
    (bytes "serve"
      ∷ bytes "--host"
      ∷ bytes "127.0.0.1"
      ∷ bytes "--port"
      ∷ itoa port
      ∷ bytes "--stealth"
      ∷ [])
    ++ (if length proxy == 0 then [] else bytes "--proxy" ∷ proxy ∷ [])
