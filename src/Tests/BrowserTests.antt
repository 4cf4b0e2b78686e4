-- ===== src/Tests/BrowserTests.antt =====
-- Tests of the browser sessions (crawler/browser.go).
use proxy_in_a_box.Prelude.{ℕ, ◌+◌, ◌≡◌, refl, inl, true, false, none, some, [], ◌∷◌, bytes, take}
use proxy_in_a_box.Browser.{
  Platform, Browsers, ScriptCall, fetches, evaluates, script_calls, run_script,
  build_obscura_serve_args,
}
use proxy_in_a_box.Browser.Census.{Census, started, ended, census_of, Runs}
use proxy_in_a_box.Browser.Sessions.{IsTidy}
use proxy_in_a_box.Browser.Scripts.{run_script-releases}

-- The clock and the census; navigation through a proxy always fails.
pub record Machine : Type 0 where
  pub time : ℕ
  pub census : Census

abbrev platform : Platform
platform = record {
  World = Machine;
  Page = ℕ;
  now = λ w. (w, w.time);
  sleep = λ d w. record w { time = w.time + d };
  look_path = λ u w. (w, false);
  allocate_port = λ w. (w, some 9222);
  spawn = λ u args w. (record w { census = started w.census }, false);
  resolve_url = λ port w. (w, bytes "ws");
  connect_socket = λ u w. (w, false);
  connect_browser = λ w. (w, false);
  close_browser = λ w. w;
  close_socket = λ w. w;
  end_process = λ w. record w { census = ended w.census };
  create_page = λ w. (w, some 1);
  navigate_page = λ p u d w. (w, true);
  close_target = λ p w. (w, true);
  eval_page = λ p u d w. (w, some (bytes "html"));
  itoa = λ n. bytes "9222";
}

platform-Runs : Runs platform (λ w. w.census)
platform-Runs = record {
  running-now = λ w. refl;
  running-sleep = λ d w. refl;
  running-look_path = λ u w. refl;
  running-allocate_port = λ w. refl;
  running-spawn = λ u args w. refl;
  running-resolve_url = λ port w. refl;
  running-connect_socket = λ u w. refl;
  running-connect_browser = λ w. refl;
  running-close_browser = λ w. refl;
  running-close_socket = λ w. refl;
  running-end_process = λ w. refl;
  running-create_page = λ w. refl;
  running-navigate_page = λ p u d w. refl;
  running-close_target = λ p w. refl;
  running-eval_page = λ p u d w. refl;
}

abbrev idle : Browsers platform
idle = record { world = record { time = 0; census = census_of 0 0 }; active = none }

abbrev fetch_call : ScriptCall platform
fetch_call = fetches (bytes "http://1.1.1.1:80") (bytes "http://l")

run_script-releases_example :
    IsTidy platform
      (λ w. w.census)
      0
      (script_calls platform [] (take 1 (fetch_call ∷ evaluates (bytes "1") ∷ [])) idle)
    × ((run_script platform [] (fetch_call ∷ evaluates (bytes "1") ∷ []) idle).active ≡ none)
    × ((run_script platform [] (fetch_call ∷ evaluates (bytes "1") ∷ []) idle).world.census
        ≡ census_of 0 0)
run_script-releases_example =
    run_script-releases platform (λ w. w.census) platform-Runs 0 [] fetch_call
      (evaluates (bytes "1") ∷ []) 1 idle (inl (refl, refl))

direct_args :
    build_obscura_serve_args (λ n. bytes "9222") 9222 []
    ≡ bytes "serve"
      ∷ bytes "--host"
      ∷ bytes "127.0.0.1"
      ∷ bytes "--port"
      ∷ bytes "9222"
      ∷ bytes "--stealth"
      ∷ []
unfolding build_obscura_serve_args
direct_args = refl
