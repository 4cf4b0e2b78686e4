-- ===== src/Tests/WorkerFixtures.antt =====
-- A scripted network and a concrete crawler for the tests.
use proxy_in_a_box.Prelude.{
  ℕ, suc, ◌+◌, ◌≡◌, refl, true, Option, none, some, Option-cases, inl, inr, List, [], ◌∷◌, Text,
  bytes, take, Time,
}
use proxy_in_a_box.Prelude.Int.{pos}
use proxy_in_a_box.Store.Tables.{tables}
use proxy_in_a_box.Statistics.{no_checks}
use proxy_in_a_box.Fetch.Requests.{Web, Traffic, Fetcher}
use proxy_in_a_box.Fetch.Callers.{Settings}
use proxy_in_a_box.Fetch.Retries.{Counts}
use proxy_in_a_box.Workers.State.{CheckSettings, Crawler}
use proxy_in_a_box.Tests.Fixtures.{at, cache}

-- The clock, the requests that went out, and the bodies that are still to come, `none` for a
-- request that fails.
pub record Script : Type 0 where
  pub time : Time
  pub sent : ℕ
  pub replies : List (Option Text)

abbrev next_reply : List (Option Text) → Option Text
next_reply [] = none
next_reply (r ∷ rs) = r

abbrev rest : List (Option Text) → List (Option Text)
rest [] = []
rest (r ∷ rs) = rs

abbrev body_of : List (Option Text) → Text
body_of rs = elim (next_reply rs) [ none ↦ [] | some body ↦ body ]

abbrev send_script : Script → Script × Option ℕ
send_script w = elim (next_reply w.replies) [
  | none ↦ (record w { sent = suc w.sent; replies = rest w.replies }, some 1)
  | some body ↦ (record w { sent = suc w.sent }, none)
]

abbrev pub web : Web
web = record {
  World = Script;
  Error = ℕ;
  now = λ w. (w, w.time);
  sleep = λ d w. record w { time = w.time + d };
  refuses_proxy = λ u. none;
  refuses_url = λ u. none;
  canonical_header_key = λ k. k;
  send = λ q w. send_script w;
  read_all = λ n w. (
    record w { replies = rest w.replies },
    (elim n [ none ↦ body_of w.replies | some k ↦ take k (body_of w.replies) ], none),
  );
  close = λ w. (w, none);
  is_timeout = λ e. true;
  random = λ n w. (w, 0);
  dial_through = λ u host d w. (w, none);
  handshake = λ name d w. (w, none);
  close_connection = λ w. w;
}

pub sent-send_script : (w : Script) → (send_script w).0.sent ≡ suc w.sent
sent-send_script w = elim (Option-cases (next_reply w.replies)) [
  | inl failed ↦ rw (send_script, failed) refl
  | inr (body, there) ↦ rw (send_script, there) refl
]

pub web-Counts : Counts web (λ w. w.sent)
web-Counts = record {
  sent-now = λ w. refl;
  sent-sleep = λ d w. refl;
  sent-send = λ q w. sent-send_script w;
  sent-read_all = λ n w. refl;
  sent-close = λ w. refl;
}

abbrev pub traffic : Traffic
traffic = record {
  limiter = none;
  rate_limited = 0;
  rate_limit_wait_nanos = 0;
  network_attempts = 0;
  network_response_bytes = 0;
  rates = [];
}

abbrev pub fetcher : List (Option Text) → Fetcher web
fetcher replies = record {
  world = record { time = at 0; sent = 0; replies = replies };
  traffic = traffic;
}

abbrev pub settings : Settings
settings = record {
  retries = pos 2;
  timeout = pos 0;
  response_body_limit = pos 100;
  proxy_fallback = true;
  health_check_retries = pos 0;
  health_response_body_limit = pos 0;
}

abbrev pub check_settings : CheckSettings
check_settings = record {
  retries = pos 2;
  response_body_limit = pos 100;
  deep_check_interval = pos 0;
}

abbrev pub crawler : List (Option Text) → Crawler tables web
crawler replies = record {
  candidates = record {
    cache = cache;
    failures = [];
    counters = [];
    queued = bytes "http://4.4.4.4:1" ∷ [];
    queued_count = 1;
    jobs = [];
    skip_duplicate = 0;
  };
  checks = record { totals = no_checks; recent = [] };
  fetcher = fetcher replies;
  pending_validate = [];
  pending_verify = [];
  verify_jobs = [];
  skips = record { ip_locked = 0; available = 0; backoff = 0 };
  fails = record {
    timeout = 0;
    network = 0;
    response = 0;
    ip_mismatch = 0;
    tls_probe = 0;
    persistence = 0;
  };
}
