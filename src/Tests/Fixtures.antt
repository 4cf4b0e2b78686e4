-- ===== src/Tests/Fixtures.antt =====
-- Concrete proxies, pools and caches for the tests.
use proxy_in_a_box.Prelude.{ℕ, ◌+◌, ◌*◌, true, [], ◌∷◌, Text, bytes, Time, second}
use proxy_in_a_box.Prelude.Int.{pos}
use proxy_in_a_box.Endpoint.{Proxy}
use proxy_in_a_box.Pool.{ProxyEntry, ProxyList}
use proxy_in_a_box.Scheduling.{DomainScheduling}
use proxy_in_a_box.Store.Tables.{Tables}
use proxy_in_a_box.Lifecycle.{MemCache}

-- A clock reading after 1970, `n` seconds past a fixed instant.
abbrev pub at : ℕ → Time
at n = (63000000000 + n) * second

abbrev pub endpoint : ℕ → Text → Text → Proxy
endpoint i ip port = record {
  id = i;
  ip = ip;
  port = port;
  country = [];
  provence = [];
  source = bytes "list";
  protocol = bytes "http";
  delay = pos 1;
  available = true;
  last_verify = 0;
  last_deep_verify = 0;
  consecutive_failures = 0;
  next_verify_at = 0;
}

abbrev pub first_proxy : Proxy
first_proxy = endpoint 1 (bytes "1.1.1.1") (bytes "80")

abbrev pub second_proxy : Proxy
second_proxy = endpoint 2 (bytes "2.2.2.2") (bytes "81")

abbrev pub entry : Proxy → ℕ → ProxyEntry
entry p n = record { p = p; n = n }

abbrev pub two_proxies : ProxyList
two_proxies = record {
  pl = entry first_proxy 0 ∷ entry second_proxy 0 ∷ [];
  get_proxy_index = 1;
  index = (bytes "http://1.1.1.1:80", tt) ∷ (bytes "http://2.2.2.2:81", tt) ∷ [];
}

abbrev pub no_history : DomainScheduling
no_history = record { dl = []; target_failures = []; failure_ttl = 600 * second }

abbrev pub site : Text
site = bytes "a.b"

abbrev pub two_rows : Tables
two_rows = record { proxies = first_proxy ∷ second_proxy ∷ []; blocked = []; next_id = 3 }

abbrev pub cache : MemCache Tables
cache = record {
  proxies = two_proxies;
  domains = no_history;
  locked_ips = [];
  proxy_retry_after = [];
  db = two_rows;
}
