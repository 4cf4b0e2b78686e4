-- ===== src/Tests/UpstreamTests.antt =====
-- Tests of the request handlers (mitm/mitm.go, mitm/dump.go), on a network of two upstreams the
-- first of which fails.
use proxy_in_a_box.Prelude.{
  ◌+◌, ◌≤◌, ◌≡◌, refl, true, false, some, List, [], ◌∷◌, Text, bytes, text_dec, lookup, length,
  ◌==◌, if◌then◌else◌,
}
use proxy_in_a_box.Prelude.Int.{pos}
use proxy_in_a_box.Scheduling.{contains}
use proxy_in_a_box.Upstream.{
  no_stats, Request, Network, connected, dial_error, stats_at, upstream_attempt_limit,
  is_safe_to_retry,
}
use proxy_in_a_box.Upstream.Handlers.{State, serve, tunnel_https, replay_request, dump}
use proxy_in_a_box.Upstream.Balance.{IsBalanced}
use proxy_in_a_box.Upstream.Settlement.{Settles}
use proxy_in_a_box.Upstream.Attempts.{Logs, times, tunnel_https-Within, replay_request-Within}
use proxy_in_a_box.Upstream.Accounting.{dumps, dump-Settles, serve-counted, serve-decrypted}

abbrev upstream_of : List Text → Text
upstream_of w = if length w == 0 then bytes "a" else bytes "b"

-- The world is the log of the upstreams in use.
abbrev network : Network
network = record {
  World = List Text;
  scheduler = λ r w. (w, some (upstream_of w));
  parse = λ u. some (bytes "HTTP");
  dial = λ u r w. (u ∷ w, if length w == 0 then dial_error (some 407) else connected);
  send = λ u r w. (u ∷ w, some (if length w == 0 then 407 else 200));
  on_proxy_failure = λ u w. w;
  on_proxy_target_failure = λ u target w. w;
  filter = λ r w. (w, true);
  fake_cert = λ r w. (w, true);
  hijack = λ w. (w, true);
  dump_request = λ r w. (w, true);
  read_response = λ w. (w, some 7);
  write_body = λ n w. (w, some n);
}

logs : Logs network (λ w. w)
logs = record {
  log-scheduler = λ r w. refl;
  log-dial = λ u r w. refl;
  log-send = λ u r w. refl;
  log-proxy_failure = λ u w. refl;
  log-target_failure = λ u target w. refl;
  log-hijack = λ w. refl;
}

abbrev get : Request
get = record { method = bytes "GET"; host = bytes "a.b"; has_body = false; content_length = 0 }

abbrev post : Request
post = record get { method = bytes "POST"; has_body = true; content_length = 9 }

abbrev connect : Request
connect = record get { method = bytes "CONNECT" }

abbrev idle : State network
idle = record { world = []; counters = record { requests = no_stats; upstream = [] }; tried = [] }

idle-IsBalanced : IsBalanced idle.counters
unfolding stats_at lookup
idle-IsBalanced k named = refl

-- A GET goes out twice, a POST with a body once.
get_retried : (replay_request network (pos 0) get idle).0.world ≡ bytes "b" ∷ bytes "a" ∷ []
unfolding replay_request contains text_dec upstream_attempt_limit is_safe_to_retry
get_retried = refl

post_sent_once : (replay_request network (pos 0) post idle).0.world ≡ bytes "a" ∷ []
unfolding replay_request contains text_dec upstream_attempt_limit is_safe_to_retry
post_sent_once = refl

tunnel_https-Within_example :
    let s' = (tunnel_https network (pos 5) connect idle).0 in
    (length s'.world ≤ 0 + upstream_attempt_limit (pos 5))
    × (upstream_attempt_limit (pos 5) ≤ 10)
    × ((v : Text) → times v s'.world ≤ 0 + 1)
tunnel_https-Within_example = tunnel_https-Within network (λ w. w) logs (pos 5) connect idle

replay_request-Within_example :
    let s' = (replay_request network (pos 5) get idle).0 in
    (length s'.world ≤ 0 + (if is_safe_to_retry get then upstream_attempt_limit (pos 5) else 1))
    × (upstream_attempt_limit (pos 5) ≤ 10)
    × ((v : Text) → times v s'.world ≤ 0 + 1)
replay_request-Within_example = replay_request-Within network (λ w. w) logs (pos 5) get idle

dump-Settles_example :
    let s' = dump network (pos 5) get idle in
    Settles idle.counters s'.counters × IsBalanced s'.counters
dump-Settles_example = dump-Settles network (pos 5) get idle idle-IsBalanced

-- A CONNECT under MITM for which no certificate is made.
abbrev without_certs : Network
without_certs = record network { fake_cert = λ r w. (w, false) }

abbrev idle_without_certs : State without_certs
idle_without_certs = record {
  world = [];
  counters = record { requests = no_stats; upstream = [] };
  tried = [];
}

serve-counted_example :
    let c' = (serve without_certs true (pos 5) connect idle_without_certs).counters in
    (c'.requests.total_requests ≡ 0 + 1)
    × (c'.requests.success_requests + c'.requests.failed_requests ≡ 0 + 0 + 1)
    × IsBalanced c'
unfolding text_dec
serve-counted_example =
    serve-counted without_certs true (pos 5) connect idle_without_certs idle-IsBalanced refl

serve-decrypted_example :
    let s' = serve network true (pos 5) connect idle in
    let c' = (dumps network (pos 5) (get ∷ post ∷ []) s').counters.requests in
    (c'.total_requests ≡ 0 + 1) × (c'.success_requests + c'.failed_requests ≡ 0 + 0 + 2)
unfolding text_dec
serve-decrypted_example =
    serve-decrypted network (pos 5) connect (get ∷ post ∷ []) idle idle-IsBalanced refl refl refl
      refl
