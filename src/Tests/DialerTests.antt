-- ===== src/Tests/DialerTests.antt =====
-- Tests of the dialers (mitm/proxy_dialer.go).
use proxy_in_a_box.Prelude.{ℕ, ◌+◌, ◌-◌, ◌≡◌, refl, false, none, some, [], ◌∷◌, bytes, second}
use proxy_in_a_box.Prelude.Int.{pos, negsuc}
use proxy_in_a_box.Dialers.{
  Wire, Ip4, Timeouts, atoi, digits, digits_of, socks4_request, http_connect_dial, socks4_dial,
}
use proxy_in_a_box.Dialers.Request.{read_socks4, read_socks4-socks4_request}
use proxy_in_a_box.Dialers.Connections.{Opens, IsClean, dial-IsClean}

abbrev ip : Ip4
ip = record { a = 1; b = 2; c = 3; d = 4 }

-- The number of open connections; a SOCKS4 server that refuses.
abbrev wire : Wire
wire = record {
  World = ℕ;
  now = λ w. (w, 0);
  dial_timeout = λ u d w. (w + 1, false);
  set_deadline = λ t w. (w, false);
  close = λ w. w - 1;
  write_connect = λ u w. (w, false);
  read_response = λ w. (w, some 200);
  resolve_ip4 = λ u w. (w, some ip);
  write = λ u w. (w, false);
  read = λ n w. (w, some (0 ∷ 91 ∷ []));
}

wire-Opens : Opens wire (λ w. w)
wire-Opens = record {
  opened-now = λ w. refl;
  opened-dial_timeout = λ u d w. refl;
  opened-set_deadline = λ t w. refl;
  opened-close = λ w. refl;
  opened-write_connect = λ u w. refl;
  opened-read_response = λ w. refl;
  opened-resolve_ip4 = λ u w. refl;
  opened-write = λ u w. refl;
  opened-read = λ n w. refl;
}

abbrev timeouts : Timeouts
timeouts = record { connect = second; handshake = second }

dial-IsClean_example :
    IsClean wire (λ w. w) 0 (http_connect_dial wire timeouts (bytes "p:1") (bytes "a.b:443") 0)
    × IsClean wire (λ w. w) 0 (socks4_dial wire timeouts (bytes "p:1") (bytes "a.b:443") 0)
dial-IsClean_example =
    dial-IsClean wire (λ w. w) wire-Opens timeouts (bytes "p:1") (bytes "a.b:443") 0

read_socks4-socks4_request_example :
    read_socks4 (socks4_request (pos 70000) ip) ≡ some (4464, ip, 0 ∷ [])
read_socks4-socks4_request_example = read_socks4-socks4_request 70000 ip

port_number : atoi (bytes "443") ≡ some (pos 443)
unfolding atoi digits_of digits
port_number = refl

negative_number : atoi (bytes "-1") ≡ some (negsuc 0)
unfolding atoi digits_of digits
negative_number = refl

no_number : atoi (bytes "4x") ≡ none
unfolding atoi digits_of digits
no_number = refl
