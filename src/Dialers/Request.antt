-- ===== src/Dialers/Request.antt =====
-- What a SOCKS4 server reads in a request.
use proxy_in_a_box.Prelude.{
  ℕ, ◌+◌, ◌*◌, ◌/◌, ◌%◌, ◌≡◌, Option, none, some, [], ◌∷◌, Text, ◌==◌, ◌&&◌, if◌then◌else◌, arith,
  ap,
}
use proxy_in_a_box.Prelude.Int.{pos}
use proxy_in_a_box.Dialers.{Ip4, socks4_request}

-- The request as the protocol has it: version 4, the command CONNECT, the port and the address with
-- the high byte first, and a user ID up to a zero byte.
unfoldable pub read_socks4 : Text → Option (ℕ × Ip4 × Text)
read_socks4 (v ∷ cmd ∷ h ∷ l ∷ a ∷ b ∷ c ∷ d ∷ user) =
    if (v == 4) && (cmd == 1)
    then some (h * 256 + l, record { a = a; b = b; c = c; d = d }, user)
    else none
read_socks4 _ = none

-- The request for a port that is not negative reads as a CONNECT to the address, with an empty user
-- ID and the port modulo 2^16: the port itself, when it is a port.
pub read_socks4-socks4_request :
    (n : ℕ) (ip : Ip4) → read_socks4 (socks4_request (pos n) ip) ≡ some (n % 65536, ip, 0 ∷ [])
unfolding read_socks4 socks4_request
read_socks4-socks4_request n ip =
    let e : n / 256 % 256 * 256 + n % 256 ≡ n % 65536 = omega arith in
    ap {B = Option (ℕ × Ip4 × Text)} (λ (port : ℕ). some (port, ip, 0 ∷ [])) e
