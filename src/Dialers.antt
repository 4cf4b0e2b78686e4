-- ===== src/Dialers.antt =====
-- How a connection goes through an upstream proxy (mitm/proxy_dialer.go): HTTP CONNECT and SOCKS4,
-- with deadlines. TCP, HTTP and name resolution are the interface `Wire`.
pub mod Request
pub mod Connections
use proxy_in_a_box.Prelude.{
  ℕ, ◌+◌, ◌-◌, ◌*◌, ◌/◌, ◌%◌, Bool, true, false, ◌&&◌, ◌⊎◌, inl, inr, Option, none, some, List, [],
  ◌∷◌, Text, get_or, length, ltb, leb, ◌==◌, if◌then◌else◌, Time, Duration, take,
}
use proxy_in_a_box.Prelude.Int.{ℤ, pos, negsuc}
use proxy_in_a_box.Sources.{split_host_port}

-- An IPv4 address, a byte each.
pub record Ip4 : Type 0 where
  pub a : ℕ
  pub b : ℕ
  pub c : ℕ
  pub d : ℕ

-- `true` is an error where the code has one.
pub record Wire : Type 1 where
  pub World : Type 0
  pub now : World → World × Time
  -- `net.DialTimeout`, and whether it failed
  pub dial_timeout : Text → Duration → World → World × Bool
  pub set_deadline : Time → World → World × Bool
  pub close : World → World
  -- The CONNECT request for an address, and the status of the response that is read.
  pub write_connect : Text → World → World × Bool
  pub read_response : World → World × Option ℕ
  -- `net.ParseIP`, `net.ResolveIPAddr` and `To4`, with no address for an error of theirs
  pub resolve_ip4 : Text → World → World × Option Ip4
  pub write : Text → World → World × Bool
  -- one `Read` into a buffer of a size
  pub read : ℕ → World → World × Option Text

abbrev pub is_digit : ℕ → Bool
is_digit c = leb 48 c && leb c 57

unfoldable pub digits : ℕ → Text → Option ℕ
digits n [] = some n
digits n (c ∷ s) = let rest = digits (10 * n + (c - 48)) s in if is_digit c then rest else none

unfoldable pub digits_of : Text → Option ℕ
digits_of [] = none
digits_of (c ∷ s) = digits 0 (c ∷ s)

abbrev pub max_int : ℕ
max_int = 9223372036854775807

-- An unsigned number with a sign, as an `int` if it is in range.
abbrev pub signed : Bool → Option ℕ → Option ℤ
signed negative none = none
signed false (some n) = if leb n max_int then some (pos n) else none
signed true (some n) =
    if leb n (max_int + 1) then some (if n == 0 then pos 0 else negsuc (n - 1)) else none

-- `strconv.Atoi`
unfoldable pub atoi : Text → Option ℤ
atoi [] = none
atoi (c ∷ s) =
    if c == 45
    then signed true (digits_of s)
    else if c == 43
    then signed false (digits_of s)
    else signed false (digits_of (c ∷ s))

-- `byte(port)` and `byte(port >> 8)` of an `int`, which may be negative.
abbrev pub low_byte : ℤ → ℕ
low_byte (pos n) = n % 256
low_byte (negsuc n) = 255 - n % 256

abbrev pub high_byte : ℤ → ℕ
high_byte (pos n) = n / 256 % 256
high_byte (negsuc n) = 255 - n / 256 % 256

unfoldable pub socks4_request : ℤ → Ip4 → Text
socks4_request port ip = 4 ∷ 1 ∷ high_byte port ∷ low_byte port ∷ ip.a ∷ ip.b ∷ ip.c ∷ ip.d ∷ 0 ∷ []

pub data DialError : Type 0 where
  unreachable : DialError
  bad_address : DialError
  unresolved : DialError
  broken : DialError
  refused : ℕ → DialError

-- The timeouts of `deadlineDialer`.
pub record Timeouts : Type 0 where
  pub connect : Duration
  pub handshake : Duration

module _ (W : Wire) where
  open W use {World}

  -- `none` is a connection.
  abbrev pub Dialled : Type 0
  Dialled = World × Option DialError

  abbrev pub closing : DialError → World → Dialled
  closing e w = (W.close w, some e)

  unfoldable pub deadline_dial : Timeouts → Text → World → Dialled
  deadline_dial d addr w =
      let (w1, failed) = W.dial_timeout addr d.connect w in
      if failed
      then (w1, some unreachable)
      else (let (w2, t) = W.now w1 in
          let (w3, failed') = W.set_deadline (t + d.handshake) w2 in
          if failed' then closing unreachable w3 else (w3, none))

  -- The CONNECT exchange on a connection to the proxy.
  unfoldable pub connect_exchange : Text → World → Dialled
  connect_exchange addr w =
      let (w1, failed) = W.write_connect addr w in
      if failed
      then closing broken w1
      else (let (w2, status) = W.read_response w1 in
          elim status [
            | none ↦ closing broken w2
            | some n ↦ if n == 200 then (w2, none) else closing (refused n) w2
          ])

  unfoldable pub http_connect_dial : Timeouts → Text → Text → World → Dialled
  http_connect_dial d proxy addr w =
      let (w1, failed) = deadline_dial d proxy w in
      elim failed [ some e ↦ (w1, some e) | none ↦ connect_exchange addr w1 ]

  -- The SOCKS4 exchange for a port and an address. The buffer has zeros where the read ended early.
  unfoldable pub socks4_exchange : ℤ → Ip4 → World → Dialled
  socks4_exchange port ip w =
      let (w1, failed) = W.write (socks4_request port ip) w in
      if failed
      then closing broken w1
      else (let (w2, answer) = W.read 8 w1 in
          elim answer [
            | none ↦ closing broken w2
            | some resp ↦
                let code = get_or resp 1 0 in
                if code == 90 then (w2, none) else closing (refused code) w2
          ])

  unfoldable pub socks4_resolve : Text → ℤ → World → Dialled
  socks4_resolve host port w =
      let (w1, resolved) = W.resolve_ip4 host w in
      elim resolved [ none ↦ closing unresolved w1 | some ip ↦ socks4_exchange port ip w1 ]

  unfoldable pub socks4_connect : Text → World → Dialled
  socks4_connect addr w = elim (split_host_port addr) [
    | none ↦ closing bad_address w
    | some (host, port) ↦ elim (atoi port) [
      | none ↦ closing bad_address w
      | some n ↦ socks4_resolve host n w
    ]
  ]

  unfoldable pub socks4_dial : Timeouts → Text → Text → World → Dialled
  socks4_dial d proxy addr w =
      let (w1, failed) = deadline_dial d proxy w in
      elim failed [ some e ↦ (w1, some e) | none ↦ socks4_connect addr w1 ]
