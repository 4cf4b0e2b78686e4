-- ===== src/Sources.antt =====
-- Proxy sources (crawler/source.go): the text and JSON documents that list proxies, and the round
-- of `fetchSource` with its status.
pub mod Json
pub mod Round
pub mod TextLines
pub mod Rows
pub mod Counts
use proxy_in_a_box.Prelude.{
  ℕ, ◌*◌, Bool, true, false, ◌&&◌, ◌||◌, Option, none, some, ite, List, [], ◌∷◌, ◌++◌, Text, bytes,
  text_dec, length, ◌==◌, if◌then◌else◌, Time, Duration, minute, ltb,
}
use proxy_in_a_box.Prelude.Int.{ℤ, pos, negsuc}
use proxy_in_a_box.Endpoint.{Proxy}
use proxy_in_a_box.Admission.{trim_space}
use proxy_in_a_box.Upstream.{to_lower}
use proxy_in_a_box.Fetch.{split_at_byte, cut}

-- `Source`; the headers are the list that `http.Header` ranges over.
pub record Source : Type 0 where
  pub name : Text
  pub kind : Text
  pub url : Text
  pub protocol : Text
  pub headers : List (Text × Text)
  pub interval : Text
  pub ip_field : Text
  pub port_field : Text
  pub protocol_field : Text
  pub script : Text

-- The record that a source gives; the other fields have their zero values.
abbrev pub new_proxy : Text → Text → Text → Text → Proxy
new_proxy ip port source protocol = record {
  id = 0;
  ip = ip;
  port = port;
  country = [];
  provence = [];
  source = source;
  protocol = protocol;
  delay = pos 0;
  available = false;
  last_verify = 0;
  last_deep_verify = 0;
  consecutive_failures = 0;
  next_verify_at = 0;
}

abbrev pub has_byte : ℕ → Text → Bool
has_byte b [] = false
has_byte b (c ∷ s) = (c == b) || has_byte b s

-- A text taken apart at the last byte of a kind.
unfoldable pub cut_last : ℕ → Text → Option (Text × Text)
cut_last sep [] = none
cut_last sep (c ∷ s) = elim (cut_last sep s) [
  | some (a, b) ↦ some (c ∷ a, b)
  | none ↦ if c == sep then some ([], s) else none
]

-- `net.SplitHostPort` of an address that begins with a bracket, less that bracket.
unfoldable pub split_bracketed : Text → Option (Text × Text)
split_bracketed rest = elim (cut 93 rest) [
  | none ↦ none
  | some (host, after) ↦ elim after [
    | [] ↦ none
    | c ∷ port ↦
        if (c == 58)
        then (if has_byte 58 port || has_byte 91 rest || has_byte 93 (c ∷ port)
            then none
            else some (host, port))
        else none
  ]
]

unfoldable pub split_plain : Text → Option (Text × Text)
split_plain address = elim (cut_last 58 address) [
  | none ↦ none
  | some (host, port) ↦
      if has_byte 58 host || has_byte 91 address || has_byte 93 address
      then none
      else some (host, port)
]

-- `net.SplitHostPort`, of which the source tells the errors not apart.
unfoldable pub split_host_port : Text → Option (Text × Text)
split_host_port [] = none
split_host_port (c ∷ rest) = if c == 91 then split_bracketed rest else split_plain (c ∷ rest)

-- What follows `://` at the front of a text.
unfoldable pub after_scheme : Text → Option Text
after_scheme [] = none
after_scheme (x ∷ []) = none
after_scheme (x ∷ y ∷ []) = none
after_scheme (x ∷ y ∷ z ∷ rest) = if (x == 58) && ((y == 47) && (z == 47)) then some rest else none

-- The text before and after the first `://`.
unfoldable pub cut_scheme : Text → Option (Text × Text)
cut_scheme [] = none
cut_scheme (c ∷ s) = elim (after_scheme (c ∷ s)) [
  | some rest ↦ some ([], rest)
  | none ↦ elim (cut_scheme s) [ none ↦ none | some (a, b) ↦ some (c ∷ a, b) ]
]

-- What is left of a line after its first space, and its protocol.
unfoldable pub parse_address : Source → Text → Option Proxy
parse_address src line = elim (cut_scheme line) [
  | none ↦ elim (split_host_port line) [
    | none ↦ none
    | some (host, port) ↦ some (new_proxy host port src.name src.protocol)
  ]
  | some (scheme, address) ↦ elim (split_host_port address) [
    | none ↦ none
    | some (host, port) ↦ some (new_proxy host port src.name (to_lower scheme))
  ]
]

abbrev pub before_space : Text → Text
before_space line = elim (cut 32 line) [ none ↦ line | some (word, _) ↦ word ]

unfoldable pub parse_line : Source → Text → Option Proxy
parse_line src line =
    let s = trim_space line in if length s == 0 then none else parse_address src (before_space s)

unfoldable pub parse_lines : Source → List Text → List Proxy
parse_lines src [] = []
parse_lines src (line ∷ lines) = elim (parse_line src line) [
  | none ↦ parse_lines src lines
  | some p ↦ p ∷ parse_lines src lines
]

unfoldable pub parse_text_response : Text → Source → List Proxy
parse_text_response body src = parse_lines src (split_at_byte 10 body)

-- The interval, of the answer of `time.ParseDuration`, which is `none` for an error.
unfoldable pub interval_duration : Option ℤ → Source → Duration
interval_duration parsed src = if length src.interval == 0 then 5 * minute else elim parsed [
  | none ↦ 5 * minute
  | some d ↦ elim d [ pos n ↦ if ltb 0 n then n else 5 * minute | negsuc n ↦ 5 * minute ]
]
