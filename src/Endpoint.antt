-- ===== src/Endpoint.antt =====
-- The proxy record and its URI (proxy.go), and the record of a blocked IP (blocked_ip.go).
-- Of the embedded `gorm.Model` the code reads the primary key alone: the other stamps are gorm's.
pub mod Identity
use proxy_in_a_box.Prelude.{ℕ, Bool, ite, [], ◌∷◌, ◌++◌, Text, bytes, text_dec, Time, arith}
use proxy_in_a_box.Prelude.Int.{ℤ}

pub record Proxy : Type 0 where
  pub id : ℕ
  pub ip : Text
  pub port : Text
  pub country : Text
  pub provence : Text
  pub source : Text
  pub protocol : Text
  pub delay : ℤ
  pub available : Bool
  pub last_verify : Time
  pub last_deep_verify : Time
  pub consecutive_failures : ℕ
  pub next_verify_at : Time

pub record BlockedIp : Type 0 where
  pub ip : Text
  pub consecutive_failures : ℕ
  pub locked_until : Time

-- An empty protocol reads as http.
unfoldable pub normal_protocol : Text → Text
normal_protocol protocol = ite (text_dec protocol []) (bytes "http") protocol

unfoldable pub uri : Proxy → Text
unfolding normal_protocol
uri p = normal_protocol p.protocol ++ (bytes "://" ++ (p.ip ++ (b':' ∷ p.port)))
