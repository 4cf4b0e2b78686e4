-- ===== src/Store.antt =====
-- The database of the proxy pool, which gorm and SQLite implement: an interface with the
-- statements that service/memcache.go issues and the documented behaviour that its methods rely on.
-- A statement that fails returns `none` and leaves the database as it was.
pub mod Tables
use proxy_in_a_box.Prelude.{ℕ, ◌≡◌, ◌≢◌, Bool, true, false, Option, none, some, List, Text, Time}
use proxy_in_a_box.Prelude.Int.{ℤ}
use proxy_in_a_box.Endpoint.{Proxy, BlockedIp}

-- The columns of an `Updates` call; an absent one is left out of the map.
pub record Columns : Type 0 where
  pub available : Bool
  pub consecutive_failures : ℕ
  pub delay : Option ℤ
  pub last_verify : Time
  pub next_verify_at : Time
  pub last_deep_verify : Option Time

abbrev pub or_else {ℓ} : {A : Type ℓ} → Option A → A → A
or_else none a = a
or_else (some b) a = b

-- A row after the update.
abbrev pub apply_columns : Columns → Proxy → Proxy
apply_columns c p = record p {
  available = c.available;
  consecutive_failures = c.consecutive_failures;
  delay = or_else c.delay p.delay;
  last_verify = c.last_verify;
  next_verify_at = c.next_verify_at;
  last_deep_verify = or_else c.last_deep_verify p.last_deep_verify;
}

pub record Store : Type 1 where
  pub Db : Type 0
  -- `WHERE id = ?`, `WHERE ip = ? AND port = ? AND protocol = ?`, both with `First`
  pub find_proxy : Db → ℕ → Option Proxy
  pub find_endpoint : Db → Text → Text → Text → Option Proxy
  -- `Save(&p)`, and the record with its primary key
  pub save_proxy : Db → Proxy → Option (Db × Proxy)
  -- `WHERE id = ?` with `Updates`, and `RowsAffected`
  pub update_proxy : Db → ℕ → Columns → Option (Db × ℕ)
  -- `WHERE ip = ?` with `Update("available", false)`
  pub disable_ip : Db → Text → Option Db
  pub find_blocked : Db → Text → Option BlockedIp
  pub save_blocked : Db → BlockedIp → Option Db
  pub delete_blocked : Db → Text → Option Db
  -- the rows of `blocked_ips` with `locked_until > ?`; none of them if the query fails
  pub locked_after : Db → Time → List BlockedIp
  -- `available = true`, less the IPs with `locked_until > ?`
  pub available_unlocked : Db → Time → Option (List Proxy)
  -- `available = false AND next_verify_at > ?`
  pub delayed : Db → Time → Option (List Proxy)
  -- `last_verify < ? AND last_verify > zero`, read and deleted
  pub stale : Db → Time → List Proxy
  pub delete_stale : Db → Time → Option (Db × ℕ)
  -- A saved record keeps its columns; only its key may be new.
  pub save_proxy-keeps :
      (d d' : Db) (p p' : Proxy) → save_proxy d p ≡ some (d', p') → p' ≡ record p { id = p'.id }
  -- An update that affects one row finds that row and applies the columns.
  pub update_proxy-finds :
      (d d' : Db) (i : ℕ) (c : Columns)
      → update_proxy d i c ≡ some (d', 1)
      → (p : Proxy) × (find_proxy d i ≡ some p) × (find_proxy d' i ≡ some (apply_columns c p))
  -- A row of `blocked_ips` is read back as it was saved, and statements on the other table leave it.
  pub find_blocked-ip :
      (d : Db) (ip : Text) (b : BlockedIp) → find_blocked d ip ≡ some b → b.ip ≡ ip
  pub find_blocked-save :
      (d d' : Db) (b : BlockedIp) → save_blocked d b ≡ some d' → find_blocked d' b.ip ≡ some b
  pub find_blocked-disable :
      (d d' : Db) (ip j : Text) → disable_ip d ip ≡ some d' → find_blocked d' j ≡ find_blocked d j
  pub find_blocked-delete :
      (d d' : Db) (ip : Text) → delete_blocked d ip ≡ some d' → find_blocked d' ip ≡ none
