-- ===== src/Migration.antt =====
-- The migration of the proxy table at startup (`migrateDB` of proxyinabox.go). The statements run in
-- one transaction, so that an error leaves the database as it was.
pub mod Order
pub mod Endpoints
use proxy_in_a_box.Prelude.{
  ℕ, suc, ◌+◌, ◌*◌, Bool, true, false, not, ◌&&◌, ◌||◌, Option, none, some, ite, List, [], ◌∷◌, map,
  Text, text_dec, ltb, ◌==◌, if◌then◌else◌, Time, Duration, minute,
}
use proxy_in_a_box.Endpoint.{Proxy, normal_protocol}

-- A row of `proxies`; `is_deleted` is whether `deleted_at` is set.
pub record Row : Type 0 where
  pub proxy : Proxy
  pub is_deleted : Bool

-- `PARTITION BY ip, port, COALESCE(NULLIF(protocol, ''), 'http')`: an absent protocol is the empty one.
unfoldable pub has_same_endpoint : Row → Row → Bool
has_same_endpoint a b =
    ite (text_dec (a.proxy).ip (b.proxy).ip)
      (ite (text_dec (a.proxy).port (b.proxy).port)
        (ite (text_dec (normal_protocol (a.proxy).protocol) (normal_protocol (b.proxy).protocol))
          true false)
        false)
      false

-- `ORDER BY CASE WHEN deleted_at IS NULL THEN 0 ELSE 1 END, id DESC`: whether `a` comes before `b`.
unfoldable pub is_ranked_before : Row → Row → Bool
is_ranked_before a b =
    if a.is_deleted
    then b.is_deleted && ltb (b.proxy).id (a.proxy).id
    else (if b.is_deleted then true else ltb (b.proxy).id (a.proxy).id)

-- The rows of `row`'s partition that come before it.
unfoldable pub ranked_before : Row → List Row → ℕ
ranked_before row [] = 0
ranked_before row (r ∷ rows) =
    (if has_same_endpoint r row && is_ranked_before r row then 1 else 0) + ranked_before row rows

-- `ROW_NUMBER()` of a row in its partition.
abbrev pub duplicate_number : Row → List Row → ℕ
duplicate_number row rows = 1 + ranked_before row rows

-- `table` is the table that the ranks are taken from.
unfoldable pub without_duplicates : List Row → List Row → List Row
without_duplicates table [] = []
without_duplicates table (r ∷ rows) =
    let rest = without_duplicates table rows in
    if ltb 1 (duplicate_number r table) then rest else r ∷ rest

unfoldable pub delete_duplicates : List Row → List Row
delete_duplicates rows = without_duplicates rows rows

-- `Unscoped`: deleted rows too.
unfoldable pub normalize_protocols : List Row → List Row
normalize_protocols =
    map {A = Row} {B = Row}
      λ r. record r { proxy = record r.proxy { protocol = normal_protocol (r.proxy).protocol } }

-- The two updates below leave deleted rows out.
unfoldable pub schedule_quarantined : Time → List Row → List Row
schedule_quarantined now = map {A = Row} {B = Row} λ r.
    if not r.is_deleted && not (r.proxy).available
    then record r { proxy = record r.proxy { next_verify_at = now + 30 * minute } }
    else r

unfoldable pub seed_deep_verification : List Row → List Row
seed_deep_verification = map {A = Row} {B = Row} λ r.
    if not r.is_deleted && ltb 0 (r.proxy).last_verify
    then record r { proxy = record r.proxy { last_deep_verify = (r.proxy).last_verify } }
    else r

pub data Statement : Type 0 where
  deduplicate normalize schedule seed : Statement

-- gorm's migrator: what it finds in the schema, what it does to the rows, with `none` for an error,
-- and which of the statements fail.
pub record Migrator : Type 0 where
  pub has_table : Bool
  pub has_next_verify_at : Bool
  pub has_last_deep_verify : Bool
  pub has_available : Bool
  -- `IP`, `Port`, `Protocol` and `DeletedAt`
  pub has_endpoint_columns : Bool
  pub has_available_after : Bool
  pub add_available : List Row → Option (List Row)
  pub auto_migrate : List Row → Option (List Row)
  pub does_fail : Statement → Bool

abbrev pub execute : Migrator → Statement → (List Row → List Row) → List Row → Option (List Row)
execute g s f rows = if g.does_fail s then none else some (f rows)

abbrev pub and_then : Option (List Row) → (List Row → Option (List Row)) → Option (List Row)
and_then none f = none
and_then (some rows) f = f rows

-- The block under `HasTable`.
unfoldable pub prepare_table : Migrator → List Row → Option (List Row)
prepare_table g rows =
    let added = if g.has_available then some rows else g.add_available rows in
    if g.has_endpoint_columns
    then and_then (and_then added (execute g deduplicate delete_duplicates))
        (execute g normalize normalize_protocols)
    else added

-- The columns that this release adds are filled when the old table did not have them.
unfoldable pub schedule_legacy : Migrator → Time → List Row → Option (List Row)
schedule_legacy g now rows =
    if g.has_table && g.has_next_verify_at
    then some rows
    else execute g schedule (schedule_quarantined now) rows

unfoldable pub seed_legacy : Migrator → List Row → Option (List Row)
seed_legacy g rows =
    if g.has_table && g.has_last_deep_verify
    then some rows
    else execute g seed seed_deep_verification rows

-- `none` is an error: the transaction is rolled back.
unfoldable pub migrate_db : Migrator → Time → List Row → Option (List Row)
migrate_db g now rows =
    let prepared = if g.has_table then prepare_table g rows else some rows in
    let migrated = and_then prepared g.auto_migrate in
    let checked = if g.has_available_after then migrated else none in
    and_then (and_then checked (schedule_legacy g now)) (seed_legacy g)
