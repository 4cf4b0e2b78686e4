-- ===== src/Tests/MigrationTests.antt =====
-- The migration of small tables.
use mathlib.Core.List.{Memᴰ}
use proxy_in_a_box.Prelude.{
  ℕ, ◌≡◌, refl, Bool, true, false, Option, none, some, List, [], ◌∷◌, bytes, map, text_dec,
}
use proxy_in_a_box.Endpoint.{normal_protocol}
use proxy_in_a_box.Migration.{
  Row, Migrator, Statement, deduplicate, normalize, schedule, seed, has_same_endpoint,
  is_ranked_before, ranked_before, without_duplicates, delete_duplicates, normalize_protocols,
  schedule_quarantined, seed_deep_verification, prepare_table, schedule_legacy, seed_legacy,
  migrate_db,
}
use proxy_in_a_box.Migration.Endpoints.{IsFirst, IsAlone, delete_duplicates-IsFirst}
use proxy_in_a_box.Tests.Fixtures.{endpoint, at}

abbrev row : ℕ → Bool → Row
row i deleted = record { proxy = endpoint i (bytes "1.1.1.1") (bytes "80"); is_deleted = deleted }

-- An endpoint with a newer row that is deleted, and an older one without a protocol.
abbrev legacy : List Row
legacy =
    (let r = row 1 false in
      record r { proxy = record r.proxy { protocol = []; available = false } })
    ∷ row 3 false
    ∷ row 5 true
    ∷ record { proxy = endpoint 2 (bytes "2.2.2.2") (bytes "80"); is_deleted = true }
    ∷ []

abbrev ids : List Row → List ℕ
ids = map λ r. (r.proxy).id

delete_duplicates-legacy : ids (delete_duplicates legacy) ≡ 3 ∷ 2 ∷ []
unfolding delete_duplicates without_duplicates ranked_before is_ranked_before has_same_endpoint
    normal_protocol text_dec
delete_duplicates-legacy = refl

abbrev migrator : (Statement → Bool) → Migrator
migrator does_fail = record {
  has_table = true;
  has_next_verify_at = false;
  has_last_deep_verify = false;
  has_available = true;
  has_endpoint_columns = true;
  has_available_after = true;
  add_available = some;
  auto_migrate = some;
  does_fail = does_fail;
}

abbrev result_ids : Option (List Row) → Option (List ℕ)
result_ids none = none
result_ids (some rows) = some (ids rows)

migrate_db-legacy : result_ids (migrate_db (migrator λ s. false) (at 0) legacy) ≡ some (3 ∷ 2 ∷ [])
unfolding migrate_db prepare_table schedule_legacy seed_legacy delete_duplicates without_duplicates
    ranked_before is_ranked_before has_same_endpoint normal_protocol text_dec normalize_protocols
    schedule_quarantined seed_deep_verification
migrate_db-legacy = refl

abbrev fails_to_seed : Statement → Bool
fails_to_seed seed = true
fails_to_seed deduplicate = false
fails_to_seed normalize = false
fails_to_seed schedule = false

migrate_db-failing : migrate_db (migrator fails_to_seed) (at 0) legacy ≡ none
unfolding migrate_db prepare_table schedule_legacy seed_legacy delete_duplicates without_duplicates
    ranked_before is_ranked_before has_same_endpoint normal_protocol text_dec normalize_protocols
    schedule_quarantined
migrate_db-failing = refl

delete_duplicates-IsFirst_example :
    (k : Row) × Memᴰ k legacy
    × Memᴰ k (delete_duplicates legacy)
    × (has_same_endpoint k (row 5 true) ≡ true)
    × IsFirst k legacy
    × IsAlone k (delete_duplicates legacy)
delete_duplicates-IsFirst_example =
    delete_duplicates-IsFirst legacy (row 5 true) (Memᴰ.tail (Memᴰ.tail (Memᴰ.head refl)))
