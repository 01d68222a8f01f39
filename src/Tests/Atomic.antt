-- ===== src/Tests/Atomic.antt =====
-- index_db_store on the sample, with and without faults.
use semindex.Base.{◌⊎◌, is_some, none, some, ◌≡◌, true, false, [], ◌∷◌, refl}
use semindex.Store.Run.Atomic.{Ends, variant_of, index_db_store_atomic}
use semindex.Store.Session.{World, ◌>>=◌}
use semindex.Store.Open.{open_writer, schema_version}
use semindex.Store.Run.Durable.{Untouched, durable}
use semindex.Store.Open.Version.{open_writer-version}
use semindex.Store.Run.{index_db_store, restage, merge_staging, stale}
use semindex.Store.Run.Retry.{restage-merge_staging}
use semindex.Tests.Samples.{host, request, sample_index, world}

index_db_store_atomic_example :
    Ends host request
      (world (false ∷ true ∷ []))
      (index_db_store host request (world (false ∷ true ∷ []))).0
      (index_db_store host request (world (false ∷ true ∷ []))).1
index_db_store_atomic_example = index_db_store_atomic host request (world (false ∷ true ∷ [])) refl

restage-merge_staging_example : ¬ (
    ((restage host sample_index request >>= λ _. merge_staging (variant_of request)) (world [])).0
    ≡ some stale)
restage-merge_staging_example =
    restage-merge_staging host sample_index request (variant_of request) (world [])

-- A database of the schema before
abbrev older : World
older = record (world []) { db = record (world []).db { version = 17; has_tables = true } }

open_writer-version_example :
    Untouched older.db older.writers (durable (open_writer older).1) (open_writer older).1.writers
    × (is_some (open_writer older).0 ≡ true → (open_writer older).1.db.version ≡ schema_version)
    × (older.writers ≡ []
        → ¬ (older.db.version ≡ schema_version)
        → (¬ (older.db.version ≡ 0)) ⊎ (older.db.has_tables ≡ true)
        → (open_writer older).0 ≡ none)
open_writer-version_example = open_writer-version older refl
