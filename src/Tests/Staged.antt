-- ===== src/Tests/Staged.antt =====
-- The staging of the sample.
use semindex.Base.{true, false, some, none, [], ◌∷◌, is_some, ◌≡◌}
use semindex.Store.Stage.{StoredPaths}
use semindex.Store.Stage.Records.{stage_records}
use semindex.Store.Stage.Staged.{add_index, stage_records-add_index}
use semindex.Tests.Samples.{main_path, header_path, sample_index, world}

abbrev paths : StoredPaths
paths = record { root = none; files = main_path ∷ header_path ∷ []; main_file = some main_path }

-- The header is cached.
stage_records-add_index_example :
    ((world []).faults ≡ []
      → is_some (stage_records paths true (false ∷ true ∷ []) sample_index (world [])).0 ≡ true)
    × (is_some (stage_records paths true (false ∷ true ∷ []) sample_index (world [])).0 ≡ true
        → (stage_records paths true (false ∷ true ∷ []) sample_index (world [])).1.staging
          ≡ add_index paths true (false ∷ true ∷ []) sample_index (world []).staging)
stage_records-add_index_example =
    stage_records-add_index paths true (false ∷ true ∷ []) sample_index (world [])
