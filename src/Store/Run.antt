-- ===== src/Store/Run.antt =====
-- merge_staging and index_db_store of lib/semindex_index_db/index_db_writer.c: the transactions.
pub mod Durable
pub mod Tables
pub mod Staged
pub mod Merging
pub mod Atomic
pub mod Cached
pub mod Replaced
pub mod Retry
use semindex.Base.{
  ℕ, ◌+◌, Bool, true, false, not, ◌||◌, Option, none, some, List, [], ◌∷◌, map, Text, is_empty,
  or_empty, if◌then◌else◌, length, replicate,
}
use semindex.Repository.{Host}
use semindex.Store.Index.{Index}
use semindex.Store.Rows.{VariantRow, StagingFile, Db, Staging}
use semindex.Store.Session.{
  World, M, ◌>>=◌, ◌>>◌, pure, gets, fail, exec_read, exec_db, exec_staging, begin, commit,
  rollback_ignored, or_rollback, close,
}
use semindex.Store.Stage.{StagingCounts}
use semindex.Store.Stage.Records.{stage_records}
use semindex.Store.Stage.Files.{init_stored_paths, stage_files, cached_files_valid}
use semindex.Store.Open.{open_writer, create_staging}
use semindex.Store.Merge.{
  merge_files, delete_records, delete_symbol_types, delete_function_types, delete_symbol_properties,
  delete_fingerprints, update_files, insert_records, insert_symbol_types, insert_function_types,
  insert_symbol_properties, insert_fingerprints, store_variant_metadata,
}

-- `merge[0]` to `merge[11]`
unfoldable pub merges : Text → List (Staging → Db → Db)
merges variant =
    merge_files variant
    ∷ delete_records variant
    ∷ delete_symbol_types variant
    ∷ delete_function_types variant
    ∷ delete_symbol_properties variant
    ∷ delete_fingerprints variant
    ∷ update_files variant
    ∷ insert_records variant
    ∷ insert_symbol_types variant
    ∷ insert_function_types variant
    ∷ insert_symbol_properties variant
    ∷ insert_fingerprints variant
    ∷ []

unfoldable pub run_merges : List (Staging → Db → Db) → M (Unit {0})
run_merges [] = pure tt
run_merges (f ∷ rest) = do st ← gets (λ w. w.staging); exec_db (f st); run_merges rest

-- What a merge came to: `goto stale`, or all statements run.
pub data Merged : Type 0 where
  stale merged : Merged

-- What stands between BEGIN and COMMIT or ROLLBACK.
unfoldable pub merge_body : VariantRow → M Merged
merge_body v = do
  exec_read
  valid ← gets (λ w. cached_files_valid w.db v.name w.staging.files)
  if not valid
      then pure stale
      else do run_merges (merges v.name); exec_db (store_variant_metadata v); pure merged

-- The end of the transaction. The result is 1 for stale and 0 for merged.
unfoldable pub end_merge : Merged → M Merged
end_merge stale w = (some stale, rollback_ignored w)
end_merge merged w = (do commit; pure merged) w

unfoldable pub merge_staging : VariantRow → M Merged
merge_staging v = do begin; outcome ← or_rollback (merge_body v); end_merge outcome

-- index_db_store_request_t, without the trace
pub record StoreRequest : Type 0 where
  pub path : Option Text
  pub index : Option Index
  pub main_file : Option Text
  pub variant : Option Text
  pub repository_root : Option Text
  pub git_commit : Option Text
  pub include_local : Bool

-- UPDATE staging_files SET cached = 0
abbrev pub uncached : StagingFile → StagingFile
uncached f = record f { cached = false }

module _ (h : Host) (s : Index) (request : StoreRequest) where
  abbrev row : VariantRow
  row = record {
    name = or_empty request.variant;
    git_commit = request.git_commit;
    repository_root = request.repository_root;
  }

  -- From the first BEGIN to the COMMIT of the staging tables.
  unfoldable pub stage : M (Unit {0})
  stage = do
    let paths =
        init_stored_paths h s request.main_file request.repository_root request.include_local
    begin
    files ← or_rollback (stage_files h s paths request.main_file row.name request.include_local)
    counts ← or_rollback (stage_records paths request.include_local files.0 s)
    commit

  -- The second staging, with no file cached.
  unfoldable pub restage : M (Unit {0})
  restage = do
    let paths =
        init_stored_paths h s request.main_file request.repository_root request.include_local
    let none_cached = replicate (length (s.fingerprints request.include_local)) false
    begin
    or_rollback (exec_staging (λ db st. record st { files = map uncached st.files }) (λ st. 0))
    counts ← or_rollback (stage_records paths request.include_local none_cached s)
    commit

  -- `merge_ret > 0`: stage everything and merge once more; anything but 0 is an error then.
  abbrev only_merged : Merged → M (Unit {0})
  only_merged stale = fail
  only_merged merged = pure tt

  unfoldable pub retry : Merged → M (Unit {0})
  retry merged = pure tt
  retry stale = do restage; outcome ← merge_staging row; only_merged outcome

  unfoldable pub store_in : M (Unit {0})
  store_in = do open_writer; create_staging; stage; outcome ← merge_staging row; retry outcome

  unfoldable pub store_and_close : M (Unit {0})
  store_and_close w = let (r, w') = store_in w in (r, close w')

abbrev pub store_index : Host → StoreRequest → Option Index → M (Unit {0})
store_index h request none = fail
store_index h request (some s) = store_and_close h s request

-- `!request->path || … || !request->variant[0]`
abbrev pub store_if : Host → StoreRequest → Option Text → M (Unit {0})
store_if h request none = fail
store_if h request (some path) =
    if is_empty (or_empty request.variant) then fail else store_index h request request.index

-- index_db_store
unfoldable pub index_db_store : Host → StoreRequest → M (Unit {0})
index_db_store h request = store_if h request request.path
