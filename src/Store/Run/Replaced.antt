-- ===== src/Store/Run/Replaced.antt =====
-- The rows that a merge of lib/semindex_index_db/index_db_writer.c replaces, and those that it
-- leaves alone.
use mathlib.Core.Path.{subst}
use semindex.Base.{ℕ, Bool, true, false, ◌≡◌, sym, ◌⊎◌, In, Text, some, List}
use semindex.Store.Rows.{
  RecordBody, FileRow, VariantRow, Db, Staging, same_record, same_symbol_type, same_function_type,
  SymbolTypeBody, FunctionTypeBody,
}
use semindex.Store.Sql.{has_key}
use semindex.Store.Merge.{insert_new_files, in_replaced, file_id, same_stored}
use semindex.Store.Merge.Files.{IsFileTable}
use semindex.Store.Merge.Replace.{
  merged_table-In, In-merged_table, has_key-merged_table, merged_table-other_variant,
}
use semindex.Store.Run.Merging.{merge_all}
use semindex.Store.Run.Cached.{merge_all_tables, same_record_refl}

module _ (v : VariantRow) (st : Staging) (db : Db) where
  -- The ids of the files once merge[0] has run.
  abbrev pub IdAfter : Text → ℕ → Type 0
  IdAfter path id = file_id (insert_new_files v.name db.files st.files) v.name path ≡ some id

  abbrev pub is_gone : ℕ → Bool
  is_gone id = in_replaced v.name st.files (insert_new_files v.name db.files st.files) id

-- A record in the index after a merge was staged under the path of its file, or was there before
-- and its file is not replaced. No record of a file that is not replaced is lost, and each
-- staged record of a file of the index has its key there.
pub merge_all-records :
    (v : VariantRow) (st : Staging) (db : Db) (id : ℕ) (b : RecordBody)
    → (In (id, b) (merge_all v st db).records
        → ((path : Text) × In (path, b) st.records × IdAfter v st db path id)
          ⊎ (In (id, b) db.records × (is_gone v st db id ≡ false)))
      × (In (id, b) db.records
          → is_gone v st db id ≡ false
          → In (id, b) (merge_all v st db).records)
      × ((path : Text)
          → In (path, b) st.records
          → IdAfter v st db path id
          → has_key (same_stored same_record) (id, b) (merge_all v st db).records ≡ true)
merge_all-records v st db id b =
    let (f, p, r, t, u, _) = merge_all_tables v st db in
    (
      λ m.
          merged_table-In same_record v.name db.files st.files st.records db.records id b
            (subst (In (id, b)) r m),
      λ m e.
          subst (In (id, b)) (sym r)
            (In-merged_table same_record v.name db.files st.files st.records db.records id b m e),
      λ path m e.
          subst (λ x. has_key (same_stored same_record) (id, b) x ≡ true) (sym r)
            (has_key-merged_table same_record v.name db.files st.files st.records db.records id b
              same_record_refl (path, m, e)),
    )

-- A merge into one variant leaves the records, symbol types and function types of every file of
-- another variant as they were: it adds none and drops none. The file table has one row for an id
-- and one for a path of a variant.
pub merge_all-other_variant :
    (v : VariantRow) (st : Staging) (db : Db) (f : FileRow)
    → IsFileTable db.files
    → In f db.files
    → ¬ (f.variant ≡ v.name)
    → ((b : RecordBody)
        → (In (f.id, b) (merge_all v st db).records → In (f.id, b) db.records)
          × (In (f.id, b) db.records → In (f.id, b) (merge_all v st db).records))
      × ((b : SymbolTypeBody)
          → (In (f.id, b) (merge_all v st db).symbol_types → In (f.id, b) db.symbol_types)
            × (In (f.id, b) db.symbol_types → In (f.id, b) (merge_all v st db).symbol_types))
      × ((b : FunctionTypeBody)
          → (In (f.id, b) (merge_all v st db).function_types → In (f.id, b) db.function_types)
            × (In (f.id, b) db.function_types → In (f.id, b) (merge_all v st db).function_types))
merge_all-other_variant v st db f t m other =
    let (_, _, r, y, u, _) = merge_all_tables v st db in
    (
      λ b. in_table r (
          merged_table-other_variant same_record v.name db.files st.files st.records db.records f b
            t m other),
      λ b. in_table y (
          merged_table-other_variant same_symbol_type v.name db.files st.files st.symbol_types
            db.symbol_types f b t m other),
      λ b. in_table u (
          merged_table-other_variant same_function_type v.name db.files st.files st.function_types
            db.function_types f b t m other),
    )
  where
    in_table :
        {R : Type 0} {r : R} {before after merged : List R}
        → after ≡ merged
        → (In r merged → In r before) × (In r before → In r merged)
        → (In r after → In r before) × (In r before → In r after)
    in_table {r} {before} e k =
        subst (λ x. (In r x → In r before) × (In r before → In r x)) (sym e) k
