-- ===== src/Store/Run/Cached.antt =====
-- Files marked as cached in lib/semindex_index_db/index_db_writer.c: their rows need not be staged.
-- Documentation/index-database.md says that a fingerprint is computed from the records that would
-- be stored for the file; what it stands for is a parameter here.
use mathlib.Core.Path.{subst, subst₂}
use semindex.Base.{
  Option, none, some, ℕ, Bool, true, List, map, ◌≡◌, refl, sym, Text, text_eq_refl, ==_iff,
}
use semindex.Store.Rows.{
  opt_eq, RecordBody, SymbolTypeBody, FunctionTypeBody, PropertyBody, same_record, same_symbol_type,
  same_function_type, VariantRow, Db, Staging, stored_code,
}
use semindex.Store.Sql.{has_key, insert_all}
use semindex.Store.Sql.Laws.{Omits}
use semindex.Store.Stage.Files.{cached_files_valid}
use semindex.Store.Merge.{
  merge_files, delete_records, delete_symbol_types, delete_function_types, delete_symbol_properties,
  insert_new_files, delete_fingerprints, update_file, update_files, insert_records,
  insert_symbol_types, insert_function_types, insert_symbol_properties, insert_fingerprints,
  store_variant_metadata, same_stored,
}
use semindex.Store.Merge.Files.{IsFileTable, IsFileTable-insert_new_files, IsFileTable-update}
use semindex.Store.Merge.Cache.{
  IsStagingTable, Covered, Complete, merged_with, merged_table, merged_fingerprints,
}
use semindex.Store.Merge.Sound.{
  OfCached, Adds, insert_all-Adds, merged_with-Omits, Covered-merged_with,
}
use semindex.Store.Merge.Properties.{has_properties_of, add_properties, upsert_all-Adds}
use semindex.Store.Run.{merges}
use semindex.Store.Run.Merging.{merge_all}

-- What a fingerprint stands for, in each table.
pub record Meaning : Type 0 where
  pub records : Text → List RecordBody
  pub symbol_types : Text → List SymbolTypeBody
  pub function_types : Text → List FunctionTypeBody
  pub symbol_properties : Text → List PropertyBody

-- The table has a row with the key.
abbrev pub stored : {B : Type 0} → (B → B → Bool) → ℕ × B → List (ℕ × B) → Bool
stored same = has_key (same_stored same)

-- The index holds what its fingerprints stand for: rows with the keys, and of the properties all bits.
pub record IsSound (m : Meaning) (db : Db) : Type 0 where
  pub files : IsFileTable db.files
  pub records : Covered (stored same_record) m.records db.fingerprints db.records
  pub symbol_types :
      Covered (stored same_symbol_type) m.symbol_types db.fingerprints db.symbol_types
  pub function_types :
      Covered (stored same_function_type) m.function_types db.fingerprints db.function_types
  pub symbol_properties :
      Covered has_properties_of m.symbol_properties db.fingerprints db.symbol_properties

-- The temporary tables hold what is to be stored, but for the files that are cached.
pub record IsComplete (m : Meaning) (st : Staging) : Type 0 where
  pub files : IsStagingTable st.files
  pub records : Complete m.records st.files st.records
  pub symbol_types : Complete m.symbol_types st.files st.symbol_types
  pub function_types : Complete m.function_types st.files st.function_types
  pub symbol_properties : Complete m.symbol_properties st.files st.symbol_properties

-- `fewer` lacks rows of cached files that `more` has.
pub record OmitsCached (m : Meaning) (fewer more : Staging) : Type 0 where
  pub files : more.files ≡ fewer.files
  pub records : Omits (OfCached m.records fewer.files) fewer.records more.records
  pub symbol_types :
      Omits (OfCached m.symbol_types fewer.files) fewer.symbol_types more.symbol_types
  pub function_types :
      Omits (OfCached m.function_types fewer.files) fewer.function_types more.function_types
  pub symbol_properties :
      Omits
        (OfCached m.symbol_properties fewer.files)
        fewer.symbol_properties
        more.symbol_properties

pub same_record_refl : (b : RecordBody) → same_record b b ≡ true
unfolding same_record
same_record_refl b =
    rw
      (
        text_eq_refl b.symbol,
        (==_iff (stored_code b.stored) _).1 refl,
        (==_iff b.action _).1 refl,
        (==_iff b.kind _).1 refl,
        (==_iff b.mode _).1 refl,
        (==_iff b.line _).1 refl,
        (==_iff b.column _).1 refl,
      )
      refl

pub merge_all_tables :
    (v : VariantRow) (st : Staging) (db : Db)
    → let all = insert_new_files v.name db.files st.files in
      ((merge_all v st db).files ≡ map (update_file v.name st.files) all)
      × ((merge_all v st db).fingerprints
          ≡ merged_fingerprints v.name db.files st.files db.fingerprints)
      × ((merge_all v st db).records
          ≡ merged_table same_record v.name db.files st.files st.records db.records)
      × ((merge_all v st db).symbol_types
          ≡ merged_table same_symbol_type v.name db.files st.files st.symbol_types db.symbol_types)
      × ((merge_all v st db).function_types
          ≡ merged_table same_function_type v.name db.files st.files st.function_types
              db.function_types)
      × ((merge_all v st db).symbol_properties
          ≡ merged_with add_properties v.name db.files st.files st.symbol_properties
              db.symbol_properties)
unfolding merges merge_files delete_records delete_symbol_types delete_function_types
    delete_symbol_properties delete_fingerprints update_files insert_records insert_symbol_types
    insert_function_types insert_symbol_properties insert_fingerprints store_variant_metadata
merge_all_tables v st db = (refl, refl, refl, refl, refl, refl)

opt_eq_refl : (o : Option ℕ) → opt_eq o o ≡ true
opt_eq_refl none = refl
opt_eq_refl (some a) = (==_iff a a).1 refl

same_symbol_type_refl : (b : SymbolTypeBody) → same_symbol_type b b ≡ true
unfolding same_symbol_type
same_symbol_type_refl b =
    rw
      (
        text_eq_refl b.symbol,
        (==_iff b.kind _).1 refl,
        (==_iff b.usr_id _).1 refl,
        text_eq_refl b.declared_type,
        text_eq_refl b.canonical_type,
        text_eq_refl b.type_symbol,
        opt_eq_refl b.type_kind,
        (==_iff b.type_usr_id _).1 refl,
      )
      refl

same_function_type_refl : (b : FunctionTypeBody) → same_function_type b b ≡ true
unfolding same_function_type
same_function_type_refl b =
    rw
      (
        text_eq_refl b.symbol,
        (==_iff b.usr_id _).1 refl,
        opt_eq_refl b.position,
        text_eq_refl b.declared_type,
        text_eq_refl b.canonical_type,
        text_eq_refl b.type_symbol,
        opt_eq_refl b.type_kind,
        (==_iff b.type_usr_id _).1 refl,
      )
      refl

records_Adds : Adds (stored same_record) (insert_all (same_stored same_record))
records_Adds = insert_all-Adds same_record same_record_refl

symbol_types_Adds : Adds (stored same_symbol_type) (insert_all (same_stored same_symbol_type))
symbol_types_Adds = insert_all-Adds same_symbol_type same_symbol_type_refl

function_types_Adds : Adds (stored same_function_type) (insert_all (same_stored same_function_type))
function_types_Adds = insert_all-Adds same_function_type same_function_type_refl

-- Let the index hold what its fingerprints stand for, a row with the key of each record, symbol
-- type and function type, and all bits of each symbol's properties; and let the temporary tables
-- hold what is to be stored but for the cached files, each of which is still stored as it is. Then
-- the index holds what its fingerprints stand for after the merge too.
pub merge_all-IsSound :
    (m : Meaning) (v : VariantRow) (st : Staging) (db : Db)
    → cached_files_valid db v.name st.files ≡ true
    → IsComplete m st
    → IsSound m db
    → IsSound m (merge_all v st db)
merge_all-IsSound m v st db valid c s =
    let (f, p, r, t, u, q) = merge_all_tables v st db in
    record {
      files = subst IsFileTable (sym f) (
          IsFileTable-update v.name st.files _
            (IsFileTable-insert_new_files v.name db.files st.files s.files));
      records = subst₂ (Covered (stored same_record) m.records) (sym p) (sym r) (
          Covered-merged_with records_Adds m.records v.name db st.files db.records s.files c.files
            valid s.records st.records c.records);
      symbol_types = subst₂ (Covered (stored same_symbol_type) m.symbol_types) (sym p) (sym t) (
          Covered-merged_with symbol_types_Adds m.symbol_types v.name db st.files db.symbol_types
            s.files c.files valid s.symbol_types st.symbol_types c.symbol_types);
      function_types =
          subst₂ (Covered (stored same_function_type) m.function_types) (sym p) (sym u) (
            Covered-merged_with function_types_Adds m.function_types v.name db st.files
              db.function_types s.files c.files valid s.function_types st.function_types
              c.function_types);
      symbol_properties = subst₂ (Covered has_properties_of m.symbol_properties) (sym p) (sym q) (
          Covered-merged_with upsert_all-Adds m.symbol_properties v.name db st.files
            db.symbol_properties s.files c.files valid s.symbol_properties st.symbol_properties
            c.symbol_properties);
    }

four_tables :
    (v : VariantRow) (db : Db) (fewer more : Staging)
    → more.files ≡ fewer.files
    → merged_table same_record v.name db.files fewer.files fewer.records db.records
      ≡ merged_table same_record v.name db.files fewer.files more.records db.records
    → merged_table same_symbol_type v.name db.files fewer.files fewer.symbol_types db.symbol_types
      ≡ merged_table same_symbol_type v.name db.files fewer.files more.symbol_types db.symbol_types
    → merged_table same_function_type v.name db.files fewer.files fewer.function_types
        db.function_types
      ≡ merged_table same_function_type v.name db.files fewer.files more.function_types
          db.function_types
    → merged_with add_properties v.name db.files fewer.files fewer.symbol_properties
        db.symbol_properties
      ≡ merged_with add_properties v.name db.files fewer.files more.symbol_properties
          db.symbol_properties
    → merge_all v fewer db ≡ merge_all v more db
unfolding merges merge_files delete_records delete_symbol_types delete_function_types
    delete_symbol_properties delete_fingerprints update_files insert_records insert_symbol_types
    insert_function_types insert_symbol_properties insert_fingerprints store_variant_metadata
four_tables v db fewer more p r t f q = rw (p, r, t, f, q) refl

-- Let the index hold what its fingerprints stand for, and let each file marked as cached be stored
-- as it is. Then a merge that leaves out records, types and properties of the cached files makes
-- the same index as a merge of all of them.
pub merge_all-OmitsCached :
    (m : Meaning) (v : VariantRow) (fewer more : Staging) (db : Db)
    → cached_files_valid db v.name fewer.files ≡ true
    → IsStagingTable fewer.files
    → IsSound m db
    → OmitsCached m fewer more
    → merge_all v fewer db ≡ merge_all v more db
merge_all-OmitsCached m v fewer more db valid u s o =
    let r =
      merged_with-Omits records_Adds m.records v.name db fewer.files db.records s.files u valid
        s.records o.records in
    let t =
      merged_with-Omits symbol_types_Adds m.symbol_types v.name db fewer.files db.symbol_types
        s.files u valid s.symbol_types o.symbol_types in
    let f =
      merged_with-Omits function_types_Adds m.function_types v.name db fewer.files db.function_types
        s.files u valid s.function_types o.function_types in
    let q =
      merged_with-Omits upsert_all-Adds m.symbol_properties v.name db fewer.files
        db.symbol_properties s.files u valid s.symbol_properties o.symbol_properties in
    four_tables v db fewer more o.files r t f q
