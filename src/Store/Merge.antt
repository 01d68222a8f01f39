-- ===== src/Store/Merge.antt =====
-- merge_staging and store_variant_metadata of lib/semindex_index_db/index_db_writer.c: the twelve
-- statements `merge[0]` to `merge[11]` as functions on the tables, and the transaction that runs
-- them.
pub mod Files
pub mod Cache
pub mod Sound
pub mod Properties
pub mod Replace
use semindex.Base.{
  ℕ, suc, Bool, true, false, not, ◌&&◌, ◌||◌, Option, none, some, List, [], ◌∷◌, ◌++◌, map, Text,
  text_eq, ◌==◌, leb, if◌then◌else◌, any, find,
}
use semindex.Store.Rows.{
  same_record, same_symbol_type, same_function_type, same_property, FileRow, VariantRow,
  StagingFile, Db, Staging,
}
use semindex.Store.Sql.{insert_all, upsert_all, delete_where}
use semindex.Store.Stage.{or_properties}

-- An INTEGER PRIMARY KEY that an insert leaves out is one more than the largest in use.
unfoldable pub next_id : List FileRow → ℕ
next_id [] = 1
next_id (f ∷ rest) = let n = next_id rest in if leb n f.id then suc f.id else n

abbrev pub is_file : Text → Text → FileRow → Bool
is_file variant path f = text_eq f.variant variant && text_eq f.path path

-- merge[0]: INSERT OR IGNORE INTO files … SELECT … FROM staging_files
unfoldable pub insert_new_file : Text → List FileRow → StagingFile → List FileRow
unfolding next_id
insert_new_file variant files s =
    if any (is_file variant s.path) files
    then files
    else files
      ++ (record {
        id = next_id files;
        variant = variant;
        path = s.path;
        mtime_ns = s.mtime_ns;
        size = s.size;
      })
        ∷ []

unfoldable pub insert_new_files : Text → List FileRow → List StagingFile → List FileRow
unfolding insert_new_file
insert_new_files variant files [] = files
insert_new_files variant files (s ∷ rest) =
    insert_new_files variant (insert_new_file variant files s) rest

-- staging_files JOIN files, where the file is replaced: the main file, or one that has changed.
unfoldable pub is_replaced : Text → List StagingFile → FileRow → Bool
is_replaced variant staged f =
    text_eq f.variant variant
    && any
        (λ (s : StagingFile).
          text_eq s.path f.path
          && (s.is_main || not (f.mtime_ns == s.mtime_ns) || not (f.size == s.size)))
        staged

-- `file_id IN (SELECT …)` of merge[1] to merge[5]
unfoldable pub in_replaced : Text → List StagingFile → List FileRow → ℕ → Bool
unfolding is_replaced
in_replaced variant staged files id =
    any (λ (f : FileRow). f.id == id && is_replaced variant staged f) files

-- merge[6]: UPDATE files SET …
abbrev stat_of : Option StagingFile → FileRow → FileRow
stat_of none f = f
stat_of (some s) f = record f { mtime_ns = s.mtime_ns; size = s.size }

unfoldable pub update_file : Text → List StagingFile → FileRow → FileRow
update_file variant staged f =
    if text_eq f.variant variant
    then stat_of (find (λ (s : StagingFile). text_eq s.path f.path) staged) f
    else f

-- The id of a file, `files.path = … AND files.variant = …`: there is one such row at most.
abbrev pub id_of : Option FileRow → Option ℕ
id_of none = none
id_of (some f) = some f.id

unfoldable pub file_id : List FileRow → Text → Text → Option ℕ
file_id files variant path = id_of (find (is_file variant path) files)

-- staging JOIN files: a row whose path is no file of the variant is dropped.
abbrev pub joined_row : {B : Type 0} → Option ℕ → B → List (ℕ × B) → List (ℕ × B)
joined_row none b rest = rest
joined_row (some id) b rest = (id, b) ∷ rest

unfoldable pub join_files : {B : Type 0} → List FileRow → Text → List (Text × B) → List (ℕ × B)
unfolding file_id
join_files files variant [] = []
join_files files variant ((path, b) ∷ rest) =
    joined_row (file_id files variant path) b (join_files files variant rest)

-- Keys of stored rows: the file's id, then the key of the body.
abbrev pub same_stored : {B : Type 0} → (B → B → Bool) → ℕ × B → ℕ × B → Bool
same_stored same (i, a) (j, b) = i == j && same a b

-- `WHERE staging_files.fingerprint IS NOT NULL`
abbrev pub with_fingerprint : Option Text → Text → List (Text × Text) → List (Text × Text)
with_fingerprint none path rest = rest
with_fingerprint (some g) path rest = (path, g) ∷ rest

unfoldable pub staged_fingerprints : List StagingFile → List (Text × Text)
staged_fingerprints [] = []
staged_fingerprints (s ∷ rest) = with_fingerprint s.fingerprint s.path (staged_fingerprints rest)

-- The statements in their order; the rest of a row is what the one before left.

unfoldable pub merge_files : Text → Staging → Db → Db
unfolding insert_new_files
merge_files variant st db = record db { files = insert_new_files variant db.files st.files }

abbrev replaced_row : {B : Type 0} → Text → Staging → Db → ℕ × B → Bool
replaced_row variant st db r = in_replaced variant st.files db.files r.0

unfoldable pub delete_records : Text → Staging → Db → Db
unfolding in_replaced
delete_records variant st db = record db {
  records = delete_where (replaced_row variant st db) db.records;
}

unfoldable pub delete_symbol_types : Text → Staging → Db → Db
unfolding in_replaced
delete_symbol_types variant st db = record db {
  symbol_types = delete_where (replaced_row variant st db) db.symbol_types;
}

unfoldable pub delete_function_types : Text → Staging → Db → Db
unfolding in_replaced
delete_function_types variant st db = record db {
  function_types = delete_where (replaced_row variant st db) db.function_types;
}

unfoldable pub delete_symbol_properties : Text → Staging → Db → Db
unfolding in_replaced
delete_symbol_properties variant st db = record db {
  symbol_properties = delete_where (replaced_row variant st db) db.symbol_properties;
}

unfoldable pub delete_fingerprints : Text → Staging → Db → Db
unfolding in_replaced
delete_fingerprints variant st db = record db {
  fingerprints = delete_where (replaced_row variant st db) db.fingerprints;
}

unfoldable pub update_files : Text → Staging → Db → Db
unfolding update_file
update_files variant st db = record db { files = map (update_file variant st.files) db.files }

unfoldable pub insert_records : Text → Staging → Db → Db
unfolding join_files
insert_records variant st db = record db {
  records =
      insert_all (same_stored same_record) db.records (join_files db.files variant st.records);
}

unfoldable pub insert_symbol_types : Text → Staging → Db → Db
unfolding join_files
insert_symbol_types variant st db = record db {
  symbol_types =
      insert_all (same_stored same_symbol_type) db.symbol_types
        (join_files db.files variant st.symbol_types);
}

unfoldable pub insert_function_types : Text → Staging → Db → Db
unfolding join_files
insert_function_types variant st db = record db {
  function_types =
      insert_all (same_stored same_function_type) db.function_types
        (join_files db.files variant st.function_types);
}

unfoldable pub insert_symbol_properties : Text → Staging → Db → Db
unfolding join_files
insert_symbol_properties variant st db = record db {
  symbol_properties =
      upsert_all (same_stored same_property) or_properties db.symbol_properties
        (join_files db.files variant st.symbol_properties);
}

unfoldable pub insert_fingerprints : Text → Staging → Db → Db
unfolding join_files staged_fingerprints
insert_fingerprints variant st db = record db {
  fingerprints =
      insert_all (same_stored text_eq) db.fingerprints
        (join_files db.files variant (staged_fingerprints st.files));
}

-- coalesce(new, old), and `new IS NOT NULL AND old IS NOT new`
abbrev pub coalesce : Option Text → Option Text → Option Text
coalesce none old = old
coalesce (some new) old = some new

abbrev differs : Option Text → Option Text → Bool
differs none old = false
differs (some new) none = true
differs (some new) (some old) = not (text_eq old new)

abbrev same_name : VariantRow → VariantRow → Bool
same_name a b = text_eq a.name b.name

abbrev update_variant : VariantRow → VariantRow → VariantRow
update_variant old new =
    if differs new.git_commit old.git_commit || differs new.repository_root old.repository_root
    then record old {
      git_commit = coalesce new.git_commit old.git_commit;
      repository_root = coalesce new.repository_root old.repository_root;
    }
    else old

-- store_variant_metadata
unfoldable pub store_variant_metadata : VariantRow → Db → Db
store_variant_metadata v db = record db {
  variants = upsert_all same_name update_variant db.variants (v ∷ []);
}
