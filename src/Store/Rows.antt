-- ===== src/Store/Rows.antt =====
-- The rows of the symbol index: the tables that init_schema and create_staging of
-- lib/semindex_index_db/index_db_writer.c declare. A row without its file is a body; the staging
-- tables file a body under a path, the main tables under a file's id. An integer column that holds
-- -1 for "none" (position, type_kind) is an `Option` whose `none` stands for -1.
use semindex.Base.{ℕ, Bool, true, false, ◌&&◌, Option, none, some, List, Text, text_eq, ◌==◌}

-- enum stored_record_kind
pub data StoredKind : Type 0 where
  stored_symbol stored_use : StoredKind

-- The value of the enumerator, as the column `record` holds it.
abbrev pub stored_code : StoredKind → ℕ
stored_code stored_symbol = 0
stored_code stored_use = 1

-- `records` and `staging_records`, without the file
pub record RecordBody : Type 0 where
  pub symbol : Text
  pub stored : StoredKind
  pub action : ℕ
  pub kind : ℕ
  pub mode : ℕ
  pub line : ℕ
  pub column : ℕ
  pub context : Text
  pub usr_id : Option ℕ
  pub context_usr_id : Option ℕ
  pub is_local : ℕ

-- `symbol_types` and `staging_symbol_types`
pub record SymbolTypeBody : Type 0 where
  pub symbol : Text
  pub kind : ℕ
  pub usr_id : ℕ
  pub declared_type : Text
  pub canonical_type : Text
  pub type_symbol : Text
  pub type_kind : Option ℕ
  pub type_usr_id : ℕ

-- `function_types` and `staging_function_types`
pub record FunctionTypeBody : Type 0 where
  pub symbol : Text
  pub usr_id : ℕ
  pub position : Option ℕ
  pub name : Text
  pub declared_type : Text
  pub canonical_type : Text
  pub type_symbol : Text
  pub type_kind : Option ℕ
  pub type_usr_id : ℕ
  pub variadic : ℕ

-- `symbol_properties` and `staging_symbol_properties`
pub record PropertyBody : Type 0 where
  pub symbol : Text
  pub kind : ℕ
  pub usr_id : ℕ
  pub properties : ℕ

abbrev pub opt_eq : Option ℕ → Option ℕ → Bool
opt_eq none none = true
opt_eq (some a) (some b) = a == b
opt_eq _ _ = false

-- PRIMARY KEY(symbol, record, action, kind, mode, file, line, column), without the file
unfoldable pub same_record : RecordBody → RecordBody → Bool
same_record a b =
    text_eq a.symbol b.symbol
    && stored_code a.stored == stored_code b.stored
    && a.action == b.action
    && a.kind == b.kind
    && a.mode == b.mode
    && a.line == b.line
    && a.column == b.column

-- PRIMARY KEY of the symbol types: every column
unfoldable pub same_symbol_type : SymbolTypeBody → SymbolTypeBody → Bool
same_symbol_type a b =
    text_eq a.symbol b.symbol
    && a.kind == b.kind
    && a.usr_id == b.usr_id
    && text_eq a.declared_type b.declared_type
    && text_eq a.canonical_type b.canonical_type
    && text_eq a.type_symbol b.type_symbol
    && opt_eq a.type_kind b.type_kind
    && a.type_usr_id == b.type_usr_id

-- PRIMARY KEY of the function types: every column but `name` and `variadic`
unfoldable pub same_function_type : FunctionTypeBody → FunctionTypeBody → Bool
same_function_type a b =
    text_eq a.symbol b.symbol
    && a.usr_id == b.usr_id
    && opt_eq a.position b.position
    && text_eq a.declared_type b.declared_type
    && text_eq a.canonical_type b.canonical_type
    && text_eq a.type_symbol b.type_symbol
    && opt_eq a.type_kind b.type_kind
    && a.type_usr_id == b.type_usr_id

-- PRIMARY KEY(symbol, kind, usr_id, file), without the file
unfoldable pub same_property : PropertyBody → PropertyBody → Bool
same_property a b = text_eq a.symbol b.symbol && a.kind == b.kind && a.usr_id == b.usr_id

-- `files`; a time and a size are those of `stat`
pub record FileRow : Type 0 where
  pub id : ℕ
  pub variant : Text
  pub path : Text
  pub mtime_ns : ℕ
  pub size : ℕ

-- `variants`; a NULL column is `none`
pub record VariantRow : Type 0 where
  pub name : Text
  pub git_commit : Option Text
  pub repository_root : Option Text

-- `staging_files`
pub record StagingFile : Type 0 where
  pub path : Text
  pub mtime_ns : ℕ
  pub size : ℕ
  pub is_main : Bool
  pub ordinal : Option ℕ
  pub fingerprint : Option Text
  pub cached : Bool

-- The database: `PRAGMA user_version`, whether there is a table, and the tables. A row of the record
-- tables and a fingerprint stand beside their file's id.
pub record Db : Type 0 where
  pub version : ℕ
  pub has_tables : Bool
  pub files : List FileRow
  pub records : List (ℕ × RecordBody)
  pub symbol_types : List (ℕ × SymbolTypeBody)
  pub function_types : List (ℕ × FunctionTypeBody)
  pub symbol_properties : List (ℕ × PropertyBody)
  pub fingerprints : List (ℕ × Text)
  pub variants : List VariantRow

-- The temporary tables of one connection. A row of the record tables stands beside its path.
pub record Staging : Type 0 where
  pub files : List StagingFile
  pub records : List (Text × RecordBody)
  pub symbol_types : List (Text × SymbolTypeBody)
  pub function_types : List (Text × FunctionTypeBody)
  pub symbol_properties : List (Text × PropertyBody)
