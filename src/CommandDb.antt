-- ===== src/CommandDb.antt =====
-- The command database of lib/semindex_command_db: the commands that files were compiled with, by
-- variant and file. The arguments of a command are one blob of C strings.
pub mod Arguments
pub mod Connection
pub mod Store
pub mod Load
pub mod Export
use semindex.Base.{
  ℕ, Bool, true, false, ◌&&◌, Option, none, some, List, [], ◌∷◌, ◌++◌, Text, codes, text_eq, ◌==◌,
  if◌then◌else◌,
}
use semindex.Repository.{Host, parent}

-- semindex_compile_command_t
pub record CompileCommand : Type 0 where
  pub directory : Text
  pub file : Text
  pub argv : List Text

-- SEMINDEX_COMMAND_DATABASE
abbrev pub default_name : Text
default_name = codes "commands.db"

-- command_db_default_path: beside the index
unfoldable pub command_db_default_path : Text → Text
command_db_default_path index_database = elim (parent index_database) [
  | none ↦ default_name
  | some dir ↦ dir ++ b'/' ∷ default_name
]

-- `sqlite3_mprintf("%s/%s", directory, path)`, or the path if it is absolute
abbrev pub joined : Text → Text → Text
joined directory [] = directory ++ b'/' ∷ []
joined directory (c ∷ path) = if c == b'/' then c ∷ path else directory ++ b'/' ∷ c ∷ path

-- realpath, or the path itself where that fails
abbrev pub resolved : Host → Text → Text
resolved h path = elim (h.realpath path) [ none ↦ path | some p ↦ p ]

-- command_db_absolute_path
unfoldable pub command_db_absolute_path : Host → Text → Text → Text
command_db_absolute_path h directory path = resolved h (joined directory path)

-- A row of the table `commands`, whose key is the variant and the file
pub record CommandRow : Type 0 where
  pub variant : Text
  pub file : Text
  pub directory : Text
  pub arguments : Text

-- The file of the database; `none` is a missing table.
pub record CommandDb : Type 0 where
  pub version : ℕ
  pub commands : Option (List CommandRow)

-- COMMAND_DB_SCHEMA_VERSION
abbrev pub command_db_schema_version : ℕ
command_db_schema_version = 1

-- variant = ?1 AND file = ?2
abbrev pub is_key : Text → Text → CommandRow → Bool
is_key variant file r = text_eq r.variant variant && text_eq r.file file
