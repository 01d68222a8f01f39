-- ===== src/CommandDb/Store.antt =====
-- init_schema, open_writer and command_db_store of lib/semindex_command_db/command_db_writer.c. An
-- allocation does not fail.
pub mod View
pub mod Busy
pub mod History
pub mod Refines
use semindex.Base.{
  ℕ, Bool, true, false, not, ◌||◌, Option, none, some, List, [], ◌∷◌, ◌++◌, map, any, Text,
  is_empty, is_some, ◌==◌, if◌then◌else◌, take,
}
use semindex.Base.Effects.{◌>>=◌, ◌>>◌, pure, fail}
use semindex.Repository.{Host}
use semindex.CommandDb.{
  CommandDb, CommandRow, command_db_schema_version, is_key, resolved, command_db_absolute_path,
}
use semindex.CommandDb.Arguments.{pack_arguments}
use semindex.CommandDb.Connection.{
  M, begin_immediate, commit, exec_sql, command_db_prepare, read_once, step_once, or_rollback,
  schema_version, close,
}

-- CREATE TABLE commands, which is an error where there is one
abbrev pub create_table : CommandDb → Option CommandDb
create_table db = if is_some db.commands then none else some (record db { commands = some [] })

abbrev pub set_version : CommandDb → Option CommandDb
set_version db = some (record db { version = command_db_schema_version })

-- What stands between BEGIN and `commit:`
unfoldable pub create_schema : M (Unit {0})
create_schema = do
  version ← schema_version
  if version == command_db_schema_version
      then pure tt
      else do exec_sql create_table; exec_sql set_version

unfoldable pub init_schema : M (Unit {0})
init_schema = do
  version ← schema_version
  if version == command_db_schema_version
      then pure tt
      else if not (version == 0)
      then fail
      else do begin_immediate; or_rollback create_schema; commit

-- The directory, the file and its timeout, and two pragmas
unfoldable pub open_writer : M (Unit {0})
open_writer = do
  read_once
  read_once
  read_once
  exec_sql (λ db. some db)
  exec_sql (λ db. some db)
  init_schema

-- INSERT … ON CONFLICT(variant, file) DO UPDATE SET directory, arguments
abbrev pub update_row : CommandRow → CommandRow → CommandRow
update_row row r =
    if is_key row.variant row.file r
    then record r { directory = row.directory; arguments = row.arguments }
    else r

unfoldable pub upsert_rows : CommandRow → List CommandRow → List CommandRow
upsert_rows row rows =
    if any (is_key row.variant row.file) rows then map (update_row row) rows else rows ++ row ∷ []

abbrev pub upsert : CommandRow → CommandDb → Option CommandDb
upsert row db = elim db.commands [
  | none ↦ none
  | some rows ↦ some (record db { commands = some (upsert_rows row rows) })
]

-- The arguments of command_db_store, of which each may be NULL. The length of `argv` is `argc`.
pub record CommandRequest : Type 0 where
  pub path : Option Text
  pub variant : Option Text
  pub directory : Option Text
  pub file : Option Text
  pub argv : Option (List Text)

abbrev pub no_arguments : List Text → Bool
no_arguments [] = true
no_arguments (arg ∷ rest) = false

-- `!path || !variant || !variant[0] || !directory || !file || !argv || !argc`, and then the row
-- with its paths and its blob
abbrev pub row_with : Host → Text → Text → Text → Text → CommandRow
row_with h variant directory file blob =
    let abs_directory = resolved h directory in
    record {
      variant = variant;
      file = command_db_absolute_path h abs_directory file;
      directory = abs_directory;
      arguments = blob;
    }

-- sqlite3_bind_blob64 takes the bytes of the given size.
unfoldable pub row_of : Host → Text → Text → Text → List Text → Option CommandRow
unfolding pack_arguments
row_of h variant directory file argv = elim (pack_arguments argv) [
  | none ↦ none
  | some (blob, size) ↦ some (row_with h variant directory file (take size blob))
]

abbrev pub row_if :
    Host → Option Text → Option Text → Option Text → Option (List Text) → Option CommandRow
row_if h (some variant) (some directory) (some file) (some argv) =
    if is_empty variant || no_arguments argv then none else row_of h variant directory file argv
row_if h _ _ _ _ = none

unfoldable pub requested_row : Host → CommandRequest → Option CommandRow
unfolding row_of
requested_row h r = if is_some r.path then row_if h r.variant r.directory r.file r.argv else none

unfoldable pub write_row : CommandRow → M (Unit {0})
write_row row = do
  open_writer
  command_db_prepare (λ db. is_some db.commands)
  read_once
  read_once
  read_once
  read_once
  step_once (upsert row)

-- `out:` closes the connection
unfoldable pub write_and_close : CommandRow → M (Unit {0})
write_and_close row w = let (r, w') = write_row row w in (r, close w')

abbrev pub store_row : Option CommandRow → M (Unit {0})
store_row none w = (none, w)
store_row (some row) w = write_and_close row w

-- command_db_store
unfoldable pub command_db_store : Host → CommandRequest → M (Unit {0})
unfolding requested_row
command_db_store h r = store_row (requested_row h r)
