-- ===== src/CommandDb/Load.antt =====
-- command_db_load of lib/semindex_command_db/command_db_reader.c and command_db_open_reader of
-- lib/semindex_command_db/command_db_common.c.
pub mod Found
use semindex.Base.{
  ℕ, Bool, true, false, Option, none, some, List, [], ◌∷◌, find, Text, codes, is_empty, is_some,
  ◌==◌, if◌then◌else◌,
}
use semindex.Base.Effects.{◌>>=◌, ◌>>◌, pure, fail, gets}
use semindex.Repository.{Host}
use semindex.CommandDb.{
  CompileCommand, CommandDb, CommandRow, command_db_schema_version, is_key,
  command_db_absolute_path,
}
use semindex.CommandDb.Arguments.{unpack_arguments}
use semindex.CommandDb.Connection.{M, command_db_prepare, read_once, schema_version, close}

unfoldable pub command_db_open_reader : M (Unit {0})
command_db_open_reader = do
  read_once
  read_once
  version ← schema_version
  if version == command_db_schema_version then pure tt else fail

-- SELECT directory, file, arguments FROM commands WHERE variant = ?1 AND file = ?2
abbrev pub selected : Text → Text → CommandDb → Option CommandRow
selected variant file db = elim db.commands [
  | none ↦ none
  | some rows ↦ find (is_key variant file) rows
]

abbrev pub of_arguments : CommandRow → Option (List Text) → M (Option CompileCommand)
of_arguments r none = fail
of_arguments r (some argv) =
    pure (some (record { directory = r.directory; file = r.file; argv = argv }))

-- From the row on. The result 1 is `some none`, and a row whose arguments are malformed is an error.
abbrev pub of_row : Option CommandRow → M (Option CompileCommand)
of_row none = pure none
of_row (some r) = of_arguments r (unpack_arguments r.arguments)

unfoldable pub read_command : Text → Text → M (Option CompileCommand)
read_command variant abs_file = do
  command_db_open_reader
  command_db_prepare (λ db. is_some db.commands)
  read_once
  read_once
  read_once
  row ← gets (λ w. selected variant abs_file w.db)
  of_row row

unfoldable pub read_and_close : Text → Text → M (Option CompileCommand)
read_and_close variant abs_file w = let (r, w') = read_command variant abs_file w in (r, close w')

-- command_db_load: 0 is a command, 1 is `some none` and -1 is `none`.
abbrev pub load_if : Host → Option Text → Option Text → Option Text → M (Option CompileCommand)
load_if h (some path) (some variant) (some file) =
    if is_empty variant
    then fail
    else read_and_close variant (command_db_absolute_path h (codes ".") file)
load_if h _ _ _ = fail

unfoldable pub command_db_load :
    Host → Option Text → Option Text → Option Text → M (Option CompileCommand)
unfolding read_and_close
command_db_load h path variant file = load_if h path variant file
