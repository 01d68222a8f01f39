-- ===== src/Tests/CommandDb.antt =====
-- The witnesses for the command database and the indexing pipeline.
use mathlib.Core.Path.{subst}
use semindex.Base.Effects.{◌>>=◌, pure, gets}
use semindex.Base.{
  find, any, text_eq, inl, true, false, none, some, List, [], ◌∷◌, ◌++◌, Text, codes, All, ◌≡◌,
  refl, ◌↔◌, ◌≤◌, length, is_some, arith,
}
use semindex.Repository.{Host}
use semindex.CommandDb.{CompileCommand, command_db_absolute_path}
use semindex.CommandDb.Arguments.{
  pack, pack_size, pack_arguments, unpack_arguments, size_max, c_string, count_nuls, unpack,
  ends_in_nul,
}
use semindex.CommandDb.Arguments.RoundTrip.{
  IsCString, IsNonempty, unpack_arguments_iff, pack_arguments_iff,
}
use semindex.Tests.Samples
use semindex.Tests.Samples.{sample_index, main_path, world}
use semindex.CommandLine.{commit_disabled}
use semindex.Pipeline.{
  Frontend, Request, Databases, index_clean, input_command, store_symbols_and_command,
  store_partial, index_pipeline_run,
}
use semindex.Pipeline.Persisted.{Reported, index_pipeline_run-Reported}
use semindex.CommandDb.Connection.{
  Answer, Connection, settle, call_retried, call_with, call_once, begin_immediate, commit, exec_sql,
  command_db_prepare, read_once, step_once, or_rollback, schema_version, close,
}
use semindex.CommandDb.Store.{
  CommandRequest, requested_row, command_db_store, create_schema, init_schema, open_writer,
  upsert_rows, row_of, write_row, write_and_close,
}
use semindex.CommandDb.Store.View.{view}
use semindex.CommandDb.Store.Busy.{command_db_store-busy}
use semindex.CommandDb.Store.History.{store_all, after}
use semindex.CommandDb.Load.{command_db_open_reader, read_command, read_and_close, command_db_load}
use semindex.CommandDb.Load.Found.{store_all-load}
use semindex.CommandDb.Export.{write_json_string}
use semindex.CommandDb.Export.Json.{read_json_string, read_json_string-write}

abbrev arguments : List Text
arguments = codes "cc" ∷ codes "a.c" ∷ []

arguments-clean : All IsCString arguments
arguments-clean =
    ((ground arith, (ground arith, tt)), ((ground arith, (ground arith, (ground arith, tt))), tt))

abbrev host : Host
host = record { realpath = λ p. none; stat = λ p. none; lstat_exists = λ p. false }

abbrev request : CommandRequest
request = record {
  path = some (codes "db");
  variant = some (codes "v");
  directory = some (codes "/d");
  file = some (codes "a.c");
  argv = some arguments;
}

clean : (argv : List Text) → request.argv ≡ some argv → All IsCString argv
clean argv e = let same : arguments ≡ argv = cc e in subst (All IsCString) same arguments-clean

-- The database is new, and busy twice at first.
abbrev connection : Connection
connection = record {
  db = record { version = 0; commands = none };
  saved = none;
  retried = Answer.busy ∷ Answer.busy ∷ [];
  once = [];
  others = [];
}

unpack_arguments_iff_example :
    (unpack_arguments (pack arguments) ≡ some arguments)
    ↔ ((pack arguments ≡ pack arguments) × All IsCString arguments × IsNonempty arguments)
unpack_arguments_iff_example = unpack_arguments_iff (pack arguments) arguments

pack_arguments_iff_example : (pack_arguments arguments ≡ some (pack arguments, 7)) ↔ (
    (pack arguments ≡ pack arguments)
    × (7 ≡ length (pack arguments))
    × (length (pack arguments) ≤ size_max))
pack_arguments_iff_example = pack_arguments_iff arguments (pack arguments) 7

read_json_string-write_example :
    read_json_string (write_json_string (codes "a\"b") ++ codes ", ")
    ≡ some (codes "a\"b", codes ", ")
read_json_string-write_example = read_json_string-write (codes "a\"b") (codes ", ")

command_db_store-busy_example : is_some (command_db_store host request connection).0 ≡ true
unfolding requested_row
command_db_store-busy_example =
    command_db_store-busy host request connection _ refl tt tt refl refl (inl (refl, refl))

abbrev loaded : CompileCommand
loaded = record { directory = codes "/d"; file = codes "/d/a.c"; argv = arguments }

-- The one request, which is stored though the database is busy, is loaded again.
loads :
    (command_db_load host
      (some (codes "db"))
      (some (codes "v"))
      (some (codes "/d/a.c"))
      (store_all host (request ∷ []) connection).1).0
    ≡ some (some loaded)
unfolding settle call_retried call_with call_once begin_immediate commit exec_sql command_db_prepare
    read_once step_once or_rollback schema_version close create_schema init_schema open_writer
    upsert_rows row_of requested_row write_row write_and_close command_db_store
    command_db_open_reader read_command read_and_close command_db_load pack pack_size pack_arguments
    unpack unpack_arguments ends_in_nul count_nuls c_string command_db_absolute_path find any
    text_eq ◌>>=◌ pure gets
loads = refl

store_all-load_example :
    some loaded
    ≡ after host
        (request ∷ [])
        (store_all host (request ∷ []) connection).0
        (view connection.db)
        (codes "v")
        (command_db_absolute_path host (codes ".") (codes "/d/a.c"))
store_all-load_example =
    store_all-load host (request ∷ []) connection (codes "db") (codes "v") (codes "/d/a.c")
      (clean, tt) refl refl (some loaded) loads

-- A run that stores the sample's symbols and its command.
abbrev frontend : Frontend
frontend = record {
  created = true;
  returned_zero = λ input. true;
  status = λ input. some index_clean;
  index = λ input. sample_index;
  compile_command = none;
  fingerprinted = true;
  git_provenance = λ path. record { repository_root = none; commit = none };
}

abbrev pipeline_request : Request
pipeline_request = record {
  input = input_command;
  storage = store_symbols_and_command;
  partial = store_partial;
  command = some loaded;
  source_file = some main_path;
  symbol_database = some (codes "symbols");
  commands_database = some (codes "commands");
  variant = some (codes "v");
  repository_root = none;
  git_commit = none;
  git_commit_mode = commit_disabled;
  include_local = false;
}

loaded-clean : (c : CompileCommand) → some loaded ≡ some c → All IsCString c.argv
loaded-clean c e =
    let same : loaded ≡ c = cc e in
    subst (λ (d : CompileCommand). All IsCString d.argv) same arguments-clean

abbrev databases : Databases
databases = record { symbols = world []; commands = connection }

index_pipeline_run-Reported_example :
    Reported Samples.host frontend pipeline_request databases
      (index_pipeline_run Samples.host frontend pipeline_request databases).0
      (index_pipeline_run Samples.host frontend pipeline_request databases).1
index_pipeline_run-Reported_example =
    index_pipeline_run-Reported Samples.host frontend pipeline_request databases refl refl refl
      loaded-clean
