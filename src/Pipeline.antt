-- ===== src/Pipeline.antt =====
-- index_pipeline_run of lib/semindex_pipeline/index_pipeline.c: the parser, the symbol database and
-- the command database one after the other. What the parser and libgit2 give is a parameter, and the
-- traces are left out.
pub mod Persisted
use semindex.Base.{
  ℕ, Bool, true, false, not, ◌&&◌, ◌||◌, Option, none, some, Text, is_some, if◌then◌else◌,
}
use semindex.Repository.{Host, repository_root, repository_root_explicit}
use semindex.CommandLine.{GitCommit, commit_disabled, commit_auto, commit_explicit}
use semindex.Store.Index.{Index}
use semindex.Store.Session.{World}
use semindex.Store.Run.{StoreRequest, index_db_store}
use semindex.CommandDb.{CompileCommand}
use semindex.CommandDb.Connection.{Connection}
use semindex.CommandDb.Store.{CommandRequest, command_db_store}

-- index_pipeline_input_t
pub data Input : Type 0 where
  input_command input_compile_commands : Input

-- index_pipeline_storage_t
pub data Storage : Type 0 where
  output_only store_symbols store_symbols_and_command : Storage

-- index_pipeline_partial_t
pub data Partial : Type 0 where
  store_partial return_partial : Partial

-- index_pipeline_stage_t
pub data Stage : Type 0 where
  stage_none stage_create stage_repository_root stage_frontend stage_fingerprint
        stage_symbol_database stage_command_database :
      Stage

-- semindex_index_status_t
pub data Status : Type 0 where
  index_clean index_partial index_failed : Status

-- semindex_git_provenance_data_t
pub record Provenance : Type 0 where
  pub repository_root : Option Text
  pub commit : Option Text

-- What the parser and libgit2 answer: whether semindex_create succeeds, what semindex_index_command
-- or semindex_index_file returns, semindex_get_index_result, the index itself,
-- semindex_get_compile_command, whether semindex_build_file_fingerprints succeeds, and
-- semindex_git_provenance.
pub record Frontend : Type 0 where
  pub created : Bool
  pub returned_zero : Input → Bool
  pub status : Input → Option Status
  pub index : Input → Index
  pub compile_command : Option CompileCommand
  pub fingerprinted : Bool
  pub git_provenance : Option Text → Provenance

-- index_pipeline_request_t, without what the parser alone reads
pub record Request : Type 0 where
  pub input : Input
  pub storage : Storage
  pub partial : Partial
  pub command : Option CompileCommand
  pub source_file : Option Text
  pub symbol_database : Option Text
  pub commands_database : Option Text
  pub variant : Option Text
  pub repository_root : Option Text
  pub git_commit : Option Text
  pub git_commit_mode : GitCommit
  pub include_local : Bool

-- index_pipeline_result_t with the value that is returned: `ok` is 0
pub record Result : Type 0 where
  pub ok : Bool
  pub failed_stage : Stage
  pub persisted : Storage
  pub command : Option CompileCommand

-- The two databases
pub record Databases : Type 0 where
  pub symbols : World
  pub commands : Connection

module _ (h : Host) (fe : Frontend) (r : Request) where
  -- `return -1`, or `goto out` with `ret` -1
  abbrev pub stop : Stage → Storage → Option CompileCommand → Databases → Result × Databases
  stop stage persisted command s =
      (record { ok = false; failed_stage = stage; persisted = persisted; command = command }, s)

  abbrev pub succeed : Storage → Option CompileCommand → Databases → Result × Databases
  succeed persisted command s =
      (record { ok = true; failed_stage = stage_none; persisted = persisted; command = command }, s)

  -- store_command
  abbrev pub command_request : CompileCommand → CommandRequest
  command_request c = record {
    path = r.commands_database;
    variant = r.variant;
    directory = some c.directory;
    file = some c.file;
    argv = some c.argv;
  }

  abbrev pub end_command :
      Option CompileCommand → Option (Unit {0}) → Databases → Result × Databases
  end_command command none s = stop stage_command_database store_symbols command s
  end_command command (some u) s = succeed store_symbols_and_command command s

  abbrev pub store_command : Option CompileCommand → Databases → Result × Databases
  store_command none s = stop stage_command_database store_symbols none s
  store_command (some c) s =
      let (done, w) = command_db_store h (command_request c) s.commands in
      end_command (some c) done (record s { commands = w })

  -- `request->storage != INDEX_PIPELINE_STORE_SYMBOLS_AND_COMMAND`
  abbrev pub after_symbols : Storage → Option CompileCommand → Databases → Result × Databases
  after_symbols store_symbols_and_command command s = store_command command s
  after_symbols store_symbols command s = succeed store_symbols command s
  after_symbols output_only command s = succeed store_symbols command s

  abbrev pub end_symbols :
      Option CompileCommand → Option (Unit {0}) → Databases → Result × Databases
  end_symbols command none s = stop stage_symbol_database output_only command s
  end_symbols command (some u) s = after_symbols r.storage command s

  -- What libgit2 is asked for, from the given root or the source
  abbrev pub provenance_of : GitCommit → Option Text → Provenance
  provenance_of commit_auto (some root) = fe.git_provenance (some root)
  provenance_of commit_auto none = fe.git_provenance r.source_file
  provenance_of commit_disabled root = record { repository_root = none; commit = none }
  provenance_of commit_explicit root = record { repository_root = none; commit = none }

  abbrev pub commit_of : GitCommit → Provenance → Option Text
  commit_of commit_explicit p = r.git_commit
  commit_of commit_auto p = p.commit
  commit_of commit_disabled p = none

  -- The given root, or that of libgit2, or the one that is found from the source
  abbrev pub chosen_root : Option Text → Option Text → Option Text
  chosen_root (some root) git = some root
  chosen_root none (some root) = some root
  chosen_root none none = repository_root h r.source_file

  abbrev pub symbol_request : Option Text → StoreRequest
  symbol_request given =
      let provenance = provenance_of r.git_commit_mode given in
      record {
        path = r.symbol_database;
        index = some (fe.index r.input);
        main_file = r.source_file;
        variant = r.variant;
        repository_root = chosen_root given provenance.repository_root;
        git_commit = commit_of r.git_commit_mode provenance;
        include_local = r.include_local;
      }

  unfoldable pub store_index : Option Text → Option CompileCommand → Databases → Result × Databases
  store_index given command s =
      let (done, w) = index_db_store h (symbol_request given) s.symbols in
      end_symbols command done (record s { symbols = w })

  -- `if (request->repository_root)`: a root that is not found is an error
  abbrev pub with_root : Option Text → Option CompileCommand → Databases → Result × Databases
  with_root none command s = store_index none command s
  with_root (some path) command s = elim (repository_root_explicit h (some path)) [
    | none ↦ stop stage_repository_root output_only command s
    | some root ↦ store_index (some root) command s
  ]

  abbrev pub check_fingerprints : Option CompileCommand → Databases → Result × Databases
  check_fingerprints command s =
      if fe.fingerprinted
      then with_root r.repository_root command s
      else stop stage_fingerprint output_only command s

  -- What is returned at once
  abbrev pub is_returned : Partial → Status → Bool
  is_returned store_partial status = false
  is_returned return_partial index_clean = not (fe.returned_zero r.input)
  is_returned return_partial index_partial = true
  is_returned return_partial index_failed = not (fe.returned_zero r.input)

  abbrev pub is_output : Storage → Bool
  is_output output_only = true
  is_output store_symbols = false
  is_output store_symbols_and_command = false

  abbrev pub result_command : Input → Option CompileCommand
  result_command input_command = r.command
  result_command input_compile_commands = fe.compile_command

  unfoldable pub after_frontend : Option Status → Databases → Result × Databases
  after_frontend none s = stop stage_frontend output_only none s
  after_frontend (some index_failed) s = stop stage_frontend output_only none s
  after_frontend (some index_clean) s =
      if is_returned r.partial index_clean || is_output r.storage
      then succeed output_only (result_command r.input) s
      else check_fingerprints (result_command r.input) s
  after_frontend (some index_partial) s =
      if is_returned r.partial index_partial || is_output r.storage
      then succeed output_only (result_command r.input) s
      else check_fingerprints (result_command r.input) s

  -- index_pipeline_run
  unfoldable pub index_pipeline_run : Databases → Result × Databases
  index_pipeline_run s =
      if fe.created
      then after_frontend (fe.status r.input) s
      else stop stage_create output_only none s
