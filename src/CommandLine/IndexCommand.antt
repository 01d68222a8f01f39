-- ===== src/CommandLine/IndexCommand.antt =====
-- The options that the commands which index share: lib/semindex_cmdline/index_command.c, with
-- semindex_default_database_path of lib/semindex_support/repository.c, and the
-- loop over them in tools/index/cmd.c. The handle of a trace is left out; whether one can be opened
-- is a parameter. A getopt option whose argument is required has one.
pub mod Commits
use semindex.Base.{
  Bool, true, false, not, ◌&&◌, ◌||◌, Option, none, some, List, [], ◌∷◌, ◌++◌, Text, codes,
  is_empty, if◌then◌else◌,
}
use semindex.Repository.{Host, repository_root}
use semindex.CommandDb.{command_db_default_path}
use semindex.CommandLine.{
  Scope, scope_project, GitCommit, commit_disabled, commit_auto, commit_explicit, parse_git_commit,
  parse_scope,
}
use semindex.Pipeline.{Request, Storage, output_only, store_symbols, store_symbols_and_command}

-- struct index_command_options
pub record IndexCommandOptions : Type 0 where
  pub database : Option Text
  pub commands_database : Option Text
  pub variant : Text
  pub repository_root : Option Text
  pub trace_path : Option Text
  pub git_commit : Option Text
  pub scope : Scope
  pub git_commit_mode : GitCommit
  pub include_local : Bool
  pub store_command : Bool

-- index_command_options_init
abbrev pub initial_options : IndexCommandOptions
initial_options = record {
  database = none;
  commands_database = none;
  variant = codes "general";
  repository_root = none;
  trace_path = none;
  git_commit = none;
  scope = scope_project;
  git_commit_mode = commit_disabled;
  include_local = true;
  store_command = true;
}

-- enum index_command_option, and the letters, with their arguments
pub data IndexCommandOption : Type 0 where
  opt_no_include_local opt_no_store_command opt_no_git_commit opt_other : IndexCommandOption
  opt_variant opt_commands_database opt_trace opt_git_commit opt_root opt_database opt_scope :
      Text → IndexCommandOption

-- -1, 0 and 1, with the options after it
pub data Parsed : Type 0 where
  refused unknown : Parsed
  parsed : IndexCommandOptions → Parsed

-- The argument, where parse_git_commit said that it is a commit
abbrev pub explicit_commit : GitCommit → Text → Option Text
explicit_commit commit_explicit argument = some argument
explicit_commit mode argument = none

abbrev pub set_git_commit : IndexCommandOptions → Text → Option GitCommit → Parsed
set_git_commit o argument none = refused
set_git_commit o argument (some mode) =
    parsed (record o { git_commit_mode = mode; git_commit = explicit_commit mode argument })

abbrev pub set_scope : IndexCommandOptions → Option Scope → Parsed
set_scope o none = refused
set_scope o (some scope) = parsed (record o { scope = scope })

-- index_command_parse_option
unfoldable pub parse_option : IndexCommandOptions → IndexCommandOption → Parsed
parse_option o opt_no_include_local = parsed (record o { include_local = false })
parse_option o opt_no_store_command = parsed (record o { store_command = false })
parse_option o opt_no_git_commit =
    parsed (record o { git_commit_mode = commit_disabled; git_commit = none })
parse_option o opt_other = unknown
parse_option o (opt_variant a) = parsed (record o { variant = a })
parse_option o (opt_commands_database a) = parsed (record o { commands_database = some a })
parse_option o (opt_trace a) = parsed (record o { trace_path = some a })
parse_option o (opt_git_commit a) = set_git_commit o a (parse_git_commit a)
parse_option o (opt_root a) = parsed (record o { repository_root = some a })
parse_option o (opt_database a) = parsed (record o { database = some a })
parse_option o (opt_scope a) = set_scope o (parse_scope a)

-- The default case of the loop; `none` where the command ends
unfoldable pub parse_options :
    IndexCommandOptions → List IndexCommandOption → Option IndexCommandOptions
unfolding parse_option
parse_options o [] = some o
parse_options o (a ∷ rest) = elim (parse_option o a) [
  | refused ↦ none
  | unknown ↦ none
  | parsed p ↦ parse_options p rest
]

abbrev pub below_root : Option Text → Text
below_root none = codes "./.semindex/semindex.db"
below_root (some root) = root ++ codes "/.semindex/semindex.db"

abbrev pub or_here : Option Text → Text
or_here none = codes "."
or_here (some path) = path

-- semindex_default_database_path(source_file, SEMINDEX_SYMBOL_DATABASE)
unfoldable pub default_database_path : Host → Option Text → Text
default_database_path h path = below_root (repository_root h (some (or_here path)))

abbrev pub database_or : Host → Option Text → Option Text → Text
database_or h source_file none = default_database_path h source_file
database_or h source_file (some path) = path

abbrev pub or_default : Text → Option Text → Option Text
or_default database none = some (command_db_default_path database)
or_default database (some path) = some path

abbrev pub traceable : (Text → Bool) → Option Text → Bool
traceable trace_opens none = true
traceable trace_opens (some path) = trace_opens path

-- index_command_prepare, without the case that no memory is left
unfoldable pub prepare :
    Host → (Text → Bool) → Option Text → Bool → IndexCommandOptions → Option IndexCommandOptions
prepare h trace_opens source_file only_output o =
    if is_empty o.variant || not (traceable trace_opens o.trace_path)
    then none
    else some (record o {
      database = some (database_or h source_file o.database);
      commands_database =
          if not only_output && o.store_command
          then or_default (database_or h source_file o.database) o.commands_database
          else o.commands_database;
    })

-- index_command_fill_request; a request has no scope, which the parser alone reads.
unfoldable pub fill_request : IndexCommandOptions → Request → Request
fill_request o r = record r {
  symbol_database = o.database;
  commands_database = o.commands_database;
  variant = some o.variant;
  repository_root = o.repository_root;
  git_commit = o.git_commit;
  git_commit_mode = o.git_commit_mode;
  include_local = o.include_local;
}

-- index_command_storage
unfoldable pub storage : IndexCommandOptions → Bool → Storage
storage o only_output =
    if only_output
    then output_only
    else if o.store_command
    then store_symbols_and_command
    else store_symbols
