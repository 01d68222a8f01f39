-- ===== src/Tests/Samples.antt =====
-- A small repository, what the parser found in it, and the empty index.
use semindex.Base.{
  Bool, true, false, none, some, List, [], ◌∷◌, Text, codes, text_eq, if◌then◌else◌,
}
use semindex.Names.Kinds.{function, call, var}
use semindex.Repository.{Stat, Host}
use semindex.Store.Index.{Symbol, Use, Index}
use semindex.Store.Rows.{Db, Staging}
use semindex.Store.Session.{World}
use semindex.Store.Run.{StoreRequest}

abbrev pub main_path : Text
main_path = codes "/r/a.c"

abbrev pub header_path : Text
header_path = codes "/r/h.h"

abbrev pub stat_main : Stat
stat_main = record {
  dev = 1;
  ino = 10;
  seconds = 5;
  nanoseconds = 0;
  size = 40;
  is_directory = false;
}

abbrev pub stat_header : Stat
stat_header = record {
  dev = 1;
  ino = 11;
  seconds = 3;
  nanoseconds = 7;
  size = 20;
  is_directory = false;
}

abbrev pub host : Host
host = record {
  realpath = λ p. some p;
  stat = λ p.
      if text_eq p main_path
      then some stat_main
      else if text_eq p header_path
      then some stat_header
      else none;
  lstat_exists = λ p. text_eq p (codes "/r/.git");
}

abbrev pub main_symbol : Symbol
main_symbol = record {
  kind = function;
  name = some (codes "main");
  owner = none;
  type = some (codes "int (void)");
  canonical_type = some (codes "int (void)");
  type_kind = var;
  type_symbol = none;
  type_usr_id = 0;
  usr = some (codes "c:@F@main");
  usr_id = 17;
  context = none;
  file = some main_path;
  file_index = 0;
  line = 2;
  column = 5;
  is_local = 0;
  definition = 1;
  properties = 0;
}

abbrev pub header_symbol : Symbol
header_symbol = record {
  kind = function;
  name = some (codes "f");
  owner = none;
  type = some (codes "void (void)");
  canonical_type = none;
  type_kind = var;
  type_symbol = none;
  type_usr_id = 0;
  usr = some (codes "c:@F@f");
  usr_id = 18;
  context = none;
  file = some header_path;
  file_index = 1;
  line = 1;
  column = 6;
  is_local = 0;
  definition = 0;
  properties = 0;
}

abbrev pub call_of_f : Use
call_of_f = record {
  kind = call;
  symbol_kind = function;
  mode = 4;
  name = some (codes "f");
  owner = none;
  usr = some (codes "c:@F@f");
  context = some (codes "main");
  context_usr = some (codes "c:@F@main");
  usr_id = 18;
  context_usr_id = 17;
  file = some main_path;
  file_index = 0;
  line = 3;
  column = 2;
  is_local = 0;
}

abbrev pub sample_index : Index
sample_index = record {
  symbols = main_symbol ∷ header_symbol ∷ [];
  uses = call_of_f ∷ [];
  signatures = [];
  fingerprints = λ _.
      (record { file = main_path; fingerprint = 1 ∷ []; record_count = 2 })
      ∷ (record { file = header_path; fingerprint = 2 ∷ []; record_count = 1 })
      ∷ [];
}

abbrev pub request : StoreRequest
request = record {
  path = some (codes "/r/semindex.db");
  index = some sample_index;
  main_file = some main_path;
  variant = some (codes "general");
  repository_root = none;
  git_commit = none;
  include_local = true;
}

abbrev pub empty_db : Db
empty_db = record {
  version = 0;
  has_tables = false;
  files = [];
  records = [];
  symbol_types = [];
  function_types = [];
  symbol_properties = [];
  fingerprints = [];
  variants = [];
}

abbrev pub no_rows : Staging
no_rows = record {
  files = [];
  records = [];
  symbol_types = [];
  function_types = [];
  symbol_properties = [];
}

-- A connection to an empty file, where the calls fail as `faults` says.
abbrev pub world : List Bool → World
world faults = record {
  db = empty_db;
  staging = no_rows;
  saved = none;
  total_changes = 0;
  changes = 0;
  faults = faults;
  writers = [];
}
