-- ===== src/Store/Open.antt =====
-- init_schema, open_writer, index_db_create and create_staging of
-- lib/semindex_index_db/index_db_writer.c. The pragmas and the calls that open the file succeed or
-- fail and change nothing that the model holds.
pub mod Version
use semindex.Base.{ℕ, zero, suc, not, true, Text, [], Option, none, some, ◌==◌, if◌then◌else◌}
use semindex.Store.Rows.{Staging}
use semindex.Store.Session.{
  M, ◌>>=◌, ◌>>◌, pure, gets, fail, exec_read, exec_db, exec_staging, begin, commit, or_rollback,
  close,
}

-- INDEX_SCHEMA_VERSION
abbrev pub schema_version : ℕ
schema_version = 18

-- The CREATE statements of `schema`, of which there are twelve.
unfoldable pub create_tables : ℕ → M (Unit {0})
create_tables zero = pure tt
create_tables (suc n) = do exec_db (λ db. record db { has_tables = true }); create_tables n

-- The loop over `schema`, whose last statement sets the version.
unfoldable pub create_all : M (Unit {0})
create_all = do create_tables 12; exec_db (λ db. record db { version = schema_version })

-- From `has_user_tables` on.
unfoldable pub create_in_empty : M (Unit {0})
create_in_empty = do
  exec_read
  has_tables ← gets (λ w. w.db.has_tables)
  if has_tables then fail else create_all

-- What stands between BEGIN and COMMIT.
unfoldable pub create_schema : M (Unit {0})
create_schema = do
  exec_read
  version ← gets (λ w. w.db.version)
  if version == schema_version
      then pure tt
      else if not (version == 0)
      then fail
      else create_in_empty

unfoldable pub init_schema : M (Unit {0})
init_schema = do
  exec_read
  exec_read
  version ← gets (λ w. w.db.version)
  if version == schema_version then pure tt else do begin; or_rollback create_schema; commit

-- The directory, the file, the busy timeout and three pragmas.
unfoldable pub open_writer : M (Unit {0})
open_writer = do exec_read; exec_read; exec_read; exec_read; exec_read; exec_read; init_schema

-- index_db_create; `none` is a missing path. The result of the last close counts.
unfoldable pub index_db_create : Option Text → M (Unit {0})
index_db_create none w = (none, w)
index_db_create (some path) w = let (r, w') = (open_writer >> exec_read) w in (r, close w')

abbrev pub no_staging : Staging
no_staging = record {
  files = [];
  records = [];
  symbol_types = [];
  function_types = [];
  symbol_properties = [];
}

unfoldable pub create_staging : M (Unit {0})
create_staging = do
  exec_staging (λ db st. record st { files = [] }) (λ st. 0)
  exec_staging (λ db st. record st { records = [] }) (λ st. 0)
  exec_staging (λ db st. record st { symbol_types = [] }) (λ st. 0)
  exec_staging (λ db st. record st { function_types = [] }) (λ st. 0)
  exec_staging (λ db st. record st { symbol_properties = [] }) (λ st. 0)
