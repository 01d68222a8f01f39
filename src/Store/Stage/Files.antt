-- ===== src/Store/Stage/Files.antt =====
-- init_stored_paths, stage_files and cached_files_valid of
-- lib/semindex_index_db/index_db_writer.c.
use semindex.Base.{
  ℕ, ◌+◌, ◌*◌, Bool, true, false, not, ◌&&◌, Option, none, some, List, [], ◌∷◌, map, Text, or_empty,
  text_eq, ◌==◌, if◌then◌else◌, any, ltb, set, length, replicate,
}
use semindex.Repository.{Host, Stat, repository_root, repository_path}
use semindex.Store.Index.{FileFingerprint, Index}
use semindex.Store.Rows.{FileRow, StagingFile, Db}
use semindex.Store.Session.{M, ◌>>=◌, ◌>>◌, pure, gets, fail, exec_read, exec_staging}
use semindex.Store.Sql.{upsert}
use semindex.Store.Stage.{StoredPaths}

abbrev root_of : Host → Option Text → Option Text → Option Text
root_of h none main_file = repository_root h main_file
root_of h (some r) main_file = some r

-- init_stored_paths; semindex_repository_path returns a path for each that it is given
unfoldable pub init_stored_paths : Host → Index → Option Text → Option Text → Bool → StoredPaths
init_stored_paths h s main_file given_root include_local =
    let root = root_of h given_root main_file in
    record {
      root = root;
      main_file = repository_path h root main_file;
      files =
          map (λ f. or_empty (repository_path h root (some f.file))) (s.fingerprints include_local);
    }

-- stat_mtime_ns
unfoldable pub stat_mtime_ns : Stat → ℕ
stat_mtime_ns st = st.seconds * 1000000000 + st.nanoseconds

abbrev mtime_of : Option Stat → ℕ
mtime_of none = 0
mtime_of (some st) = stat_mtime_ns st

abbrev size_of : Option Stat → ℕ
size_of none = 0
size_of (some st) = st.size

-- `have_main_stat && st.st_dev == main_stat.st_dev && st.st_ino == main_stat.st_ino`
abbrev same_file : Option Stat → Option Stat → Bool
same_file (some a) (some b) = a.dev == b.dev && a.ino == b.ino
same_file _ _ = false

abbrev main_stat : Host → Option Text → Option Stat
main_stat h none = none
main_stat h (some main_file) = h.stat main_file

-- The row that the loop binds for the i-th fingerprint.
unfoldable pub file_row : Host → Option Text → ℕ → Text → FileFingerprint → StagingFile
unfolding stat_mtime_ns
file_row h main_file i path f =
    let is_main = same_file (h.stat f.file) (main_stat h main_file) in
    record {
      path = path;
      mtime_ns = mtime_of (h.stat f.file);
      size = size_of (h.stat f.file);
      is_main = is_main;
      ordinal = some i;
      fingerprint = if is_main then none else some f.fingerprint;
      cached = false;
    }

abbrev pub same_path : StagingFile → StagingFile → Bool
same_path a b = text_eq a.path b.path

-- ON CONFLICT(path) DO UPDATE: all but `cached`
unfoldable pub replace_file : StagingFile → StagingFile → StagingFile
replace_file old new = record new { path = old.path; cached = old.cached }

-- ON CONFLICT(path) DO UPDATE for the main file: `ordinal` and `cached` stay
unfoldable pub replace_main : StagingFile → StagingFile → StagingFile
replace_main old new = record new { path = old.path; ordinal = old.ordinal; cached = old.cached }

unfoldable pub main_row : Host → Option Text → Text → StagingFile
unfolding stat_mtime_ns
main_row h main_file path = record {
  path = path;
  mtime_ns = mtime_of (main_stat h main_file);
  size = size_of (main_stat h main_file);
  is_main = true;
  ordinal = none;
  fingerprint = none;
  cached = false;
}

unfoldable pub insert_file : (StagingFile → StagingFile → StagingFile) → StagingFile → M (Unit {0})
insert_file update row =
    exec_staging (λ db st. record st { files = upsert same_path update st.files row }) (λ st. 1)

-- The loop over the fingerprints; returns the number of rows that are not the main file.
unfoldable pub insert_files : Host → Option Text → ℕ → List Text → List FileFingerprint → ℕ → M ℕ
unfolding file_row replace_file insert_file
insert_files h main_file i (path ∷ paths) (f ∷ rest) candidates =
    let row = file_row h main_file i path f in
    let rest_same = insert_files h main_file (i + 1) paths rest candidates in
    let rest_more =
      insert_files h main_file (i + 1) paths rest
        (if row.is_main then candidates else candidates + 1) in
    if f.record_count == 0 then rest_same else (do insert_file replace_file row; rest_more)
insert_files h main_file i _ _ candidates = pure candidates

unfoldable pub insert_main : Host → Option Text → Option Text → M (Unit {0})
unfolding main_row replace_main insert_file
insert_main h none path = pure tt
insert_main h (some main_file) path = do
  exec_read
  insert_file replace_main (main_row h (some main_file) (or_empty path))

abbrev pub same_fingerprint : Option Text → Text → Bool
same_fingerprint none g = false
same_fingerprint (some f) g = text_eq f g

-- SELECT 1 FROM files JOIN file_fingerprints … : the index holds the staged file as it is now.
unfoldable pub is_stored : Db → Text → StagingFile → Bool
is_stored db variant f =
    any
      (λ (row : FileRow).
        text_eq row.variant variant
        && text_eq row.path f.path
        && row.mtime_ns == f.mtime_ns
        && row.size == f.size
        && any (λ g. g.0 == row.id && same_fingerprint f.fingerprint g.1) db.fingerprints)
      db.files

-- UPDATE staging_files SET cached = 1 WHERE …
unfoldable pub mark_cached : Db → Text → List StagingFile → List StagingFile
unfolding is_stored
mark_cached db variant = map (λ f.
    if not f.is_main && not (f.mtime_ns == 0) && is_stored db variant f
    then record f { cached = true }
    else f)

-- SELECT ordinal FROM staging_files WHERE cached = 1, and the loop over its rows
abbrev set_flag : List Bool → ℕ → Option (List Bool)
set_flag cached i = if ltb i (length cached) then some (set cached i true) else none

-- One row: an ordinal out of range is an error. A NULL ordinal reads as 0.
abbrev set_ordinal : Option ℕ → List Bool → Option (List Bool)
set_ordinal none cached = set_flag cached 0
set_ordinal (some i) cached = set_flag cached i

unfoldable pub set_cached : List StagingFile → List Bool → Option (List Bool)
set_cached [] cached = some cached
set_cached (f ∷ rest) cached =
    elim (if f.cached then set_ordinal f.ordinal cached else some cached) [
      | none ↦ none
      | some cached' ↦ set_cached rest cached'
    ]

abbrev pub give : {A : Type 0} → Option A → M A
give none = fail
give (some a) = pure a

-- stage_files: the flags of the cached files and the number of candidates
unfoldable pub stage_files :
    Host → Index → StoredPaths → Option Text → Text → Bool → M (List Bool × ℕ)
unfolding insert_files insert_main mark_cached set_cached
stage_files h s paths main_file variant include_local = do
  let fingerprints = s.fingerprints include_local
  let clear = replicate (length fingerprints) false
  exec_read
  candidates ← insert_files h main_file 0 paths.files fingerprints 0
  insert_main h main_file paths.main_file
  if candidates == 0 then pure (clear, candidates) else do
    exec_staging (λ db st. record st { files = mark_cached db variant st.files }) (λ st. 0)
    exec_read
    staged ← gets (λ w. w.staging.files)
    flags ← give (set_cached staged clear)
    pure (flags, candidates)

-- cached_files_valid, as the merge reads it
unfoldable pub cached_files_valid : Db → Text → List StagingFile → Bool
unfolding is_stored
cached_files_valid db variant staged =
    not (any (λ f. f.cached && not (is_stored db variant f)) staged)
