-- ===== src/Store/Stage/Listed.antt =====
-- The files that stage_files of lib/semindex_index_db/index_db_writer.c stages.
use semindex.Base.{
  ℕ, ◌+◌, Bool, true, false, Option, none, some, List, [], ◌∷◌, Text, or_empty, length, replicate,
  if◌then◌else◌, ◌==◌, ◌≡◌, refl, sym, ap, ◌∙◌, ◌⊎◌, inl, inr,
}
use mathlib.Core.Path.{subst}
use semindex.Repository.{Host}
use semindex.Store.Index.{FileFingerprint, Index}
use semindex.Store.Rows.{StagingFile, Db, Staging}
use semindex.Store.Sql.{upsert}
use semindex.Store.Session.{World, ◌>>=◌, pure, fail, exec_staging}
use semindex.Store.Session.Triple.{
  Triple, Triple-bind, Triple-pure, Triple-if, Triple-gets, Triple-call, Triple-exec_read,
}
use semindex.Store.Session.Leaves.{
  Holds, Anything, Leaves, exec_staging-Leaves, exec_read-Leaves, pure-Leaves, bind-Leaves,
  if-Leaves, as-Leaves,
}
use semindex.Store.Stage.{StoredPaths}
use semindex.Store.Stage.Files.{
  insert_file, insert_files, insert_main, main_row, same_path, replace_main, mark_cached,
  set_cached, give, file_row, replace_file, stage_files,
}
use semindex.Store.Open.{no_staging}

-- Each file of the index that has records, once for a path; the last fingerprint of a path counts.
abbrev pub add_files :
    Host → Option Text → ℕ → List Text → List FileFingerprint → List StagingFile → List StagingFile
add_files h main_file i (path ∷ paths) (f ∷ rest) files =
    let same = add_files h main_file (i + 1) paths rest files in
    let more =
      add_files h main_file (i + 1) paths rest
        (upsert same_path replace_file files (file_row h main_file i path f)) in
    if f.record_count == 0 then same else more
add_files h main_file i _ _ files = files

-- The main file, if there is one, also when it has no records.
abbrev pub add_main : Host → Option Text → Option Text → List StagingFile → List StagingFile
add_main h none path files = files
add_main h (some main_file) path files =
    upsert same_path replace_main files (main_row h (some main_file) (or_empty path))

abbrev pub all_files : Host → Index → StoredPaths → Option Text → Bool → List StagingFile
all_files h s paths main_file include_local =
    add_main h main_file paths.main_file
      (add_files h main_file 0 paths.files (s.fingerprints include_local) [])

abbrev with_files : (List StagingFile → List StagingFile) → Staging → Staging
with_files g st = record st { files = g st.files }

-- The staged files, with no rows.
abbrev pub only_files : List StagingFile → Staging
only_files files = record no_staging { files = files }

insert_file-Leaves :
    (update : StagingFile → StagingFile → StagingFile) (file : StagingFile)
    → Leaves (insert_file update file) (with_files (λ l. upsert same_path update l file))
unfolding insert_file
insert_file-Leaves update file = exec_staging-Leaves _ _

with_files-if :
    (b : Bool) (g k : List StagingFile → List StagingFile) (st : Staging)
    → (if b then with_files g st else with_files k st) ≡ with_files (λ l. if b then g l else k l) st
with_files-if true g k st = refl
with_files-if false g k st = refl

insert_files-Leaves :
    (h : Host) (m : Option Text) (i : ℕ) (paths : List Text) (l : List FileFingerprint) (n : ℕ)
    → Leaves (insert_files h m i paths l n) (with_files (add_files h m i paths l))
unfolding insert_files
insert_files-Leaves h m i [] l n = pure-Leaves n
insert_files-Leaves h m i (p ∷ paths) [] n = pure-Leaves n
insert_files-Leaves h m i (p ∷ paths) (f ∷ rest) n =
    as-Leaves
      (with_files-if (f.record_count == 0) (add_files h m (i + 1) paths rest) (λ files.
        add_files h m (i + 1) paths rest
          (upsert same_path replace_file files (file_row h m i p f))))
      (if-Leaves (f.record_count == 0) _ _ (insert_files-Leaves h m (i + 1) paths rest n) (
        bind-Leaves _ _ (insert_file-Leaves replace_file (file_row h m i p f))
          (λ _. insert_files-Leaves h m (i + 1) paths rest _)))

insert_main-Leaves :
    (h : Host) (main_file path : Option Text)
    → Leaves (insert_main h main_file path) (with_files (add_main h main_file path))
unfolding insert_main
insert_main-Leaves h none path = pure-Leaves tt
insert_main-Leaves h (some m) path = bind-Leaves _ _ exec_read-Leaves (λ _. insert_file-Leaves _ _)

-- How the staged files `files` were made of all files: no file is marked as cached, or those are
-- that some state of the database has as they are now, and the flags tell which.
abbrev pub AreMarked : Text → List StagingFile → List Bool → List StagingFile → List Bool → Type 0
AreMarked variant all clear files flags =
    ((files ≡ all) × (flags ≡ clear))
    ⊎ ((db : Db) × (files ≡ mark_cached db variant all) × (set_cached files clear ≡ some flags))

module _ (h : Host) (s : Index) (paths : StoredPaths) (main_file : Option Text) (variant : Text)
    (include_local : Bool) where
  abbrev all : List StagingFile
  all = all_files h s paths main_file include_local

  abbrev clear : List Bool
  clear = replicate (length (s.fingerprints include_local)) false

  -- What stage_files leaves, and the flags that it returns.
  pub record Filed (flags : List Bool) (w : World) : Type 0 where
    pub only : w.staging ≡ only_files w.staging.files
    pub marked : AreMarked variant all clear w.staging.files flags

  abbrev Marked : World → Type 0
  Marked w = (db : Db) × (w.staging ≡ only_files (mark_cached db variant all))

  mark-Marked :
      Triple
        (Holds (only_files all))
        (exec_staging (λ db st. record st { files = mark_cached db variant st.files }) (λ st. 0))
        (λ _. Marked)
        Anything
  unfolding exec_staging
  mark-Marked =
      Triple-call _ (λ w gs k. tt)
        (λ w gs k.
          (w.db, ap (λ (st : Staging). record st { files = mark_cached w.db variant st.files }) k))

  give-Filed :
      (o : Option (List Bool)) (staged : List StagingFile) (n : ℕ)
      → set_cached staged clear ≡ o
      → Triple {A = List Bool × ℕ}
          (λ w. Marked w × (staged ≡ w.staging.files))
          (give o >>= λ flags. pure (flags, n))
          (λ files. Filed files.0)
          Anything
  unfolding ◌>>=◌ pure fail
  give-Filed none staged n e = record { run = λ w k. tt }
  give-Filed (some flags) staged n e = record {
    run = λ w k.
        let files = ap (λ (st : Staging). st.files) k.0.1 in
        record {
          only = k.0.1 ∙ ap only_files (sym files);
          marked = inr (k.0.0, files, subst (λ l. set_cached l clear ≡ some flags) k.1 e);
        };
  }

  pub stage_files-Filed :
      Triple
        (Holds no_staging)
        (stage_files h s paths main_file variant include_local)
        (λ files. Filed files.0)
        Anything
  unfolding stage_files
  stage_files-Filed = Triple-bind _ _ (exec_read-Leaves.from no_staging) (λ _.
      Triple-bind _ _
        ((insert_files-Leaves h main_file 0 paths.files (s.fingerprints include_local) 0).from
          no_staging)
        (λ candidates.
          Triple-bind _ _ ((insert_main-Leaves h main_file paths.main_file).from _) (λ _.
            Triple-if (candidates == 0) _ _
              (λ _. Triple-pure _ (λ w k.
                let files = ap (λ (st : Staging). st.files) k in
                record { only = k ∙ ap only_files (sym files); marked = inl (files, refl) }))
              (λ _. Triple-bind _ _ mark-Marked (λ _.
                Triple-bind _ _ (Triple-exec_read (λ w gs k. tt) (λ w gs k. k)) (λ _.
                  Triple-bind _ _ (Triple-gets (λ w. w.staging.files))
                    (λ staged. give-Filed _ staged candidates refl)))))))
