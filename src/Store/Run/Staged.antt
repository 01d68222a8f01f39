-- ===== src/Store/Run/Staged.antt =====
-- The temporary tables that index_db_store of lib/semindex_index_db/index_db_writer.c merges: those
-- that stage, or restage, made of the index.
use semindex.Base.{
  Bool, false, List, [], map, or_empty, length, replicate, ◌≡◌, refl, sym, ap, ◌⊎◌, inl, inr,
}
use mathlib.Core.Path.{subst}
use semindex.Repository.{Host}
use semindex.Store.Index.{Index}
use semindex.Store.Rows.{StagingFile, Staging}
use semindex.Store.Session.{World, exec_staging}
use semindex.Store.Session.Triple.{
  Triple, Triple-bind, Triple-pure, Triple-fail, Triple-call, Triple-or_rollback, Post-map,
}
use semindex.Store.Session.Leaves.{
  Holds, Anything, Triple-any, Leaves, exec_staging-Leaves, bind-Leaves,
}
use semindex.Store.Stage.{StoredPaths}
use semindex.Store.Stage.Listed.{all_files, only_files, AreMarked, Filed, stage_files-Filed}
use semindex.Store.Run.Tables.{Tables, begin-Tables, commit-Tables, merge_staging-Tables}
use semindex.Store.Stage.Files.{init_stored_paths}
use semindex.Store.Stage.Records.{stage_records}
use semindex.Store.Stage.Staged.{add_index, records-Leaves}
use semindex.Store.Open.{no_staging, open_writer, create_staging}
use semindex.Store.Run.{
  StoreRequest, uncached, stage, restage, Merged, stale, merged, row, only_merged, retry, store_in,
}

module _ (h : Host) (s : Index) (request : StoreRequest) where
  abbrev pub stored_paths : StoredPaths
  stored_paths =
      init_stored_paths h s request.main_file request.repository_root request.include_local

  abbrev pub none_cached : List Bool
  none_cached = replicate (length (s.fingerprints request.include_local)) false

  -- The files of the index, some of them marked as cached, and with them every row of the index that
  -- stage_records stages, but for those of the files that are marked.
  pub record IsFirst (st : Staging) : Type 0 where
    pub files : List StagingFile
    pub flags : List Bool
    pub marked :
        AreMarked
          (or_empty request.variant)
          (all_files h s stored_paths request.main_file request.include_local)
          none_cached
          files
          flags
    pub rows : st ≡ add_index stored_paths request.include_local flags s (only_files files)

  -- The same, when no file is cached any more and every row of the index is added.
  pub record IsSecond (st : Staging) : Type 0 where
    pub before : Staging
    pub first : IsFirst before
    pub rows :
        st
        ≡ add_index stored_paths request.include_local none_cached s
            (record before { files = map uncached before.files })

  abbrev pub IsStaged : Staging → Type 0
  IsStaged st = IsFirst st ⊎ IsSecond st

module _ (h : Host) (s : Index) (request : StoreRequest) where
  -- stage_records adds the rows of the index.
  stage_records-Tables :
      (flags : List Bool) {P : World → Type 0} (T : Staging → Type 0)
      → ((w : World)
          → P w
          → T (add_index (stored_paths h s request) request.include_local flags s w.staging))
      → Triple P
          (stage_records (stored_paths h s request) request.include_local flags s)
          (λ _. Tables T)
          Anything
  stage_records-Tables flags T k = record {
    run = λ w p.
        let rows = records-Leaves (stored_paths h s request) request.include_local flags s in
        Post-map Anything (λ a v e. subst T (sym e) (k w p)) _ _ ((rows.from w.staging).run w refl);
  }

  first_rows :
      (flags : List Bool) (w : World)
      → Filed h s
          (stored_paths h s request)
          request.main_file
          (or_empty request.variant)
          request.include_local
          flags
          w
      → IsFirst h s request
          (add_index (stored_paths h s request) request.include_local flags s w.staging)
  first_rows flags w k = record {
    files = w.staging.files;
    flags = flags;
    marked = k.marked;
    rows = ap (λ st. add_index (stored_paths h s request) request.include_local flags s st) k.only;
  }

  pub stage-IsFirst :
      Triple (Holds no_staging) (stage h s request) (λ _. Tables (IsFirst h s request)) Anything
  unfolding stage
  stage-IsFirst = Triple-bind _ _ (begin-Tables (λ st. st ≡ no_staging)) (λ _.
      Triple-bind _ _
        (Triple-or_rollback _
          (stage_files-Filed h s (stored_paths h s request) request.main_file
            (or_empty request.variant) request.include_local)
          (λ w k. tt))
        (λ files.
          Triple-bind _ _
            (Triple-or_rollback _
              (stage_records-Tables files.0 (IsFirst h s request) (first_rows files.0)) (λ w k. tt))
            (λ counts. commit-Tables (IsFirst h s request))))

  pub restage-IsSecond :
      Triple
        (Tables (IsFirst h s request))
        (restage h s request)
        (λ _. Tables (IsSecond h s request))
        Anything
  unfolding restage exec_staging
  restage-IsSecond = Triple-bind _ _ (begin-Tables (IsFirst h s request)) (λ _.
      Triple-bind _ _ (Triple-or_rollback _ cleared (λ w k. tt)) (λ _.
        Triple-bind _ _
          (Triple-or_rollback _
            (stage_records-Tables (none_cached h s request) (IsSecond h s request) (λ w k. record {
              before = k.0;
              first = k.1;
              rows =
                  ap
                    (λ st.
                      add_index (stored_paths h s request) request.include_local
                        (none_cached h s request) s st)
                    k.2;
            }))
            (λ w k. tt))
          (λ counts. commit-Tables (IsSecond h s request))))
    where
      cleared :
          Triple
            (Tables (IsFirst h s request))
            (exec_staging (λ db st. record st { files = map uncached st.files }) (λ st. 0))
            (λ _ w.
              (before : Staging) × IsFirst h s request before
              × (w.staging ≡ record before { files = map uncached before.files }))
            Anything
      cleared = Triple-call _ (λ w gs k. tt) (λ w gs k. (w.staging, k, refl))

empty_tables : Leaves create_staging (λ st. no_staging)
unfolding create_staging
empty_tables =
    bind-Leaves (λ st. record st { files = [] }) (λ st. record no_staging { files = st.files })
      (exec_staging-Leaves _ _)
      (λ _.
        bind-Leaves (λ st. record st { records = [] })
          (λ st. record no_staging { files = st.files; records = st.records })
          (exec_staging-Leaves _ _)
          (λ _.
            bind-Leaves (λ st. record st { symbol_types = [] })
              (λ st. record st { function_types = []; symbol_properties = [] })
              (exec_staging-Leaves _ _)
              (λ _.
                bind-Leaves (λ st. record st { function_types = [] })
                  (λ st. record st { symbol_properties = [] }) (exec_staging-Leaves _ _)
                  (λ _. exec_staging-Leaves _ _))))

module _ (h : Host) (s : Index) (request : StoreRequest) where
  only_merged-IsStaged :
      (r : Merged)
      → Triple
          (Tables (IsSecond h s request))
          (only_merged h s request r)
          (λ _. Tables (IsStaged h s request))
          Anything
  only_merged-IsStaged stale = Triple-fail (λ w k. tt)
  only_merged-IsStaged merged = Triple-pure tt (λ w k. inr k)

  retry-IsStaged :
      (r : Merged)
      → Triple
          (Tables (IsFirst h s request))
          (retry h s request r)
          (λ _. Tables (IsStaged h s request))
          Anything
  unfolding retry
  retry-IsStaged merged = Triple-pure tt (λ w k. inl k)
  retry-IsStaged stale = Triple-bind _ _ (restage-IsSecond h s request) (λ _.
      Triple-bind _ _ (merge_staging-Tables (IsSecond h s request) (row h s request))
        only_merged-IsStaged)

  emptied : Triple Anything create_staging (λ _. Holds no_staging) Anything
  emptied = record { run = λ w k. (empty_tables.from w.staging).run w refl }

  -- What is merged in the end was staged of the index.
  pub store_in-IsStaged :
      Triple Anything (store_in h s request) (λ _. Tables (IsStaged h s request)) Anything
  unfolding store_in
  store_in-IsStaged = Triple-bind {Q = λ _. Anything} _ _ (Triple-any open_writer) (λ _.
      Triple-bind _ _ emptied (λ _. Triple-bind _ _ (stage-IsFirst h s request) (λ _.
        Triple-bind _ _ (merge_staging-Tables (IsFirst h s request) (row h s request))
          retry-IsStaged)))
