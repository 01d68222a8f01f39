-- ===== src/Store/Run/Atomic.antt =====
-- index_db_store of lib/semindex_index_db/index_db_writer.c is all or nothing: whatever call of
-- SQLite fails, and whatever other processes commit in between.
use mathlib.Core.Path.{subst, subst₂}
use semindex.Base.{
  ℕ, zero, suc, true, false, not, Option, none, some, List, ◌≡◌, refl, sym, ◌∙◌, ap, ◌⊎◌, inl, inr,
  arith, ◌==◌, Bool-cases, Text, or_empty, is_empty,
}
use semindex.Repository.{Host}
use semindex.Store.Index.{Index}
use semindex.Store.Rows.{Db, Staging, VariantRow}
use semindex.Store.Session.{World, fail, commit, close}
use semindex.Store.Session.Triple.{
  Triple, Triple-before, Triple-bind, Triple-pure, Triple-fail, Triple-if, Triple-gets,
  Triple-commit, Triple-or_rollback, Post, Post-map,
}
use semindex.Store.Session.Laws.{OnlyStaging, staging_rules}
use semindex.Store.Stage.Keeps.{stage_records-OnlyStaging, stage_files-OnlyStaging}
use semindex.Store.Stage.Files.{cached_files_valid}
use semindex.Store.Open.{
  schema_version, create_tables, create_all, create_in_empty, create_schema, init_schema,
  open_writer, create_staging,
}
use semindex.Store.Run.Durable.{
  Untouched, same, schema, durable, Held, InTransaction, Opened, Held-begin, Held-rollback,
  Held-commit, Held-exec_read, Held-OnlyStaging, Held-of_InTransaction,
}
use semindex.Store.Run.{
  Merged, stale, merged, StoreRequest, row, stage, restage, retry, only_merged, store_in,
  store_and_close, index_db_store, store_index, store_if,
}
use semindex.Store.Session.Leaves.{Anything}
use semindex.Store.Run.Tables.{Tables}
use semindex.Store.Run.Staged.{IsStaged, store_in-IsStaged}
use semindex.Store.Run.Merging.{
  merge_all, Merging, Whole, Left, staging_transaction, Merging-InTransaction, exec-Merging,
  gets-Merging, read-Merging, at_begin, merge_staging-Left,
}

module _ (d : Db) (ws : List (Db → Db)) where
  module _ (h : Host) (s : Index) (request : StoreRequest) where
    stage-Held : Triple (Held d ws) (stage h s request) (λ _. Held d ws) (Held d ws)
    unfolding stage
    stage-Held = Triple-bind _ _ (Held-begin d ws) (λ _.
        Triple-bind _ _ (staging_transaction d ws _ (stage_files-OnlyStaging h s _ _ _ _)) (λ files.
          Triple-bind _ _ (staging_transaction d ws _ (stage_records-OnlyStaging _ _ files.0 s))
            (λ counts. Held-commit d ws)))

    restage-Held : Triple (Held d ws) (restage h s request) (λ _. Held d ws) (Held d ws)
    unfolding restage
    restage-Held = Triple-bind _ _ (Held-begin d ws) (λ _.
        Triple-bind _ _ (staging_transaction d ws _ (search staging_rules)) (λ _.
          Triple-bind _ _ (staging_transaction d ws _ (stage_records-OnlyStaging _ _ _ s))
            (λ counts. Held-commit d ws)))

    only_merged-Whole :
        (r : Merged)
        → Triple
            (Left d ws (row h s request) r)
            (only_merged h s request r)
            (λ _. Whole d ws (row h s request))
            (Held d ws)
    only_merged-Whole stale = Triple-fail (λ w h. h)
    only_merged-Whole merged = Triple-pure tt (λ w h. h)

    retry-Whole :
        (r : Merged)
        → Triple
            (Left d ws (row h s request) r)
            (retry h s request r)
            (λ _. Whole d ws (row h s request))
            (Held d ws)
    unfolding retry
    retry-Whole merged = Triple-pure tt (λ w h. h)
    retry-Whole stale =
        Triple-bind _ _ restage-Held
          (λ _. Triple-bind _ _ (merge_staging-Left d ws (row h s request)) only_merged-Whole)

  -- The tables of a fresh schema.
  abbrev created : ℕ → Db → Db
  created zero db = db
  created (suc n) db = created n (record db { has_tables = true })

  module _ (st : Staging) (e : Db) where
    create_tables-Merging :
        (n : ℕ) (now : Db)
        → Triple
            (Merging d ws st e now)
            (create_tables n)
            (λ _. Merging d ws st e (created n now))
            (InTransaction d ws)
    unfolding create_tables
    create_tables-Merging zero now = Triple-pure tt (λ w m. m)
    create_tables-Merging (suc n) now =
        Triple-bind _ _ (exec-Merging d ws st e _ now) (λ _. create_tables-Merging n _)

    fresh : Db
    fresh = record e { version = schema_version; has_tables = true }

    -- At the COMMIT of the schema: it was there already, or the file had no table.
    abbrev SchemaReady : World → Type 0
    SchemaReady w =
        Merging d ws st e e w
        ⊎ (Merging d ws st e fresh w × (e.version ≡ 0) × (e.has_tables ≡ false))

    create_all-Ready :
        e.version ≡ 0
        → e.has_tables ≡ false
        → Triple (Merging d ws st e e) create_all (λ _. SchemaReady) (InTransaction d ws)
    unfolding create_all fresh
    create_all-Ready empty bare = Triple-bind _ _ (create_tables-Merging 12 e) (λ _. record {
      run = λ w m.
          Post-map {Q = λ _. Merging d ws st e (record (created 12 e) { version = schema_version })}
            {R = λ _. SchemaReady} (InTransaction d ws) (λ a w' m'. inr (m', empty, bare)) _ _
            ((exec-Merging d ws st e (λ db. record db { version = schema_version }) _).run w m);
    })

    create_in_empty-Ready :
        e.version ≡ 0
        → Triple (Merging d ws st e e) create_in_empty (λ _. SchemaReady) (InTransaction d ws)
    unfolding create_in_empty
    create_in_empty-Ready empty = Triple-bind _ _ (read-Merging d ws st e) (λ _.
        gets-Merging d ws st e (λ w. w.db.has_tables) e.has_tables _
          (λ w m. ap (λ (x : Db). x.has_tables) m.db)
          (Triple-if e.has_tables _ _
            (λ _. Triple-fail (λ w m. Merging-InTransaction d ws st e w m))
            (λ bare. create_all-Ready empty bare)))

    create_schema-Ready :
        Triple (Merging d ws st e e) create_schema (λ _. SchemaReady) (InTransaction d ws)
    unfolding create_schema
    create_schema-Ready = Triple-bind _ _ (read-Merging d ws st e) (λ _.
        gets-Merging d ws st e (λ w. w.db.version) e.version _
          (λ w m. ap (λ (x : Db). x.version) m.db)
          (Triple-if (e.version == schema_version) _ _ (λ _. Triple-pure tt (λ w m. inl m))
            (λ _.
              Triple-if (not (e.version == 0)) _ _
                (λ _. Triple-fail (λ w m. Merging-InTransaction d ws st e w m))
                (λ empty. create_in_empty-Ready (ground arith)))))

  -- A schema made in a file that had no table, or nothing.
  record SchemaMade (w : World) : Type 0 where
    staging : Staging
    before : Db
    ready : SchemaReady staging before w

  create_schema-Made : Triple (Opened d ws) create_schema (λ _. SchemaMade) (InTransaction d ws)
  create_schema-Made = record {
    run = λ w t.
        Post-map {Q = λ _. SchemaReady w.staging w.db} {R = λ _. SchemaMade} (InTransaction d ws)
          (λ a w' r. record { staging = w.staging; before = w.db; ready = r }) _ _
          ((create_schema-Ready w.staging w.db).run w (at_begin d ws t));
  }

  committed_schema :
      (st : Staging) (e : Db) (w : World) → SchemaReady st e w → Untouched d ws w.db w.writers
  unfolding fresh
  committed_schema st e w (inl m) = subst (λ x. Untouched d ws x w.writers) (sym m.db) m.held
  committed_schema st e w (inr (m, empty, bare)) = schema m.held empty bare m.db

  open_transaction : (st : Staging) (e : Db) (w : World) → SchemaReady st e w → InTransaction d ws w
  open_transaction st e w (inl m) = Merging-InTransaction d ws st e w m
  open_transaction st e w (inr (m, _, _)) = Merging-InTransaction d ws st e w m

  commit_schema-Held : Triple SchemaMade commit (λ _. Held d ws) (Held d ws)
  commit_schema-Held =
      Triple-commit
        (λ w gs m. Held-of_InTransaction d ws w (open_transaction m.staging m.before w m.ready))
        (λ w gs m. committed_schema m.staging m.before w m.ready)

  init_schema-Held : Triple (Held d ws) init_schema (λ _. Held d ws) (Held d ws)
  unfolding init_schema
  init_schema-Held = Triple-bind _ _ (Held-exec_read d ws) (λ _.
      Triple-bind _ _ (Held-exec_read d ws) (λ _. Triple-bind _ _ (Triple-gets _) (λ version.
        Triple-if (version == schema_version) _ _ (λ _. Triple-pure tt (λ w h. h.0))
          (λ _. Triple-bind _ _ (Triple-before _ (λ w h. h.0) (Held-begin d ws)) (λ _.
            Triple-bind _ _ (Triple-or_rollback _ create_schema-Made (Held-rollback d ws))
              (λ _. commit_schema-Held))))))

  pub open_writer-Held : Triple (Held d ws) open_writer (λ _. Held d ws) (Held d ws)
  unfolding open_writer
  open_writer-Held =
      let next = Held-exec_read d ws in
      Triple-bind _ _ next (λ _. Triple-bind _ _ next (λ _. Triple-bind _ _ next (λ _.
        Triple-bind _ _ next
          (λ _. Triple-bind _ _ next (λ _. Triple-bind _ _ next (λ _. init_schema-Held))))))

  create_staging-OnlyStaging : OnlyStaging create_staging
  unfolding create_staging
  create_staging-OnlyStaging = search staging_rules depth 8

  store_in-Whole :
      (h : Host) (s : Index) (request : StoreRequest)
      → Triple (Held d ws) (store_in h s request) (λ _. Whole d ws (row h s request)) (Held d ws)
  unfolding store_in
  store_in-Whole h s request = Triple-bind _ _ open_writer-Held (λ _.
      Triple-bind _ _ (Held-OnlyStaging d ws create_staging-OnlyStaging) (λ _.
        Triple-bind _ _ (stage-Held h s request) (λ _.
          Triple-bind _ _ (merge_staging-Left d ws (row h s request)) (retry-Whole h s request))))

-- The row of `variants` that a request writes.
abbrev pub variant_of : StoreRequest → VariantRow
variant_of request = record {
  name = or_empty request.variant;
  git_commit = request.git_commit;
  repository_root = request.repository_root;
}

-- What a store leaves when the connection is closed. On failure nothing of this process but an
-- empty schema; on success the whole of one merge, of what was staged of the index, on what the file
-- held at its BEGIN.
abbrev pub Ends : Host → StoreRequest → World → Option (Unit {0}) → World → Type 0
Ends h request w none w' = Untouched w.db w.writers w'.db w'.writers
Ends h request w (some _) w' =
    (s : Index) × (request.index ≡ some s)
    × (st : Staging) × IsStaged h s request st
    × (before : Db) × Untouched w.db w.writers before w'.writers
    × (cached_files_valid before (variant_of request).name st.files ≡ true)
    × (w'.db ≡ merge_all (variant_of request) st before)

db-close : (w : World) → (close w).db ≡ durable w
unfolding close
db-close w = ground arith

writers-close : (w : World) → (close w).writers ≡ w.writers
unfolding close
writers-close w = ground arith

closed_end :
    (h : Host) (s : Index) (request : StoreRequest) (w : World) (r : Option (Unit {0})) (w' : World)
    → request.index ≡ some s
    → Post (λ _. Whole w.db w.writers (variant_of request)) (Held w.db w.writers) r w'
    → Post (λ _. Tables (IsStaged h s request)) Anything r w'
    → Ends h request w r (close w')
closed_end host s request w none w' e h k =
    subst₂ (Untouched w.db w.writers) (sym (db-close w')) (sym (writers-close w')) h
closed_end host s request w (some _) w' e h k = (
  s,
  e,
  w'.staging,
  k,
  h.before,
  subst (Untouched w.db w.writers h.before) (sym (writers-close w')) h.held,
  h.valid,
  db-close w' ∙ h.after,
)

store_index-Ends :
    (h : Host) (request : StoreRequest) (s : Option Index) (w : World)
    → request.index ≡ s
    → w.saved ≡ none
    → Ends h request w (store_index h request s w).0 (store_index h request s w).1
unfolding store_and_close
store_index-Ends h request none w e idle = unfold fail in same refl refl
store_index-Ends h request (some s) w e idle =
    closed_end h s request w (store_in h s request w).0 (store_in h s request w).1 e
      ((store_in-Whole w.db w.writers h s request).run w (same (ground (arith, idle)) refl))
      ((store_in-IsStaged h s request).run w tt)

-- Whatever calls of SQLite fail and whatever other processes commit in between, a store that starts
-- outside a transaction is all or nothing. If it fails, the database is what the other processes
-- made of it, with at most an empty schema added to a file that had no table. If it succeeds, the
-- database is the whole merge of the temporary tables, where these hold the main file, each file of
-- the index that has records, and the rows that the symbols, uses and signatures of the index stand
-- for: all of them after a second staging, and otherwise all but those of the files marked as
-- cached. The merge is applied to what the others had made of the database by then, where every
-- file counted as cached was still stored as it is now.
pub index_db_store_atomic :
    (h : Host) (request : StoreRequest) (w : World)
    → w.saved ≡ none
    → Ends h request w (index_db_store h request w).0 (index_db_store h request w).1
unfolding index_db_store
index_db_store_atomic h request w idle = of_path request.path
  where
    of_path :
        (p : Option Text) → Ends h request w (store_if h request p w).0 (store_if h request p w).1
    of_path none = unfold fail in same refl refl
    of_path (some path) = elim (Bool-cases (is_empty (or_empty request.variant))) [
      | inl e ↦ rw e (unfold fail in same refl refl)
      | inr e ↦ rw e (store_index-Ends h request request.index w refl idle)
    ]
