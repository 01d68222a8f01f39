-- ===== src/Store/Run/Retry.antt =====
-- The second merge of index_db_store in
-- lib/semindex_index_db/index_db_writer.c: with no file cached it cannot be stale.
use mathlib.Core.Path.{subst}
use semindex.Base.{
  Bool, true, false, not, ◌&&◌, Option, none, some, List, [], ◌∷◌, map, any, ◌≡◌, refl, sym, arith,
  Text,
}
use semindex.Repository.{Host}
use semindex.Store.Index.{Index}
use semindex.Store.Rows.{StagingFile, Staging, VariantRow, Db}
use semindex.Store.Session.{World, ◌>>=◌, gets, exec_db, exec_staging, begin, commit}
use semindex.Store.Session.Triple.{
  Triple, Triple-bind, Triple-pure, Triple-if, Triple-call, Triple-exec_read, Triple-begin,
  Triple-commit, Triple-or_rollback, Post, Post-map,
}
use semindex.Store.Session.Leaves.{Holds, Anything, Triple-any}
use semindex.Store.Stage.{StoredPaths}
use semindex.Store.Stage.Files.{cached_files_valid, is_stored}
use semindex.Store.Stage.Records.{stage_records}
use semindex.Store.Stage.Staged.{records-Leaves, add_index}
use semindex.Store.Merge.{store_variant_metadata}
use semindex.Store.Run.{
  Merged, stale, merged, merges, run_merges, merge_body, end_merge, merge_staging, StoreRequest,
  uncached, restage,
}

-- No file of the temporary tables is marked as cached.
abbrev NoneCached : World → Type 0
NoneCached w = any (λ (f : StagingFile). f.cached) w.staging.files ≡ false

none_cached :
    (files : List StagingFile) → any (λ (f : StagingFile). f.cached) (map uncached files) ≡ false
unfolding any
none_cached [] = refl
none_cached (f ∷ files) = none_cached files

NoneCached-valid :
    (db : Db) (v : Text) (files : List StagingFile)
    → any (λ (f : StagingFile). f.cached) files ≡ false
    → cached_files_valid db v files ≡ true
unfolding cached_files_valid any
NoneCached-valid db v files h = ground (arith, fewer files h)
  where
    fewer :
        (l : List StagingFile)
        → any (λ (f : StagingFile). f.cached) l ≡ false
        → any (λ (f : StagingFile). f.cached && not (is_stored db v f)) l ≡ false
    fewer [] h = refl
    fewer (f ∷ l) h = ground (arith, h, fewer l)

merge_body-merged : (v : VariantRow) → Triple NoneCached (merge_body v) (λ r w. r ≡ merged) Anything
unfolding merge_body
merge_body-merged v =
    Triple-bind {Q = λ _. NoneCached} _ _ (Triple-exec_read (λ w gs h. tt) (λ w gs h. h)) (λ _.
      Triple-bind {Q = λ b w. b ≡ true} _ _ read (λ b.
        Triple-if (not b) _ _ (λ bad. Triple-pure stale (λ w good. absurd (cc (bad, good))))
          (λ good.
            Triple-bind {Q = λ _. Anything} _ _ (Triple-any (run_merges (merges v.name))) (λ _.
              Triple-bind {Q = λ _. Anything} _ _ (Triple-any (exec_db (store_variant_metadata v)))
                (λ _. Triple-pure merged (λ w h. refl))))))
  where
    read :
        Triple NoneCached
          (gets (λ w. cached_files_valid w.db v.name w.staging.files))
          (λ b w. b ≡ true)
          Anything
    read = unfold gets in record { run = λ w h. NoneCached-valid w.db v.name w.staging.files h }

end_merge-merged :
    (r : Merged) → Triple (λ w. r ≡ merged) (end_merge r) (λ x w. x ≡ merged) Anything
unfolding end_merge
end_merge-merged stale = record { run = λ w h. absurd (cc h) }
end_merge-merged merged =
    Triple-bind {Q = λ _. Anything} _ _ (Triple-any commit) (λ _. Triple-pure merged (λ w h. refl))

merge_staging-merged :
    (v : VariantRow) → Triple NoneCached (merge_staging v) (λ r w. r ≡ merged) Anything
unfolding merge_staging
merge_staging-merged v =
    Triple-bind {Q = λ _. NoneCached} _ _
      (Triple-begin (λ w gs h. tt) (λ w gs h e. h) (λ w gs g rest h e u. h))
      (λ _.
        Triple-bind {Q = λ r w. r ≡ merged} _ _
          (Triple-or_rollback _ (merge_body-merged v) (λ w h. tt)) end_merge-merged)

records-NoneCached :
    (paths : StoredPaths) (include_local : Bool) (cached : List Bool) (s : Index)
    → Triple NoneCached (stage_records paths include_local cached s) (λ _. NoneCached) Anything
records-NoneCached paths include_local cached s = record {
  run = λ w h.
      Post-map {Q = λ _. Holds (add_index paths include_local cached s w.staging)}
        {R = λ _. NoneCached} Anything
        (λ a v e.
          subst (λ (st : Staging). any (λ (f : StagingFile). f.cached) st.files ≡ false) (sym e) h)
        _ _ (((records-Leaves paths include_local cached s).from w.staging).run w refl);
}

restage-NoneCached :
    (h : Host) (s : Index) (request : StoreRequest)
    → Triple Anything (restage h s request) (λ _. NoneCached) Anything
unfolding restage
restage-NoneCached h s request = Triple-bind {Q = λ _. Anything} _ _ (Triple-any begin) (λ _.
    Triple-bind {Q = λ _. NoneCached} _ _ (Triple-or_rollback _ clear (λ w h. tt)) (λ _.
      Triple-bind {Q = λ _. NoneCached} _ _
        (Triple-or_rollback _ (records-NoneCached _ _ _ s) (λ w h. tt))
        (λ _. Triple-commit (λ w gs h. tt) (λ w gs h. h))))
  where
    clear :
        Triple Anything
          (exec_staging (λ db st. record st { files = map uncached st.files }) (λ st. 0))
          (λ _. NoneCached)
          Anything
    clear =
        unfold exec_staging in Triple-call _ (λ w gs h. tt) (λ w gs h. none_cached w.staging.files)

-- After the second staging, which marks no file as cached, the merge is never stale, whatever
-- calls of SQLite fail and whatever other processes commit. So index_db_store needs no third attempt.
pub restage-merge_staging :
    (h : Host) (s : Index) (request : StoreRequest) (v : VariantRow) (w : World)
    → ¬ (((restage h s request >>= λ _. merge_staging v) w).0 ≡ some stale)
restage-merge_staging h s request v w = not_stale _ _ (
    (Triple-bind (restage h s request) (λ _. merge_staging v) (restage-NoneCached h s request)
        (λ _. merge_staging-merged v)).run
      w tt)
  where
    not_stale :
        (r : Option Merged) (w : World) → Post (λ x w. x ≡ merged) Anything r w → ¬ (r ≡ some stale)
    not_stale none w h e = absurd (cc e)
    not_stale (some x) w h e = absurd (cc (h, e))
