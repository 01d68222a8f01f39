-- ===== src/Store/Run/Tables.antt =====
-- What holds of the temporary tables while merge_staging of lib/semindex_index_db/index_db_writer.c
-- runs.
use semindex.Base.{Bool, not, Option, none, some, List, [], ◌∷◌, ◌≡◌, refl}
use mathlib.Core.Path.{subst}
use semindex.Store.Rows.{Db, Staging, VariantRow}
use semindex.Store.Session.{
  Saved, World, gets, exec_db, exec_read, begin, commit, restore, rollback_ignored,
}
use semindex.Store.Session.Triple.{
  Triple, Triple-before, Triple-bind, Triple-pure, Triple-if, Triple-gets, Triple-begin,
  Triple-exec_read, Triple-exec_db, Triple-commit, Triple-or_rollback, rollback_ignored_elim,
}
use semindex.Store.Session.Leaves.{Anything}
use semindex.Store.Run.{
  Merged, stale, merged, run_merges, merge_body, end_merge, merge_staging, merges,
}
use semindex.Store.Merge.{store_variant_metadata}

-- What holds of the temporary tables.
abbrev pub Tables : (Staging → Type 0) → World → Type 0
Tables S w = S w.staging

-- What a ROLLBACK brings back has it too.
abbrev Point : (Staging → Type 0) → World → Type 0
Point S w = (p : Saved) → w.saved ≡ some p → S p.staging

abbrev Both : (Staging → Type 0) → World → Type 0
Both S w = Tables S w × Point S w

abbrev point : Db → Staging → Saved
point db st = record { db = db; staging = st }

module _ (S : Staging → Type 0) where
  begin-Both : Triple (Tables S) begin (λ _. Both S) Anything
  begin-Both =
      Triple-begin (λ w gs k. tt) (λ w gs k e. (k, λ p q. saved_here w.db w.staging k p q))
        (λ w gs g rest k e u. (k, λ p q. saved_here (g w.db) w.staging k p q))
    where
      saved_here :
          (db : Db) (st : Staging) → S st → (p : Saved) → some (point db st) ≡ some p → S p.staging
      saved_here db st k p q =
          let same : point db st ≡ p = cc q in subst (λ (x : Saved). S x.staging) same k

  pub begin-Tables : Triple (Tables S) begin (λ _. Tables S) Anything
  begin-Tables = Triple-begin (λ w gs k. tt) (λ w gs k e. k) (λ w gs g rest k e u. k)

  pub commit-Tables : Triple (Tables S) commit (λ _. Tables S) Anything
  commit-Tables = Triple-commit (λ w gs k. tt) (λ w gs k. k)

  read-Tables : Triple (Tables S) exec_read (λ _. Tables S) Anything
  read-Tables = Triple-exec_read (λ w gs k. tt) (λ w gs k. k)

  read-Both : Triple (Both S) exec_read (λ _. Both S) Anything
  read-Both = Triple-exec_read (λ w gs k. tt) (λ w gs k. k)

  db-Tables : (f : Db → Db) → Triple (Tables S) (exec_db f) (λ _. Tables S) Anything
  db-Tables f = Triple-exec_db f (λ w gs k. tt) (λ w gs k. k)

  run_merges-Tables :
      (l : List (Staging → Db → Db)) → Triple (Tables S) (run_merges l) (λ _. Tables S) Anything
  unfolding run_merges
  run_merges-Tables [] = Triple-pure tt (λ w k. k)
  run_merges-Tables (f ∷ rest) =
      Triple-bind {Q = λ st w. Tables S w × (st ≡ w.staging)} _ _ (Triple-gets (λ w. w.staging))
        (λ st.
          Triple-before _ (λ w k. k.0)
            (Triple-bind _ _ (db-Tables (f st)) (λ _. run_merges-Tables rest)))

  abbrev After : Merged → World → Type 0
  After stale w = Both S w
  After merged w = Tables S w

  merge_body-After : (v : VariantRow) → Triple (Both S) (merge_body v) After Anything
  unfolding merge_body gets
  merge_body-After v = Triple-bind _ _ read-Both (λ _.
      Triple-bind {Q = λ _. Both S} _ _ (record { run = λ w k. k })
        (λ valid.
          Triple-if (not valid) _ _ (λ _. Triple-pure stale (λ w k. k))
            (λ _.
              Triple-before _ (λ w k. k.0)
                (Triple-bind _ _ (run_merges-Tables (merges v.name)) (λ _.
                  Triple-bind _ _ (db-Tables (store_variant_metadata v))
                    (λ _. Triple-pure merged (λ w k. k)))))))

  rolled_back : (w : World) → Both S w → Tables S (rollback_ignored w)
  rolled_back w k = rollback_ignored_elim (Tables S) w (λ gs. k.0) (λ gs. restored gs w.saved k.1)
    where
      restored :
          (gs : List Bool) (sv : Option Saved)
          → ((p : Saved) → sv ≡ some p → S p.staging)
          → Tables S (restore sv (record w { faults = gs }))
      restored gs none q = k.0
      restored gs (some p) q = q p refl

  end_merge-Tables : (r : Merged) → Triple (After r) (end_merge r) (λ _. Tables S) Anything
  unfolding end_merge
  end_merge-Tables stale = record { run = λ w k. rolled_back w k }
  end_merge-Tables merged = Triple-bind _ _ commit-Tables (λ _. Triple-pure merged (λ w k. k))

  -- A merge leaves the temporary tables as they are.
  pub merge_staging-Tables :
      (v : VariantRow) → Triple (Tables S) (merge_staging v) (λ _. Tables S) Anything
  unfolding merge_staging
  merge_staging-Tables v = Triple-bind _ _ begin-Both (λ _.
      Triple-bind _ _ (Triple-or_rollback _ (merge_body-After v) (λ w k. tt)) end_merge-Tables)
