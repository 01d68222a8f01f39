-- ===== src/Store/Run/Merging.antt =====
-- What one transaction of merge_staging in lib/semindex_index_db/index_db_writer.c leaves: nothing,
-- or the whole merge on what the file held when it began.
use mathlib.Core.Path.{subst}
use semindex.Base.{Bool, true, not, some, List, [], ◌∷◌, ◌≡◌, refl, sym, ap, arith}
use semindex.Store.Rows.{Db, Staging, VariantRow}
use semindex.Store.Session.{Saved, World, M, ◌>>=◌, gets, exec_read, exec_db, or_rollback}
use semindex.Store.Session.Triple.{
  Triple, Triple-bind, Triple-pure, Triple-if, Triple-commit, Triple-exec_read, Triple-exec_db,
  Triple-or_rollback, Post-map,
}
use semindex.Store.Session.Laws.{OnlyStaging}
use semindex.Store.Stage.Files.{cached_files_valid}
use semindex.Store.Merge.{store_variant_metadata}
use semindex.Store.Run.Durable.{
  Untouched, durable, Held, InTransaction, Opened, Held-begin, Held-rollback, OnlyStaging-Opened,
  Held-of_InTransaction,
}
use semindex.Store.Run.{
  Merged, stale, merged, merges, run_merges, merge_body, end_merge, merge_staging,
}

-- The effect of the statements of a merge, one after another.
abbrev pub apply_merges : List (Staging → Db → Db) → Staging → Db → Db
apply_merges [] st db = db
apply_merges (f ∷ rest) st db = apply_merges rest st (f st db)

-- The whole of a merge.
abbrev pub merge_all : VariantRow → Staging → Db → Db
merge_all v st db = store_variant_metadata v (apply_merges (merges v.name) st db)

module _ (d : Db) (ws : List (Db → Db)) where
  -- One transaction of the staging, which leaves the main tables alone.
  pub staging_transaction :
      {A : Type 0} (m : M A)
      → OnlyStaging m
      → Triple (Opened d ws) (or_rollback m) (λ _. Opened d ws) (Held d ws)
  staging_transaction m k = Triple-or_rollback m (OnlyStaging-Opened d ws k) (Held-rollback d ws)

  -- Of a merge that began at `e` with the temporary tables `st`, the statements run so far, which
  -- made `now` of the main tables.
  pub record Merging (st : Staging) (e now : Db) (w : World) : Type 0 where
    pub point : Saved
    pub saved : w.saved ≡ some point
    pub start : point.db ≡ e
    pub held : Untouched d ws e w.writers
    pub staging : w.staging ≡ st
    pub db : w.db ≡ now

  -- The end of a merge: nothing is left of it, or the whole of it on what the file then held.
  pub record Whole (v : VariantRow) (w : World) : Type 0 where
    pub before : Db
    pub held : Untouched d ws before w.writers
    pub valid : cached_files_valid before v.name w.staging.files ≡ true
    pub after : durable w ≡ merge_all v w.staging before

  abbrev pub Left : VariantRow → Merged → World → Type 0
  Left v stale w = Held d ws w
  Left v merged w = Whole v w

  module _ (st : Staging) (e : Db) where
    pub Merging-InTransaction : {now : Db} (w : World) → Merging st e now w → InTransaction d ws w
    Merging-InTransaction w m = record {
      point = m.point;
      saved = m.saved;
      held = subst (λ x. Untouched d ws x w.writers) (sym m.start) m.held;
    }

    pub exec-Merging :
        (f : Db → Db) (now : Db)
        → Triple (Merging st e now) (exec_db f) (λ _. Merging st e (f now)) (InTransaction d ws)
    exec-Merging f now =
        Triple-exec_db f (λ w gs m. still w (Merging-InTransaction w m))
          (λ w gs m. record {
            point = m.point;
            saved = m.saved;
            start = m.start;
            held = m.held;
            staging = m.staging;
            db = ap f m.db;
          })
      where
        still :
            (w : World) {gs : List Bool}
            → InTransaction d ws w
            → InTransaction d ws (record w { faults = gs })
        still w t = record { point = t.point; saved = t.saved; held = t.held }

    pub gets-Merging :
        {A B : Type 0} (g : World → A) (a : A) (f : A → M B) {now : Db} {Q : B → World → Type 0}
        → ((w : World) → Merging st e now w → g w ≡ a)
        → Triple (Merging st e now) (f a) Q (InTransaction d ws)
        → Triple (Merging st e now) (gets g >>= f) Q (InTransaction d ws)
    unfolding gets ◌>>=◌
    gets-Merging g a f {Q = Q} eq k = record { run = λ w m. rw (eq w m) (k.run w m) }

    run_merges-Merging :
        (l : List (Staging → Db → Db)) (now : Db)
        → Triple
            (Merging st e now)
            (run_merges l)
            (λ _. Merging st e (apply_merges l st now))
            (InTransaction d ws)
    unfolding run_merges
    run_merges-Merging [] now = Triple-pure tt (λ w m. m)
    run_merges-Merging (f ∷ rest) now =
        gets-Merging _ st _ (λ w m. m.staging)
          (Triple-bind _ _ (exec-Merging (f st) now) (λ _. run_merges-Merging rest (f st now)))

    abbrev Ready : VariantRow → Merged → World → Type 0
    Ready v stale w = InTransaction d ws w
    Ready v merged w =
        Merging st e (merge_all v st e) w × (cached_files_valid e v.name st.files ≡ true)

    pub read-Merging : Triple (Merging st e e) exec_read (λ _. Merging st e e) (InTransaction d ws)
    read-Merging = Triple-exec_read (λ w gs m. Merging-InTransaction _ (kept w gs m)) kept
      where
        kept :
            (w : World) (gs : List Bool)
            → Merging st e e w
            → Merging st e e (record w { faults = gs })
        kept w gs m = record {
          point = m.point;
          saved = m.saved;
          start = m.start;
          held = m.held;
          staging = m.staging;
          db = m.db;
        }

    merge_body-Ready :
        (v : VariantRow) → Triple (Merging st e e) (merge_body v) (Ready v) (InTransaction d ws)
    unfolding merge_body
    merge_body-Ready v =
        let valid = cached_files_valid e v.name st.files in
        Triple-bind _ _ read-Merging (λ _.
          gets-Merging _ valid _ (λ w m. rw (m.db, m.staging))
            (Triple-if (not valid) _ _ (λ bad. Triple-pure stale Merging-InTransaction)
              (λ good. Triple-bind _ _ (run_merges-Merging (merges v.name) e) (λ _.
                Triple-bind _ _ (exec-Merging (store_variant_metadata v) _)
                  (λ _. Triple-pure merged (λ w m. (m, ground (arith, good))))))))

  end_merge-Left :
      (st : Staging) (e : Db) (v : VariantRow) (r : Merged)
      → Triple (Ready st e v r) (end_merge r) (Left v) (Held d ws)
  unfolding end_merge
  end_merge-Left st e v stale = record { run = λ w t. Held-rollback d ws w t }
  end_merge-Left st e v merged =
      Triple-bind {Q = λ _. Whole v} _ _
        (Triple-commit (λ w gs t. Held-of_InTransaction d ws w (Merging-InTransaction st e w t.0))
          (λ w gs t. record {
            before = e;
            held = t.0.held;
            valid =
                subst (λ (x : Staging). cached_files_valid e v.name x.files ≡ true)
                  (sym t.0.staging) t.1;
            after = subst (λ x. w.db ≡ merge_all v x e) (sym t.0.staging) t.0.db;
          }))
        (λ _. Triple-pure merged (λ w h. h))

  -- A merge that began somewhere.
  record Begun (v : VariantRow) (r : Merged) (w : World) : Type 0 where
    staging : Staging
    before : Db
    ready : Ready staging before v r w

  pub at_begin : {w : World} → Opened d ws w → Merging w.staging w.db w.db w
  at_begin {w} t = record {
    point = t.point;
    saved = t.saved;
    start = sym t.unchanged;
    held = subst (λ x. Untouched d ws x w.writers) (sym t.unchanged) t.held;
    staging = refl;
    db = refl;
  }

  merge_body-Begun :
      (v : VariantRow) → Triple (Opened d ws) (merge_body v) (Begun v) (InTransaction d ws)
  merge_body-Begun v = record {
    run = λ w t.
        Post-map {Q = Ready w.staging w.db v} {R = Begun v} (InTransaction d ws)
          (λ r w' h. record { staging = w.staging; before = w.db; ready = h }) _ _
          ((merge_body-Ready w.staging w.db v).run w (at_begin t));
  }

  pub merge_staging-Left :
      (v : VariantRow) → Triple (Held d ws) (merge_staging v) (Left v) (Held d ws)
  unfolding merge_staging
  merge_staging-Left v = Triple-bind _ _ (Held-begin d ws) (λ _.
      Triple-bind _ _ (Triple-or_rollback _ (merge_body-Begun v) (Held-rollback d ws))
        (λ r. record { run = λ w b. (end_merge-Left b.staging b.before v r).run w b.ready }))
