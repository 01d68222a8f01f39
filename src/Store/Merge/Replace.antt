-- ===== src/Store/Merge/Replace.antt =====
-- What the merge of lib/semindex_index_db/index_db_writer.c does to the rows of one table: it
-- replaces those of the files that are replaced and leaves those of other variants alone.
use semindex.Base.{
  ℕ, Bool, true, false, not, ◌&&◌, some, List, ◌==◌, ==_iff, ◌≡◌, refl, sym, ap, ◌∙◌, ◌⊎◌, inl, inr,
  arith, In, Text, text_eq, text_eq_iff, any-In, In-keep, keep-In, Bool-cases, &&-left, &&-right,
}
use semindex.Store.Rows.{FileRow, StagingFile}
use semindex.Store.Sql.{has_key}
use semindex.Store.Sql.Laws.{In-insert_all, insert_all-In, has_key-insert_all_of_In}
use semindex.Store.Merge.{insert_new_files, is_replaced, in_replaced, file_id, same_stored}
use semindex.Store.Merge.Files.{
  IsFileTable, IsFileTable-insert_new_files, In-insert_new_files, file_id-map, file_id-some,
}
use semindex.Store.Merge.Cache.{merged_table, join-In, In-join}

-- A file of another variant is not replaced.
other_variant-not_replaced :
    (v : Text) (staged : List StagingFile) (files : List FileRow) (f : FileRow)
    → IsFileTable files
    → In f files
    → ¬ (f.variant ≡ v)
    → in_replaced v staged files f.id ≡ false
unfolding in_replaced is_replaced
other_variant-not_replaced v staged files f t m other =
    elim (Bool-cases (in_replaced v staged files f.id)) [
      | inr e ↦ e
      | inl e ↦
          let (g, n, k) =
            any-In (λ (r : FileRow). r.id == f.id && is_replaced v staged r) files e in
          let file_is : g ≡ f =
            t.by_id g f n m ((==_iff g.id f.id).0 (&&-left (g.id == f.id) _ k)) in
          let variant_is : g.variant ≡ v =
            (text_eq_iff g.variant v).0
              (&&-left (text_eq g.variant v) _ (&&-right (g.id == f.id) _ k)) in
          absurd (other (ap (λ (r : FileRow). r.variant) (sym file_is) ∙ variant_is))
    ]

-- No path of a variant is the path of another variant's file.
other_variant-no_path :
    (v path : Text) (files : List FileRow) (f : FileRow)
    → IsFileTable files
    → In f files
    → ¬ (f.variant ≡ v)
    → ¬ (file_id files v path ≡ some f.id)
other_variant-no_path v path files f t m other e =
    let (g, n, i, variant_is, _) = file_id-some files v path e in
    other (ap (λ (r : FileRow). r.variant) (sym (t.by_id g f n m i)) ∙ variant_is)

module _ {B : Type 0} (same : B → B → Bool) (v : Text) (files : List FileRow)
    (staged : List StagingFile) (rows : List (Text × B)) (table : List (ℕ × B)) where
  -- The files once the new ones have their ids.
  abbrev pub all_files : List FileRow
  all_files = insert_new_files v files staged

  -- A temporary row of the file with that id.
  abbrev pub StagedRow : ℕ → B → Type 0
  StagedRow id b = (path : Text) × In (path, b) rows × (file_id all_files v path ≡ some id)

  pub merged_table-In :
      (id : ℕ) (b : B)
      → In (id, b) (merged_table same v files staged rows table)
      → StagedRow id b ⊎ (In (id, b) table × (in_replaced v staged all_files id ≡ false))
  merged_table-In id b m = elim (insert_all-In (same_stored same) _ _ m) [
    | inl old ↦
        let (was, kept) =
          keep-In (λ (x : ℕ × B). not (in_replaced v staged all_files x.0)) table old in
        inr (was, ground (arith, kept))
    | inr new ↦
        let (path, n, e) = join-In _ v rows new in
        inl (path, n, sym (file_id-map v staged all_files v path) ∙ e)
  ]

  pub In-merged_table :
      (id : ℕ) (b : B)
      → In (id, b) table
      → in_replaced v staged all_files id ≡ false
      → In (id, b) (merged_table same v files staged rows table)
  In-merged_table id b m e =
      In-insert_all (same_stored same) _ _
        (In-keep (λ (x : ℕ × B). not (in_replaced v staged all_files x.0)) m (rw e refl))

  pub has_key-merged_table :
      (id : ℕ) (b : B)
      → ((x : B) → same x x ≡ true)
      → StagedRow id b
      → has_key (same_stored same) (id, b) (merged_table same v files staged rows table) ≡ true
  has_key-merged_table id b reflexive (path, m, e) =
      has_key-insert_all_of_In (same_stored same) (id, b) _ _
        (ground (arith, reflexive b, ==_iff id id))
        (In-join _ v path rows m (file_id-map v staged all_files v path ∙ e))

  -- The rows of another variant's file are what they were.
  pub merged_table-other_variant :
      (f : FileRow) (b : B)
      → IsFileTable files
      → In f files
      → ¬ (f.variant ≡ v)
      → (In (f.id, b) (merged_table same v files staged rows table) → In (f.id, b) table)
        × (In (f.id, b) table → In (f.id, b) (merged_table same v files staged rows table))
  merged_table-other_variant f b t m other =
      let t' = IsFileTable-insert_new_files v files staged t in
      let m' = In-insert_new_files v files staged m in
      (
        λ n. elim (merged_table-In f.id b n) [
          | inl s ↦ absurd (other_variant-no_path v s.0 all_files f t' m' other s.2)
          | inr k ↦ k.0
        ],
        λ n. In-merged_table f.id b n (other_variant-not_replaced v staged all_files f t' m' other),
      )
