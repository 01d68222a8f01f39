-- ===== src/Store/Merge/Sound.antt =====
-- The merge of lib/semindex_index_db/index_db_writer.c without the rows of the cached files does
-- what it does with them.
use mathlib.Core.Path.{subst}
use semindex.Base.{
  ℕ, Bool, true, false, not, ◌&&◌, Option, none, some, List, map, any, ◌==◌, ◌≡◌, refl, ◌∙◌, inl,
  inr, arith, In, Text, text_eq, any_of_In, any-In, In-keep, keep-In, Bool-cases, &&-left, ==_iff,
}
use semindex.Store.Rows.{FileRow, StagingFile, Db}
use semindex.Store.Sql.{has_key, insert_all, delete_where}
use semindex.Store.Sql.Laws.{
  has_key_of_In, has_key-insert_all, has_key-insert_all_of_In, insert_all-In, Omits, nil, both,
  omit, insert_all-Omits,
}
use semindex.Store.Stage.Files.{is_stored, cached_files_valid}
use semindex.Store.Merge.{
  insert_new_files, in_replaced, update_file, file_id, join_files, joined_row, same_stored,
  staged_fingerprints,
}
use semindex.Store.Merge.Files.{
  IsFileTable, IsFileTable-insert_new_files, In-insert_new_files, file_id-In, file_id-map,
}
use semindex.Store.Merge.Cache.{
  IsStagingTable, Covered, Complete, merged_with, merged_fingerprints, join-In, In-join,
  staged_fingerprints-In, is_stored-StoredAs, not_replaced,
}

-- Every cached file is stored when the check of the merge passes.
pub cached_files_valid-is_stored :
    (db : Db) (v : Text) (staged : List StagingFile) (s : StagingFile)
    → cached_files_valid db v staged ≡ true
    → In s staged
    → s.cached ≡ true
    → is_stored db v s ≡ true
unfolding cached_files_valid
cached_files_valid-is_stored db v staged s h m c = elim (Bool-cases (is_stored db v s)) [
  | inl e ↦ e
  | inr e ↦
      let found : any (λ (f : StagingFile). f.cached && not (is_stored db v f)) staged ≡ true =
        any_of_In (λ (f : StagingFile). f.cached && not (is_stored db v f)) m (rw (c, e) refl) in
      absurd (cc (found, h))
]

module _ {B : Type 0} (rows_of : Text → List B) where
  -- A temporary row that a cached file's fingerprint stands for.
  pub record OfCached (staged : List StagingFile) (r : Text × B) : Type 0 where
    pub file : StagingFile
    pub print : Text
    pub member : In file staged
    pub path : file.path ≡ r.0
    pub fingerprint : file.fingerprint ≡ some print
    pub cached : file.cached ≡ true
    pub row : In r.1 (rows_of print)

  record Joined (v : Text) (staged : List StagingFile) (files : List FileRow) (r : ℕ × B)
      : Type 0 where
    path : Text
    of_cached : OfCached staged (path, r.1)
    id : file_id files v path ≡ some r.0

  joined_row-Omits :
      {P : ℕ × B → Type 0} (o : Option ℕ) (b : B) {fewer more : List (ℕ × B)}
      → ((i : ℕ) → o ≡ some i → P (i, b))
      → Omits P fewer more
      → Omits P fewer (joined_row o b more)
  joined_row-Omits none b k o = o
  joined_row-Omits (some i) b k o = omit (k i refl) o

  joined_row-both :
      {P : ℕ × B → Type 0} (o : Option ℕ) (b : B) {fewer more : List (ℕ × B)}
      → Omits P fewer more
      → Omits P (joined_row o b fewer) (joined_row o b more)
  joined_row-both none b o = o
  joined_row-both (some i) b o = both o

  join-Omits :
      (v : Text) (staged : List StagingFile) (files : List FileRow) {fewer more : List (Text × B)}
      → Omits (OfCached staged) fewer more
      → Omits (Joined v staged files) (join_files files v fewer) (join_files files v more)
  unfolding join_files
  join-Omits v staged files nil = nil
  join-Omits v staged files (both {x} o) =
      joined_row-both (file_id files v x.0) x.1 (join-Omits v staged files o)
  join-Omits v staged files (omit {x} p o) =
      joined_row-Omits (file_id files v x.0) x.1
        (λ i e. record { path = x.0; of_cached = p; id = e }) (join-Omits v staged files o)

module _ {B : Type 0} (same : B → B → Bool) where
  -- A row of a file that is not replaced keeps its key.
  pub has_key-delete_where :
      (gone : ℕ → Bool) (id : ℕ) (b : B) (table : List (ℕ × B))
      → gone id ≡ false
      → has_key (same_stored same) (id, b) table ≡ true
      → has_key (same_stored same) (id, b) (delete_where (λ r. gone r.0) table) ≡ true
  has_key-delete_where gone id b table g h =
      let (r, m, e) = any-In (λ x. same_stored same x (id, b)) table h in
      let i : r.0 ≡ id = (==_iff r.0 id).0 (&&-left (r.0 == id) _ e) in
      has_key_of_In (same_stored same) (id, b)
        (In-keep (λ (x : ℕ × B). not (gone x.0)) m (rw (i, g) refl)) e

-- How rows are added to a table: what it holds stays, what is added is held, what is held already may
-- be left out, and what is held of a file stays when rows of other files are deleted.
pub record Adds {B : Type 0} (holds : ℕ × B → List (ℕ × B) → Bool)
    (add : List (ℕ × B) → List (ℕ × B) → List (ℕ × B)) : Type 1 where
  pub keeps : (r : ℕ × B) (t rs : List (ℕ × B)) → holds r t ≡ true → holds r (add t rs) ≡ true
  pub adds : (r : ℕ × B) (t rs : List (ℕ × B)) → In r rs → holds r (add t rs) ≡ true
  pub omits :
      (P : ℕ × B → Type 0) (t : List (ℕ × B)) {fewer more : List (ℕ × B)}
      → ((r : ℕ × B) → P r → holds r t ≡ true)
      → Omits P fewer more
      → add t fewer ≡ add t more
  pub deletes :
      (gone : ℕ → Bool) (id : ℕ) (b : B) (t : List (ℕ × B))
      → gone id ≡ false
      → holds (id, b) t ≡ true
      → holds (id, b) (delete_where (λ r. gone r.0) t) ≡ true

pub insert_all-Adds :
    {B : Type 0} (same : B → B → Bool)
    → ((b : B) → same b b ≡ true)
    → Adds (has_key (same_stored same)) (insert_all (same_stored same))
insert_all-Adds same reflexive = record {
  keeps = has_key-insert_all (same_stored same);
  adds = λ r t rs m. has_key-insert_all_of_In (same_stored same) r t rs (stored_refl r.0 r.1) m;
  omits = λ P t k o. insert_all-Omits (same_stored same) t k o;
  deletes = has_key-delete_where same;
}
  where
    stored_refl : (id : ℕ) (b : _) → same_stored same (id, b) (id, b) ≡ true
    stored_refl id b = ground (arith, reflexive b, ==_iff id id)

module _ {B : Type 0} {holds : ℕ × B → List (ℕ × B) → Bool}
    {add : List (ℕ × B) → List (ℕ × B) → List (ℕ × B)} (adding : Adds holds add)
    (rows_of : Text → List B) where
  module _ (v : Text) (db : Db) (staged : List StagingFile) (table : List (ℕ × B))
      (t : IsFileTable db.files) (u : IsStagingTable staged)
      (valid : cached_files_valid db v staged ≡ true)
      (covered : Covered holds rows_of db.fingerprints table) where
    abbrev all_files : List FileRow
    all_files = insert_new_files v db.files staged

    Joined-is_stored :
        (r : ℕ × B)
        → Joined rows_of v staged (map (update_file v staged) all_files) r
        → holds r (delete_where (λ x. in_replaced v staged all_files x.0) table) ≡ true
    Joined-is_stored r j =
        let c = j.of_cached in
        let s = c.file in
        let at =
          is_stored-StoredAs db v s
            (cached_files_valid-is_stored db v staged s valid c.member c.cached) in
        let f = at.file in
        let here_still : In f all_files = In-insert_new_files v db.files staged at.member in
        let t' = IsFileTable-insert_new_files v db.files staged t in
        let found : file_id all_files v j.path ≡ some f.id =
          subst (λ x. file_id all_files x j.path ≡ some f.id) at.variant
            (subst (λ x. file_id all_files f.variant x ≡ some f.id) (at.path ∙ c.path)
              (file_id-In all_files f t' here_still)) in
        let id_is : f.id ≡ r.0 = cc (found, j.id, file_id-map v staged all_files v j.path) in
        let kept =
          not_replaced v staged all_files f s t' u here_still c.member at.path at.mtime at.size
            (u.main_not_cached s c.member c.cached) in
        subst
          (λ i.
            holds (i, r.1) (delete_where (λ x. in_replaced v staged all_files x.0) table) ≡ true)
          id_is
          (adding.deletes (in_replaced v staged all_files) f.id r.1 table kept
            (covered.at f.id c.print r.1 (at.fingerprint c.print c.fingerprint) c.row))

    pub merged_with-Omits :
        {fewer more : List (Text × B)}
        → Omits (OfCached rows_of staged) fewer more
        → merged_with add v db.files staged fewer table
          ≡ merged_with add v db.files staged more table
    merged_with-Omits o =
        adding.omits (Joined rows_of v staged (map (update_file v staged) all_files)) _
          Joined-is_stored (join-Omits rows_of v staged (map (update_file v staged) all_files) o)

    -- A fingerprint of the merged table stands for rows that the merged table has.
    pub Covered-merged_with :
        (rows : List (Text × B))
        → Complete rows_of staged rows
        → Covered holds rows_of
            (merged_fingerprints v db.files staged db.fingerprints)
            (merged_with add v db.files staged rows table)
    Covered-merged_with rows complete = record {
      at = λ id g b m k. elim (insert_all-In (same_stored text_eq) _ _ m) [
        | inl old ↦
            let (was, kept) =
              keep-In (λ (x : ℕ × Text). not (in_replaced v staged all_files x.0)) db.fingerprints
                old in
            adding.keeps (id, b) _ joined
              (adding.deletes (in_replaced v staged all_files) id b table (ground (arith, kept))
                (covered.at id g b was k))
        | inr new ↦
            let (path, n, i) = join-In now v (staged_fingerprints staged) new in
            let (s, h, p, e) = staged_fingerprints-In staged n in
            elim (Bool-cases s.cached) [
              | inl c ↦
                  adding.keeps (id, b) _ joined
                    (Joined-is_stored (id, b)
                      (record {
                        path = path;
                        of_cached = record {
                          file = s;
                          print = g;
                          member = h;
                          path = p;
                          fingerprint = e;
                          cached = c;
                          row = k;
                        };
                        id = i;
                      }))
              | inr c ↦
                  adding.adds (id, b) _ joined
                    (In-join now v path rows
                      (subst (λ x. In (x, b) rows) p (complete.at s g b h e c k)) i)
            ]
      ];
    }
      where
        now : List FileRow
        now = map (update_file v staged) all_files

        joined : List (ℕ × B)
        joined = join_files now v rows
