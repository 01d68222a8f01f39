-- ===== src/Store/Merge/Cache.antt =====
-- Why merge_staging of lib/semindex_index_db/index_db_writer.c may leave out the rows of a file that
-- is cached: a fingerprint in the index stands for rows that are all stored. This file is about any
-- one of the tables of rows.
use mathlib.Core.Path.{subst, subst₂}
use semindex.Base.{
  ℕ, Bool, true, false, not, ◌&&◌, ◌||◌, Option, none, some, List, [], ◌∷◌, map, any, ◌==◌, ◌≡◌,
  refl, sym, ap, ◌∙◌, ◌⊎◌, inl, inr, arith, In, here, there, Text, text_eq, text_eq_iff, ==_iff,
  In-cons, any-In, Bool-cases, &&-left, &&-right,
}
use semindex.Store.Rows.{FileRow, StagingFile, Db}
use semindex.Store.Sql.{insert_all, delete_where}
use semindex.Store.Stage.Files.{is_stored, same_fingerprint}
use semindex.Store.Merge.{
  insert_new_files, is_replaced, in_replaced, update_file, file_id, join_files, joined_row,
  with_fingerprint, same_stored, staged_fingerprints,
}
use semindex.Store.Merge.Files.{IsFileTable}

-- PRIMARY KEY(path), and that only files other than the main one are marked as cached.
pub record IsStagingTable (staged : List StagingFile) : Type 0 where
  pub by_path : (s u : StagingFile) → In s staged → In u staged → s.path ≡ u.path → s ≡ u
  pub main_not_cached : (s : StagingFile) → In s staged → s.cached ≡ true → s.is_main ≡ false

module _ {B : Type 0} (add : List (ℕ × B) → List (ℕ × B) → List (ℕ × B)) where
  -- What the merge makes of a table to which `add` adds rows.
  abbrev pub merged_with :
      Text → List FileRow → List StagingFile → List (Text × B) → List (ℕ × B) → List (ℕ × B)
  merged_with v files staged rows table =
      let all_files = insert_new_files v files staged in
      add (delete_where (λ r. in_replaced v staged all_files r.0) table)
        (join_files (map (update_file v staged) all_files) v rows)

-- What it makes of a table whose inserts ignore a row with a key that is there.
abbrev pub merged_table :
    {B : Type 0}
    → (B → B → Bool)
    → Text
    → List FileRow
    → List StagingFile
    → List (Text × B)
    → List (ℕ × B)
    → List (ℕ × B)
merged_table same = merged_with (insert_all (same_stored same))

-- What it makes of the fingerprints.
abbrev pub merged_fingerprints :
    Text → List FileRow → List StagingFile → List (ℕ × Text) → List (ℕ × Text)
merged_fingerprints v files staged fingerprints =
    let all_files = insert_new_files v files staged in
    insert_all (same_stored text_eq)
      (delete_where (λ r. in_replaced v staged all_files r.0) fingerprints)
      (join_files (map (update_file v staged) all_files) v (staged_fingerprints staged))

module _ {B : Type 0} (holds : ℕ × B → List (ℕ × B) → Bool) (rows_of : Text → List B) where
  -- The table holds every row that a stored fingerprint stands for.
  pub record Covered (fingerprints : List (ℕ × Text)) (table : List (ℕ × B)) : Type 0 where
    pub at :
        (id : ℕ) (g : Text) (b : B)
        → In (id, g) fingerprints
        → In b (rows_of g)
        → holds (id, b) table ≡ true

module _ {B : Type 0} (rows_of : Text → List B) where
  -- The temporary rows hold all that a fingerprint stands for, unless its file is cached.
  pub record Complete (staged : List StagingFile) (rows : List (Text × B)) : Type 0 where
    pub at :
        (s : StagingFile) (g : Text) (b : B)
        → In s staged
        → s.fingerprint ≡ some g
        → s.cached ≡ false
        → In b (rows_of g)
        → In (s.path, b) rows

joined_row-In :
    {B : Type 0} (o : Option ℕ) {id : ℕ} {b c : B} {rest : List (ℕ × B)}
    → In (id, b) (joined_row o c rest)
    → In (id, b) rest ⊎ ((o ≡ some id) × (b ≡ c))
joined_row-In none m = inl m
joined_row-In (some i) m = elim (In-cons m) [
  | inl e ↦ inr (ap (λ p. some p.0) (sym e), ap (λ p. p.1) e)
  | inr k ↦ inl k
]

In-joined_row :
    {B : Type 0} (o : Option ℕ) {id : ℕ} {b : B} (c : B) {rest : List (ℕ × B)}
    → In (id, b) rest
    → In (id, b) (joined_row o c rest)
In-joined_row none c m = m
In-joined_row (some i) c m = there m

-- A joined row comes from a temporary one, by way of its file's id.
pub join-In :
    {B : Type 0} (files : List FileRow) (v : Text) {id : ℕ} {b : B} (rows : List (Text × B))
    → In (id, b) (join_files files v rows)
    → (path : Text) × In (path, b) rows × (file_id files v path ≡ some id)
unfolding join_files
join-In files v [] m = elim m [ ]
join-In files v ((path, c) ∷ rows) m = elim (joined_row-In (file_id files v path) m) [
  | inl k ↦ let (q, n, e) = join-In files v rows k in (q, there n, e)
  | inr (e, p) ↦ (path, here (ap (λ x. (path, x)) p), e)
]

pub In-join :
    {B : Type 0} (files : List FileRow) (v path : Text) {id : ℕ} {b : B} (rows : List (Text × B))
    → In (path, b) rows
    → file_id files v path ≡ some id
    → In (id, b) (join_files files v rows)
unfolding join_files
In-join files v path [] m e = elim m [ ]
In-join files v path {id} {b} ((q, c) ∷ rows) m e = elim (In-cons m) [
  | inl p ↦
      let e' : file_id files v q ≡ some id =
        subst (λ x. file_id files v x ≡ some id) (ap (λ r. r.0) p) e in
      rw e' (here (ap (λ r. (id, r.1)) p))
  | inr k ↦ In-joined_row (file_id files v q) c (In-join files v path rows k e)
]

with_fingerprint-In :
    (o : Option Text) {p path g : Text} {rest : List (Text × Text)}
    → In (path, g) (with_fingerprint o p rest)
    → In (path, g) rest ⊎ ((o ≡ some g) × (p ≡ path))
with_fingerprint-In none m = inl m
with_fingerprint-In (some f) m = elim (In-cons m) [
  | inl e ↦ inr (ap (λ r. some r.1) (sym e), ap (λ r. r.0) (sym e))
  | inr k ↦ inl k
]

pub staged_fingerprints-In :
    (staged : List StagingFile) {path g : Text}
    → In (path, g) (staged_fingerprints staged)
    → (s : StagingFile) × In s staged × (s.path ≡ path) × (s.fingerprint ≡ some g)
unfolding staged_fingerprints
staged_fingerprints-In [] m = elim m [ ]
staged_fingerprints-In (s ∷ rest) m = elim (with_fingerprint-In s.fingerprint m) [
  | inl k ↦ let (u, n, p, e) = staged_fingerprints-In rest k in (u, there n, p, e)
  | inr (e, p) ↦ (s, here refl, p, e)
]

pair_path : {a b : ℕ} {g h : Text} → a ≡ b → g ≡ h → ◌≡◌ {A = ℕ × Text} (a, g) (b, h)
pair_path p q = λ i. (p i, q i)

-- What is_stored has found.
pub record StoredAs (db : Db) (v : Text) (s : StagingFile) : Type 0 where
  pub file : FileRow
  pub member : In file db.files
  pub variant : file.variant ≡ v
  pub path : file.path ≡ s.path
  pub mtime : file.mtime_ns ≡ s.mtime_ns
  pub size : file.size ≡ s.size
  pub fingerprint : (g : Text) → s.fingerprint ≡ some g → In (file.id, g) db.fingerprints

same_fingerprint-some :
    (o : Option Text) (g h : Text) → o ≡ some g → same_fingerprint o h ≡ true → g ≡ h
same_fingerprint-some none g h e k = cc
same_fingerprint-some (some f) g h e k = ground (arith, text_eq_iff f h)

all_five :
    (a b c d e : Bool)
    → (a && b && c && d && e) ≡ true
    → (a ≡ true) × (b ≡ true) × (c ≡ true) × (d ≡ true) × (e ≡ true)
all_five a b c d e h = ground arith

abbrev stored_fingerprint : StagingFile → FileRow → ℕ × Text → Bool
stored_fingerprint s f g = g.0 == f.id && same_fingerprint s.fingerprint g.1

abbrev stored_file : Db → Text → StagingFile → FileRow → Bool
stored_file db v s f =
    text_eq f.variant v
    && text_eq f.path s.path
    && f.mtime_ns == s.mtime_ns
    && f.size == s.size
    && any (stored_fingerprint s f) db.fingerprints

pub is_stored-StoredAs :
    (db : Db) (v : Text) (s : StagingFile) → is_stored db v s ≡ true → StoredAs db v s
unfolding is_stored
is_stored-StoredAs db v s h =
    let (f, m, k) = any-In (stored_file db v s) db.files h in
    let (variant_is, path_is, mtime_is, size_is, print_is) = all_five _ _ _ _ _ k in
    let (g, n, q) = any-In (stored_fingerprint s f) db.fingerprints print_is in
    record {
      file = f;
      member = m;
      variant = (text_eq_iff f.variant v).0 variant_is;
      path = (text_eq_iff f.path s.path).0 path_is;
      mtime = (==_iff f.mtime_ns s.mtime_ns).0 mtime_is;
      size = (==_iff f.size s.size).0 size_is;
      fingerprint = λ g' e.
          let i : g.0 ≡ f.id = (==_iff g.0 f.id).0 (&&-left (g.0 == f.id) _ q) in
          let t : g' ≡ g.1 =
            same_fingerprint-some s.fingerprint g' g.1 e (&&-right (g.0 == f.id) _ q) in
          subst (λ x. In x db.fingerprints) (pair_path i (sym t)) n;
    }

-- What is_replaced asks of a temporary row.
abbrev changes : FileRow → StagingFile → Bool
changes f s =
    text_eq s.path f.path && (s.is_main || not (f.mtime_ns == s.mtime_ns) || not (f.size == s.size))

unchanged_file :
    (f : FileRow) (s : StagingFile)
    → s.is_main ≡ false
    → f.mtime_ns ≡ s.mtime_ns
    → f.size ≡ s.size
    → ¬ (changes f s ≡ true)
unchanged_file f s m t z h = ground arith

-- A file that is as it was stored, and not the main one, is not replaced.
pub not_replaced :
    (v : Text) (staged : List StagingFile) (files : List FileRow) (f : FileRow) (s : StagingFile)
    → IsFileTable files
    → IsStagingTable staged
    → In f files
    → In s staged
    → f.path ≡ s.path
    → f.mtime_ns ≡ s.mtime_ns
    → f.size ≡ s.size
    → s.is_main ≡ false
    → in_replaced v staged files f.id ≡ false
unfolding in_replaced is_replaced
not_replaced v staged files f s t u m n path mtime size main =
    elim (Bool-cases (in_replaced v staged files f.id)) [
      | inr e ↦ e
      | inl e ↦
          let (f', m', k) =
            any-In (λ (r : FileRow). r.id == f.id && is_replaced v staged r) files e in
          let file_is : f' ≡ f =
            t.by_id f' f m' m ((==_iff f'.id f.id).0 (&&-left (f'.id == f.id) _ k)) in
          let (s', n', q) =
            any-In (changes f') staged
              (&&-right (text_eq f'.variant v) _ (&&-right (f'.id == f.id) _ k)) in
          let path_is : s'.path ≡ f'.path =
            (text_eq_iff s'.path f'.path).0 (&&-left (text_eq s'.path f'.path) _ q) in
          let row_is : s' ≡ s =
            u.by_path s' s n' n (path_is ∙ ap (λ (r : FileRow). r.path) file_is ∙ path) in
          absurd (
            unchanged_file f s main mtime size
              (subst₂ (λ x y. changes x y ≡ true) file_is row_is q))
    ]
