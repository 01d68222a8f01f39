-- ===== src/Store/Merge/Files.antt =====
-- The table `files` through a merge: merge[0] and merge[6] of
-- lib/semindex_index_db/index_db_writer.c.
use mathlib.Core.Path.{subst}
use semindex.Base.{
  ℕ, ◌<◌, Bool, true, false, Option, none, some, List, [], ◌∷◌, ◌++◌, map, any, find, ◌≡◌, refl,
  sym, ap, ◌∙◌, ◌⊎◌, inl, inr, arith, In, here, there, Text, text_eq_iff, In-cons, In-append,
  In-append_left, any_of_In, Bool-cases,
}
use semindex.Store.Rows.{FileRow, StagingFile}
use semindex.Store.Merge.{
  next_id, is_file, insert_new_file, insert_new_files, update_file, file_id, id_of,
}

-- PRIMARY KEY(id) and UNIQUE(variant, path)
pub record IsFileTable (files : List FileRow) : Type 0 where
  pub by_id : (f g : FileRow) → In f files → In g files → f.id ≡ g.id → f ≡ g
  pub by_path :
      (f g : FileRow) → In f files → In g files → f.variant ≡ g.variant → f.path ≡ g.path → f ≡ g

pub id-lt-next_id : (f : FileRow) (files : List FileRow) → In f files → f.id < next_id files
unfolding next_id
id-lt-next_id f (x ∷ files) m = elim (In-cons m) [
  | inl e ↦ ground (arith, ap (λ (r : FileRow). r.id) e)
  | inr k ↦ ground (arith, id-lt-next_id f files k)
]
id-lt-next_id f [] m = elim m [ ]

is_file_iff :
    (variant path : Text) (f : FileRow)
    → (is_file variant path f ≡ true)
    → (f.variant ≡ variant) × (f.path ≡ path)
is_file_iff variant path f h =
    ground (arith, text_eq_iff f.variant variant, text_eq_iff f.path path)

is_file_of :
    (variant path : Text) (f : FileRow)
    → f.variant ≡ variant
    → f.path ≡ path
    → is_file variant path f ≡ true
is_file_of variant path f p q =
    ground (arith, text_eq_iff f.variant variant, text_eq_iff f.path path)

-- The row that merge[0] adds for a file that the variant does not have.
abbrev new_row : Text → List FileRow → StagingFile → FileRow
new_row variant files s = record {
  id = next_id files;
  variant = variant;
  path = s.path;
  mtime_ns = s.mtime_ns;
  size = s.size;
}

IsFileTable-append :
    (variant : Text) (files : List FileRow) (s : StagingFile)
    → any (is_file variant s.path) files ≡ false
    → IsFileTable files
    → IsFileTable (files ++ new_row variant files s ∷ [])
IsFileTable-append variant files s new t = record {
  by_id = λ f g m n e. elim (last_or_old m) [
    | inl a ↦ elim (last_or_old n) [
      | inl b ↦ t.by_id f g a b e
      | inr q ↦ absurd (clash f a (e ∙ ap (λ (r : FileRow). r.id) q))
    ]
    | inr p ↦ elim (last_or_old n) [
      | inl b ↦ absurd (clash g b (sym e ∙ ap (λ (r : FileRow). r.id) p))
      | inr q ↦ p ∙ sym q
    ]
  ];
  by_path = λ f g m n e k. elim (last_or_old m) [
    | inl a ↦ elim (last_or_old n) [
      | inl b ↦ t.by_path f g a b e k
      | inr q ↦
          absurd (
            stored f a (e ∙ ap (λ (r : FileRow). r.variant) q) (k ∙ ap (λ (r : FileRow). r.path) q))
    ]
    | inr p ↦ elim (last_or_old n) [
      | inl b ↦ absurd (
          stored g b (sym e ∙ ap (λ (r : FileRow). r.variant) p)
            (sym k ∙ ap (λ (r : FileRow). r.path) p))
      | inr q ↦ p ∙ sym q
    ]
  ];
}
  where
    last_or_old :
        {f : FileRow}
        → In f (files ++ new_row variant files s ∷ [])
        → In f files ⊎ (f ≡ new_row variant files s)
    last_or_old m = elim (In-append files m) [
      | inl a ↦ inl a
      | inr b ↦ elim (In-cons b) [ inl p ↦ inr p | inr c ↦ elim c [ ] ]
    ]

    clash : (f : FileRow) → In f files → f.id ≡ next_id files → ⊥
    clash f m e = omega (arith, id-lt-next_id f files m)

    stored : (f : FileRow) → In f files → f.variant ≡ variant → f.path ≡ s.path → ⊥
    stored f m p q =
        let h : any (is_file variant s.path) files ≡ true =
          any_of_In (is_file variant s.path) m (is_file_of variant s.path f p q) in
        cc

IsFileTable-insert_new_file :
    (variant : Text) (files : List FileRow) (s : StagingFile)
    → IsFileTable files
    → IsFileTable (insert_new_file variant files s)
unfolding insert_new_file
IsFileTable-insert_new_file variant files s t =
    elim (Bool-cases (any (is_file variant s.path) files)) [
      | inl e ↦ rw e t
      | inr e ↦ rw e (IsFileTable-append variant files s e t)
    ]

-- merge[0] keeps the ids apart and one row for a path of a variant.
pub IsFileTable-insert_new_files :
    (variant : Text) (files : List FileRow) (staged : List StagingFile)
    → IsFileTable files
    → IsFileTable (insert_new_files variant files staged)
unfolding insert_new_files
IsFileTable-insert_new_files variant files [] t = t
IsFileTable-insert_new_files variant files (s ∷ rest) t =
    IsFileTable-insert_new_files variant (insert_new_file variant files s) rest
      (IsFileTable-insert_new_file variant files s t)

In-insert_new_file :
    {f : FileRow} (variant : Text) (files : List FileRow) (s : StagingFile)
    → In f files
    → In f (insert_new_file variant files s)
unfolding insert_new_file
In-insert_new_file variant files s m = elim (Bool-cases (any (is_file variant s.path) files)) [
  | inl e ↦ rw e m
  | inr e ↦ rw e (In-append_left _ m)
]

pub In-insert_new_files :
    {f : FileRow} (variant : Text) (files : List FileRow) (staged : List StagingFile)
    → In f files
    → In f (insert_new_files variant files staged)
unfolding insert_new_files
In-insert_new_files variant files [] m = m
In-insert_new_files variant files (s ∷ rest) m =
    In-insert_new_files variant (insert_new_file variant files s) rest
      (In-insert_new_file variant files s m)

find-any :
    {A : Type 0} (p : A → Bool) (xs : List A)
    → any p xs ≡ true
    → (x : A) × (find p xs ≡ some x) × In x xs × (p x ≡ true)
unfolding any find
find-any p [] h = absurd (cc h)
find-any p (x ∷ xs) h = elim (Bool-cases (p x)) [
  | inl e ↦ (x, rw e, here refl, e)
  | inr e ↦ let (y, q, m, k) = find-any p xs (rw e at h) in (y, rw e q, there m, k)
]

-- The id of a file is found by its variant and path.
pub file_id-In :
    (files : List FileRow) (f : FileRow)
    → IsFileTable files
    → In f files
    → file_id files f.variant f.path ≡ some f.id
unfolding file_id
file_id-In files f t m =
    let here_is = is_file_of f.variant f.path f refl refl in
    let (g, found, n, k) = find-any (is_file f.variant f.path) files (any_of_In _ m here_is) in
    let (p, q) = is_file_iff f.variant f.path g k in
    rw found (ap (λ (r : FileRow). some r.id) (t.by_path g f n m p q))

map-In :
    {A B : Type 0} (f : A → B) (xs : List A) {y : B}
    → In y (map f xs)
    → (x : A) × In x xs × (y ≡ f x)
map-In f [] m = elim m [ ]
map-In f (x ∷ xs) m = elim (In-cons m) [
  | inl e ↦ (x, here refl, e)
  | inr k ↦ let (z, n, e) = map-In f xs k in (z, there n, e)
]

module _ (variant : Text) (staged : List StagingFile) where
  -- merge[6] changes no key.
  update_file_keys :
      (f : FileRow)
      → ((update_file variant staged f).id ≡ f.id)
        × ((update_file variant staged f).variant ≡ f.variant)
        × ((update_file variant staged f).path ≡ f.path)
  unfolding update_file
  update_file_keys f = ground arith

  pub file_id-map :
      (files : List FileRow) (v path : Text)
      → file_id (map (update_file variant staged) files) v path ≡ file_id files v path
  unfolding file_id find
  file_id-map [] v path = refl
  file_id-map (f ∷ files) v path =
      let (i, k, p) = update_file_keys f in ground (arith, i, k, p, file_id-map files v path)

  -- merge[6] keeps the ids apart and one row for a path of a variant.
  pub IsFileTable-update :
      (files : List FileRow)
      → IsFileTable files
      → IsFileTable (map (update_file variant staged) files)
  IsFileTable-update files t = record {
    by_id = λ f g m n e.
        let (f', m', p) = map-In (update_file variant staged) files m in
        let (g', n', q) = map-In (update_file variant staged) files n in
        p
        ∙ ap (update_file variant staged) (
            t.by_id f' g' m' n' (
              sym (update_file_keys f').0
              ∙ ap (λ (r : FileRow). r.id) (sym p)
              ∙ e
              ∙ ap (λ (r : FileRow). r.id) q
              ∙ (update_file_keys g').0))
        ∙ sym q;
    by_path = λ f g m n e k.
        let (f', m', p) = map-In (update_file variant staged) files m in
        let (g', n', q) = map-In (update_file variant staged) files n in
        p
        ∙ ap (update_file variant staged) (
            t.by_path f' g' m' n'
              (sym (update_file_keys f').1
                ∙ ap (λ (r : FileRow). r.variant) (sym p)
                ∙ e
                ∙ ap (λ (r : FileRow). r.variant) q
                ∙ (update_file_keys g').1)
              (sym (update_file_keys f').2
                ∙ ap (λ (r : FileRow). r.path) (sym p)
                ∙ k
                ∙ ap (λ (r : FileRow). r.path) q
                ∙ (update_file_keys g').2))
        ∙ sym q;
  }

find-some :
    {A : Type 0} (p : A → Bool) (xs : List A) {x : A} → find p xs ≡ some x → In x xs × (p x ≡ true)
unfolding find
find-some p [] e = absurd (cc e)
find-some p (y ∷ ys) {x} e = elim (Bool-cases (p y)) [
  | inl h ↦
      let q : some y ≡ some x = rw h at e in
      let q' : y ≡ x = cc q in (here (sym q'), subst (λ z. p z ≡ true) q' h)
  | inr h ↦ let (m, k) = find-some p ys (rw h at e) in (there m, k)
]

id_of-some :
    (o : Option FileRow) {id : ℕ} → id_of o ≡ some id → (f : FileRow) × (o ≡ some f) × (f.id ≡ id)
id_of-some none e = absurd (cc e)
id_of-some (some f) e = (f, refl, cc e)

-- An id that is found is that of a file of the variant.
pub file_id-some :
    (files : List FileRow) (v path : Text) {id : ℕ}
    → file_id files v path ≡ some id
    → (f : FileRow) × In f files × (f.id ≡ id) × (f.variant ≡ v) × (f.path ≡ path)
unfolding file_id
file_id-some files v path e =
    let (f, o, i) = id_of-some (find (is_file v path) files) e in
    let (m, k) = find-some (is_file v path) files o in
    let (p, q) = is_file_iff v path f k in (f, m, i, p, q)
