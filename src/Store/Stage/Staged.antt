-- ===== src/Store/Stage/Staged.antt =====
-- What stage_records of lib/semindex_index_db/index_db_writer.c leaves in the temporary tables.
use semindex.Base.{
  ℕ, ◌+◌, Bool, true, false, not, ◌&&◌, Option, none, some, List, [], ◌∷◌, ◌++◌, map, keep,
  if◌then◌else◌, ◌≡◌, refl, ap, Bool-cases, inl, inr, Text, is_some,
}
use semindex.Store.Index.{Symbol, Use, Parameter, FunctionSignature, Index}
use semindex.Store.Rows.{
  RecordBody, SymbolTypeBody, FunctionTypeBody, PropertyBody, same_record, same_symbol_type,
  same_function_type, same_property, Staging,
}
use semindex.Store.Sql.{insert_or_ignore, insert_all, upsert, upsert_all}
use semindex.Store.Session.{World, pure}
use semindex.Store.Session.Triple.{Post}
use semindex.Store.Session.Leaves.{
  Holds, Anything, Leaves, exec_staging-Leaves, exec_read-Leaves, pure-Leaves, gets-Leaves,
  bind-Leaves, if-Leaves, as-Leaves,
}
use semindex.Store.Stage.{
  StoredPaths, StagingCounts, no_counts, present, is_cached, symbol_row, use_row, symbol_type_row,
  property_row, return_row, parameter_row, stage_record, stage_symbol_type, stage_function_type,
  stage_symbol_properties, same_filed, or_properties,
}
use semindex.Store.Stage.Records.{
  is_skipped, has_type, has_properties, stage_type_of, stage_properties_of, stage_new_symbol,
  stage_symbol, stage_symbols, stage_use, stage_uses, stage_parameters, stage_signature,
  stage_signatures, stage_records,
}

-- The statements of one row.

abbrev add_record : Text × RecordBody → Staging → Staging
add_record r st = record st { records = insert_or_ignore (same_filed same_record) st.records r }

abbrev add_symbol_type : Text × SymbolTypeBody → Staging → Staging
add_symbol_type r st = record st {
  symbol_types = insert_or_ignore (same_filed same_symbol_type) st.symbol_types r;
}

abbrev add_function_type : Text × FunctionTypeBody → Staging → Staging
add_function_type r st = record st {
  function_types = insert_or_ignore (same_filed same_function_type) st.function_types r;
}

abbrev add_properties : Text × PropertyBody → Staging → Staging
add_properties r st = record st {
  symbol_properties = upsert (same_filed same_property) or_properties st.symbol_properties r;
}

stage_record-Leaves : (r : Text × RecordBody) → Leaves (stage_record r) (add_record r)
unfolding stage_record
stage_record-Leaves r = exec_staging-Leaves _ _

stage_symbol_type-Leaves :
    (r : Text × SymbolTypeBody) → Leaves (stage_symbol_type r) (add_symbol_type r)
unfolding stage_symbol_type
stage_symbol_type-Leaves r = exec_staging-Leaves _ _

stage_function_type-Leaves :
    (r : Text × FunctionTypeBody) → Leaves (stage_function_type r) (add_function_type r)
unfolding stage_function_type
stage_function_type-Leaves r = exec_staging-Leaves _ _

stage_symbol_properties-Leaves :
    (r : Text × PropertyBody) → Leaves (stage_symbol_properties r) (add_properties r)
unfolding stage_symbol_properties
stage_symbol_properties-Leaves r = exec_staging-Leaves _ _

-- The rows that an index is to have in each temporary table.
module _ (paths : StoredPaths) (include_local : Bool) (cached : List Bool) where
  abbrev pub is_new_symbol : Symbol → Bool
  is_new_symbol s = not (is_skipped include_local s.is_local) && not (is_cached cached s.file_index)

  abbrev pub is_new_use : Use → Bool
  is_new_use u = not (is_skipped include_local u.is_local) && not (is_cached cached u.file_index)

  abbrev pub is_new_signature : FunctionSignature → Bool
  is_new_signature f = present f.usr && not (is_cached cached f.file_index)

  abbrev pub parameter_rows :
      FunctionSignature → ℕ → List Parameter → List (Text × FunctionTypeBody)
  parameter_rows f position [] = []
  parameter_rows f position (p ∷ rest) =
      parameter_row paths f position p ∷ parameter_rows f (position + 1) rest

  abbrev pub signature_rows : List FunctionSignature → List (Text × FunctionTypeBody)
  signature_rows [] = []
  signature_rows (f ∷ rest) =
      (if is_new_signature f then return_row paths f ∷ parameter_rows f 0 f.parameters else [])
      ++ signature_rows rest

  abbrev pub add_symbols : List Symbol → Staging → Staging
  add_symbols l st = record st {
    records =
        insert_all (same_filed same_record) st.records
          (map (symbol_row paths) (keep is_new_symbol l));
    symbol_types =
        insert_all (same_filed same_symbol_type) st.symbol_types
          (map (symbol_type_row paths) (keep (λ s. is_new_symbol s && has_type s) l));
    symbol_properties =
        upsert_all (same_filed same_property) or_properties st.symbol_properties
          (map (property_row paths) (keep (λ s. is_new_symbol s && has_properties s) l));
  }

  abbrev pub add_uses : List Use → Staging → Staging
  add_uses l st = record st {
    records =
        insert_all (same_filed same_record) st.records (map (use_row paths) (keep is_new_use l));
  }

  abbrev pub add_function_types : List (Text × FunctionTypeBody) → Staging → Staging
  add_function_types rows st = record st {
    function_types = insert_all (same_filed same_function_type) st.function_types rows;
  }

  -- One symbol
  abbrev add_symbol : Symbol → Staging → Staging
  add_symbol s st = add_symbols (s ∷ []) st

  type_of-Leaves :
      (s : Symbol) (counts : StagingCounts)
      → Leaves
          (stage_type_of paths include_local cached s counts)
          (λ st. if has_type s then add_symbol_type (symbol_type_row paths s) st else st)
  unfolding stage_type_of
  type_of-Leaves s counts =
      if-Leaves (has_type s) _ _
        (bind-Leaves _ (λ st. st) (stage_symbol_type-Leaves (symbol_type_row paths s))
          (λ _. bind-Leaves (λ st. st) (λ st. st) (gets-Leaves _) (λ added. pure-Leaves _)))
        (pure-Leaves counts)

  properties_of-Leaves :
      (s : Symbol) (counts : StagingCounts)
      → Leaves
          (stage_properties_of paths include_local cached s counts)
          (λ st. if has_properties s then add_properties (property_row paths s) st else st)
  unfolding stage_properties_of
  properties_of-Leaves s counts =
      if-Leaves (has_properties s) _ _
        (bind-Leaves _ (λ st. st) (stage_symbol_properties-Leaves (property_row paths s))
          (λ _. bind-Leaves (λ st. st) (λ st. st) (gets-Leaves _) (λ added. pure-Leaves _)))
        (pure-Leaves counts)

  new_symbol_effect :
      (s : Symbol) (st : Staging)
      → is_new_symbol s ≡ true
      → (let one = add_record (symbol_row paths s) st in
          let two = if has_type s then add_symbol_type (symbol_type_row paths s) one else one in
          if has_properties s then add_properties (property_row paths s) two else two)
        ≡ add_symbol s st
  unfolding keep insert_all upsert_all
  new_symbol_effect s st n = elim (Bool-cases (has_type s)) [
    | inl t ↦ elim (Bool-cases (has_properties s)) [
      | inl q ↦ rw (n, t, q) refl
      | inr q ↦ rw (n, t, q) refl
    ]
    | inr t ↦ elim (Bool-cases (has_properties s)) [
      | inl q ↦ rw (n, t, q) refl
      | inr q ↦ rw (n, t, q) refl
    ]
  ]

  old_symbol_effect : (s : Symbol) (st : Staging) → is_new_symbol s ≡ false → st ≡ add_symbol s st
  unfolding keep insert_all upsert_all
  old_symbol_effect s st n = rw n refl

  new_symbol-Leaves :
      (s : Symbol) (counts : StagingCounts)
      → is_new_symbol s ≡ true
      → Leaves (stage_new_symbol paths include_local cached s counts) (add_symbol s)
  unfolding stage_new_symbol
  new_symbol-Leaves s counts n =
      as-Leaves (λ st. new_symbol_effect s st n)
        (bind-Leaves _ _ (stage_record-Leaves (symbol_row paths s)) (λ _.
          bind-Leaves _ _ (type_of-Leaves s counts) (λ counts'. properties_of-Leaves s counts')))

  old-Leaves :
      {A : Type 0} (a : A) (g : Staging → Staging)
      → ((st : Staging) → st ≡ g st)
      → Leaves (pure a) g
  old-Leaves a g e = as-Leaves e (pure-Leaves a)

  symbol-Leaves :
      (s : Symbol) (counts : StagingCounts)
      → Leaves (stage_symbol paths include_local cached s counts) (add_symbol s)
  unfolding stage_symbol
  symbol-Leaves s counts = elim (Bool-cases (is_skipped include_local s.is_local)) [
    | inl a ↦ rw a (old-Leaves counts (add_symbol s) (λ st. old_symbol_effect s st (rw a refl)))
    | inr a ↦ elim (Bool-cases (is_cached cached s.file_index)) [
      | inl b ↦
          rw (a, b) (old-Leaves _ (add_symbol s) (λ st. old_symbol_effect s st (rw (a, b) refl)))
      | inr b ↦ rw (a, b) (new_symbol-Leaves s _ (rw (a, b) refl))
    ]
  ]

  add_symbols-cons :
      (s : Symbol) (rest : List Symbol) (st : Staging)
      → add_symbols rest (add_symbol s st) ≡ add_symbols (s ∷ rest) st
  unfolding keep insert_all upsert_all
  add_symbols-cons s rest st = elim (Bool-cases (is_new_symbol s)) [
    | inl n ↦ elim (Bool-cases (has_type s)) [
      | inl t ↦ elim (Bool-cases (has_properties s)) [
        | inl q ↦ rw (n, t, q) refl
        | inr q ↦ rw (n, t, q) refl
      ]
      | inr t ↦ elim (Bool-cases (has_properties s)) [
        | inl q ↦ rw (n, t, q) refl
        | inr q ↦ rw (n, t, q) refl
      ]
    ]
    | inr n ↦ rw n refl
  ]

  symbols-Leaves :
      (l : List Symbol) (counts : StagingCounts)
      → Leaves (stage_symbols paths include_local cached l counts) (add_symbols l)
  unfolding stage_symbols insert_all upsert_all keep
  symbols-Leaves [] counts = pure-Leaves counts
  symbols-Leaves (s ∷ rest) counts = as-Leaves (add_symbols-cons s rest) (
      bind-Leaves (add_symbol s) (add_symbols rest) (symbol-Leaves s counts)
        (λ c. symbols-Leaves rest c))

  new_use_effect :
      (u : Use) (st : Staging)
      → is_new_use u ≡ true
      → add_record (use_row paths u) st ≡ add_uses (u ∷ []) st
  unfolding keep insert_all
  new_use_effect u st n = rw n refl

  old_use_effect : (u : Use) (st : Staging) → is_new_use u ≡ false → st ≡ add_uses (u ∷ []) st
  unfolding keep insert_all
  old_use_effect u st n = rw n refl

  use-Leaves :
      (u : Use) (counts : StagingCounts)
      → Leaves (stage_use paths include_local cached u counts) (add_uses (u ∷ []))
  unfolding stage_use
  use-Leaves u counts = elim (Bool-cases (is_skipped include_local u.is_local)) [
    | inl a ↦ rw a (old-Leaves counts (add_uses (u ∷ [])) (λ st. old_use_effect u st (rw a refl)))
    | inr a ↦ elim (Bool-cases (is_cached cached u.file_index)) [
      | inl b ↦
          rw (a, b) (old-Leaves _ (add_uses (u ∷ [])) (λ st. old_use_effect u st (rw (a, b) refl)))
      | inr b ↦
          rw (a, b)
            (as-Leaves (λ st. new_use_effect u st (rw (a, b) refl))
              (bind-Leaves _ (λ st. st) (stage_record-Leaves (use_row paths u))
                (λ _. pure-Leaves _)))
    ]
  ]

  add_uses-cons :
      (u : Use) (rest : List Use) (st : Staging)
      → add_uses rest (add_uses (u ∷ []) st) ≡ add_uses (u ∷ rest) st
  unfolding keep insert_all
  add_uses-cons u rest st = elim (Bool-cases (is_new_use u)) [
    | inl n ↦ rw n refl
    | inr n ↦ rw n refl
  ]

  uses-Leaves :
      (l : List Use) (counts : StagingCounts)
      → Leaves (stage_uses paths include_local cached l counts) (add_uses l)
  unfolding stage_uses insert_all keep
  uses-Leaves [] counts = pure-Leaves counts
  uses-Leaves (u ∷ rest) counts = as-Leaves (add_uses-cons u rest) (
      bind-Leaves (add_uses (u ∷ [])) (add_uses rest) (use-Leaves u counts)
        (λ c. uses-Leaves rest c))

  parameters-Leaves :
      (f : FunctionSignature) (position : ℕ) (l : List Parameter) (counts : StagingCounts)
      → Leaves
          (stage_parameters paths include_local cached f position l counts)
          (add_function_types (parameter_rows f position l))
  unfolding stage_parameters insert_all
  parameters-Leaves f position [] counts = pure-Leaves counts
  parameters-Leaves f position (p ∷ rest) counts =
      bind-Leaves _ (add_function_types (parameter_rows f (position + 1) rest))
        (stage_function_type-Leaves (parameter_row paths f position p))
        (λ _.
          bind-Leaves (λ st. st) _ (gets-Leaves _)
            (λ added. parameters-Leaves f (position + 1) rest _))

  insert_all-append :
      (rows more : List (Text × FunctionTypeBody)) (t : List (Text × FunctionTypeBody))
      → insert_all
          (same_filed same_function_type)
          (insert_all (same_filed same_function_type) t rows)
          more
        ≡ insert_all (same_filed same_function_type) t (rows ++ more)
  unfolding insert_all
  insert_all-append [] more t = refl
  insert_all-append (r ∷ rows) more t =
      insert_all-append rows more (insert_or_ignore (same_filed same_function_type) t r)

  rows_of : FunctionSignature → List (Text × FunctionTypeBody)
  rows_of f =
      if is_new_signature f then return_row paths f ∷ parameter_rows f 0 f.parameters else []

  signature-Leaves :
      (f : FunctionSignature) (counts : StagingCounts)
      → Leaves
          (stage_signature paths include_local cached f counts)
          (add_function_types (rows_of f))
  unfolding stage_signature insert_all rows_of
  signature-Leaves f counts = elim (Bool-cases (present f.usr)) [
    | inr a ↦ rw a (pure-Leaves counts)
    | inl a ↦ elim (Bool-cases (is_cached cached f.file_index)) [
      | inl b ↦ rw (a, b) (pure-Leaves counts)
      | inr b ↦
          rw (a, b)
            (bind-Leaves _ (add_function_types (parameter_rows f 0 f.parameters))
              (stage_function_type-Leaves (return_row paths f))
              (λ _.
                bind-Leaves (λ st. st) _ (gets-Leaves _)
                  (λ added. parameters-Leaves f 0 f.parameters _)))
    ]
  ]

  signatures-Leaves :
      (l : List FunctionSignature) (counts : StagingCounts)
      → Leaves
          (stage_signatures paths include_local cached l counts)
          (add_function_types (signature_rows l))
  unfolding stage_signatures insert_all rows_of
  signatures-Leaves [] counts = pure-Leaves counts
  signatures-Leaves (f ∷ rest) counts =
      as-Leaves
        (λ st.
          ap (λ t. record st { function_types = t })
            (insert_all-append (rows_of f) (signature_rows rest) st.function_types))
        (bind-Leaves (add_function_types (rows_of f)) (add_function_types (signature_rows rest))
          (signature-Leaves f counts) (λ c. signatures-Leaves rest c))

  -- The temporary tables with all rows of an index.
  abbrev pub add_index : Index → Staging → Staging
  add_index s st =
      add_function_types (signature_rows s.signatures) (add_uses s.uses (add_symbols s.symbols st))

  pub records-Leaves :
      (s : Index) → Leaves (stage_records paths include_local cached s) (add_index s)
  unfolding stage_records
  records-Leaves s =
      bind-Leaves (λ st. st) _ (gets-Leaves _)
        (λ before.
          bind-Leaves (λ st. st) _ exec_read-Leaves
            (λ _.
              bind-Leaves (λ st. st) _ exec_read-Leaves
                (λ _.
                  bind-Leaves (λ st. st) _ exec_read-Leaves
                    (λ _.
                      bind-Leaves (λ st. st) _ exec_read-Leaves
                        (λ _. bind-Leaves _ _ (symbols-Leaves s.symbols no_counts) (λ a.
                          bind-Leaves _ _ (uses-Leaves s.uses a) (λ b.
                            bind-Leaves _ (λ st. st) (signatures-Leaves s.signatures b)
                              (λ c.
                                bind-Leaves (λ st. st) _ (gets-Leaves _)
                                  (λ after. pure-Leaves _)))))))))

-- Where no call of SQLite fails, stage_records returns. Whenever it returns, the temporary tables
-- have gained the row of each symbol and use that is not passed over and whose file is not cached,
-- the type and the properties of each such symbol that has them, and the types of each signature with a USR
-- whose file is not cached, in their order, and nothing else.
pub stage_records-add_index :
    (paths : StoredPaths) (include_local : Bool) (cached : List Bool) (s : Index) (w : World)
    → (w.faults ≡ [] → is_some (stage_records paths include_local cached s w).0 ≡ true)
      × (is_some (stage_records paths include_local cached s w).0 ≡ true
          → (stage_records paths include_local cached s w).1.staging
            ≡ add_index paths include_local cached s w.staging)
stage_records-add_index paths include_local cached s w =
    let leaves = records-Leaves paths include_local cached s in
    (
      λ e. (leaves.runs w e).0,
      returned (stage_records paths include_local cached s w).0
          (stage_records paths include_local cached s w).1 ((leaves.from w.staging).run w refl),
    )
  where
    returned :
        {A : Type 0} {st : Staging} (r : Option A) (v : World)
        → Post (λ _. Holds st) Anything r v
        → is_some r ≡ true
        → v.staging ≡ st
    returned none v h e = absurd (cc e)
    returned (some a) v h e = h
