-- ===== src/Store/Stage/Records.antt =====
-- stage_records of lib/semindex_index_db/index_db_writer.c: its three loops.
use semindex.Base.{ℕ, ◌+◌, ◌-◌, Bool, not, ◌&&◌, ◌||◌, List, [], ◌∷◌, ◌==◌, if◌then◌else◌}
use semindex.Store.Index.{Symbol, Use, Parameter, FunctionSignature, Index}
use semindex.Store.Session.{M, ◌>>=◌, ◌>>◌, pure, gets, exec_read}
use semindex.Store.Stage.{
  StoredPaths, StagingCounts, no_counts, present, is_cached, symbol_row, use_row, symbol_type_row,
  property_row, return_row, parameter_row, stage_record, stage_symbol_type, stage_function_type,
  stage_symbol_properties,
}

-- `sym->local && !include_local`
abbrev pub is_skipped : Bool → ℕ → Bool
is_skipped include_local is_local = not (is_local == 0) && not include_local

abbrev pub has_type : Symbol → Bool
has_type s = present s.type && present s.usr

abbrev pub has_properties : Symbol → Bool
has_properties s = not (s.properties == 0) && present s.usr

module _ (paths : StoredPaths) (include_local : Bool) (cached : List Bool) where
  -- `if (sym->type && …)`
  unfoldable pub stage_type_of : Symbol → StagingCounts → M StagingCounts
  stage_type_of s counts =
      if has_type s
      then (do
        stage_symbol_type (symbol_type_row paths s)
        added ← gets (λ w. w.changes)
        pure (record counts { symbol_types = counts.symbol_types + added }))
      else pure counts

  -- `if (sym->properties && …)`
  unfoldable pub stage_properties_of : Symbol → StagingCounts → M StagingCounts
  stage_properties_of s counts =
      if has_properties s
      then (do
        stage_symbol_properties (property_row paths s)
        added ← gets (λ w. w.changes)
        pure (record counts { symbol_properties = counts.symbol_properties + added }))
      else pure counts

  -- What the loop does with a symbol that it does not pass over.
  unfoldable pub stage_new_symbol : Symbol → StagingCounts → M StagingCounts
  unfolding stage_type_of stage_properties_of
  stage_new_symbol s counts = do
    stage_record (symbol_row paths s)
    counts' ← stage_type_of s counts
    stage_properties_of s counts'

  unfoldable pub stage_symbol : Symbol → StagingCounts → M StagingCounts
  unfolding stage_new_symbol
  stage_symbol s counts =
      let counted = record counts { items_in = counts.items_in + 1 } in
      if is_skipped include_local s.is_local
      then pure counts
      else if is_cached cached s.file_index
      then pure counted
      else stage_new_symbol s counted

  unfoldable pub stage_symbols : List Symbol → StagingCounts → M StagingCounts
  unfolding stage_symbol
  stage_symbols [] counts = pure counts
  stage_symbols (s ∷ rest) counts = do counts' ← stage_symbol s counts; stage_symbols rest counts'

  unfoldable pub stage_use : Use → StagingCounts → M StagingCounts
  stage_use u counts =
      let counted = record counts { items_in = counts.items_in + 1 } in
      if is_skipped include_local u.is_local
      then pure counts
      else if is_cached cached u.file_index
      then pure counted
      else (do stage_record (use_row paths u); pure counted)

  unfoldable pub stage_uses : List Use → StagingCounts → M StagingCounts
  unfolding stage_use
  stage_uses [] counts = pure counts
  stage_uses (u ∷ rest) counts = do counts' ← stage_use u counts; stage_uses rest counts'

  unfoldable pub stage_parameters :
      FunctionSignature → ℕ → List Parameter → StagingCounts → M StagingCounts
  stage_parameters f position [] counts = pure counts
  stage_parameters f position (p ∷ rest) counts = do
    stage_function_type (parameter_row paths f position p)
    added ← gets (λ w. w.changes)
    stage_parameters f (position + 1) rest
        (record counts { function_types = counts.function_types + added })

  unfoldable pub stage_signature : FunctionSignature → StagingCounts → M StagingCounts
  unfolding stage_parameters
  stage_signature f counts =
      if not (present f.usr) || is_cached cached f.file_index then pure counts else (do
        stage_function_type (return_row paths f)
        added ← gets (λ w. w.changes)
        stage_parameters f 0 f.parameters
            (record counts { function_types = counts.function_types + added }))

  unfoldable pub stage_signatures : List FunctionSignature → StagingCounts → M StagingCounts
  unfolding stage_signature
  stage_signatures [] counts = pure counts
  stage_signatures (f ∷ rest) counts = do
    counts' ← stage_signature f counts
    stage_signatures rest counts'

  -- Four statements are prepared; `records` is what is left of all changes.
  unfoldable pub stage_records : Index → M StagingCounts
  unfolding stage_symbols stage_uses stage_signatures
  stage_records s = do
    before ← gets (λ w. w.total_changes)
    exec_read
    exec_read
    exec_read
    exec_read
    symbols_done ← stage_symbols s.symbols no_counts
    uses_done ← stage_uses s.uses symbols_done
    counts ← stage_signatures s.signatures uses_done
    after ← gets (λ w. w.total_changes)
    pure (record counts {
      records =
          after - before - (counts.symbol_types + counts.function_types + counts.symbol_properties);
    })
