-- ===== src/CallGraph.antt =====
-- index_db_callgraph of lib/semindex_index_db/index_db_callgraph.c. Its rows are those of the JOIN of
-- the records with their files; what the calls of fprintf and ferror answer is a parameter, and
-- so is GLOB.
use semindex.Base.{
  ℕ, Bool, false, ◌&&◌, Option, none, some, List, [], ◌∷◌, Text, text_eq, is_empty, keep, ◌==◌,
  if◌then◌else◌,
}
use semindex.Store.Rows.{stored_code}
use semindex.Reader.{of_id, or_zero, Row, of_pattern}
use semindex.Reader.Order.{order_by}

-- index_db_callgraph_direction_t
pub data Direction : Type 0 where
  callgraph_callers callgraph_callees : Direction

-- index_db_callgraph_options_t; `id` with has_id is an `Option`
pub record CallgraphOptions : Type 0 where
  pub function : Text
  pub path : Option Text
  pub variant : Option Text
  pub id : Option ℕ
  pub direction : Direction
  pub show_id : Bool

-- records.record = 1 AND records.action = SEMINDEX_USE_CALL AND records.kind = SEMINDEX_SYMBOL_FUNCTION
abbrev pub is_function_call : Row → Bool
is_function_call r = stored_code r.stored == 1 && r.action == 3 && r.kind == 7

-- The two arms of `opts->direction`
abbrev pub in_direction : Direction → CallgraphOptions → Row → Bool
in_direction callgraph_callers opts r = text_eq r.symbol opts.function && of_id opts.id r.usr_id
in_direction callgraph_callees opts r =
    text_eq r.context opts.function && of_id opts.id r.context_usr_id

abbrev number : ℕ → Text
number n = n ∷ []

-- ORDER BY
abbrev pub callgraph_key : Row → List Text
callgraph_key r = r.variant ∷ r.context ∷ r.symbol ∷ r.path ∷ number r.line ∷ number r.column ∷ []

-- One line that is printed; the hashes are there with show_id
pub record CallgraphLine : Type 0 where
  pub caller : Text
  pub callee : Text
  pub ids : Option (ℕ × ℕ)
  pub variant : Text
  pub path : Text
  pub line : ℕ
  pub column : ℕ

abbrev pub line_of : Bool → Row → CallgraphLine
line_of show_id r = record {
  caller = r.context;
  callee = r.symbol;
  ids = if show_id then some (or_zero r.context_usr_id, or_zero r.usr_id) else none;
  variant = r.variant;
  path = r.path;
  line = r.line;
  column = r.column;
}

module _ (writes : CallgraphLine → Bool) (healthy : Bool) (show_id : Bool) where
  -- print_callgraph_results: whether 0 is returned, and what was printed; `done` says whether
  -- SQLITE_DONE follows the rows, or an error.
  unfoldable pub print_callgraph_results : List Row → Bool → Bool × List CallgraphLine
  print_callgraph_results [] done = (done && healthy, [])
  print_callgraph_results (r ∷ rows) done =
      let rest = print_callgraph_results rows done in
      if writes (line_of show_id r) then (rest.0, line_of show_id r ∷ rest.1) else (false, [])

module _ (glob : Text → Text → Bool) where
  unfoldable pub callgraph_rows : CallgraphOptions → List Row → List Row
  unfolding of_pattern order_by
  callgraph_rows opts rows = order_by callgraph_key (
      keep
        (λ r.
          is_function_call r
          && in_direction opts.direction opts r
          && of_pattern glob opts.path r.path
          && of_pattern glob opts.variant r.variant)
        rows)

  -- index_db_callgraph, on a database that opens
  unfoldable pub index_db_callgraph :
      (CallgraphLine → Bool) → Bool → CallgraphOptions → List Row → Bool → Bool × List CallgraphLine
  unfolding callgraph_rows print_callgraph_results
  index_db_callgraph writes healthy opts rows done =
      if is_empty opts.function
      then (false, [])
      else print_callgraph_results writes healthy opts.show_id (callgraph_rows opts rows) done
