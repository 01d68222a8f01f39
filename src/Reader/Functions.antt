-- ===== src/Reader/Functions.antt =====
-- Calls, functions and positions: semindex_db_query_identity, semindex_db_query_calls,
-- semindex_db_query_functions and semindex_db_find_at of lib/semindex_database/index_db_reader.c.
-- A `Bool` says whether SQLITE_DONE follows the rows of a statement, or an error; a statement is
-- prepared and bound without one.
pub mod Batches
use semindex.Base.{
  ℕ, zero, suc, ◌+◌, ◌-◌, ◌^◌, Bool, true, false, not, ◌&&◌, ◌||◌, Option, none, some, List, [],
  ◌∷◌, ◌++◌, map, Text, text_eq, is_empty, or_empty, any, keep, take, drop, length, ltb, leb, ◌==◌,
  if◌then◌else◌,
}
use semindex.Names.Kinds.{SymbolKind, kind_code}
use semindex.Store.Rows.{stored_code}
use semindex.Reader.{is_id, Row, RecordFilter, Cursor, QueryOptions, query_rows}
use semindex.Reader.Order.{order_by}
use semindex.Reader.Emit.{Ret, success, error, stopped, emit_records}

abbrev number : ℕ → Text
number n = n ∷ []

-- The largest number of SQLite; DESC is the order of what is missing to it.
abbrev descending : ℕ → Text
descending n = number (2 ^ 63 - 1 - n)

-- semindex_db_identity_t
pub record Identity : Type 0 where
  pub variant : Text
  pub symbol : Text
  pub usr_id : ℕ
  pub kind : SymbolKind

-- The options of semindex_db_query_identity's query
abbrev pub identity_options : Identity → RecordFilter → Option Cursor → ℕ → QueryOptions
identity_options i record_kind after limit = record {
  symbol = some i.symbol;
  path = none;
  variant = some i.variant;
  context = none;
  after = after;
  limit = limit;
  record_kind = record_kind;
  mode = none;
  usr_id = some i.usr_id;
  kind = some i.kind;
  is_local = none;
}

abbrev pub emit_query : (Row → ℕ) → Bool → Option (List Row) → Ret × List Row
emit_query callback done none = (error, [])
emit_query callback done (some rows) = emit_records callback 0 rows done

-- semindex_db_query_identity; a text that is NULL is empty
unfoldable pub query_identity :
    (Text → Text → Bool)
    → Identity
    → RecordFilter
    → Option Cursor
    → ℕ
    → (Row → ℕ)
    → List Row
    → Bool
    → Ret × List Row
unfolding query_rows emit_records
query_identity glob i record_kind after limit callback rows done =
    if is_empty i.variant || is_empty i.symbol || i.usr_id == 0
    then (error, [])
    else emit_query callback done
        (query_rows glob (identity_options i record_kind after limit) rows)

-- semindex_db_call_direction_t
pub data Direction : Type 0 where
  callers callees : Direction

-- semindex_db_call_options_t
pub record CallOptions : Type 0 where
  pub function : Text
  pub variant : Option Text
  pub usr_id : ℕ
  pub direction : Direction

-- records.record = 1 AND records.action = 3 AND records.kind = 7
abbrev pub is_call : Row → Bool
is_call r = stored_code r.stored == 1 && r.action == 3 && r.kind == 7

abbrev pub of_function : Direction → CallOptions → Row → Bool
of_function callers opts r = text_eq r.symbol opts.function && is_id r.usr_id opts.usr_id
of_function callees opts r = text_eq r.context opts.function && is_id r.context_usr_id opts.usr_id

abbrev pub in_variant : Option Text → Row → Bool
in_variant none r = true
in_variant (some v) r = text_eq r.variant v

-- The ORDER BY; with a variant all rows are of one, and it orders nothing.
abbrev pub call_key : Direction → Row → List Text
call_key callers r = r.variant ∷ r.context ∷ r.path ∷ number r.line ∷ number r.column ∷ []
call_key callees r = r.variant ∷ r.symbol ∷ r.path ∷ number r.line ∷ number r.column ∷ []

unfoldable pub call_rows : CallOptions → List Row → List Row
unfolding order_by
call_rows opts rows =
    order_by (call_key opts.direction)
      (keep (λ r. of_function opts.direction opts r && in_variant opts.variant r && is_call r) rows)

-- semindex_db_query_calls
unfoldable pub query_calls : CallOptions → (Row → ℕ) → List Row → Bool → Ret × List Row
unfolding call_rows emit_records
query_calls opts callback rows done =
    if is_empty opts.function
    then (error, [])
    else emit_records callback 0 (call_rows opts rows) done

-- semindex_db_function_t
pub record DbFunction : Type 0 where
  pub variant : Text
  pub symbol : Text
  pub usr_id : ℕ

-- The JOIN of one requested function with the records, and the WHERE
abbrev pub is_requested : DbFunction → Row → Bool
is_requested f r =
    text_eq r.symbol f.symbol
    && is_id r.usr_id f.usr_id
    && text_eq r.variant f.variant
    && stored_code r.stored == 0
    && r.kind == 7

abbrev pub requested_rows : List DbFunction → List Row → List Row
requested_rows [] rows = []
requested_rows (f ∷ rest) rows = keep (is_requested f) rows ++ requested_rows rest rows

abbrev pub function_key : Row → List Text
function_key r =
    r.variant ∷ r.symbol ∷ descending r.action ∷ r.path ∷ number r.line ∷ number r.column ∷ []

-- query_function_batch
unfoldable pub query_function_batch : List DbFunction → (Row → ℕ) → List Row → Bool → Ret × List Row
unfolding order_by emit_records
query_function_batch functions callback rows done =
    emit_records callback 0 (order_by function_key (requested_rows functions rows)) done

abbrev pub then_batches : Ret × List Row → Ret × List Row → Ret × List Row
then_batches (success, first) later = (later.0, first ++ later.1)
then_batches (error, first) later = (error, first)
then_batches (stopped n, first) later = (stopped n, first)

-- The loop over the batches. Each of them takes a function at least, so that their number is fuel
-- enough.
unfoldable pub query_batches :
    ℕ → ℕ → List DbFunction → (Row → ℕ) → List Row → Bool → Ret × List Row
unfolding query_function_batch
query_batches fuel size [] callback rows done = (success, [])
query_batches zero size (f ∷ rest) callback rows done = (error, [])
query_batches (suc fuel) size (f ∷ rest) callback rows done =
    then_batches (query_function_batch (take size (f ∷ rest)) callback rows done)
      (query_batches fuel size (drop size (f ∷ rest)) callback rows done)

abbrev pub is_nameless : DbFunction → Bool
is_nameless f = is_empty f.variant || is_empty f.symbol

-- semindex_db_query_functions; `batch_size` is a third of SQLite's limit of variables.
unfoldable pub query_functions : ℕ → List DbFunction → (Row → ℕ) → List Row → Bool → Ret × List Row
unfolding query_batches
query_functions batch_size [] callback rows done = (success, [])
query_functions batch_size (f ∷ rest) callback rows done =
    if any is_nameless (f ∷ rest) || batch_size == 0
    then (error, [])
    else query_batches (length (f ∷ rest)) batch_size (f ∷ rest) callback rows done

-- records.column <= ?4, in a file and on a line
abbrev pub is_near : Text → Option Text → ℕ → ℕ → Row → Bool
is_near path variant line column r =
    text_eq r.path path && in_variant variant r && r.line == line && leb r.column column

abbrev pub position_key : Row → List Text
position_key r = descending r.column ∷ number (stored_code r.stored) ∷ []

-- semindex_db_find_at
unfoldable pub find_at : Text → Option Text → ℕ → ℕ → (Row → ℕ) → List Row → Bool → Ret × List Row
unfolding order_by emit_records
find_at path variant line column callback rows done =
    if is_empty path || line == 0 || column == 0
    then (error, [])
    else emit_records callback column
        (order_by position_key (keep (is_near path variant line column) rows)) done
