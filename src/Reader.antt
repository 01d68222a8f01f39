-- ===== src/Reader.antt =====
-- Queries of the symbol index: lib/semindex_database/index_db_reader.c. SQLite's GLOB is a
-- parameter, and so is what a callback returns.
pub mod Order
pub mod Paging
pub mod Emit
pub mod Keyed
pub mod Leaf
pub mod Functions
pub mod Types
pub mod Variants
use semindex.Base.{
  ℕ, zero, suc, ◌+◌, ◌-◌, Bool, true, false, not, ◌&&◌, ◌||◌, Option, none, some, List, [], ◌∷◌,
  Text, text_eq, is_empty, or_empty, any, keep, take, if◌then◌else◌, ltb, leb, ◌==◌,
}
use Prim.Native.Nat.{bit_and}
use semindex.Names.Kinds.{SymbolKind, kind_code}
use semindex.Store.Rows.{StoredKind, stored_symbol, stored_use, stored_code}
use semindex.Reader.Order.{key_lt, order_by}

-- semindex_db_record_type_t
pub data RecordType : Type 0 where
  declaration definition reference : RecordType

-- semindex_db_record_filter_t
pub data RecordFilter : Type 0 where
  all_records symbol_records declarations definitions references : RecordFilter

-- A row of `records JOIN files`, with the columns that the queries select. A hash that is NULL is
-- `none`; a callback reads it as 0.
pub record Row : Type 0 where
  pub variant : Text
  pub path : Text
  pub line : ℕ
  pub column : ℕ
  pub stored : StoredKind
  pub action : ℕ
  pub kind : ℕ
  pub symbol : Text
  pub context : Text
  pub mode : ℕ
  pub usr_id : Option ℕ
  pub context_usr_id : Option ℕ
  pub is_local : ℕ

unfoldable pub record_type : StoredKind → ℕ → RecordType
record_type stored_use action = reference
record_type stored_symbol action = if action == 0 then declaration else definition

unfoldable pub stored_record_type : RecordType → StoredKind
stored_record_type declaration = stored_symbol
stored_record_type definition = stored_symbol
stored_record_type reference = stored_use

-- semindex_db_cursor_t; a NULL text is empty
pub record Cursor : Type 0 where
  pub variant : Text
  pub path : Text
  pub symbol : Text
  pub record_kind : RecordType
  pub kind : ℕ
  pub action : ℕ
  pub mode : ℕ
  pub line : ℕ
  pub column : ℕ

-- The two tests at the end of valid_cursor
abbrev pub fits : RecordType → ℕ → Bool
fits declaration action = action == 0
fits definition action = not (action == 0)
fits reference action = true

unfoldable pub valid_cursor : Cursor → Bool
valid_cursor c =
    if is_empty c.variant || is_empty c.path || is_empty c.symbol || c.line == 0 || c.column == 0
    then false
    else fits c.record_kind c.action

-- The cursor that stands at a row that was delivered
abbrev pub cursor_at : Row → Cursor
cursor_at r = record {
  variant = r.variant;
  path = r.path;
  symbol = r.symbol;
  record_kind = record_type r.stored r.action;
  kind = r.kind;
  action = r.action;
  mode = r.mode;
  line = r.line;
  column = r.column;
}

-- ORDER BY files.variant, files.path, records.line, …
abbrev number : ℕ → Text
number n = n ∷ []

abbrev pub row_key : Row → List Text
row_key r =
    r.variant
    ∷ r.path
    ∷ number r.line
    ∷ number r.column
    ∷ r.symbol
    ∷ number (stored_code r.stored)
    ∷ number r.action
    ∷ number r.kind
    ∷ number r.mode
    ∷ []

abbrev pub cursor_key : Cursor → List Text
cursor_key c =
    c.variant
    ∷ c.path
    ∷ number c.line
    ∷ number c.column
    ∷ c.symbol
    ∷ number (stored_code (stored_record_type c.record_kind))
    ∷ number c.action
    ∷ number c.kind
    ∷ number c.mode
    ∷ []

-- semindex_db_query_options_t; a flag and its value are an `Option`
pub record QueryOptions : Type 0 where
  pub symbol : Option Text
  pub path : Option Text
  pub variant : Option Text
  pub context : Option Text
  pub after : Option Cursor
  pub limit : ℕ
  pub record_kind : RecordFilter
  pub mode : Option ℕ
  pub usr_id : Option ℕ
  pub kind : Option SymbolKind
  pub is_local : Option ℕ

-- strpbrk(pattern, "*?[]")
abbrev is_glob_char : ℕ → Bool
is_glob_char c = c == b'*' || c == b'?' || c == b'[' || c == b']'

unfoldable pub pattern_uses_glob : Text → Bool
pattern_uses_glob pattern = any is_glob_char pattern

abbrev pub is_symbol : Row → Bool
is_symbol r = stored_code r.stored == 0

abbrev pub is_reference : Row → Bool
is_reference r = stored_code r.stored == 1

-- switch (opts->record)
abbrev pub of_record : RecordFilter → Row → Bool
of_record all_records r = true
of_record symbol_records r = is_symbol r
of_record declarations r = is_symbol r && r.action == 0
of_record definitions r = is_symbol r && not (r.action == 0)
of_record references r = is_reference r

-- if (opts->has_mode)
abbrev pub of_mode : Option ℕ → Row → Bool
of_mode none r = true
of_mode (some zero) r = is_reference r && r.mode == 0
of_mode (some (suc m)) r = is_reference r && not (bit_and r.mode (suc m) == 0)

abbrev pub of_number : Option ℕ → ℕ → Bool
of_number none n = true
of_number (some m) n = n == m

-- sqlite3_column_int64 of a column that may be NULL
abbrev pub or_zero : Option ℕ → ℕ
or_zero none = 0
or_zero (some n) = n

-- `column = value`, which never holds of NULL
abbrev pub is_id : Option ℕ → ℕ → Bool
is_id none n = false
is_id (some m) n = m == n

abbrev pub of_id : Option ℕ → Option ℕ → Bool
of_id none column = true
of_id (some n) column = is_id column n

abbrev pub of_kind : Option SymbolKind → ℕ → Bool
of_kind none n = true
of_kind (some k) n = n == kind_code k

-- `!!opts->local`
abbrev pub of_local : Option ℕ → ℕ → Bool
of_local none n = true
of_local (some zero) n = n == 0
of_local (some (suc m)) n = n == 1

abbrev pub of_text : Option Text → Text → Bool
of_text none t = true
of_text (some p) t = text_eq t p

-- (…) > (…)
abbrev pub is_after : Option Cursor → Row → Bool
is_after none r = true
is_after (some c) r = key_lt (cursor_key c) (row_key r)

-- LIMIT
abbrev pub limited : ℕ → List Row → List Row
limited zero rows = rows
limited (suc n) rows = take (suc n) rows

abbrev pub usable : Option Cursor → Bool
usable none = true
usable (some c) = valid_cursor c

module _ (glob : Text → Text → Bool) where
  unfoldable pub of_pattern : Option Text → Text → Bool
  unfolding pattern_uses_glob
  of_pattern none t = true
  of_pattern (some p) t = if pattern_uses_glob p then glob p t else text_eq t p

  -- The WHERE clause, but for the cursor
  unfoldable pub selects : QueryOptions → Row → Bool
  unfolding of_pattern
  selects opts r =
      of_pattern opts.symbol r.symbol
      && of_pattern opts.path r.path
      && of_pattern opts.variant r.variant
      && of_text opts.context r.context
      && of_record opts.record_kind r
      && of_mode opts.mode r
      && of_kind opts.kind r.kind
      && of_id opts.usr_id r.usr_id
      && of_local opts.is_local r.is_local

  -- The rows that semindex_db_query hands to emit_records, or `none` where it returns -1 before. A
  -- limit is at most LLONG_MAX.
  unfoldable pub query_rows : QueryOptions → List Row → Option (List Row)
  unfolding selects order_by valid_cursor
  query_rows opts rows =
      if ltb 9223372036854775807 opts.limit || not (usable opts.after)
      then none
      else some (
          limited opts.limit
            (order_by row_key (keep (λ r. is_after opts.after r && selects opts r) rows)))

-- What stands after the last '.' or "::" of a symbol; `last` is what follows the separator found so far.
abbrev pub colon_next : Text → Bool
colon_next [] = false
colon_next (c ∷ cs) = c == b':'

abbrev pub behind_colon : Text → Text
behind_colon [] = []
behind_colon (c ∷ cs) = cs

unfoldable pub leaf_from : Text → Text → Text
leaf_from last [] = last
leaf_from last (c ∷ cs) =
    leaf_from
      (if c == b':' && colon_next cs then behind_colon cs else if c == b'.' then cs else last) cs

unfoldable pub qualified_leaf : Text → Text
unfolding leaf_from
qualified_leaf symbol = leaf_from symbol symbol
