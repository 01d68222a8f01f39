-- ===== src/Reader/Types.antt =====
-- The types and properties of a symbol: semindex_db_query_properties,
-- semindex_db_query_symbol_types and semindex_db_query_function_types of
-- lib/semindex_database/index_db_reader.c. The rows are those of the JOIN with `files`; a `Bool`
-- says whether SQLITE_DONE follows the rows of a statement, or an error.
pub mod Pages
use Prim.Native.Nat.{bit_or}
use semindex.Base.{
  ℕ, suc, ◌+◌, ◌%◌, Bool, true, ◌&&◌, ◌||◌, Option, none, some, List, [], ◌∷◌, Text, text_eq,
  is_empty, keep, ◌==◌, not, if◌then◌else◌,
}
use semindex.Names.Kinds.{kind_code}
use semindex.Store.Rows.{SymbolTypeBody, FunctionTypeBody, PropertyBody}
use semindex.Reader.Order.{key_lt, order_by}
use semindex.Reader.Emit.{Ret, success, error, emit_types}
use semindex.Reader.Functions.{Identity}

-- A row of one of the tables beside its file
pub record FileOf (B : Type 0) : Type 0 where
  pub variant : Text
  pub path : Text
  pub body : B

-- An INTEGER of which only -1 is negative
abbrev pub from_minus_one : Option ℕ → Text
from_minus_one none = 0 ∷ []
from_minus_one (some n) = suc n ∷ []

-- A hash of 64 bits, which SQLite orders as a signed number
abbrev pub signed_order : ℕ → Text
signed_order n = ((n + 9223372036854775808) % 18446744073709551616) ∷ []

-- semindex_db_symbol_type_cursor_t
pub record SymbolTypeCursor : Type 0 where
  pub declared_type : Text
  pub canonical_type : Text
  pub type_symbol : Text
  pub type_kind : Option ℕ
  pub type_usr_id : ℕ
  pub path : Text

-- The cursor that stands at a row
abbrev pub symbol_type_cursor : FileOf SymbolTypeBody → SymbolTypeCursor
symbol_type_cursor t = record {
  declared_type = t.body.declared_type;
  canonical_type = t.body.canonical_type;
  type_symbol = t.body.type_symbol;
  type_kind = t.body.type_kind;
  type_usr_id = t.body.type_usr_id;
  path = t.path;
}

-- The columns of ORDER BY, and the values that they are compared with
abbrev pub symbol_type_cursor_key : SymbolTypeCursor → List Text
symbol_type_cursor_key c =
    c.declared_type
    ∷ c.canonical_type
    ∷ c.type_symbol
    ∷ from_minus_one c.type_kind
    ∷ signed_order c.type_usr_id
    ∷ c.path
    ∷ []

abbrev pub symbol_type_key : FileOf SymbolTypeBody → List Text
symbol_type_key t = symbol_type_cursor_key (symbol_type_cursor t)

-- WHERE, but for the cursor
abbrev pub has_symbol_type : Identity → FileOf SymbolTypeBody → Bool
has_symbol_type i t =
    text_eq t.body.symbol i.symbol
    && t.body.kind == kind_code i.kind
    && t.body.usr_id == i.usr_id
    && text_eq t.variant i.variant

-- The rows of base_sql and of after_sql
unfoldable pub symbol_type_rows :
    Identity → Option SymbolTypeCursor → List (FileOf SymbolTypeBody) → List (FileOf SymbolTypeBody)
unfolding order_by
symbol_type_rows i none rows = order_by symbol_type_key (keep (has_symbol_type i) rows)
symbol_type_rows i (some c) rows =
    order_by symbol_type_key (
      keep (λ t. key_lt (symbol_type_cursor_key c) (symbol_type_key t) && has_symbol_type i t) rows)

abbrev pub is_nobody : Identity → Bool
is_nobody i = is_empty i.variant || is_empty i.symbol || i.usr_id == 0

-- semindex_db_query_symbol_types
unfoldable pub query_symbol_types :
    Identity
    → Option SymbolTypeCursor
    → ℕ
    → (FileOf SymbolTypeBody → ℕ)
    → List (FileOf SymbolTypeBody)
    → Bool
    → Ret × List (FileOf SymbolTypeBody)
unfolding symbol_type_rows emit_types
query_symbol_types i after limit callback rows done =
    if is_nobody i
    then (error, [])
    else emit_types callback limit error 0 (symbol_type_rows i after rows) done

-- semindex_db_function_type_cursor_t
pub record FunctionTypeCursor : Type 0 where
  pub position : Option ℕ
  pub declared_type : Text
  pub canonical_type : Text
  pub type_symbol : Text
  pub type_kind : Option ℕ
  pub type_usr_id : ℕ
  pub path : Text

abbrev pub function_type_cursor : FileOf FunctionTypeBody → FunctionTypeCursor
function_type_cursor t = record {
  position = t.body.position;
  declared_type = t.body.declared_type;
  canonical_type = t.body.canonical_type;
  type_symbol = t.body.type_symbol;
  type_kind = t.body.type_kind;
  type_usr_id = t.body.type_usr_id;
  path = t.path;
}

abbrev pub function_type_cursor_key : FunctionTypeCursor → List Text
function_type_cursor_key c =
    from_minus_one c.position
    ∷ c.declared_type
    ∷ c.canonical_type
    ∷ c.type_symbol
    ∷ from_minus_one c.type_kind
    ∷ signed_order c.type_usr_id
    ∷ c.path
    ∷ []

abbrev pub function_type_key : FileOf FunctionTypeBody → List Text
function_type_key t = function_type_cursor_key (function_type_cursor t)

abbrev pub has_function_type : Identity → FileOf FunctionTypeBody → Bool
has_function_type i t =
    text_eq t.body.symbol i.symbol && t.body.usr_id == i.usr_id && text_eq t.variant i.variant

-- ?4 IS NULL OR (…) > (…)
abbrev pub is_behind : Option FunctionTypeCursor → FileOf FunctionTypeBody → Bool
is_behind none t = true
is_behind (some c) t = key_lt (function_type_cursor_key c) (function_type_key t)

unfoldable pub function_type_rows :
    Identity
    → Option FunctionTypeCursor
    → List (FileOf FunctionTypeBody)
    → List (FileOf FunctionTypeBody)
unfolding order_by
function_type_rows i after rows =
    order_by function_type_key (keep (λ t. is_behind after t && has_function_type i t) rows)

-- semindex_db_query_function_types; SEMINDEX_SYMBOL_FUNCTION is 7
unfoldable pub query_function_types :
    Identity
    → Option FunctionTypeCursor
    → ℕ
    → (FileOf FunctionTypeBody → ℕ)
    → List (FileOf FunctionTypeBody)
    → Bool
    → Ret × List (FileOf FunctionTypeBody)
unfolding function_type_rows emit_types
query_function_types i after limit callback rows done =
    if is_nobody i || not (kind_code i.kind == 7)
    then (error, [])
    else emit_types callback limit error 0 (function_type_rows i after rows) done

abbrev pub has_property : Identity → FileOf PropertyBody → Bool
has_property i t =
    text_eq t.body.symbol i.symbol
    && t.body.kind == kind_code i.kind
    && t.body.usr_id == i.usr_id
    && text_eq t.variant i.variant

-- *properties |= …
abbrev pub all_properties : ℕ → List (FileOf PropertyBody) → ℕ
all_properties properties [] = properties
all_properties properties (t ∷ rest) = all_properties (bit_or properties t.body.properties) rest

-- semindex_db_query_properties; `none` where -1 is returned before `properties` is written
unfoldable pub query_properties : Identity → List (FileOf PropertyBody) → Bool → Ret × Option ℕ
query_properties i rows done =
    if i.usr_id == 0
    then (error, none)
    else (if done then success else error, some (all_properties 0 (keep (has_property i) rows)))
