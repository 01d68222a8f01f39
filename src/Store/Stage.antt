-- ===== src/Store/Stage.antt =====
-- The staging of rows: qualified_name, stage_record, stage_symbol_type, stage_symbol_properties,
-- stage_function_type and stage_records of lib/semindex_index_db/index_db_writer.c. The calls that
-- bind and step one statement are one call that fails or not.
pub mod Records
pub mod Files
pub mod Listed
pub mod Keeps
pub mod Staged
use Prim.Native.Nat.{bit_or}
use semindex.Base.{
  ℕ, zero, suc, ◌+◌, ◌-◌, Bool, true, false, not, ◌&&◌, ◌||◌, Option, none, some, List, [], ◌∷◌,
  ◌++◌, Text, codes, or_empty, is_empty, text_eq, ◌==◌, ltb, if◌then◌else◌, length, get_elem?, any,
}
use semindex.Names.Kinds.{SymbolKind, kind_code, use_code}
use semindex.Store.Index.{Symbol, Use, Parameter, FunctionSignature, Index}
use semindex.Store.Rows.{
  stored_symbol, stored_use, RecordBody, SymbolTypeBody, FunctionTypeBody, PropertyBody,
  same_record, same_symbol_type, same_function_type, same_property, Staging,
}
use semindex.Store.Session.{World, M, ◌>>=◌, ◌>>◌, pure, gets, exec_staging, exec_read}
use semindex.Store.Sql.{has_key, insert_or_ignore, upsert}

-- struct stored_paths, once filled
pub record StoredPaths : Type 0 where
  pub root : Option Text
  pub main_file : Option Text
  pub files : List Text

-- struct staging_counts
pub record StagingCounts : Type 0 where
  pub items_in : ℕ
  pub records : ℕ
  pub symbol_types : ℕ
  pub function_types : ℕ
  pub symbol_properties : ℕ

abbrev pub no_counts : StagingCounts
no_counts = record {
  items_in = 0;
  records = 0;
  symbol_types = 0;
  function_types = 0;
  symbol_properties = 0;
}

-- strstr(text, "::") != NULL
unfoldable pub has_colons : Text → Bool
has_colons [] = false
has_colons (a ∷ []) = false
has_colons (a ∷ b ∷ rest) = (a == b':' && b == b':') || has_colons (b ∷ rest)

abbrev qualified_in : Text → Text → Text
qualified_in [] name = name
qualified_in (c ∷ cs) name =
    (c ∷ cs) ++ ((if has_colons (c ∷ cs) then codes "::" else codes ".") ++ name)

unfoldable pub qualified_name : Option Text → Option Text → Text
qualified_name owner name = qualified_in (or_empty owner) (or_empty name)

-- `p && p[0]`
abbrev pub present : Option Text → Bool
present p = not (is_empty (or_empty p))

unfoldable pub record_path : StoredPaths → ℕ → Option Text → Text
record_path paths index fallback = elim (get_elem? paths.files index) [
  | some path ↦ path
  | none ↦ or_empty fallback
]

-- `index < cached_count && cached[index]`
unfoldable pub is_cached : List Bool → ℕ → Bool
is_cached cached index = elim (get_elem? cached index) [ some b ↦ b | none ↦ false ]

-- Keys of filed rows: the path, then the key of the body.
abbrev pub same_filed : {B : Type 0} → (B → B → Bool) → Text × B → Text × B → Bool
same_filed same (p, a) (q, b) = text_eq p q && same a b

-- `value` where `present`
abbrev pub optional_id : ℕ → Bool → Option ℕ
optional_id value flag = if flag then some value else none

-- `type_usr_id ? type_kind : -1`
abbrev pub stored_type_kind : ℕ → SymbolKind → Option ℕ
stored_type_kind usr_id kind = if usr_id == 0 then none else some (kind_code kind)

-- The rows of one symbol, one use and one signature.

unfoldable pub symbol_row : StoredPaths → Symbol → Text × RecordBody
unfolding record_path qualified_name
symbol_row paths s = (
  record_path paths s.file_index s.file,
  record {
    symbol = qualified_name s.owner s.name;
    stored = stored_symbol;
    action = s.definition;
    kind = kind_code s.kind;
    mode = 0;
    line = s.line;
    column = s.column;
    context = or_empty s.context;
    usr_id = optional_id s.usr_id (present s.usr);
    context_usr_id = none;
    is_local = s.is_local;
  },
)

unfoldable pub use_row : StoredPaths → Use → Text × RecordBody
unfolding record_path qualified_name
use_row paths u = (
  record_path paths u.file_index u.file,
  record {
    symbol = qualified_name u.owner u.name;
    stored = stored_use;
    action = use_code u.kind;
    kind = kind_code u.symbol_kind;
    mode = u.mode;
    line = u.line;
    column = u.column;
    context = or_empty u.context;
    usr_id = optional_id u.usr_id (present u.usr);
    context_usr_id = optional_id u.context_usr_id (present u.context_usr);
    is_local = u.is_local;
  },
)

unfoldable pub symbol_type_row : StoredPaths → Symbol → Text × SymbolTypeBody
unfolding record_path qualified_name
symbol_type_row paths s = (
  record_path paths s.file_index s.file,
  record {
    symbol = qualified_name s.owner s.name;
    kind = kind_code s.kind;
    usr_id = s.usr_id;
    declared_type = or_empty s.type;
    canonical_type = or_empty s.canonical_type;
    type_symbol = or_empty s.type_symbol;
    type_kind = stored_type_kind s.type_usr_id s.type_kind;
    type_usr_id = s.type_usr_id;
  },
)

unfoldable pub property_row : StoredPaths → Symbol → Text × PropertyBody
unfolding record_path qualified_name
property_row paths s = (
  record_path paths s.file_index s.file,
  record {
    symbol = qualified_name s.owner s.name;
    kind = kind_code s.kind;
    usr_id = s.usr_id;
    properties = s.properties;
  },
)

unfoldable pub return_row : StoredPaths → FunctionSignature → Text × FunctionTypeBody
unfolding record_path qualified_name
return_row paths f = (
  record_path paths f.file_index f.file,
  record {
    symbol = qualified_name f.owner f.name;
    usr_id = f.usr_id;
    position = none;
    name = [];
    declared_type = or_empty f.return_type;
    canonical_type = or_empty f.canonical_return_type;
    type_symbol = [];
    type_kind = none;
    type_usr_id = 0;
    variadic = f.variadic;
  },
)

unfoldable pub parameter_row :
    StoredPaths → FunctionSignature → ℕ → Parameter → Text × FunctionTypeBody
unfolding record_path qualified_name
parameter_row paths f position p = (
  record_path paths f.file_index f.file,
  record {
    symbol = qualified_name f.owner f.name;
    usr_id = f.usr_id;
    position = some position;
    name = or_empty p.name;
    declared_type = or_empty p.type;
    canonical_type = or_empty p.canonical_type;
    type_symbol = or_empty p.type_symbol;
    type_kind = stored_type_kind p.type_usr_id p.type_kind;
    type_usr_id = p.type_usr_id;
    variadic = 0;
  },
)

-- The number of rows that INSERT OR IGNORE adds.
abbrev pub inserted : {R : Type 0} → (R → R → Bool) → R → List R → ℕ
inserted same r t = if has_key same r t then 0 else 1

unfoldable pub stage_record : Text × RecordBody → M (Unit {0})
stage_record r =
    exec_staging
      (λ db st. record st { records = insert_or_ignore (same_filed same_record) st.records r })
      (λ st. inserted (same_filed same_record) r st.records)

unfoldable pub stage_symbol_type : Text × SymbolTypeBody → M (Unit {0})
stage_symbol_type r =
    exec_staging
      (λ db st. record st {
        symbol_types = insert_or_ignore (same_filed same_symbol_type) st.symbol_types r;
      })
      (λ st. inserted (same_filed same_symbol_type) r st.symbol_types)

unfoldable pub stage_function_type : Text × FunctionTypeBody → M (Unit {0})
stage_function_type r =
    exec_staging
      (λ db st. record st {
        function_types = insert_or_ignore (same_filed same_function_type) st.function_types r;
      })
      (λ st. inserted (same_filed same_function_type) r st.function_types)

-- ON CONFLICT … DO UPDATE SET properties = properties | excluded.properties
unfoldable pub or_properties : {F : Type 0} → F × PropertyBody → F × PropertyBody → F × PropertyBody
or_properties (f, old) (g, new) =
    (f, record old { properties = bit_or old.properties new.properties })

unfoldable pub stage_symbol_properties : Text × PropertyBody → M (Unit {0})
unfolding or_properties
stage_symbol_properties r =
    exec_staging
      (λ db st. record st {
        symbol_properties = upsert (same_filed same_property) or_properties st.symbol_properties r;
      })
      (λ st. 1)
