-- ===== src/Names.antt =====
-- The enumerations of include/semindex.h, their names, and how they are shown: lib/semindex_names.
pub mod Kinds
pub mod Output
pub mod Laws
use semindex.Base.{
  Bool, true, false, Option, none, some, List, [], ◌∷◌, Text, codes, text_eq, if◌then◌else◌, ◌==◌,
}
use semindex.Names.Kinds.{
  SymbolKind, var, field, struct, union, enum, enum_constant, typedef, function, macro, file, class,
  lambda, template, kind_code,
}

-- struct symbol_kind_name
pub record SymbolKindName : Type 0 where
  pub kind : SymbolKind
  pub name : Text

abbrev pub entry : SymbolKind → Text → SymbolKindName
entry k t = record { kind = k; name = t }

abbrev pub symbol_kind_names : List SymbolKindName
symbol_kind_names =
    entry var (codes "variable")
    ∷ entry field (codes "field")
    ∷ entry struct (codes "struct")
    ∷ entry union (codes "union")
    ∷ entry enum (codes "enum")
    ∷ entry enum_constant (codes "enumerator")
    ∷ entry typedef (codes "typedef")
    ∷ entry function (codes "function")
    ∷ entry macro (codes "macro")
    ∷ entry file (codes "file")
    ∷ entry class (codes "class")
    ∷ entry lambda (codes "lambda")
    ∷ entry template (codes "template")
    ∷ []

-- The loop of semindex_symbol_kind_name
unfoldable pub name_in : List SymbolKindName → SymbolKind → Text
name_in [] k = codes "unknown"
name_in (e ∷ rest) k =
    let later = name_in rest k in if kind_code k == kind_code e.kind then e.name else later

unfoldable pub semindex_symbol_kind_name : SymbolKind → Text
unfolding name_in
semindex_symbol_kind_name k = name_in symbol_kind_names k

-- The loop of semindex_symbol_kind_parse
unfoldable pub kind_in : List SymbolKindName → Text → Option SymbolKind
kind_in [] name = none
kind_in (e ∷ rest) name =
    let later = kind_in rest name in if text_eq name e.name then some e.kind else later

unfoldable pub semindex_symbol_kind_parse : Text → Option SymbolKind
unfolding kind_in
semindex_symbol_kind_parse name = kind_in symbol_kind_names name
