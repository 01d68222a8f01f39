-- ===== src/Store/Index.antt =====
-- What the parser hands to the store: the structures of include/semindex.h. A pointer that may be
-- NULL is an `Option`; the functions that read the index one item at a time are its lists.
use semindex.Base.{ℕ, Bool, Option, List, Text}
use semindex.Names.Kinds.{SymbolKind, UseKind}

-- semindex_symbol_t
pub record Symbol : Type 0 where
  pub kind : SymbolKind
  pub name : Option Text
  pub owner : Option Text
  pub type : Option Text
  pub canonical_type : Option Text
  pub type_kind : SymbolKind
  pub type_symbol : Option Text
  pub type_usr_id : ℕ
  pub usr : Option Text
  pub usr_id : ℕ
  pub context : Option Text
  pub file : Option Text
  pub file_index : ℕ
  pub line : ℕ
  pub column : ℕ
  pub is_local : ℕ
  pub definition : ℕ
  pub properties : ℕ

-- semindex_use_t
pub record Use : Type 0 where
  pub kind : UseKind
  pub symbol_kind : SymbolKind
  pub mode : ℕ
  pub name : Option Text
  pub owner : Option Text
  pub usr : Option Text
  pub context : Option Text
  pub context_usr : Option Text
  pub usr_id : ℕ
  pub context_usr_id : ℕ
  pub file : Option Text
  pub file_index : ℕ
  pub line : ℕ
  pub column : ℕ
  pub is_local : ℕ

-- semindex_parameter_t
pub record Parameter : Type 0 where
  pub name : Option Text
  pub type : Option Text
  pub canonical_type : Option Text
  pub type_kind : SymbolKind
  pub type_symbol : Option Text
  pub type_usr_id : ℕ

-- semindex_function_signature_t
pub record FunctionSignature : Type 0 where
  pub name : Option Text
  pub owner : Option Text
  pub usr : Option Text
  pub usr_id : ℕ
  pub return_type : Option Text
  pub canonical_return_type : Option Text
  pub parameters : List Parameter
  pub file : Option Text
  pub file_index : ℕ
  pub variadic : ℕ

-- semindex_file_fingerprint_t
pub record FileFingerprint : Type 0 where
  pub file : Text
  pub fingerprint : Text
  pub record_count : ℕ

-- semindex_t, as far as the store reads it; the fingerprints depend on include_local
pub record Index : Type 0 where
  pub symbols : List Symbol
  pub uses : List Use
  pub signatures : List FunctionSignature
  pub fingerprints : Bool → List FileFingerprint
