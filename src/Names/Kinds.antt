-- ===== src/Names/Kinds.antt =====
-- The enumerations of include/semindex.h, with the values that C gives their enumerators.
use semindex.Base.{ℕ}

-- semindex_symbol_kind_t
pub data SymbolKind : Type 0 where
  var field struct union enum enum_constant typedef function macro file class lambda : SymbolKind
  template : SymbolKind

abbrev pub kind_code : SymbolKind → ℕ
kind_code var = 0
kind_code field = 1
kind_code struct = 2
kind_code union = 3
kind_code enum = 4
kind_code enum_constant = 5
kind_code typedef = 6
kind_code function = 7
kind_code macro = 8
kind_code file = 9
kind_code class = 10
kind_code lambda = 11
kind_code template = 12

-- semindex_use_kind_t
pub data UseKind : Type 0 where
  read write addr call : UseKind

abbrev pub use_code : UseKind → ℕ
use_code read = 0
use_code write = 1
use_code addr = 2
use_code call = 3
