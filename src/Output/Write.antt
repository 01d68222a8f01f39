-- ===== src/Output/Write.antt =====
-- index_db_output_write of lib/semindex_index_db/index_db_output.c: one record in the compiled
-- format. `%d` is a parameter, and a write to the output does not fail.
pub mod Laws
use semindex.Base.{
  ℕ, suc, Bool, true, false, not, Option, none, some, List, [], ◌∷◌, ◌++◌, Text, codes, or_empty,
  if◌then◌else◌,
}
use semindex.Names.Kinds.{SymbolKind}
use semindex.Names.{semindex_symbol_kind_name}
use semindex.Names.Output.{output_symbol_kind_char, output_mode_string}
use semindex.Output.{
  Field, file, variant, variant_file, line, column, context, symbol, record_kind, mode, kind,
  kind_char, source, Token, text, character, field,
}
use semindex.Output.Source.{Files, Cursor, Printed, printed, failed, overrun, print_source_line}

-- index_db_output_record_t
pub record OutputRecord : Type 0 where
  pub file : Text
  pub variant : Text
  pub root : Option Text
  pub line : ℕ
  pub column : ℕ
  pub symbol_record : Bool
  pub definition : Bool
  pub kind : SymbolKind
  pub mode : ℕ
  pub symbol : Text
  pub context : Option Text

unfoldable pub print_mode : OutputRecord → Text
print_mode r =
    if r.symbol_record
    then (if r.definition then codes "def" else codes "decl")
    else output_mode_string r.mode

unfoldable pub record_name : OutputRecord → Text
record_name r =
    if not r.symbol_record
    then codes "reference"
    else if r.definition
    then codes "definition"
    else codes "declaration"

-- The bytes written, the cursor, and whether the result is 0 so far.
pub record Output : Type 0 where
  pub ok : Bool
  pub out : Text
  pub cursor : Cursor

abbrev pub wrote : Text → Output → Output
wrote t o = record o { out = t ++ o.out }

module _ (decimal : ℕ → Text) (files : Files) (r : OutputRecord) where
  -- The fields that are written without the source
  unfoldable pub print_field : Field → Text
  unfolding print_mode record_name
  print_field file = r.file
  print_field variant_file = r.variant ++ b':' ∷ r.file
  print_field variant = r.variant
  print_field line = decimal r.line
  print_field column = decimal r.column
  print_field context = or_empty r.context
  print_field symbol = r.symbol
  print_field record_kind = record_name r
  print_field mode = print_mode r
  print_field kind = semindex_symbol_kind_name r.kind
  print_field kind_char = output_symbol_kind_char r.kind ∷ []
  print_field source = []

  abbrev pub is_source_field : Field → Bool
  is_source_field source = true
  is_source_field _ = false

  abbrev pub after_source : Printed × Cursor → (Cursor → Output) → Output
  after_source (printed t, s) rest = wrote t (rest s)
  after_source (failed, s) rest = record { ok = false; out = []; cursor = s }
  after_source (overrun, s) rest = record { ok = false; out = []; cursor = s }

  -- The loop over the tokens, and the '\n' behind it
  unfoldable pub index_db_output_write : List Token → Cursor → Output
  unfolding print_field
  index_db_output_write [] s = record { ok = true; out = b'\n' ∷ []; cursor = s }
  index_db_output_write (text t ∷ ts) s = wrote t (index_db_output_write ts s)
  index_db_output_write (character c ∷ ts) s = wrote (c ∷ []) (index_db_output_write ts s)
  index_db_output_write (field f ∷ ts) s =
      let rest = index_db_output_write ts in
      let at = print_source_line files s r.root r.file r.line in
      if is_source_field f then after_source at rest else wrote (print_field f) (rest s)
