-- ===== src/Names/Output.antt =====
-- lib/semindex_names/semantic_output.c: the letters of a kind and of an access mode.
use semindex.Base.{ℕ, Bool, [], ◌∷◌, Text, if◌then◌else◌, ◌==◌}
use Prim.Native.Nat.{◌/◌, ◌%◌}
use semindex.Names.Kinds.{
  SymbolKind, var, field, struct, union, enum, enum_constant, typedef, function, macro, file, class,
  lambda, template,
}

unfoldable pub output_symbol_kind_char : SymbolKind → ℕ
output_symbol_kind_char field = b'm'
output_symbol_kind_char struct = b's'
output_symbol_kind_char union = b's'
output_symbol_kind_char enum = b'E'
output_symbol_kind_char enum_constant = b'e'
output_symbol_kind_char typedef = b't'
output_symbol_kind_char function = b'f'
output_symbol_kind_char macro = b'd'
output_symbol_kind_char file = b'i'
output_symbol_kind_char class = b'c'
output_symbol_kind_char lambda = b'L'
output_symbol_kind_char template = b'T'
output_symbol_kind_char var = b'v'

-- `mode & bit`, for a bit that is a power of two
abbrev pub has_bit : ℕ → ℕ → Bool
has_bit mode bit = (mode / bit) % 2 == 1

-- One letter of the string: `if (mode & R) c = 'r'; if (mode & W) c = c == 'r' ? 'm' : 'w';`
abbrev pub access_char : Bool → Bool → ℕ
access_char reads writes =
    let c = if reads then b'r' else b'-' in if writes then (if c == b'r' then b'm' else b'w') else c

unfoldable pub output_mode_string : ℕ → Text
output_mode_string mode =
    access_char (has_bit mode 1) (has_bit mode 2)
    ∷ access_char (has_bit mode 4) (has_bit mode 8)
    ∷ access_char (has_bit mode 16) (has_bit mode 32)
    ∷ []
