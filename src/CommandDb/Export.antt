-- ===== src/CommandDb/Export.antt =====
-- lib/semindex_command_db/command_db_export.c, which writes the commands of a variant as a
-- compile_commands.json. The writes to the stream succeed.
pub mod Json
use semindex.Base.{
  ℕ, zero, suc, ◌+◌, ◌-◌, ◌/◌, ◌%◌, Bool, true, false, Option, none, some, List, [], ◌∷◌, ◌++◌,
  keep, Text, codes, text_eq, is_empty, is_some, ltb, ◌==◌, if◌then◌else◌, length,
}
use semindex.Base.Effects.{◌>>=◌, ◌>>◌, pure, fail, gets}
use semindex.CommandDb.{CommandDb, CommandRow}
use semindex.CommandDb.Connection.{M, command_db_prepare, read_once, close}
use semindex.CommandDb.Load.{command_db_open_reader}
use semindex.Reader.Order.{order_by}

abbrev pub quote : ℕ
quote = b'"'

abbrev pub backslash : ℕ
backslash = b'\\'

-- A digit of `%04x`
abbrev pub hex_digit : ℕ → ℕ
hex_digit d = if ltb d 10 then b'0' + d else b'a' + (d - 10)

-- The `switch (ch)` and what follows it
unfoldable pub escape : ℕ → Text
escape ch =
    if ch == quote
    then backslash ∷ quote ∷ []
    else if ch == backslash
    then backslash ∷ backslash ∷ []
    else if ch == 8
    then backslash ∷ b'b' ∷ []
    else if ch == 12
    then backslash ∷ b'f' ∷ []
    else if ch == 10
    then backslash ∷ b'n' ∷ []
    else if ch == 13
    then backslash ∷ b'r' ∷ []
    else if ch == 9
    then backslash ∷ b't' ∷ []
    else if ltb ch 32
    then backslash ∷ b'u' ∷ b'0' ∷ b'0' ∷ hex_digit (ch / 16) ∷ hex_digit (ch % 16) ∷ []
    else ch ∷ []

abbrev pub escape_all : Text → Text
escape_all [] = []
escape_all (ch ∷ rest) = escape ch ++ escape_all rest

-- write_json_string
unfoldable pub write_json_string : Text → Text
unfolding escape
write_json_string value = quote ∷ escape_all value ++ quote ∷ []

-- memchr of NUL: what stands before it, and what behind it
unfoldable pub before_nul : Text → Option (Text × Text)
before_nul [] = none
before_nul (c ∷ rest) =
    let found = before_nul rest in
    if c == 0
    then some ([], rest)
    else elim found [ none ↦ none | some (s, behind) ↦ some (c ∷ s, behind) ]

abbrev pub separator : Bool → Text
separator true = []
separator false = codes ", "

abbrev pub with_argument : Bool → Text → Option Text → Option Text
with_argument first s none = none
with_argument first s (some out) = some (separator first ++ write_json_string s ++ out)

-- The `while (offset < size)` of write_arguments. A round takes one byte at least, so the size is
-- fuel enough.
unfoldable pub arguments_from : ℕ → Bool → Text → Option Text
unfolding write_json_string before_nul
arguments_from fuel first [] = some (codes "]")
arguments_from zero first (c ∷ rest) = none
arguments_from (suc fuel) first (c ∷ rest) = elim (before_nul (c ∷ rest)) [
  | none ↦ none
  | some (s, behind) ↦ with_argument first s (arguments_from fuel false behind)
]

-- write_arguments
unfoldable pub write_arguments : Text → Option Text
unfolding arguments_from
write_arguments blob = elim (arguments_from (length blob) true blob) [
  | none ↦ none
  | some out ↦ some (codes "[" ++ out)
]

-- One round of the loop of command_db_export
unfoldable pub write_command : CommandRow → Option Text
unfolding write_json_string write_arguments
write_command r = elim (write_arguments r.arguments) [
  | none ↦ none
  | some arguments ↦ some (
      codes "  {\n    \"directory\": "
      ++ write_json_string r.directory
      ++ codes ",\n    \"file\": "
      ++ write_json_string r.file
      ++ codes ",\n    \"arguments\": "
      ++ arguments
      ++ codes "\n  }")
]

abbrev pub comma_line : Bool → Text
comma_line true = []
comma_line false = codes ",\n"

unfoldable pub write_commands : Bool → List CommandRow → Option Text
unfolding write_command
write_commands first [] = some (codes "\n]\n")
write_commands first (r ∷ rows) = elim (write_command r) [
  | none ↦ none
  | some command ↦ elim (write_commands false rows) [
    | none ↦ none
    | some rest ↦ some (comma_line first ++ command ++ rest)
  ]
]

-- SELECT … WHERE variant = ?1 ORDER BY file
unfoldable pub exported_rows : Text → List CommandRow → List CommandRow
exported_rows variant rows =
    order_by (λ r. r.file ∷ []) (keep (λ r. text_eq r.variant variant) rows)

abbrev pub document : Option Text → Option Text
document none = none
document (some rest) = some (codes "[\n" ++ rest)

abbrev pub written : Option Text → M Text
written none = fail
written (some out) = pure out

unfoldable pub export_rows : Text → M Text
unfolding exported_rows write_commands
export_rows variant = do
  command_db_open_reader
  command_db_prepare (λ db. is_some db.commands)
  read_once
  rows ← gets (λ w. elim w.db.commands [ none ↦ [] | some rows ↦ rows ])
  read_once
  written (document (write_commands true (exported_rows variant rows)))

-- command_db_export
unfoldable pub command_db_export : Option Text → Option Text → M Text
unfolding export_rows
command_db_export (some path) (some variant) w =
    if is_empty variant then (none, w) else let (r, w') = export_rows variant w in (r, close w')
command_db_export _ _ w = (none, w)
