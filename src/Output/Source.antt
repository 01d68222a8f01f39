-- ===== src/Output/Source.antt =====
-- The source lines of search results: open_source and print_source_line of
-- lib/semindex_index_db/index_db_output.c. The files are a parameter: what getline gives of a file,
-- line by line, or `none` where fopen fails. A write to the output does not fail.
pub mod Laws
use semindex.Base.{
  ℕ, zero, suc, ◌+◌, ◌-◌, Bool, true, false, not, ◌&&◌, ◌||◌, Option, none, some, List, [], ◌∷◌,
  ◌++◌, Text, text_eq, is_some, if◌then◌else◌, ◌==◌, ltb,
}

-- What getline gives of a file.
abbrev pub Files : Type 0
Files = Text → Option (List Text)

-- The members of struct index_db_output that the two functions use. `source` holds the lines that
-- are still to be read; `text` is the buffer up to `length`, `none` where `length` is -1.
pub record Cursor : Type 0 where
  pub root : Option Text
  pub path : Option Text
  pub source : Option (List Text)
  pub text : Option Text
  pub line : ℕ

abbrev starts_slash : Text → Bool
starts_slash [] = false
starts_slash (c ∷ cs) = c == b'/'

abbrev below : Option Text → Option Text → Text → Text
below (some root) hint path = root ++ b'/' ∷ path
below none (some root) path = root ++ b'/' ∷ path
below none none path = path

-- `source_path`
unfoldable pub source_path : Option Text → Option Text → Text → Text
source_path root hint path = if starts_slash path then path else below root hint path

abbrev pub same_path : Option Text → Text → Bool
same_path none p = false
same_path (some q) p = text_eq q p

module _ (files : Files) where
  -- open_source: the cursor; the file is open if `source` is there.
  unfoldable pub open_source : Cursor → Option Text → Text → Cursor
  unfolding source_path
  open_source s root path =
      let p = source_path root s.root path in
      if is_some s.source && same_path s.path p
      then s
      else record s { path = some p; source = files p; text = some []; line = 0 }

  -- rewind, of the file that is open
  abbrev pub reopen : Option Text → Option (List Text)
  reopen none = none
  reopen (some p) = files p

  unfoldable pub rewind_before : ℕ → Cursor → Cursor
  rewind_before line s =
      if ltb line s.line then record s { source = reopen s.path; line = 0 } else s

-- The loop over getline, with the number of lines to go.
unfoldable pub read_lines : ℕ → List Text → Cursor → Bool × Cursor
read_lines zero rest s = (true, record s { source = some rest })
read_lines (suc n) [] s = (false, record s { source = some []; text = none })
read_lines (suc n) (l ∷ rest) s = read_lines n rest (record s { text = some l; line = s.line + 1 })

-- The line without its '\n'
abbrev pub chop : Text → Text
chop [] = []
chop (c ∷ []) = if c == b'\n' then [] else c ∷ []
chop (c ∷ d ∷ t) = c ∷ chop (d ∷ t)

-- What is written, the error return, or a write of (size_t)-1 bytes.
pub data Printed : Type 0 where
  printed : Text → Printed
  failed overrun : Printed

abbrev pub print_text : Option Text → Cursor → Printed × Cursor
print_text none s = (overrun, s)
print_text (some t) s = (printed (chop t), record s { text = some (chop t) })

abbrev pub print_read : Bool × Cursor → Printed × Cursor
print_read (false, s) = (failed, s)
print_read (true, s) = print_text s.text s

abbrev pub print_from : ℕ → Option (List Text) → Cursor → Printed × Cursor
print_from line none s = (failed, s)
print_from line (some rest) s = print_read (read_lines (line - s.line) rest s)

-- print_source_line
unfoldable pub print_source_line : Files → Cursor → Option Text → Text → ℕ → Printed × Cursor
unfolding open_source rewind_before read_lines
print_source_line files s root path line =
    let opened = open_source files s root path in
    if not (is_some opened.source)
    then (failed, opened)
    else let s' = rewind_before files line opened in print_from line s'.source s'
