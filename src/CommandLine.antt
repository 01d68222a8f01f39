-- ===== src/CommandLine.antt =====
-- The values of options: lib/semindex_cmdline/cmdline.c. A parser's result is `none` where it
-- returns -1.
pub mod Laws
pub mod IndexCommand
use semindex.Base.{
  ℕ, Bool, true, false, not, ◌&&◌, ◌||◌, Option, none, some, List, [], ◌∷◌, Text, codes, text_eq,
  if◌then◌else◌, ◌==◌, leb, any, length,
}
use semindex.Names.Kinds.{
  SymbolKind, var, field, struct, union, enum, enum_constant, typedef, function, macro, file, class,
  lambda, template,
}
use semindex.Names.{SymbolKindName, entry, kind_in}

-- enum output_format
pub data OutputFormat : Type 0 where
  format_dissect format_json : OutputFormat

-- semindex_scope_t
pub data Scope : Type 0 where
  scope_file scope_project scope_all : Scope

-- index_pipeline_git_commit_t
pub data GitCommit : Type 0 where
  commit_disabled commit_auto commit_explicit : GitCommit

unfoldable pub parse_format : Text → Option OutputFormat
parse_format value =
    if text_eq value (codes "dissect")
    then some format_dissect
    else if text_eq value (codes "json")
    then some format_json
    else none

unfoldable pub parse_scope : Text → Option Scope
parse_scope value =
    if text_eq value (codes "file")
    then some scope_file
    else if text_eq value (codes "project")
    then some scope_project
    else if text_eq value (codes "all")
    then some scope_all
    else none

-- isxdigit, in the C locale
abbrev pub is_xdigit : ℕ → Bool
is_xdigit c = leb b'0' c && leb c b'9' || leb b'A' c && leb c b'F' || leb b'a' c && leb c b'f'

-- The loop of parse_git_commit
unfoldable pub all_xdigits : Text → Bool
all_xdigits [] = true
all_xdigits (c ∷ cs) = if not (is_xdigit c) then false else all_xdigits cs

unfoldable pub parse_git_commit : Text → Option GitCommit
unfolding all_xdigits
parse_git_commit value =
    if text_eq value (codes "auto")
    then some commit_auto
    else if not (length value == 40) && not (length value == 64)
    then none
    else if all_xdigits value
    then some commit_explicit
    else none

-- symbol_kind_names
abbrev pub cli_names : List SymbolKindName
cli_names =
    entry var (codes "var")
    ∷ entry field (codes "field")
    ∷ entry struct (codes "struct")
    ∷ entry union (codes "union")
    ∷ entry enum (codes "enum")
    ∷ entry enum_constant (codes "enumerator")
    ∷ entry typedef (codes "typedef")
    ∷ entry function (codes "function")
    ∷ entry macro (codes "macro")
    ∷ entry file (codes "file")
    ∷ entry class (codes "class")
    ∷ entry lambda (codes "lambda")
    ∷ entry template (codes "template")
    ∷ []

-- The loop is that of semindex_symbol_kind_parse, on a table of its own.
unfoldable pub parse_symbol_kind : Text → Option SymbolKind
unfolding kind_in
parse_symbol_kind value = kind_in cli_names value
