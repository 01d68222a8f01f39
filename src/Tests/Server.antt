-- ===== src/Tests/Server.antt =====
-- The witnesses for the language server.
use semindex.Base.{
  text_eq, starts_with, true, none, some, List, [], ◌∷◌, ◌++◌, Text, codes, keep, ◌==◌, ◌≡◌, refl,
  arith,
}
use semindex.Reader.{Row, QueryOptions, references}
use semindex.Reader.Emit.{emit_records}
use semindex.Lsp.Transport.{ReadResult, read, write}
use semindex.Lsp.Transport.RoundTrip.{read-write}
use semindex.Lsp.Overlay.{Overlay, lookup, overlay_symbol, emitted_row, find_at}
use semindex.Lsp.Overlay.Files.{
  Change, replaced, erased, apply_all, records_after_all, apply_all-records,
}
use semindex.Lsp.Overlay.Answers.{rows_of, find_at-emit_records}
use semindex.Tests.Samples.{main_path, main_symbol, sample_index}

-- Paths that are in their normal form
abbrev normalize : Text → Text
normalize path = path

abbrev resolve_against : Text → Text → Text
resolve_against directory path = path

read-write_example :
    read true (write (codes "{}") ++ codes "Content-Length: 2")
    ≡ (ReadResult.message (codes "{}"), codes "Content-Length: 2")
read-write_example = read-write (codes "{}") (codes "Content-Length: 2") (omega arith) (omega arith)

-- The input ends inside the headers: behind a line, and within one.
read_ended : read true (codes "Foo: bar" ++ b'\n' ∷ []) ≡ (ReadResult.end_of_file, [])
unfolding read starts_with
read_ended = refl

read_broken_off : read true (codes "Foo: bar") ≡ (ReadResult.error, [])
unfolding read starts_with
read_broken_off = refl

abbrev changes : List Change
changes = replaced main_path (codes "/r") sample_index ∷ erased (codes "/r/h.h") ∷ []

apply_all-records_example :
    lookup main_path (apply_all normalize resolve_against changes [])
    ≡ records_after_all normalize resolve_against main_path changes (lookup main_path [])
apply_all-records_example = apply_all-records normalize resolve_against changes main_path []

abbrev overlay : Overlay
overlay = (main_path, overlay_symbol main_symbol ∷ []) ∷ []

has_main : lookup main_path overlay ≡ some (overlay_symbol main_symbol ∷ [])
unfolding lookup text_eq
has_main = refl

find_at-emit_records_example :
    find_at normalize resolve_against main_path none 1 5 (λ r. 0) overlay
    ≡ emit_records
        (λ r. 0)
        5
        (keep
          (λ r. r.line == 1)
          (rows_of normalize resolve_against main_path none (overlay_symbol main_symbol ∷ [])))
        true
find_at-emit_records_example =
    find_at-emit_records normalize resolve_against main_path none 1 5 (λ r. 0) overlay
      (overlay_symbol main_symbol ∷ []) has_main refl refl

abbrev options : QueryOptions
options = record {
  symbol = some (codes "main");
  path = none;
  variant = none;
  context = none;
  after = none;
  limit = 0;
  record_kind = references;
  mode = none;
  usr_id = none;
  kind = none;
  is_local = some 0;
}

abbrev row : Row
row = emitted_row normalize resolve_against main_path [] (overlay_symbol main_symbol)
