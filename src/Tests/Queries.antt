-- ===== src/Tests/Queries.antt =====
-- Queries and their output on small inputs.
use mathlib.Core.Path.{subst}
use semindex.Base.{
  ℕ, zero, suc, Bool, true, false, none, some, List, [], ◌∷◌, ◌++◌, Text, codes, text_eq, any, keep,
  length, if◌then◌else◌, ◌≤◌, ◌≡◌, refl, sym, ap, inl, inr, In-cons, arith, get_elem?, ◌+◌, ◌↔◌, In,
}
use semindex.Names.Kinds.{function}
use semindex.Store.Rows.{stored_symbol}
use semindex.Reader.Leaf.{IsLeaf, qualified_leaf-IsLeaf}
use semindex.Reader.{
  qualified_leaf, Row, QueryOptions, all_records, cursor_at, row_key, query_rows, limited,
  pattern_uses_glob, selects,
}
use semindex.Reader.Order.{key_lt, order_by, insert_ordered}
use semindex.Reader.Keyed.{AreKeyed}
use semindex.Reader.Paging.{query_rows-after}
use semindex.Reader.Emit.{
  success, error, covers, emit_records, emit_types, emit_records-all, emit_types-hides_error,
}
use semindex.Reader.Functions.{DbFunction, query_functions, is_nameless, requested_rows}
use semindex.Reader.Functions.Batches.{query_functions-rows}
use semindex.Output.{Token, text, character, field, line, source, compile_format}
use semindex.Output.Bounds.{compile_format-length}
use semindex.Output.Written.{write_tokens, compile_format-write}
use semindex.Output.Source.{Files, Cursor, printed, print_source_line, chop}
use semindex.Output.Source.Laws.{IsLines, IsCursor, print_source_line-Writes}
use semindex.Output.Write.{OutputRecord, index_db_output_write}
use semindex.Output.Write.Laws.{shown_all, index_db_output_write-shown}

abbrev row_at : ℕ → Row
row_at n = record {
  variant = codes "v";
  path = codes "m";
  line = n;
  column = 2;
  stored = stored_symbol;
  action = 1;
  kind = 7;
  symbol = codes "f";
  context = [];
  mode = 0;
  usr_id = some 9;
  context_usr_id = none;
  is_local = 0;
}

abbrev everything : QueryOptions
everything = record {
  symbol = some (codes "f");
  path = none;
  variant = none;
  context = none;
  after = none;
  limit = 0;
  record_kind = all_records;
  mode = none;
  usr_id = none;
  kind = some function;
  is_local = none;
}

abbrev no_glob : Text → Text → Bool
no_glob p t = false

abbrev rows : List Row
rows = row_at 3 ∷ row_at 1 ∷ row_at 2 ∷ []

second : List Text → ℕ
second (a ∷ b ∷ (n ∷ t) ∷ k) = n
second _ = 0

other_line : (m n : ℕ) → ¬ (m ≡ n) → ¬ (row_key (row_at m) ≡ row_key (row_at n))
unfolding second
other_line m n h e = h (ap second e)

rows-AreKeyed : AreKeyed row_key rows
rows-AreKeyed = (
  λ y m. elim (In-cons m) [
    | inl p ↦
        subst (λ z. ¬ (row_key (row_at 3) ≡ row_key z)) (sym p)
          (other_line 3 1 (λ e. omega (arith, e)))
    | inr k ↦ elim (In-cons k) [
      | inl p ↦
          subst (λ z. ¬ (row_key (row_at 3) ≡ row_key z)) (sym p)
            (other_line 3 2 (λ e. omega (arith, e)))
      | inr l ↦ elim l [ ]
    ]
  ],
  (
    λ y m. elim (In-cons m) [
      | inl p ↦
          subst (λ z. ¬ (row_key (row_at 1) ≡ row_key z)) (sym p)
            (other_line 1 2 (λ e. omega (arith, e)))
      | inr l ↦ elim l [ ]
    ],
    (λ y m. elim m [ ], tt),
  ),
)

whole_query :
    query_rows no_glob everything rows ≡ some ((row_at 1 ∷ []) ++ row_at 2 ∷ row_at 3 ∷ [])
unfolding query_rows selects pattern_uses_glob any keep text_eq order_by insert_ordered key_lt
whole_query = refl

query_rows-after_example :
    query_rows no_glob (record everything { after = some (cursor_at (row_at 2)); limit = 5 }) rows
    ≡ some (limited 5 (row_at 3 ∷ []))
query_rows-after_example =
    query_rows-after no_glob everything rows (row_at 1 ∷ []) (row_at 3 ∷ []) (row_at 2) 5
      rows-AreKeyed refl refl whole_query

abbrev go_on : Row → ℕ
go_on r = 0

emit_records-all_example :
    emit_records go_on 2 rows false ≡ (if false then success else error, keep (covers 2) rows)
emit_records-all_example = emit_records-all go_on 2 rows false (λ t. refl)

emit_types-hides_error_example :
    (emit_types go_on 0 error 0 (row_at 1 ∷ row_at 2 ∷ []) false
      ≡ (success, row_at 1 ∷ row_at 2 ∷ []))
    × (emit_types go_on 0 error 0 [] false ≡ (error, []))
emit_types-hides_error_example = emit_types-hides_error go_on (row_at 1) (row_at 2 ∷ []) (λ t. refl)

abbrev tokens : List Token
tokens = text (codes "a") ∷ field line ∷ character 9 ∷ field source ∷ []

compile_format-write_example : compile_format (write_tokens tokens) ≡ some tokens
unfolding any
compile_format-write_example = compile_format-write tokens (not_empty, refl, (refl, tt))
  where
    not_empty : ¬ (codes "a" ≡ [])
    not_empty e = absurd (cc e)

compile_format-length_example : length tokens ≤ length (write_tokens tokens)
compile_format-length_example =
    compile_format-length (write_tokens tokens) tokens compile_format-write_example

abbrev two_lines : Files
two_lines p = some (codes "int a;\n" ∷ codes "b" ∷ [])

two_lines-IsLines : IsLines two_lines
two_lines-IsLines = record {
  at = λ p all i l e g. line_of i l (subst (λ x. get_elem? x i ≡ some l) (sym (lines_are e)) g);
}
  where
    lines_are :
        {all : List Text}
        → some (codes "int a;\n" ∷ codes "b" ∷ []) ≡ some all
        → (codes "int a;\n" ∷ codes "b" ∷ []) ≡ all
    lines_are e = cc e

    chopped : (l k : Text) → some k ≡ some l → chop (chop k) ≡ chop k → chop (chop l) ≡ chop l
    chopped l k e h = let same : k ≡ l = cc e in subst (λ x. chop (chop x) ≡ chop x) same h

    line_of :
        (i : ℕ) (l : Text)
        → get_elem? (codes "int a;\n" ∷ codes "b" ∷ []) i ≡ some l
        → chop (chop l) ≡ chop l
    line_of zero l e = chopped l (codes "int a;\n") e refl
    line_of (suc zero) l e = chopped l (codes "b") e refl
    line_of (suc (suc i)) l e = absurd (cc e)

abbrev no_file : Cursor
no_file = record { root = none; path = none; source = none; text = some []; line = 0 }

print_source_line-Writes_example :
    ((print_source_line two_lines no_file none (codes "m") 2).0 ≡ printed (chop (codes "b")))
    × IsCursor two_lines (print_source_line two_lines no_file none (codes "m") 2).1
print_source_line-Writes_example =
    print_source_line-Writes two_lines no_file none (codes "m") (codes "int a;\n" ∷ codes "b" ∷ [])
      1 (codes "b") two_lines-IsLines (inl refl) refl refl

abbrev digit : ℕ → Text
digit n = (n + 48) ∷ []

abbrev shown_record : OutputRecord
shown_record = record {
  file = codes "m";
  variant = codes "v";
  root = none;
  line = 2;
  column = 1;
  symbol_record = true;
  definition = true;
  kind = function;
  mode = 0;
  symbol = codes "f";
  context = none;
}

index_db_output_write-shown_example :
    ((index_db_output_write digit two_lines shown_record tokens no_file).ok ≡ true)
    × ((index_db_output_write digit two_lines shown_record tokens no_file).out
        ≡ shown_all digit two_lines shown_record (codes "b") tokens)
    × IsCursor two_lines (index_db_output_write digit two_lines shown_record tokens no_file).cursor
index_db_output_write-shown_example =
    index_db_output_write-shown digit two_lines shown_record tokens no_file
      (codes "int a;\n" ∷ codes "b" ∷ []) 1 (codes "b") two_lines-IsLines (inl refl) refl refl refl

qualified_leaf-IsLeaf_example : IsLeaf (codes "a::b.c") (qualified_leaf (codes "a::b.c"))
qualified_leaf-IsLeaf_example = qualified_leaf-IsLeaf (codes "a::b.c")

leaf_of_member : qualified_leaf (codes "a::b.c") ≡ codes "c"
unfolding qualified_leaf
leaf_of_member = refl

abbrev requested : List DbFunction
requested =
    record { variant = codes "v"; symbol = codes "g"; usr_id = 9 }
    ∷ record { variant = codes "v"; symbol = codes "f"; usr_id = 9 }
    ∷ []

are_named : any is_nameless requested ≡ false
unfolding any
are_named = refl

query_functions-rows_example :
    ((query_functions 1 requested go_on rows true).0 ≡ success)
    × ((r : Row)
        → In r (query_functions 1 requested go_on rows true).1
          ↔ In r (requested_rows requested rows))
query_functions-rows_example =
    query_functions-rows 1 requested go_on rows (λ t. refl) (omega arith) are_named
