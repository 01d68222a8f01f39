-- ===== src/Reader/Types/Pages.antt =====
-- Pages of semindex_db_query_symbol_types and semindex_db_query_function_types of
-- lib/semindex_database/index_db_reader.c.
use semindex.Base.{
  ℕ, zero, suc, ◌+◌, ◌≤◌, Bool, true, false, ◌&&◌, ◌||◌, not, none, some, List, [], ◌∷◌, ◌++◌, Text,
  take, keep, ltb, ◌==◌, if◌then◌else◌, ◌≡◌, refl, sym, ap, ◌∙◌, arith, Bool-cases, inl, inr,
}
use semindex.Names.Kinds.{kind_code}
use semindex.Store.Rows.{SymbolTypeBody, FunctionTypeBody}
use semindex.Reader.Order.{key_lt, order_by}
use semindex.Reader.Keyed.{AreKeyed, order_by-behind}
use semindex.Reader.Emit.{Ret, success, error, emit_types, GoesOn}
use semindex.Reader.Functions.{Identity}
use semindex.Reader.Types.{
  FileOf, symbol_type_cursor, symbol_type_key, has_symbol_type, symbol_type_rows, is_nobody,
  query_symbol_types, function_type_cursor, function_type_key, has_function_type,
  function_type_rows, query_function_types,
}

is_zero : (n : ℕ) → 1 ≤ n → (n == 0) ≡ false
is_zero n one = ground arith

same : (n m : ℕ) → n ≡ m + 0 → (m == n) ≡ true
same n m e = ground (arith, e)

less : (n m left : ℕ) → n ≡ m + suc left → ltb m n ≡ true
less n m left e = ground (arith, e)

-- At the limit; and a row before it
module _ {T : Type 0} (callback : T → ℕ) (goes : GoesOn callback) (limit : ℕ)
    (one : 1 ≤ limit) where
  emit_types-full :
      (count : ℕ) (ret : Ret) (rows : List T)
      → limit ≡ count + 0
      → emit_types callback limit ret count rows true ≡ (success, [])
  unfolding emit_types
  emit_types-full count ret [] e = rw (is_zero limit one, same limit count e) refl
  emit_types-full count ret (t ∷ rows) e =
      let no : ltb count limit ≡ false = ground (arith, e) in
      rw (is_zero limit one, no, same limit count e) refl

  emit_types-taken :
      (left count : ℕ) (ret : Ret) (rows : List T)
      → limit ≡ count + left
      → emit_types callback limit ret count rows true ≡ (success, take left rows)
  unfolding emit_types
  emit_types-taken zero count ret rows e = emit_types-full count ret rows e
  emit_types-taken (suc left) count ret [] e =
      let no : (count == limit) ≡ false = ground (arith, e) in rw (is_zero limit one, no) refl
  emit_types-taken (suc left) count ret (t ∷ rows) e =
      let rest = emit_types-taken left (count + 1) success rows (omega (arith, e)) in
      rw (is_zero limit one, less limit count left e, goes t, rest) refl

emit_types-whole :
    {T : Type 0} (callback : T → ℕ)
    → GoesOn callback
    → (count : ℕ) (ret : Ret) (rows : List T)
    → emit_types callback 0 ret count rows true ≡ (success, rows)
unfolding emit_types
emit_types-whole callback goes count ret [] = refl
emit_types-whole callback goes count ret (t ∷ rows) =
    rw (goes t, emit_types-whole callback goes (count + 1) success rows) refl

-- Both queries: `refused` is what they test before the statement.
module _ {T : Type 0} (key : T → List Text) (p : T → Bool) (refused : Bool) (callback : T → ℕ) where
  page-behind :
      (rows front rest : List T) (t : T) (limit : ℕ)
      → GoesOn callback
      → AreKeyed key (keep p rows)
      → 1 ≤ limit
      → (if refused
          then (error, [])
          else emit_types callback 0 error 0 (order_by key (keep p rows)) true)
        ≡ (success, front ++ t ∷ rest)
      → (if refused
          then (error, [])
          else emit_types callback limit error 0
              (order_by key (keep (λ x. key_lt (key t) (key x) && p x) rows))
              true)
        ≡ (success, take limit rest)
  page-behind rows front rest t limit goes k one whole = elim (Bool-cases refused) [
    | inl e ↦ let no : error ≡ success = ap (λ r. r.0) (rw e at whole) in cc no
    | inr e ↦
        let all : order_by key (keep p rows) ≡ front ++ t ∷ rest =
          sym (ap (λ r. r.1) (emit_types-whole callback goes 0 error (order_by key (keep p rows))))
          ∙ ap (λ r. r.1) (rw e at whole) in
        rw (e, order_by-behind key p rows front rest t k all)
          (emit_types-taken callback goes limit one limit 0 error rest (omega arith))
  ]

-- Let no two rows of a symbol's types have the same key, and let a query of them without a cursor
-- and without a limit give some rows, a row, and the rest. Then the query from the cursor at that
-- row gives the first rows of the rest, as many as its limit, which is not 0, when the callback
-- goes on and no step fails.
pub query_symbol_types-after :
    (i : Identity) (callback : FileOf SymbolTypeBody → ℕ)
    (rows front rest : List (FileOf SymbolTypeBody)) (t : FileOf SymbolTypeBody) (limit : ℕ)
    → GoesOn callback
    → AreKeyed symbol_type_key (keep (has_symbol_type i) rows)
    → 1 ≤ limit
    → query_symbol_types i none 0 callback rows true ≡ (success, front ++ t ∷ rest)
    → query_symbol_types i (some (symbol_type_cursor t)) limit callback rows true
      ≡ (success, take limit rest)
unfolding query_symbol_types symbol_type_rows
query_symbol_types-after i callback rows front rest t limit goes k one whole =
    page-behind symbol_type_key (has_symbol_type i) (is_nobody i) callback rows front rest t limit
      goes k one whole

-- The same holds of the types of a function's parameters and result.
pub query_function_types-after :
    (i : Identity) (callback : FileOf FunctionTypeBody → ℕ)
    (rows front rest : List (FileOf FunctionTypeBody)) (t : FileOf FunctionTypeBody) (limit : ℕ)
    → GoesOn callback
    → AreKeyed function_type_key (keep (has_function_type i) rows)
    → 1 ≤ limit
    → query_function_types i none 0 callback rows true ≡ (success, front ++ t ∷ rest)
    → query_function_types i (some (function_type_cursor t)) limit callback rows true
      ≡ (success, take limit rest)
unfolding query_function_types function_type_rows
query_function_types-after i callback rows front rest t limit goes k one whole =
    page-behind function_type_key (has_function_type i) (is_nobody i || not (kind_code i.kind == 7))
      callback rows front rest t limit goes k one whole
