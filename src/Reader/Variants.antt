-- ===== src/Reader/Variants.antt =====
-- semindex_db_list_variants and semindex_db_find_file of lib/semindex_database/index_db_reader.c.
-- A `Bool` says whether SQLITE_DONE follows the rows of a statement, or an error.
use semindex.Base.{
  ℕ, Bool, ◌&&◌, ◌||◌, List, [], ◌∷◌, Text, text_eq, is_empty, keep, ◌==◌, if◌then◌else◌,
}
use semindex.Store.Rows.{FileRow, VariantRow}
use semindex.Reader.Order.{order_by}
use semindex.Reader.Emit.{Ret, success, error, stopped}

abbrev pub name_key : VariantRow → List Text
name_key v = v.name ∷ []

-- The loop of semindex_db_list_variants
abbrev pub emit_variants : (VariantRow → ℕ) → List VariantRow → Bool → Ret × List VariantRow
emit_variants callback [] done = (if done then success else error, [])
emit_variants callback (v ∷ rows) done =
    let rest = emit_variants callback rows done in
    if callback v == 0 then (rest.0, v ∷ rest.1) else (stopped (callback v), v ∷ [])

-- semindex_db_list_variants
unfoldable pub list_variants : (VariantRow → ℕ) → List VariantRow → Bool → Ret × List VariantRow
unfolding order_by
list_variants callback variants done = emit_variants callback (order_by name_key variants) done

-- WHERE variant = ?1 AND path = ?2
abbrev pub is_file : Text → Text → FileRow → Bool
is_file variant path f = text_eq f.variant variant && text_eq f.path path

-- A first step, and a second one behind a row
abbrev pub emit_file : (FileRow → ℕ) → List FileRow → Bool → Ret × List FileRow
emit_file callback [] done = (if done then success else error, [])
emit_file callback (f ∷ []) done =
    (if callback f == 0 then (if done then success else error) else stopped (callback f), f ∷ [])
emit_file callback (f ∷ g ∷ rows) done =
    (if callback f == 0 then error else stopped (callback f), f ∷ [])

-- semindex_db_find_file
unfoldable pub find_file : Text → Text → (FileRow → ℕ) → List FileRow → Bool → Ret × List FileRow
find_file variant path callback files done =
    if is_empty variant || is_empty path
    then (error, [])
    else emit_file callback (keep (is_file variant path) files) done
