-- ===== src/Reader/Paging.antt =====
-- Paging through a query of lib/semindex_database/index_db_reader.c: the query that goes on behind
-- a row gives what the whole query gives behind it.
use mathlib.Core.Path.{subst}
use semindex.Base.{
  ℕ, Bool, true, false, ◌&&◌, ◌||◌, none, some, List, ◌∷◌, ◌++◌, Text, is_empty, ltb, keep, ◌==◌,
  ◌≡◌, refl, sym, ap, Bool-cases, inl, inr,
}
use semindex.Store.Rows.{StoredKind, stored_symbol, stored_use}
use semindex.Reader.Order.{key_lt, order_by}
use semindex.Reader.Keyed.{AreKeyed, AreKeyed-keep, order_by-behind}
use semindex.Reader.{
  Row, QueryOptions, record_type, stored_record_type, fits, valid_cursor, cursor_at, row_key,
  cursor_key, selects, limited, query_rows,
}

stored_record_type-record_type :
    (s : StoredKind) (action : ℕ) → stored_record_type (record_type s action) ≡ s
unfolding stored_record_type record_type
stored_record_type-record_type stored_use action = refl
stored_record_type-record_type stored_symbol action = elim (Bool-cases (action == 0)) [
  | inl e ↦ rw e refl
  | inr e ↦ rw e refl
]

fits-record_type : (s : StoredKind) (action : ℕ) → fits (record_type s action) action ≡ true
unfolding record_type
fits-record_type stored_use action = refl
fits-record_type stored_symbol action = elim (Bool-cases (action == 0)) [
  | inl e ↦ rw (e, e) refl
  | inr e ↦ rw (e, e) refl
]

-- A row that a cursor can stand at: its texts are not empty, and lines and columns count from 1.
abbrev pub HasPlace : Row → Type 0
HasPlace r =
    (is_empty r.variant || is_empty r.path || is_empty r.symbol || r.line == 0 || r.column == 0)
    ≡ false

valid_cursor-cursor_at : (r : Row) → HasPlace r → valid_cursor (cursor_at r) ≡ true
unfolding valid_cursor
valid_cursor-cursor_at r h = rw h (fits-record_type r.stored r.action)

cursor_key-cursor_at : (r : Row) → cursor_key (cursor_at r) ≡ row_key r
cursor_key-cursor_at r = rw (stored_record_type-record_type r.stored r.action) refl

-- Let no two rows have the same key, and let a query without a cursor and without a limit give
-- some rows, a row that a cursor can stand at, and the rest, in this order. Then the same query,
-- from the cursor at that row and with a limit that is not too large, gives the first rows of the
-- rest, as many as the limit says, or all where it is 0. So pages neither repeat nor lose a row.
pub query_rows-after :
    (glob : Text → Text → Bool) (opts : QueryOptions) (rows front rest : List Row) (r : Row) (n : ℕ)
    → AreKeyed row_key rows
    → HasPlace r
    → ltb 9223372036854775807 n ≡ false
    → query_rows glob (record opts { after = none; limit = 0 }) rows ≡ some (front ++ r ∷ rest)
    → query_rows glob (record opts { after = some (cursor_at r); limit = n }) rows
      ≡ some (limited n rest)
unfolding query_rows selects
query_rows-after glob opts rows front rest r n k h small e =
    let whole : order_by row_key (keep (λ x. selects glob opts x) rows) ≡ front ++ r ∷ rest =
      cc e in
    let page =
      order_by-behind row_key (λ x. selects glob opts x) rows front rest r
        (AreKeyed-keep row_key (λ x. selects glob opts x) rows k) whole in
    let page' : order_by row_key
          (keep (λ x. key_lt (cursor_key (cursor_at r)) (row_key x) && selects glob opts x) rows)
        ≡ rest =
      subst
        (λ c.
          order_by row_key (keep (λ x. key_lt c (row_key x) && selects glob opts x) rows) ≡ rest)
        (sym (cursor_key-cursor_at r)) page in
    rw (small, valid_cursor-cursor_at r h) (ap (λ l. some (limited n l)) page')
