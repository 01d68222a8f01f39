-- ===== src/Store/Sql.antt =====
-- What the SQL statements of the writer do to a table: inserts that mind a primary key, and
-- deletes. A table is the list of its rows in the order of insertion.
pub mod Laws
use semindex.Base.{Bool, not, List, [], ◌∷◌, ◌++◌, any, keep, if◌then◌else◌}

-- `same` compares the primary keys of two rows.
module _ {R : Type 0} (same : R → R → Bool) where
  -- Whether the table holds a row with the key of `r`.
  abbrev pub has_key : R → List R → Bool
  has_key r t = any (λ x. same x r) t

  -- INSERT OR IGNORE, one row
  unfoldable pub insert_or_ignore : List R → R → List R
  insert_or_ignore t r = if has_key r t then t else t ++ r ∷ []

  -- INSERT OR IGNORE … SELECT
  unfoldable pub insert_all : List R → List R → List R
  insert_all t [] = t
  insert_all t (r ∷ rs) = insert_all (insert_or_ignore t r) rs

  -- INSERT … ON CONFLICT DO UPDATE, one row; `f old new` is the updated row
  unfoldable pub upsert : (R → R → R) → List R → R → List R
  upsert f [] r = r ∷ []
  upsert f (x ∷ t) r = if same x r then f x r ∷ t else x ∷ upsert f t r

  unfoldable pub upsert_all : (R → R → R) → List R → List R → List R
  upsert_all f t [] = t
  upsert_all f t (r ∷ rs) = upsert_all f (upsert f t r) rs

-- DELETE … WHERE
abbrev pub delete_where : {R : Type 0} → (R → Bool) → List R → List R
delete_where p = keep (λ r. not (p r))
