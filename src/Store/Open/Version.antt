-- ===== src/Store/Open/Version.antt =====
-- open_writer of lib/semindex_index_db/index_db_writer.c: which databases it accepts, and what it does
-- with them.
use mathlib.Core.Path.{subst}
use semindex.Base.{
  true, false, not, Option, none, some, List, [], ◌==◌, ==_iff, ◌≡◌, refl, sym, ap, ◌∙◌, is_some,
  ◌⊎◌, inl, inr, arith, Option-cases,
}
use semindex.Store.Rows.{Db}
use semindex.Store.Run.Durable.{Untouched, same, other, schema, durable, Held}
use semindex.Store.Run.Atomic.{open_writer-Held}
use semindex.Store.Session.{World, exec_read, begin}
use semindex.Store.Session.Triple.{
  Triple, Triple-bind, Triple-pure, Triple-fail, Triple-if, Triple-gets, Triple-before,
  Triple-exec_db, Triple-exec_read, Triple-commit, Triple-or_rollback, Post,
}
use semindex.Store.Session.Leaves.{Anything, Triple-any}
use semindex.Store.Open.{
  schema_version, create_tables, create_all, create_in_empty, create_schema, init_schema,
  open_writer,
}

abbrev IsCurrent : World → Type 0
IsCurrent w = w.db.version ≡ schema_version

create_all-IsCurrent : Triple Anything create_all (λ _. IsCurrent) Anything
unfolding create_all
create_all-IsCurrent =
    Triple-bind {Q = λ _. Anything} _ _ (Triple-any (create_tables 12))
      (λ _. Triple-exec_db _ (λ w gs h. tt) (λ w gs h. refl))

create_in_empty-IsCurrent : Triple Anything create_in_empty (λ _. IsCurrent) Anything
unfolding create_in_empty
create_in_empty-IsCurrent = Triple-bind {Q = λ _. Anything} _ _ (Triple-any exec_read) (λ _.
    Triple-bind {Q = λ _. Anything} _ _ (Triple-any _) (λ has_tables.
      Triple-if has_tables _ _ (λ bad. Triple-fail (λ w h. tt)) (λ good. create_all-IsCurrent)))

create_schema-IsCurrent : Triple Anything create_schema (λ _. IsCurrent) Anything
unfolding create_schema
create_schema-IsCurrent = Triple-bind {Q = λ _. Anything} _ _ (Triple-any exec_read) (λ _.
    Triple-bind {Q = λ n w. Anything w × (n ≡ w.db.version)} _ _ (Triple-gets (λ w. w.db.version))
      (λ n.
        Triple-if (n == schema_version) _ _
          (λ same. Triple-pure tt (λ w h. sym h.1 ∙ (==_iff n schema_version).0 same))
          (λ other.
            Triple-if (not (n == 0)) _ _ (λ bad. Triple-fail (λ w h. tt))
              (λ good. Triple-before create_in_empty (λ w h. tt) create_in_empty-IsCurrent))))

-- Outside a transaction
abbrev Idle : World → Type 0
Idle w = w.saved ≡ none

abbrev IsOpen : World → Type 0
IsOpen w = IsCurrent w × Idle w

read-Idle : Triple Idle exec_read (λ _. Idle) Anything
read-Idle = Triple-exec_read (λ w gs h. tt) (λ w gs h. h)

init_schema-IsOpen : Triple Idle init_schema (λ _. IsOpen) Anything
unfolding init_schema
init_schema-IsOpen = Triple-bind {Q = λ _. Idle} _ _ read-Idle (λ _.
    Triple-bind {Q = λ _. Idle} _ _ read-Idle (λ _.
      Triple-bind {Q = λ n w. Idle w × (n ≡ w.db.version)} _ _ (Triple-gets (λ w. w.db.version))
        (λ n.
          Triple-if (n == schema_version) _ _
            (λ same. Triple-pure tt (λ w h. (sym h.1 ∙ (==_iff n schema_version).0 same, h.0)))
            (λ other. Triple-bind {Q = λ _. Anything} _ _ (Triple-any begin) (λ _.
              Triple-bind {Q = λ _. IsCurrent} _ _
                (Triple-or_rollback _ create_schema-IsCurrent (λ w h. tt))
                (λ _. Triple-commit (λ w gs h. tt) (λ w gs h. (h, refl))))))))

open_writer-IsOpen : Triple Idle open_writer (λ _. IsOpen) Anything
unfolding open_writer
open_writer-IsOpen = Triple-bind {Q = λ _. Idle} _ _ read-Idle (λ _.
    Triple-bind {Q = λ _. Idle} _ _ read-Idle (λ _. Triple-bind {Q = λ _. Idle} _ _ read-Idle (λ _.
      Triple-bind {Q = λ _. Idle} _ _ read-Idle (λ _.
        Triple-bind {Q = λ _. Idle} _ _ read-Idle
          (λ _. Triple-bind {Q = λ _. Idle} _ _ read-Idle (λ _. init_schema-IsOpen))))))

IsOpen-if :
    {A : Type 0} (r : Option A) (v : World)
    → Post (λ _. IsOpen) Anything r v
    → is_some r ≡ true
    → IsOpen v
IsOpen-if none v h e = absurd (cc e)
IsOpen-if (some a) v h e = h

held :
    {A : Type 0} (d : Db) (ws : List (Db → Db)) (r : Option A) (v : World)
    → Post (λ _. Held d ws) (Held d ws) r v
    → Held d ws v
held d ws none v h = h
held d ws (some a) v h = h

-- Without other processes, the database is as it was, or it had no schema and no table.
Untouched-alone :
    {d : Db} {ws : List (Db → Db)} {e : Db} {rest : List (Db → Db)}
    → ws ≡ []
    → Untouched d ws e rest
    → (rest ≡ []) × ((e ≡ d) ⊎ ((d.version ≡ 0) × (d.has_tables ≡ false)))
Untouched-alone none_left (same p q) = (q ∙ none_left, inl p)
Untouched-alone none_left (other g u p) = absurd (cc (Untouched-alone none_left u).0)
Untouched-alone none_left (schema {e} u empty bare p) =
    let (left, it) = Untouched-alone none_left u in
    (
      left,
      elim it [
        | inl q ↦ inr (subst (λ (x : Db). (x.version ≡ 0) × (x.has_tables ≡ false)) q (empty, bare))
        | inr both ↦ inr both
      ],
    )

-- Whatever calls of SQLite fail and whatever other processes commit, open_writer outside a
-- transaction leaves the database as they made it, but that it may add the schema to a file with no
-- version and no table; and when it returns, the database has the schema version of the program.
-- Where no other process writes, a database of another version is refused, and so is one without a
-- version that has tables.
pub open_writer-version :
    (w : World)
    → w.saved ≡ none
    → Untouched w.db w.writers (durable (open_writer w).1) (open_writer w).1.writers
      × (is_some (open_writer w).0 ≡ true → (open_writer w).1.db.version ≡ schema_version)
      × (w.writers ≡ []
          → ¬ (w.db.version ≡ schema_version)
          → (¬ (w.db.version ≡ 0)) ⊎ (w.db.has_tables ≡ true)
          → (open_writer w).0 ≡ none)
open_writer-version w idle =
    let current = IsOpen-if _ _ (open_writer-IsOpen.run w idle) in
    let kept =
      held w.db w.writers (open_writer w).0 (open_writer w).1
        ((open_writer-Held w.db w.writers).run w (same (ground (arith, idle)) refl)) in
    (
      kept,
      λ e. (current e).0,
      λ alone other_version bad. elim (Option-cases (open_writer w).0) [
        | inl n ↦ n
        | inr (u, s) ↦
            let (version, closed) = current (rw s refl) in
            let now : durable (open_writer w).1 ≡ (open_writer w).1.db = ground (arith, closed) in
            absurd (elim (Untouched-alone alone kept).1 [
              | inl e ↦ other_version (ap (λ (x : Db). x.version) (sym e ∙ now) ∙ version)
              | inr fresh ↦ elim bad [ inl b ↦ b fresh.0 | inr b ↦ absurd (cc (fresh.1, b)) ]
            ])
      ],
    )
