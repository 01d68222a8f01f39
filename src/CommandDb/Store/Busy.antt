-- ===== src/CommandDb/Store/Busy.antt =====
-- lib/semindex_command_db/command_db_writer.c goes on while the database is busy.
use mathlib.Core.Path.{subst}
use semindex.Base.{
  ℕ, true, false, not, Option, none, some, [], is_some, ◌==◌, ◌≡◌, ◌⊎◌, inl, inr, refl, sym, ap,
  arith, Option-cases,
}
use semindex.Base.Effects.{◌>>◌}
use semindex.Base.Effects.Triple.{
  Triple, Post, Triple-bind, Triple-pure, Triple-fail, Triple-if, Triple-weaken,
}
use semindex.Repository.{Host}
use semindex.CommandDb.{CommandDb, CommandRow, command_db_schema_version}
use semindex.CommandDb.Connection.{
  Connection, M, begin_immediate, commit, step_once, on_db, begin_in, save,
}
use semindex.CommandDb.Connection.Calm.{
  NoError, NoFailure, Calm, Never, Calm-call_retried, Calm-call_once, IsClosed, IsAny,
  exec_sql-Calm, prepare-Calm, read_once-Calm, schema_version-Calm, Calm-tables,
}
use semindex.CommandDb.Connection.Rules.{Triple-or_rollback}
use semindex.CommandDb.Store.Refines.{interfere-none}
use semindex.CommandDb.Store.{
  create_table, set_version, create_schema, init_schema, open_writer, upsert, upsert_rows,
  CommandRequest, requested_row, write_row, write_and_close, command_db_store,
}

-- A new file, or a command database of the program.
abbrev pub IsFresh : CommandDb → Type 0
IsFresh db = (db.version ≡ 0) × (db.commands ≡ none)

abbrev pub IsCurrent : CommandDb → Type 0
IsCurrent db = (db.version ≡ command_db_schema_version) × (is_some db.commands ≡ true)

abbrev pub IsUsable : CommandDb → Type 0
IsUsable db = IsFresh db ⊎ IsCurrent db

-- A usable database of the version of the program is one that has its table; of another, new.
usable-IsCurrent :
    (v : ℕ)
    → (v == command_db_schema_version) ≡ true
    → (db : CommandDb) → IsUsable db
    → v ≡ db.version
    → IsCurrent db
usable-IsCurrent v h db (inr c) e = c
usable-IsCurrent v h db (inl f) e = absurd (ground (arith, f.0, e, h))

usable-IsFresh :
    (v : ℕ)
    → (v == command_db_schema_version) ≡ false
    → (db : CommandDb) → IsUsable db
    → v ≡ db.version
    → IsFresh db
usable-IsFresh v h db (inl f) e = f
usable-IsFresh v h db (inr c) e = absurd (ground (arith, c.0, e, h))

create_schema-Calm : Triple (Calm IsAny IsUsable) create_schema (λ _. Calm IsAny IsCurrent) Never
unfolding create_schema
create_schema-Calm =
    Triple-bind {Q = λ v w. Calm IsAny IsUsable w × (v ≡ w.db.version)} _ _
      (schema_version-Calm IsAny IsUsable)
      (λ v.
        Triple-if (v == command_db_schema_version) _ _
          (λ same.
            Triple-pure tt (Calm-tables IsAny IsUsable IsCurrent v (usable-IsCurrent v same)))
          (λ other.
            Triple-weaken {P = Calm IsAny IsFresh} _
              (Calm-tables IsAny IsUsable IsFresh v (usable-IsFresh v other)) (λ a w h. h)
              (λ w h. h)
              (Triple-bind {Q = λ _. Calm IsAny (λ db. is_some db.commands ≡ true)} _ _
                (exec_sql-Calm IsAny IsFresh (λ db. is_some db.commands ≡ true) create_table
                  created)
                (λ _.
                  exec_sql-Calm IsAny (λ db. is_some db.commands ≡ true) IsCurrent set_version
                    (λ db d. (_, refl, (refl, d)))))))
  where
    created :
        (db : CommandDb)
        → IsFresh db
        → (db' : CommandDb) × (create_table db ≡ some db') × (is_some db'.commands ≡ true)
    created db f = (record db { commands = some [] }, rw (create_table, f.1) refl, refl)

begin-Calm : Triple (Calm IsClosed IsUsable) begin_immediate (λ _. Calm IsAny IsUsable) Never
unfolding begin_immediate
begin-Calm =
    Calm-call_retried (Calm IsAny IsUsable) _ (λ w h. h.retries)
      (λ w rs h n. record {
        to = save (record w { retried = rs });
        same = sym (
            subst
              (λ s.
                some (save (record w { retried = rs })) ≡ begin_in s (record w { retried = rs }))
              (sym h.state)
              (ap (λ u. some (save u)) (sym (interfere-none (record w { retried = rs }) h.alone))));
        holds = record {
          retries = n;
          calls = h.calls;
          alone = h.alone;
          tables = h.tables;
          state = tt;
        };
      })

commit-Calm : Triple (Calm IsAny IsCurrent) commit (λ _. Calm IsClosed IsCurrent) Never
unfolding commit
commit-Calm =
    Calm-call_retried (Calm IsClosed IsCurrent) _ (λ w h. h.retries)
      (λ w rs h n. record {
        to = record w { retried = rs; saved = none };
        same = refl;
        holds = record {
          retries = n;
          calls = h.calls;
          alone = h.alone;
          tables = h.tables;
          state = refl;
        };
      })

init_schema-Calm : Triple (Calm IsClosed IsUsable) init_schema (λ _. Calm IsClosed IsCurrent) Never
unfolding init_schema
init_schema-Calm =
    Triple-bind {Q = λ v w. Calm IsClosed IsUsable w × (v ≡ w.db.version)} _ _
      (schema_version-Calm IsClosed IsUsable)
      (λ v.
        Triple-if (v == command_db_schema_version) _ _
          (λ same.
            Triple-pure tt (Calm-tables IsClosed IsUsable IsCurrent v (usable-IsCurrent v same)))
          (λ other.
            Triple-if (not (v == 0)) _ _
              (λ bad. Triple-fail (λ w h.
                let f = usable-IsFresh v other w.db h.0.tables h.1 in
                ground (arith, f.0, h.1, bad)))
              (λ good.
                Triple-bind {Q = λ _. Calm IsAny IsUsable} _ _
                  (Triple-weaken {P = Calm IsClosed IsUsable} _ (λ w h. h.0) (λ a w h. h) (λ w h. h)
                    begin-Calm)
                  (λ _.
                    Triple-bind {Q = λ _. Calm IsAny IsCurrent} _ _
                      (Triple-or_rollback _ create_schema-Calm (λ w h. h)) (λ _. commit-Calm)))))

any_db : (db : CommandDb) → IsUsable db → (db' : CommandDb) × (some db ≡ some db') × IsUsable db'
any_db db d = (db, refl, d)

-- A first step of a `do` block.
first :
    {A : Type 0} {P : Connection → Type 0} {Q : A → Connection → Type 0} (m : M (Unit {0}))
    (n : M A)
    → Triple P m (λ _. P) Never
    → Triple P n Q Never
    → Triple P (m >> n) Q Never
first {P} m n t u = Triple-bind {Q = λ _. P} m (λ _. n) t (λ _. u)

open_writer-Calm : Triple (Calm IsClosed IsUsable) open_writer (λ _. Calm IsClosed IsCurrent) Never
unfolding open_writer
open_writer-Calm =
    let read = read_once-Calm IsClosed IsUsable in
    let pragma = exec_sql-Calm IsClosed IsUsable IsUsable (λ db. some db) any_db in
    first _ _ read
      (first _ _ read (first _ _ read (first _ _ pragma (first _ _ pragma init_schema-Calm))))

upsert-Calm :
    (row : CommandRow)
    → Triple (Calm IsClosed IsCurrent) (step_once (upsert row)) (λ _ _. Unit) Never
unfolding step_once
upsert-Calm row =
    Calm-call_once (λ _. Unit) _ (λ w h. h.calls)
      (λ w bs h n.
        let v = record w { once = bs } in
        let (db, e) = goes w.db h.tables in
        record {
          to = record v { db = db };
          same =
              subst (λ u. on_db (upsert row) u ≡ some (record v { db = db }))
                (sym (interfere-none v h.alone)) (rw (on_db, e) refl);
          holds = tt;
        })
  where
    goes : (db : CommandDb) → IsCurrent db → (db' : CommandDb) × (upsert row db ≡ some db')
    goes db c = elim (Option-cases db.commands) [
      | inl n ↦ absurd (cc (rw n at c.1))
      | inr (rows, s) ↦ (record db { commands = some (upsert_rows row rows) }, rw (upsert, s) refl)
    ]

write_row-Calm :
    (row : CommandRow) → Triple (Calm IsClosed IsUsable) (write_row row) (λ _ _. Unit) Never
unfolding write_row
write_row-Calm row =
    let read = read_once-Calm IsClosed IsCurrent in
    Triple-bind {Q = λ _. Calm IsClosed IsCurrent} _ _ open_writer-Calm (λ _.
      first _ _ (prepare-Calm IsClosed IsCurrent _ (λ db d. d.1))
        (first _ _ read (first _ _ read (first _ _ read (first _ _ read (upsert-Calm row))))))

returns : (r : Option (Unit {0})) (w : Connection) → Post (λ _ _. Unit) Never r w → is_some r ≡ true
returns none w h = absurd h
returns (some u) w h = refl

-- A store of a command that has a row ends, and returns 0, however often SQLite answers that the
-- database is busy to the calls that are made again then, sqlite3_exec and sqlite3_prepare_v3. None
-- of these is an error, each call that is made once succeeds, no other process writes, no
-- transaction is open at first, and the file is new or a database of the program's version with its
-- table.
pub command_db_store-busy :
    (h : Host) (r : CommandRequest) (w : Connection) (row : CommandRow)
    → requested_row h r ≡ some row
    → NoError w.retried
    → NoFailure w.once
    → w.others ≡ []
    → w.saved ≡ none
    → IsUsable w.db
    → is_some (command_db_store h r w).0 ≡ true
unfolding command_db_store write_and_close
command_db_store-busy h r w row e retries calls alone closed usable =
    let calm : Calm IsClosed IsUsable w = record {
      retries = retries;
      calls = calls;
      alone = alone;
      tables = usable;
      state = closed;
    } in
    rw e (returns _ _ ((write_row-Calm row).run w calm))
