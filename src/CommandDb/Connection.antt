-- ===== src/CommandDb/Connection.antt =====
-- One connection to the command database: exec_sql of lib/semindex_command_db/command_db_writer.c,
-- command_db_prepare and command_db_schema_version of lib/semindex_command_db/command_db_common.c.
--
-- SQLite is not modelled but for what its documentation says of transactions: a call that fails
-- changes nothing, ROLLBACK brings back what BEGIN saw, and so does closing with a transaction open.
-- `retried` is what the calls answer that are made again while the database is busy, `once` whether
-- the other calls fail. Before each transaction that writes other processes may have committed: `others`.
pub mod Rules
pub mod Calm
use semindex.Base.{ℕ, Bool, true, false, Option, none, some, List, [], ◌∷◌}
use semindex.Base.Effects.{Action, ◌>>=◌, ◌>>◌, pure, gets}
use semindex.CommandDb.{CommandDb}

-- SQLITE_OK, SQLITE_BUSY or SQLITE_LOCKED, and every other result
pub data Answer : Type 0 where
  done busy error : Answer

pub record Connection : Type 0 where
  pub db : CommandDb
  pub saved : Option CommandDb
  pub retried : List Answer
  pub once : List Bool
  pub others : List (CommandDb → CommandDb)

abbrev pub M : Type 0 → Type 0
M = Action Connection

-- The `do … while (ret == SQLITE_BUSY || ret == SQLITE_LOCKED)`: whether the last call succeeded,
-- and the answers that are left. The list is finite, so the loop ends.
unfoldable pub settle : List Answer → Bool × List Answer
settle [] = (true, [])
settle (Answer.done ∷ rest) = (true, rest)
settle (Answer.busy ∷ rest) = settle rest
settle (Answer.error ∷ rest) = (false, rest)

-- The end of a call that succeeds where its effect is possible.
abbrev pub finish_call : Option Connection → M (Unit {0})
finish_call none w = (none, w)
finish_call (some w') w = (some tt, w')

abbrev pub end_call : Bool → (Connection → Option Connection) → M (Unit {0})
end_call false f w = (none, w)
end_call true f w = finish_call (f w) w

unfoldable pub call_retried : (Connection → Option Connection) → M (Unit {0})
unfolding settle
call_retried f w = let (ok, rest) = settle w.retried in end_call ok f (record w { retried = rest })

unfoldable pub call_with : List Bool → (Connection → Option Connection) → M (Unit {0})
call_with [] f w = end_call true f w
call_with (true ∷ rest) f w = end_call false f (record w { once = rest })
call_with (false ∷ rest) f w = end_call true f (record w { once = rest })

unfoldable pub call_once : (Connection → Option Connection) → M (Unit {0})
unfolding call_with
call_once f w = call_with w.once f w

-- What other processes committed since the last transaction of this connection.
abbrev pub interfere : List (CommandDb → CommandDb) → Connection → Connection
interfere [] w = w
interfere (g ∷ rest) w = record w { db = g w.db; others = rest }

abbrev pub save : Connection → Connection
save w = record w { saved = some w.db }

abbrev pub begin_in : Option CommandDb → Connection → Option Connection
begin_in none w = some (save (interfere w.others w))
begin_in (some db) w = none

-- A statement's effect on the tables, with `none` for an error of the statement itself.
abbrev pub on_db : (CommandDb → Option CommandDb) → Connection → Option Connection
on_db f w = elim (f w.db) [ none ↦ none | some db ↦ some (record w { db = db }) ]

-- exec_sql of BEGIN IMMEDIATE, of COMMIT, and of a statement inside a transaction
unfoldable pub begin_immediate : M (Unit {0})
unfolding call_retried
begin_immediate = call_retried (λ w. begin_in w.saved w)

unfoldable pub commit : M (Unit {0})
unfolding call_retried
commit = call_retried (λ w. some (record w { saved = none }))

unfoldable pub exec_sql : (CommandDb → Option CommandDb) → M (Unit {0})
unfolding call_retried
exec_sql f = call_retried (on_db f)

-- command_db_prepare, which finds the tables that the statement names, or not
unfoldable pub command_db_prepare : (CommandDb → Bool) → M (Unit {0})
unfolding call_retried
command_db_prepare valid = call_retried (λ w. elim (valid w.db) [ true ↦ some w | false ↦ none ])

-- sqlite3_step, sqlite3_open_v2 and the other calls that are made once
unfoldable pub read_once : M (Unit {0})
unfolding call_once
read_once = call_once (λ w. some w)

-- sqlite3_step of a statement that is a transaction of its own
unfoldable pub step_once : (CommandDb → Option CommandDb) → M (Unit {0})
unfolding call_once
step_once f = call_once (λ w. on_db f (interfere w.others w))

abbrev pub restore : Option CommandDb → Connection → Connection
restore none w = w
restore (some db) w = record w { db = db; saved = none }

-- exec_sql(db, "ROLLBACK") with its result dropped
unfoldable pub rollback_ignored : Connection → Connection
unfolding call_retried
rollback_ignored w = (call_retried (λ v. some (restore v.saved v)) w).1

-- sqlite3_close
unfoldable pub close : Connection → Connection
close w = restore w.saved w

-- A `goto rollback`
abbrev pub or_rollback_on : Option (Unit {0}) → M (Unit {0})
or_rollback_on none w = (none, rollback_ignored w)
or_rollback_on (some u) w = (some u, w)

unfoldable pub or_rollback : M (Unit {0}) → M (Unit {0})
unfolding rollback_ignored
or_rollback m w = let (r, w') = m w in or_rollback_on r w'

-- command_db_schema_version
unfoldable pub schema_version : M ℕ
schema_version = do command_db_prepare (λ db. true); read_once; gets (λ w. w.db.version)
