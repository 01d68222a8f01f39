-- ===== src/Store/Session.antt =====
-- One connection to the index: exec_sql, prepare and sqlite3_step of
-- lib/semindex_index_db/index_db_writer.c, and the transactions around them.
--
-- SQLite is not modelled but for what its documentation says of transactions. A call of it fails or
-- not as `faults` says, a call that fails changes nothing, ROLLBACK brings back what BEGIN saw, and
-- so does closing the connection with a transaction open. Before each BEGIN other processes may
-- have committed: `writers` says what. A wait for a busy database is no step here.
pub mod Laws
pub mod Triple
pub mod Leaves
use semindex.Base.{ℕ, ◌+◌, Bool, true, false, Option, none, some, List, [], ◌∷◌}
use semindex.Store.Rows.{Db, Staging}

-- What BEGIN saw.
pub record Saved : Type 0 where
  pub db : Db
  pub staging : Staging

pub record World : Type 0 where
  pub db : Db
  pub staging : Staging
  pub saved : Option Saved
  pub total_changes : ℕ
  pub changes : ℕ
  pub faults : List Bool
  pub writers : List (Db → Db)

-- A function that returns -1 returns `none`; what it did before that stays done.
abbrev pub M : Type 0 → Type 0
M A = World → Option A × World

abbrev pub continue : {A B : Type 0} → Option A → (A → M B) → M B
continue none f w = (none, w)
continue (some a) f w = f a w

infixl 10 ◌>>=◌ ◌>>◌
unfoldable pub ◌>>=◌ : {A B : Type 0} → M A → (A → M B) → M B
◌>>=◌ m f w = let (r, w') = m w in continue r f w'

abbrev pub ◌>>◌ : {B : Type 0} → M (Unit {0}) → M B → M B
m >> n = m >>= λ _. n

unfoldable pub pure : {A : Type 0} → A → M A
pure a w = (some a, w)

unfoldable pub fail : {A : Type 0} → M A
fail w = (none, w)

unfoldable pub gets : {A : Type 0} → (World → A) → M A
gets f w = (some (f w), w)

-- One call of SQLite that has the effect `f` if it succeeds.
unfoldable pub call_with : List Bool → (World → World) → M (Unit {0})
call_with [] f w = (some tt, f w)
call_with (true ∷ rest) f w = (none, record w { faults = rest })
call_with (false ∷ rest) f w = (some tt, f (record w { faults = rest }))

unfoldable pub call : (World → World) → M (Unit {0})
unfolding call_with
call f w = call_with w.faults f w

-- A statement that changes the main tables.
unfoldable pub exec_db : (Db → Db) → M (Unit {0})
unfolding call
exec_db f = call (λ w. record w { db = f w.db })

-- A statement that changes the temporary tables and reads the main ones; `count` is what
-- sqlite3_changes64 says after it.
unfoldable pub exec_staging : (Db → Staging → Staging) → (Staging → ℕ) → M (Unit {0})
unfolding call
exec_staging f count = call (λ w. record w {
  staging = f w.db w.staging;
  changes = count w.staging;
  total_changes = w.total_changes + count w.staging;
})

-- A call that prepares or reads and changes nothing.
unfoldable pub exec_read : M (Unit {0})
unfolding call
exec_read = call (λ w. w)

-- What other processes committed since the last transaction of this connection.
abbrev pub interfere : List (Db → Db) → World → World
interfere [] w = w
interfere (g ∷ rest) w = record w { db = g w.db; writers = rest }

abbrev pub save : World → World
save w = record w { saved = some (record { db = w.db; staging = w.staging }) }

-- BEGIN is an error inside a transaction.
unfoldable pub begin_in : Option Saved → M (Unit {0})
unfolding call fail
begin_in none = call (λ w. save (interfere w.writers w))
begin_in (some s) = fail

unfoldable pub begin : M (Unit {0})
unfolding begin_in
begin w = begin_in w.saved w

unfoldable pub commit : M (Unit {0})
unfolding call
commit = call (λ w. record w { saved = none })

abbrev pub restore : Option Saved → World → World
restore none w = w
restore (some s) w = record w { db = s.db; staging = s.staging; saved = none }

unfoldable pub rollback : M (Unit {0})
unfolding call
rollback = call (λ w. restore w.saved w)

-- exec_sql(db, "ROLLBACK") with its result dropped
unfoldable pub rollback_ignored : World → World
unfolding rollback
rollback_ignored w = (rollback w).1

-- sqlite3_close, which ends an open transaction by a rollback
unfoldable pub close : World → World
close w = restore w.saved w

-- A `goto rollback`: on failure of `m` roll back and fail.
unfoldable pub or_rollback_on : {A : Type 0} → Option A → M A
unfolding rollback_ignored
or_rollback_on none w = (none, rollback_ignored w)
or_rollback_on (some a) w = (some a, w)

unfoldable pub or_rollback : {A : Type 0} → M A → M A
unfolding or_rollback_on
or_rollback m w = let (r, w') = m w in or_rollback_on r w'
