-- ===== src/CommandDb/Connection/Calm.antt =====
-- The calls of lib/semindex_command_db where none of them fails: the database may be busy any number
-- of times.
use mathlib.Core.Path.{subst}
use semindex.Base.{ℕ, Bool, true, false, Option, none, some, List, [], ◌∷◌, ◌≡◌, refl, sym}
use semindex.Base.Effects.Triple.{Triple, Post, Triple-bind, Triple-gets}
use semindex.CommandDb.{CommandDb}
use semindex.CommandDb.Connection.{
  Answer, Connection, settle, end_call, call_retried, call_with, call_once, exec_sql,
  command_db_prepare, read_once, on_db, schema_version,
}

-- No call is an error; any number of them find the database busy.
abbrev pub NoError : List Answer → Type 0
NoError [] = Unit
NoError (Answer.error ∷ rest) = ⊥
NoError (Answer.done ∷ rest) = NoError rest
NoError (Answer.busy ∷ rest) = NoError rest

abbrev pub NoFailure : List Bool → Type 0
NoFailure [] = Unit
NoFailure (true ∷ rest) = ⊥
NoFailure (false ∷ rest) = NoFailure rest

-- Nothing will fail, no other process writes, the tables are as `D` says, and BEGIN has been called
-- or not as `Z` says.
pub record Calm (Z : Option CommandDb → Type 0) (D : CommandDb → Type 0) (w : Connection)
    : Type 0 where
  pub retries : NoError w.retried
  pub calls : NoFailure w.once
  pub alone : w.others ≡ []
  pub tables : D w.db
  pub state : Z w.saved

abbrev pub IsClosed : Option CommandDb → Type 0
IsClosed s = s ≡ none

abbrev pub IsAny : Option CommandDb → Type 0
IsAny s = Unit

settle-NoError : (l : List Answer) → NoError l → ((settle l).0 ≡ true) × NoError (settle l).1
unfolding settle
settle-NoError [] h = (refl, tt)
settle-NoError (Answer.done ∷ rest) h = (refl, h)
settle-NoError (Answer.busy ∷ rest) h = settle-NoError rest h
settle-NoError (Answer.error ∷ rest) h = absurd h

abbrev pub Never : Connection → Type 0
Never w = ⊥

-- A call has an effect that is possible.
pub record Goes (P : Connection → Type 0) (o : Option Connection) : Type 0 where
  pub to : Connection
  pub same : o ≡ some to
  pub holds : P to

Goes-end_call :
    (Q : Connection → Type 0) (f : Connection → Option Connection) (w : Connection)
    → Goes Q (f w)
    → Post (λ _. Q) Never (end_call true f w).0 (end_call true f w).1
Goes-end_call Q f w g = rw g.same g.holds

pub Calm-call_retried :
    {P : Connection → Type 0} (Q : Connection → Type 0) (f : Connection → Option Connection)
    → ((w : Connection) → P w → NoError w.retried)
    → ((w : Connection) (rs : List Answer)
        → P w
        → NoError rs
        → Goes Q (f (record w { retried = rs })))
    → Triple P (call_retried f) (λ _. Q) Never
unfolding call_retried
Calm-call_retried Q f calm goes = record {
  run = λ w p.
      let (ok, left) = settle-NoError w.retried (calm w p) in
      let rs = (settle w.retried).1 in
      subst
        (λ b.
          Post (λ _. Q) Never (end_call b f (record w { retried = rs })).0
            (end_call b f (record w { retried = rs })).1)
        (sym ok) (Goes-end_call Q f (record w { retried = rs }) (goes w rs p left));
}

pub Calm-call_once :
    {P : Connection → Type 0} (Q : Connection → Type 0) (f : Connection → Option Connection)
    → ((w : Connection) → P w → NoFailure w.once)
    → ((w : Connection) (bs : List Bool) → P w → NoFailure bs → Goes Q (f (record w { once = bs })))
    → Triple P (call_once f) (λ _. Q) Never
unfolding call_once
Calm-call_once {P} Q f calm goes = record { run = λ w p. go w w.once refl p (calm w p) }
  where
    go :
        (w : Connection) (l : List Bool)
        → w.once ≡ l
        → P w
        → NoFailure l
        → Post (λ _. Q) Never (call_with l f w).0 (call_with l f w).1
    go w [] e p n = Goes-end_call Q f w (goes w w.once p (calm w p))
    go w (true ∷ rest) e p n = absurd n
    go w (false ∷ rest) e p n = Goes-end_call Q f (record w { once = rest }) (goes w rest p n)

module _ (Z : Option CommandDb → Type 0) (D : CommandDb → Type 0) where
  pub exec_sql-Calm :
      (D' : CommandDb → Type 0) (f : CommandDb → Option CommandDb)
      → ((db : CommandDb) → D db → (db' : CommandDb) × (f db ≡ some db') × D' db')
      → Triple (Calm Z D) (exec_sql f) (λ _. Calm Z D') Never
  unfolding exec_sql
  exec_sql-Calm D' f k =
      Calm-call_retried (Calm Z D') (on_db f) (λ w h. h.retries)
        (λ w rs h n.
          let (db', e, d) = k w.db h.tables in
          record {
            to = record w { retried = rs; db = db' };
            same = rw (on_db, e) refl;
            holds = record {
              retries = n;
              calls = h.calls;
              alone = h.alone;
              tables = d;
              state = h.state;
            };
          })

  pub prepare-Calm :
      (valid : CommandDb → Bool)
      → ((db : CommandDb) → D db → valid db ≡ true)
      → Triple (Calm Z D) (command_db_prepare valid) (λ _. Calm Z D) Never
  unfolding command_db_prepare
  prepare-Calm valid k =
      Calm-call_retried (Calm Z D) _ (λ w h. h.retries)
        (λ w rs h n. record {
          to = record w { retried = rs };
          same = rw (k w.db h.tables) refl;
          holds = record {
            retries = n;
            calls = h.calls;
            alone = h.alone;
            tables = h.tables;
            state = h.state;
          };
        })

  pub read_once-Calm : Triple (Calm Z D) read_once (λ _. Calm Z D) Never
  unfolding read_once
  read_once-Calm =
      Calm-call_once (Calm Z D) _ (λ w h. h.calls)
        (λ w bs h n. record {
          to = record w { once = bs };
          same = refl;
          holds = record {
            retries = h.retries;
            calls = n;
            alone = h.alone;
            tables = h.tables;
            state = h.state;
          };
        })

  pub schema_version-Calm :
      Triple (Calm Z D) schema_version (λ v w. Calm Z D w × (v ≡ w.db.version)) Never
  unfolding schema_version
  schema_version-Calm =
      Triple-bind {Q = λ _. Calm Z D} _ _ (prepare-Calm _ (λ db d. refl))
        (λ _. Triple-bind {Q = λ _. Calm Z D} _ _ read_once-Calm (λ _. Triple-gets _))

  -- What is known of the version goes into what is known of the tables.
  pub Calm-tables :
      (D' : CommandDb → Type 0) (v : ℕ)
      → ((db : CommandDb) → D db → v ≡ db.version → D' db)
      → (w : Connection) → Calm Z D w × (v ≡ w.db.version)
      → Calm Z D' w
  Calm-tables D' v k w (h, e) = record {
    retries = h.retries;
    calls = h.calls;
    alone = h.alone;
    tables = k w.db h.tables e;
    state = h.state;
  }
