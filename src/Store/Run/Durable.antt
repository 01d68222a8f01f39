-- ===== src/Store/Run/Durable.antt =====
-- What is left in the database if the connection ends now, and how each transaction of
-- lib/semindex_index_db/index_db_writer.c changes it.
use semindex.Base.{true, false, Option, none, some, List, ◌∷◌, ◌≡◌, refl, sym, ◌∙◌, arith}
use semindex.Store.Rows.{Db}
use semindex.Store.Session.{
  Saved, World, M, restore, exec_read, begin, commit, rollback_ignored, close,
}
use mathlib.Core.Path.{subst₂}
use semindex.Store.Session.Triple.{
  Triple, Triple-begin, Triple-commit, Triple-exec_read, rollback_ignored_elim, Post,
}
use semindex.Store.Session.Laws.{OnlyStaging}
use semindex.Store.Open.{schema_version}

abbrev durable_of : Option Saved → Db → Db
durable_of none db = db
durable_of (some s) db = s.db

-- The tables that the file holds: those of the last commit.
abbrev pub durable : World → Db
durable w = durable_of w.saved w.db

-- From `d`, with the commits `ws` of other processes still to come, to `e` and those that are left
-- after it, with nothing of this process but an empty schema in a file that had none.
pub data Untouched (d : Db) (ws : List (Db → Db)) : Db → List (Db → Db) → Type 0 where
  same : {e : Db} {rest : List (Db → Db)} → e ≡ d → rest ≡ ws → Untouched d ws e rest
  other :
      {e e' : Db} {rest : List (Db → Db)} (g : Db → Db)
      → Untouched d ws e (g ∷ rest)
      → e' ≡ g e
      → Untouched d ws e' rest
  schema :
      {e e' : Db} {rest : List (Db → Db)}
      → Untouched d ws e rest
      → e.version ≡ 0
      → e.has_tables ≡ false
      → e' ≡ record e { version = schema_version; has_tables = true }
      → Untouched d ws e' rest

module _ {d : Db} {ws : List (Db → Db)} where
  Untouched-eq :
      {e e' : Db} {rest rest' : List (Db → Db)}
      → Untouched d ws e rest
      → e' ≡ e
      → rest' ≡ rest
      → Untouched d ws e' rest'
  Untouched-eq u p q = subst₂ (λ x y. Untouched d ws x y) (sym p) (sym q) u

module _ (d : Db) (ws : List (Db → Db)) where
  -- Whatever happens next, what the connection leaves is untouched, up to this process's commits.
  abbrev pub Held : World → Type 0
  Held w = Untouched d ws (durable w) w.writers

  -- Inside a transaction that can still be taken back.
  pub record InTransaction (w : World) : Type 0 where
    pub point : Saved
    pub saved : w.saved ≡ some point
    pub held : Untouched d ws point.db w.writers

  -- Inside one that has not changed the main tables.
  pub record Opened (w : World) : Type 0 where
    pub point : Saved
    pub saved : w.saved ≡ some point
    pub held : Untouched d ws point.db w.writers
    pub unchanged : w.db ≡ point.db

  pub Held-of_InTransaction : (w : World) → InTransaction w → Held w
  Held-of_InTransaction w t = Untouched-eq t.held (ground (arith, t.saved)) refl

  pub InTransaction-of_Opened : (w : World) → Opened w → InTransaction w
  InTransaction-of_Opened w t = record { point = t.point; saved = t.saved; held = t.held }

  pub Held-begin : Triple Held begin (λ _. Opened) Held
  Held-begin =
      Triple-begin (λ w gs h. h)
        (λ w gs h e. record {
          point = record { db = w.db; staging = w.staging };
          saved = refl;
          held = Untouched-eq h (ground (arith, e)) refl;
          unchanged = refl;
        })
        (λ w gs g rest h e u. record {
          point = record { db = g w.db; staging = w.staging };
          saved = refl;
          held =
              other g (Untouched-eq {e' = w.db} {rest' = g ∷ rest} h (ground (arith, e)) (sym u))
                refl;
          unchanged = refl;
        })

  pub Held-rollback : (w : World) → InTransaction w → Held (rollback_ignored w)
  Held-rollback w t =
      rollback_ignored_elim Held w (λ gs. Held-of_InTransaction w t) (λ gs. rw t.saved t.held)

  pub Held-close : (w : World) → Held w → Held (close w)
  unfolding close
  Held-close w h = closed w.saved refl
    where
      closed : (sv : Option Saved) → w.saved ≡ sv → Held (restore sv w)
      closed none e = h
      closed (some s) e = Untouched-eq h (ground (arith, e)) refl

  either_end :
      {A : Type 0} (r : Option A) (w : World) → Opened w → Post (λ _. Opened) InTransaction r w
  either_end none w t = InTransaction-of_Opened w t
  either_end (some a) w t = t

  pub OnlyStaging-Opened :
      {A : Type 0} {m : M A} → OnlyStaging m → Triple Opened m (λ _. Opened) InTransaction
  OnlyStaging-Opened {m = m} k = record {
    run = λ w t. either_end (m w).0 (m w).1 (record {
      point = t.point;
      saved = k.saved w ∙ t.saved;
      held = Untouched-eq t.held refl (k.writers w);
      unchanged = k.db w ∙ t.unchanged;
    });
  }

  -- A transaction that touches only the temporary tables commits no change of the main ones.
  pub Held-commit : Triple Opened commit (λ _. Held) Held
  Held-commit =
      Triple-commit (λ w gs t. Held-of_InTransaction w (InTransaction-of_Opened w t))
        (λ w gs t. Untouched-eq t.held t.unchanged refl)

  pub Held-exec_read : Triple Held exec_read (λ _. Held) Held
  Held-exec_read = Triple-exec_read (λ w gs h. h) (λ w gs h. h)

  pub Held-OnlyStaging : {A : Type 0} {m : M A} → OnlyStaging m → Triple Held m (λ _. Held) Held
  Held-OnlyStaging {m = m} k = record {
    run = λ w h. held_end (m w).0 (m w).1 (Untouched-eq h (durable_eq w) (k.writers w));
  }
    where
      held_end : {B : Type 0} (r : Option B) (w : World) → Held w → Post (λ _. Held) Held r w
      held_end none w h = h
      held_end (some a) w h = h

      durable_eq : (w : World) → durable (m w).1 ≡ durable w
      durable_eq w = cc (k.saved w, k.db w)
