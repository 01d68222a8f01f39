-- ===== src/Store/Session/Laws.antt =====
-- What the calls of a session leave alone: the rules by which the functions on a connection are
-- shown to touch only the temporary tables, or only what an open transaction can take back.
use semindex.Base.{ℕ, Bool, true, false, Option, none, some, ◌≡◌, refl, ◌∙◌, arith, if◌then◌else◌}
use semindex.Store.Rows.{Db, Staging}
use semindex.Store.Session.{
  World, M, continue, ◌>>=◌, pure, fail, gets, exec_db, exec_staging, exec_read,
}

-- `m` leaves the main tables, the save point and the other writers as they are.
pub record OnlyStaging {A : Type 0} (m : M A) : Type 0 where
  pub db : (w : World) → (m w).1.db ≡ w.db
  pub saved : (w : World) → (m w).1.saved ≡ w.saved
  pub writers : (w : World) → (m w).1.writers ≡ w.writers

-- `m` leaves the save point and the other writers as they are.
pub record Inside {A : Type 0} (m : M A) : Type 0 where
  pub saved : (w : World) → (m w).1.saved ≡ w.saved
  pub writers : (w : World) → (m w).1.writers ≡ w.writers

module _ {A : Type 0} where
  pub OnlyStaging-pure : (a : A) → OnlyStaging (pure a)
  unfolding pure
  OnlyStaging-pure a = record { db = λ w. refl; saved = λ w. refl; writers = λ w. refl }

  pub OnlyStaging-fail : OnlyStaging (fail {A = A})
  unfolding fail
  OnlyStaging-fail = record { db = λ w. refl; saved = λ w. refl; writers = λ w. refl }

  pub OnlyStaging-gets : (f : World → A) → OnlyStaging (gets f)
  unfolding gets
  OnlyStaging-gets f = record { db = λ w. refl; saved = λ w. refl; writers = λ w. refl }

  pub OnlyStaging-if :
      (b : Bool) (m n : M A) → OnlyStaging m → OnlyStaging n → OnlyStaging (if b then m else n)
  OnlyStaging-if true m n k l = k
  OnlyStaging-if false m n k l = l

  pub Inside-of_OnlyStaging : {m : M A} → OnlyStaging m → Inside m
  Inside-of_OnlyStaging k = record { saved = k.saved; writers = k.writers }

pub OnlyStaging-exec_staging :
    (f : Db → Staging → Staging) (count : Staging → ℕ) → OnlyStaging (exec_staging f count)
unfolding exec_staging
OnlyStaging-exec_staging f count = record {
  db = λ w. ground arith;
  saved = λ w. ground arith;
  writers = λ w. ground arith;
}

pub OnlyStaging-exec_read : OnlyStaging exec_read
unfolding exec_read
OnlyStaging-exec_read = record {
  db = λ w. ground arith;
  saved = λ w. ground arith;
  writers = λ w. ground arith;
}

pub Inside-exec_db : (f : Db → Db) → Inside (exec_db f)
unfolding exec_db
Inside-exec_db f = record { saved = λ w. ground arith; writers = λ w. ground arith }

module _ {A B : Type 0} where
  OnlyStaging-continue :
      (r : Option A) (f : A → M B) → ((a : A) → OnlyStaging (f a)) → OnlyStaging (continue r f)
  OnlyStaging-continue none f k = record { db = λ w. refl; saved = λ w. refl; writers = λ w. refl }
  OnlyStaging-continue (some a) f k = k a

  pub OnlyStaging-bind :
      (m : M A) (f : A → M B)
      → OnlyStaging m
      → ((a : A) → OnlyStaging (f a))
      → OnlyStaging (m >>= f)
  unfolding ◌>>=◌
  OnlyStaging-bind m f k l = record {
    db = λ w. let (r, w') = m w in (OnlyStaging-continue r f l).db w' ∙ k.db w;
    saved = λ w. let (r, w') = m w in (OnlyStaging-continue r f l).saved w' ∙ k.saved w;
    writers = λ w. let (r, w') = m w in (OnlyStaging-continue r f l).writers w' ∙ k.writers w;
  }

  Inside-continue : (r : Option A) (f : A → M B) → ((a : A) → Inside (f a)) → Inside (continue r f)
  Inside-continue none f k = record { saved = λ w. refl; writers = λ w. refl }
  Inside-continue (some a) f k = k a

  pub Inside-bind : (m : M A) (f : A → M B) → Inside m → ((a : A) → Inside (f a)) → Inside (m >>= f)
  unfolding ◌>>=◌
  Inside-bind m f k l = record {
    saved = λ w. let (r, w') = m w in (Inside-continue r f l).saved w' ∙ k.saved w;
    writers = λ w. let (r, w') = m w in (Inside-continue r f l).writers w' ∙ k.writers w;
  }

pub Inside-if :
    {A : Type 0} (b : Bool) (m n : M A) → Inside m → Inside n → Inside (if b then m else n)
Inside-if true m n k l = k
Inside-if false m n k l = l

pub ruleset staging_rules = (
  OnlyStaging-pure, OnlyStaging-fail, OnlyStaging-gets, OnlyStaging-if, OnlyStaging-exec_staging,
  OnlyStaging-exec_read, OnlyStaging-bind,
)

pub ruleset inside_rules =
    (staging_rules, Inside-of_OnlyStaging, Inside-exec_db, Inside-bind, Inside-if)
