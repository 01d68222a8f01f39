-- ===== src/Store/Session/Triple.antt =====
-- What a function on a connection makes of a world, when it returns and when it fails: the rule for
-- each way to build such a function. `P` holds before, `Q` after a return and `E` after a failure.
use semindex.Base.{Bool, true, false, Option, none, some, List, [], ◌∷◌, ◌≡◌, refl, if◌then◌else◌}
use semindex.Store.Rows.{Db}
use semindex.Store.Session.{
  Saved, World, M, continue, ◌>>=◌, pure, fail, gets, call_with, call, exec_db, exec_read, save,
  interfere, begin_in, begin, commit, restore, rollback, rollback_ignored, or_rollback_on,
  or_rollback,
}

abbrev pub Post : {A : Type 0} → (A → World → Type 0) → (World → Type 0) → Option A → World → Type 0
Post Q E none w = E w
Post Q E (some a) w = Q a w

pub record Triple {A : Type 0} (P : World → Type 0) (m : M A) (Q : A → World → Type 0)
    (E : World → Type 0) : Type 0 where
  pub run : (w : World) → P w → Post Q E (m w).0 (m w).1

pub Post-map :
    {A : Type 0} {Q R : A → World → Type 0} (E : World → Type 0)
    → ((a : A) (w : World) → Q a w → R a w)
    → (r : Option A) (w : World) → Post Q E r w
    → Post R E r w
Post-map E k none w h = h
Post-map E k (some a) w h = k a w h

module _ {A : Type 0} {P : World → Type 0} {Q : A → World → Type 0} {E : World → Type 0} where
  pub Triple-pure : (a : A) → ((w : World) → P w → Q a w) → Triple P (pure a) Q E
  unfolding pure
  Triple-pure a h = record { run = h }

  -- A stronger condition before.
  pub Triple-before :
      {P' : World → Type 0} (m : M A)
      → ((w : World) → P' w → P w)
      → Triple P m Q E
      → Triple P' m Q E
  Triple-before m k t = record { run = λ w p. t.run w (k w p) }

  pub Triple-fail : ((w : World) → P w → E w) → Triple P fail Q E
  unfolding fail
  Triple-fail h = record { run = h }

  pub Triple-if :
      (b : Bool) (m n : M A)
      → (b ≡ true → Triple P m Q E)
      → (b ≡ false → Triple P n Q E)
      → Triple P (if b then m else n) Q E
  Triple-if true m n k l = k refl
  Triple-if false m n k l = l refl

-- The rest of a `do` block may use what the value was read from.
pub Triple-gets :
    {A : Type 0} {P : World → Type 0} {E : World → Type 0} (f : World → A)
    → Triple P (gets f) (λ a w. P w × (a ≡ f w)) E
unfolding gets
Triple-gets f = record { run = λ w p. (p, refl) }

module _ {A B : Type 0} {Q : A → World → Type 0} (R : B → World → Type 0) {E : World → Type 0} where
  Post-continue :
      (f : A → M B)
      → ((a : A) → Triple (Q a) (f a) R E)
      → (r : Option A) (w : World) → Post Q E r w
      → Post R E (continue r f w).0 (continue r f w).1
  Post-continue f k none w h = h
  Post-continue f k (some a) w h = (k a).run w h

module _ {A B : Type 0} {P : World → Type 0} {Q : A → World → Type 0} {R : B → World → Type 0}
    {E : World → Type 0} where
  pub Triple-bind :
      (m : M A) (f : A → M B)
      → Triple P m Q E
      → ((a : A) → Triple (Q a) (f a) R E)
      → Triple P (m >>= f) R E
  unfolding ◌>>=◌
  Triple-bind m f k l = record {
    run = λ w p. let (r, w') = m w in Post-continue R f l r w' (k.run w p);
  }

module _ (Q : Unit {0} → World → Type 0) (E : World → Type 0) where
  Post-call_with :
      (f : World → World) (fs : List Bool) (w : World)
      → ((gs : List Bool) → E (record w { faults = gs }))
      → ((gs : List Bool) → Q tt (f (record w { faults = gs })))
      → w.faults ≡ fs
      → Post Q E (call_with fs f w).0 (call_with fs f w).1
  unfolding call_with
  Post-call_with f [] w failed done e = done w.faults
  Post-call_with f (true ∷ rest) w failed done e = failed rest
  Post-call_with f (false ∷ rest) w failed done e = done rest

  -- BEGIN fails, or sees the tables as they are, or sees what one more commit made of them.
  Post-begin_in :
      (sv : Option Saved) (w : World)
      → ((gs : List Bool) → E (record w { faults = gs }))
      → ((gs : List Bool) → sv ≡ none → Q tt (save (record w { faults = gs })))
      → ((gs : List Bool) (g : Db → Db) (rest : List (Db → Db))
          → sv ≡ none
          → w.writers ≡ g ∷ rest
          → Q tt (save (record w { faults = gs; db = g w.db; writers = rest })))
      → Post Q E (begin_in sv w).0 (begin_in sv w).1
  unfolding begin_in call
  Post-begin_in (some s) w failed alone after = failed w.faults
  Post-begin_in none w failed alone after =
      Post-call_with _ w.faults w failed (λ gs. interfered w.writers gs refl) refl
    where
      interfered :
          (ws : List (Db → Db)) (gs : List Bool)
          → w.writers ≡ ws
          → Q tt (save (interfere ws (record w { faults = gs })))
      interfered [] gs e = alone gs refl
      interfered (g ∷ rest) gs e = after gs g rest refl e

module _ {P : World → Type 0} {Q : Unit {0} → World → Type 0} {E : World → Type 0} where
  pub Triple-begin :
      ((w : World) (gs : List Bool) → P w → E (record w { faults = gs }))
      → ((w : World) (gs : List Bool)
          → P w
          → w.saved ≡ none
          → Q tt (save (record w { faults = gs })))
      → ((w : World) (gs : List Bool) (g : Db → Db) (rest : List (Db → Db))
          → P w
          → w.saved ≡ none
          → w.writers ≡ g ∷ rest
          → Q tt (save (record w { faults = gs; db = g w.db; writers = rest })))
      → Triple P begin Q E
  unfolding begin
  Triple-begin failed alone after = record {
    run = λ w p.
        Post-begin_in Q E w.saved w (λ gs. failed w gs p) (λ gs e. alone w gs p e)
          (λ gs g rest e u. after w gs g rest p e u);
  }

  pub Triple-call :
      (f : World → World)
      → ((w : World) (gs : List Bool) → P w → E (record w { faults = gs }))
      → ((w : World) (gs : List Bool) → P w → Q tt (f (record w { faults = gs })))
      → Triple P (call f) Q E
  unfolding call
  Triple-call f failed done = record {
    run = λ w p. Post-call_with Q E f w.faults w (λ gs. failed w gs p) (λ gs. done w gs p) refl;
  }

  pub Triple-exec_db :
      (f : Db → Db)
      → ((w : World) (gs : List Bool) → P w → E (record w { faults = gs }))
      → ((w : World) (gs : List Bool) → P w → Q tt (record w { faults = gs; db = f w.db }))
      → Triple P (exec_db f) Q E
  unfolding exec_db
  Triple-exec_db f failed done = Triple-call _ failed done

  pub Triple-exec_read :
      ((w : World) (gs : List Bool) → P w → E (record w { faults = gs }))
      → ((w : World) (gs : List Bool) → P w → Q tt (record w { faults = gs }))
      → Triple P exec_read Q E
  unfolding exec_read
  Triple-exec_read failed done = Triple-call _ failed done

  pub Triple-commit :
      ((w : World) (gs : List Bool) → P w → E (record w { faults = gs }))
      → ((w : World) (gs : List Bool) → P w → Q tt (record w { faults = gs; saved = none }))
      → Triple P commit Q E
  unfolding commit
  Triple-commit failed done = Triple-call _ failed done

-- ROLLBACK with its result dropped: what holds of the world with its tables brought back, and of
-- the world as it is, holds after it.
module _ (E : World → Type 0) where
  E_of_Post : (r : Option (Unit {0})) (w : World) → Post (λ _. E) E r w → E w
  E_of_Post none w h = h
  E_of_Post (some a) w h = h

  pub rollback_ignored_elim :
      (w : World)
      → ((gs : List Bool) → E (record w { faults = gs }))
      → ((gs : List Bool) → E (restore w.saved (record w { faults = gs })))
      → E (rollback_ignored w)
  unfolding rollback_ignored rollback call
  rollback_ignored_elim w failed done =
      let (r, w') = call_with w.faults (λ v. restore v.saved v) w in
      E_of_Post r w' (Post-call_with (λ _. E) E _ w.faults w failed done refl)

module _ {A : Type 0} (Q : A → World → Type 0) (E F : World → Type 0) where
  Post-or_rollback_on :
      ((w : World) → E w → F (rollback_ignored w))
      → (r : Option A) (w : World) → Post Q E r w
      → Post Q F (or_rollback_on r w).0 (or_rollback_on r w).1
  unfolding or_rollback_on
  Post-or_rollback_on k none w h = k w h
  Post-or_rollback_on k (some a) w h = h

module _ {A : Type 0} {P : World → Type 0} {Q : A → World → Type 0} {E F : World → Type 0} where
  pub Triple-or_rollback :
      (m : M A)
      → Triple P m Q E
      → ((w : World) → E w → F (rollback_ignored w))
      → Triple P (or_rollback m) Q F
  unfolding or_rollback
  Triple-or_rollback m k l = record {
    run = λ w p. let (r, w') = m w in Post-or_rollback_on Q E F l r w' (k.run w p);
  }
