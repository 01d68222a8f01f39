-- ===== src/CommandDb/Connection/Rules.antt =====
-- The rules for the calls of SQLite that lib/semindex_command_db makes.
use semindex.Base.{Bool, true, false, Option, none, some, List, [], ◌∷◌, ◌≡◌, refl}
use semindex.Base.Effects.Triple.{Triple, Post}
use semindex.CommandDb.Connection.{
  Answer, Connection, M, settle, finish_call, end_call, call_retried, call_with, call_once, restore,
  rollback_ignored, or_rollback, or_rollback_on,
}

module _ (Q : Unit {0} → Connection → Type 0) (E : Connection → Type 0) where
  Post-finish_call :
      (o : Option Connection) (w : Connection)
      → E w
      → ((w' : Connection) → o ≡ some w' → Q tt w')
      → Post Q E (finish_call o w).0 (finish_call o w).1
  Post-finish_call none w failed done = failed
  Post-finish_call (some w') w failed done = done w' refl

  Post-end_call :
      (ok : Bool) (f : Connection → Option Connection) (w : Connection)
      → E w
      → ((w' : Connection) → f w ≡ some w' → Q tt w')
      → Post Q E (end_call ok f w).0 (end_call ok f w).1
  Post-end_call false f w failed done = failed
  Post-end_call true f w failed done = Post-finish_call (f w) w failed done

  Post-call_with :
      (f : Connection → Option Connection) (bs : List Bool) (w : Connection)
      → w.once ≡ bs
      → ((gs : List Bool) → E (record w { once = gs }))
      → ((gs : List Bool) (w' : Connection) → f (record w { once = gs }) ≡ some w' → Q tt w')
      → Post Q E (call_with bs f w).0 (call_with bs f w).1
  unfolding call_with
  Post-call_with f [] w e failed done = Post-end_call true f w (failed w.once) (done w.once)
  Post-call_with f (true ∷ rest) w e failed done = failed rest
  Post-call_with f (false ∷ rest) w e failed done =
      Post-end_call true f (record w { once = rest }) (failed rest) (done rest)

module _ {P : Connection → Type 0} {Q : Unit {0} → Connection → Type 0}
    {E : Connection → Type 0} where
  pub Triple-call_retried :
      (f : Connection → Option Connection)
      → ((w : Connection) (rs : List Answer) → P w → E (record w { retried = rs }))
      → ((w : Connection) (rs : List Answer) (w' : Connection)
          → P w
          → f (record w { retried = rs }) ≡ some w'
          → Q tt w')
      → Triple P (call_retried f) Q E
  unfolding call_retried
  Triple-call_retried f failed done = record {
    run = λ w p.
        let (ok, rest) = settle w.retried in
        Post-end_call Q E ok f (record w { retried = rest }) (failed w rest p)
          (λ w' e. done w rest w' p e);
  }

  pub Triple-call_once :
      (f : Connection → Option Connection)
      → ((w : Connection) (bs : List Bool) → P w → E (record w { once = bs }))
      → ((w : Connection) (bs : List Bool) (w' : Connection)
          → P w
          → f (record w { once = bs }) ≡ some w'
          → Q tt w')
      → Triple P (call_once f) Q E
  unfolding call_once
  Triple-call_once f failed done = record {
    run = λ w p.
        Post-call_with Q E f w.once w refl (λ bs. failed w bs p) (λ bs w' e. done w bs w' p e);
  }

-- ROLLBACK with its result dropped
pub rollback_ignored_elim :
    (E : Connection → Type 0) (w : Connection)
    → ((rs : List Answer) → E (record w { retried = rs }))
    → ((rs : List Answer) → E (restore w.saved (record w { retried = rs })))
    → E (rollback_ignored w)
unfolding rollback_ignored call_retried
rollback_ignored_elim E w failed done = let (ok, rest) = settle w.retried in either ok rest
  where
    either :
        (ok : Bool) (rest : List Answer)
        → E (end_call ok (λ v. some (restore v.saved v)) (record w { retried = rest })).1
    either false rest = failed rest
    either true rest = done rest

Post-or_rollback_on :
    (Q E F : Connection → Type 0)
    → ((w : Connection) → E w → F (rollback_ignored w))
    → (r : Option (Unit {0})) (w : Connection) → Post (λ _. Q) E r w
    → Post (λ _. Q) F (or_rollback_on r w).0 (or_rollback_on r w).1
Post-or_rollback_on Q E F k none w h = k w h
Post-or_rollback_on Q E F k (some u) w h = h

pub Triple-or_rollback :
    {P Q E F : Connection → Type 0} (m : M (Unit {0}))
    → Triple P m (λ _. Q) E
    → ((w : Connection) → E w → F (rollback_ignored w))
    → Triple P (or_rollback m) (λ _. Q) F
unfolding or_rollback
Triple-or_rollback {P} {Q} {E} {F} m k l = record {
  run = λ w p. let (r, w') = m w in Post-or_rollback_on Q E F l r w' (k.run w p);
}
