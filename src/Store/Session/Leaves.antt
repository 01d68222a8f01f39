-- ===== src/Store/Session/Leaves.antt =====
-- Functions on a connection that change the temporary tables alone: what they make of them, and that
-- they return where no call of SQLite fails.
use semindex.Base.{
  ℕ, Bool, true, false, Option, none, some, List, [], ◌∷◌, if◌then◌else◌, ◌≡◌, refl, ap, ◌∙◌,
  is_some,
}
use semindex.Store.Rows.{Staging}
use semindex.Store.Session.{
  World, M, ◌>>=◌, pure, gets, exec_read, exec_staging, call, call_with, continue,
}
use semindex.Store.Session.Triple.{
  Triple, Triple-bind, Triple-pure, Triple-call, Triple-exec_read, Post,
}

-- The temporary tables, with any counters.
abbrev pub Holds : Staging → World → Type 0
Holds st w = w.staging ≡ st

abbrev pub Anything : World → Type 0
Anything w = Unit

-- Of any function nothing is known.
pub Triple-any : {A : Type 0} {P : World → Type 0} (m : M A) → Triple P m (λ _. Anything) Anything
Triple-any m = record { run = λ w p. trivial (m w).0 (m w).1 }
  where
    trivial : {A : Type 0} (r : Option A) (w : World) → Post (λ _. Anything) Anything r w
    trivial none w = tt
    trivial (some a) w = tt

-- What a function on a connection does where no call of SQLite fails
abbrev Runs : {A : Type 0} → Option A × World → Type 0
Runs r = (is_some r.0 ≡ true) × (r.1.faults ≡ [])

-- Statements that make `g` of the temporary tables when they return, and return if no call fails.
pub record Leaves {A : Type 0} (m : M A) (g : Staging → Staging) : Type 0 where
  pub from : (st : Staging) → Triple (Holds st) m (λ _. Holds (g st)) Anything
  pub runs : (w : World) → w.faults ≡ [] → Runs (m w)

call-Runs :
    (f : World → World) (fs : List Bool) (w : World)
    → fs ≡ []
    → (f w).faults ≡ []
    → Runs (call_with fs f w)
unfolding call_with
call-Runs f [] w e k = (refl, k)
call-Runs f (b ∷ fs) w e k = absurd (cc e)

continue-Runs :
    {A B : Type 0} (f : A → M B) (r : Option A) (w : World)
    → ((a : A) (v : World) → v.faults ≡ [] → Runs (f a v))
    → Runs (r, w)
    → Runs (continue r f w)
continue-Runs f none w k h = absurd (cc h.0)
continue-Runs f (some a) w k h = k a w h.1

pub exec_staging-Leaves :
    (g : Staging → Staging) (c : Staging → ℕ) → Leaves (exec_staging (λ db st. g st) c) g
unfolding exec_staging call
exec_staging-Leaves g c = record {
  from = λ st. Triple-call _ (λ w gs h. tt) (λ w gs h. ap g h);
  runs = λ w e. call-Runs _ w.faults w e e;
}

pub exec_read-Leaves : Leaves exec_read (λ st. st)
unfolding exec_read call
exec_read-Leaves = record {
  from = λ st. Triple-exec_read (λ w gs h. tt) (λ w gs h. h);
  runs = λ w e. call-Runs _ w.faults w e e;
}

pub pure-Leaves : {A : Type 0} (a : A) → Leaves (pure a) (λ st. st)
unfolding pure
pure-Leaves a = record { from = λ st. Triple-pure a (λ w h. h); runs = λ w e. (refl, e) }

pub gets-Leaves : {A : Type 0} (f : World → A) → Leaves (gets f) (λ st. st)
unfolding gets
gets-Leaves f = record { from = λ st. record { run = λ w h. h }; runs = λ w e. (refl, e) }

pub bind-Leaves :
    {A B : Type 0} {m : M A} {f : A → M B} (g k : Staging → Staging)
    → Leaves m g
    → ((a : A) → Leaves (f a) k)
    → Leaves (m >>= f) (λ st. k (g st))
unfolding ◌>>=◌
bind-Leaves {m = m} {f = f} g k a b = record {
  from = λ st. Triple-bind m f (a.from st) (λ x. (b x).from (g st));
  runs = λ w e. continue-Runs f (m w).0 (m w).1 (λ x v. (b x).runs v) (a.runs w e);
}

pub if-Leaves :
    {A : Type 0} (b : Bool) {m n : M A} (g k : Staging → Staging)
    → Leaves m g
    → Leaves n k
    → Leaves (if b then m else n) (λ st. if b then g st else k st)
if-Leaves true g k a b = a
if-Leaves false g k a b = b

pub as-Leaves :
    {A : Type 0} {m : M A} {g k : Staging → Staging}
    → ((st : Staging) → g st ≡ k st)
    → Leaves m g
    → Leaves m k
as-Leaves {m = m} e a = record {
  from = λ st. record { run = λ w h. Post-same (m w).0 (m w).1 (e st) ((a.from st).run w h) };
  runs = a.runs;
}
  where
    Post-same :
        {A : Type 0} {s t : Staging} (r : Option A) (w : World)
        → s ≡ t
        → Post (λ _. Holds s) Anything r w
        → Post (λ _. Holds t) Anything r w
    Post-same none w e h = tt
    Post-same (some a) w e h = h ∙ e
