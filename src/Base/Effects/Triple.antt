-- ===== src/Base/Effects/Triple.antt =====
-- What an action makes of a state, when it returns and when it fails: the rule for each way to build
-- one. `P` holds before, `Q` after a return and `E` after a failure.
use mathlib.Core.Path.{◌≡◌, refl}
use mathlib.Core.Bool.{Bool, true, false}
use mathlib.Core.Option.{Option, none, some}
use semindex.Base.Tests.{if◌then◌else◌}
use semindex.Base.Effects.{Action, continue, ◌>>=◌, pure, fail, gets}

module _ {S : Type 0} where
  abbrev pub Post : {A : Type 0} → (A → S → Type 0) → (S → Type 0) → Option A → S → Type 0
  Post Q E none s = E s
  Post Q E (some a) s = Q a s

  pub record Triple {A : Type 0} (P : S → Type 0) (m : Action S A) (Q : A → S → Type 0)
      (E : S → Type 0) : Type 0 where
    pub run : (s : S) → P s → Post Q E (m s).0 (m s).1

  module _ {A : Type 0} {P : S → Type 0} {Q : A → S → Type 0} {E : S → Type 0} where
    pub Triple-pure : (a : A) → ((s : S) → P s → Q a s) → Triple P (pure a) Q E
    unfolding pure
    Triple-pure a h = record { run = h }

    pub Triple-fail : ((s : S) → P s → E s) → Triple P fail Q E
    unfolding fail
    Triple-fail h = record { run = h }

    pub Triple-if :
        (b : Bool) (m n : Action S A)
        → (b ≡ true → Triple P m Q E)
        → (b ≡ false → Triple P n Q E)
        → Triple P (if b then m else n) Q E
    Triple-if true m n k l = k refl
    Triple-if false m n k l = l refl

    -- A stronger condition before, and weaker ones after.
    pub Triple-weaken :
        {P' : S → Type 0} {Q' : A → S → Type 0} {E' : S → Type 0} (m : Action S A)
        → ((s : S) → P' s → P s)
        → ((a : A) (s : S) → Q a s → Q' a s)
        → ((s : S) → E s → E' s)
        → Triple P m Q E
        → Triple P' m Q' E'
    Triple-weaken {P'} {Q'} {E'} m before after failed t = record {
      run = λ s p. weak (m s).0 (m s).1 (t.run s (before s p));
    }
      where
        weak : (r : Option A) (s : S) → Post Q E r s → Post Q' E' r s
        weak none s h = failed s h
        weak (some a) s h = after a s h

  pub Triple-gets :
      {A : Type 0} {P : S → Type 0} {E : S → Type 0} (f : S → A)
      → Triple P (gets f) (λ a s. P s × (a ≡ f s)) E
  unfolding gets
  Triple-gets f = record { run = λ s p. (p, refl) }

  module _ {A B : Type 0} {Q : A → S → Type 0} (R : B → S → Type 0) {E : S → Type 0} where
    Post-continue :
        (f : A → Action S B)
        → ((a : A) → Triple (Q a) (f a) R E)
        → (r : Option A) (s : S) → Post Q E r s
        → Post R E (continue r f s).0 (continue r f s).1
    Post-continue f k none s h = h
    Post-continue f k (some a) s h = (k a).run s h

  module _ {A B : Type 0} {P : S → Type 0} {Q : A → S → Type 0} {R : B → S → Type 0}
      {E : S → Type 0} where
    pub Triple-bind :
        (m : Action S A) (f : A → Action S B)
        → Triple P m Q E
        → ((a : A) → Triple (Q a) (f a) R E)
        → Triple P (m >>= f) R E
    unfolding ◌>>=◌
    Triple-bind m f k l = record {
      run = λ s p. let (r, s') = m s in Post-continue R f l r s' (k.run s p);
    }
