-- ===== src/Base/Effects.antt =====
-- Functions that return -1 and change a state: `none` is the failure, and what was done before it
-- stays done.
pub mod Triple
use mathlib.Core.Option.{Option, none, some}

abbrev pub Action : Type 0 → Type 0 → Type 0
Action S A = S → Option A × S

module _ {S : Type 0} where
  abbrev pub continue : {A B : Type 0} → Option A → (A → Action S B) → Action S B
  continue none f s = (none, s)
  continue (some a) f s = f a s

  infixl 10 ◌>>=◌ ◌>>◌
  unfoldable pub ◌>>=◌ : {A B : Type 0} → Action S A → (A → Action S B) → Action S B
  ◌>>=◌ m f s = let (r, s') = m s in continue r f s'

  abbrev pub ◌>>◌ : {B : Type 0} → Action S (Unit {0}) → Action S B → Action S B
  m >> n = m >>= λ _. n

  unfoldable pub pure : {A : Type 0} → A → Action S A
  pure a s = (some a, s)

  unfoldable pub fail : {A : Type 0} → Action S A
  fail s = (none, s)

  unfoldable pub gets : {A : Type 0} → (S → A) → Action S A
  gets f s = (some (f s), s)
