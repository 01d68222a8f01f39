-- ===== src/Store/Sql/Laws.antt =====
-- What inserts that mind a primary key, and deletes, leave in a table.
use mathlib.Core.Path.{subst}
use semindex.Base.{
  Bool, true, List, [], ◌∷◌, ◌++◌, ◌≡◌, refl, sym, ap, ◌∙◌, ◌⊎◌, inl, inr, In, here, there, In-cons,
  In-append, In-append_left, In-append_right, any_of_In, any-In, Bool-cases,
}
use semindex.Store.Sql.{has_key, insert_or_ignore, insert_all}

-- `fewer` is `more` without some rows that satisfy `P`.
pub data Omits {R : Type 0} (P : R → Type 0) : List R → List R → Type 0 where
  nil : Omits P [] []
  both : {x : R} {fewer more : List R} → Omits P fewer more → Omits P (x ∷ fewer) (x ∷ more)
  omit : {x : R} {fewer more : List R} → P x → Omits P fewer more → Omits P fewer (x ∷ more)

module _ {R : Type 0} (same : R → R → Bool) where
  -- An insert drops no row.
  pub In-insert_or_ignore : {x : R} (t : List R) (r : R) → In x t → In x (insert_or_ignore same t r)
  unfolding insert_or_ignore
  In-insert_or_ignore t r m = elim (Bool-cases (has_key same r t)) [
    | inl e ↦ rw e m
    | inr e ↦ rw e (In-append_left _ m)
  ]

  pub In-insert_all : {x : R} (t rs : List R) → In x t → In x (insert_all same t rs)
  unfolding insert_all
  In-insert_all t [] m = m
  In-insert_all t (r ∷ rs) m =
      In-insert_all (insert_or_ignore same t r) rs (In-insert_or_ignore t r m)

  -- A row of the result was there, or was inserted.
  pub insert_or_ignore-In :
      {x : R} (t : List R) (r : R) → In x (insert_or_ignore same t r) → In x t ⊎ (x ≡ r)
  unfolding insert_or_ignore
  insert_or_ignore-In {x} t r m = elim (Bool-cases (has_key same r t)) [
    | inl e ↦ inl (rw e at m)
    | inr e ↦
        let k : In x (t ++ r ∷ []) = rw e at m in
        elim (In-append t k) [
          | inl a ↦ inl a
          | inr b ↦ elim (In-cons b) [ inl p ↦ inr p | inr c ↦ elim c [ ] ]
        ]
  ]

  pub insert_all-In : {x : R} (t rs : List R) → In x (insert_all same t rs) → In x t ⊎ In x rs
  unfolding insert_all
  insert_all-In t [] m = inl m
  insert_all-In t (r ∷ rs) m = elim (insert_all-In (insert_or_ignore same t r) rs m) [
    | inl a ↦ elim (insert_or_ignore-In t r a) [ inl b ↦ inl b | inr p ↦ inr (here p) ]
    | inr b ↦ inr (there b)
  ]

  pub has_key_of_In :
      {x : R} {t : List R} (r : R) → In x t → same x r ≡ true → has_key same r t ≡ true
  has_key_of_In r m e = any_of_In (λ y. same y r) m e

  -- A key that is there stays there.
  pub has_key-insert_all :
      (r : R) (t rs : List R)
      → has_key same r t ≡ true
      → has_key same r (insert_all same t rs) ≡ true
  has_key-insert_all r t rs h =
      let (x, m, e) = any-In (λ y. same y r) t h in has_key_of_In r (In-insert_all t rs m) e

  pub insert_or_ignore-has_key :
      (t : List R) (r : R) → has_key same r t ≡ true → insert_or_ignore same t r ≡ t
  unfolding insert_or_ignore
  insert_or_ignore-has_key t r h = rw h

  -- After an insert the key of the row is there.
  pub has_key-insert_or_ignore :
      (t : List R) (r : R) → same r r ≡ true → has_key same r (insert_or_ignore same t r) ≡ true
  unfolding insert_or_ignore
  has_key-insert_or_ignore t r e = elim (Bool-cases (has_key same r t)) [
    | inl h ↦ rw h h
    | inr h ↦ rw h (has_key_of_In r (In-append_right t (here refl)) e)
  ]

  pub has_key-insert_all_of_In :
      (r : R) (t rs : List R)
      → same r r ≡ true
      → In r rs
      → has_key same r (insert_all same t rs) ≡ true
  unfolding insert_all
  has_key-insert_all_of_In r t (y ∷ rs) e m = elim (In-cons m) [
    | inl p ↦
        has_key-insert_all r (insert_or_ignore same t y) rs
          (rw p (has_key-insert_or_ignore t y (subst (λ z. same z z ≡ true) p e)))
    | inr k ↦ has_key-insert_all_of_In r (insert_or_ignore same t y) rs e k
  ]
  has_key-insert_all_of_In r t [] e m = elim m [ ]

  keeps_key :
      (y : R) (t : List R) (x : R)
      → has_key same y t ≡ true
      → has_key same y (insert_or_ignore same t x) ≡ true
  keeps_key y t x h =
      let (z, m, e) = any-In (λ u. same u y) t h in has_key_of_In y (In-insert_or_ignore t x m) e

  -- Rows whose keys the table has already may be left out of an insert.
  pub insert_all-Omits :
      {P : R → Type 0} {fewer more : List R} (t : List R)
      → ((x : R) → P x → has_key same x t ≡ true)
      → Omits P fewer more
      → insert_all same t fewer ≡ insert_all same t more
  unfolding insert_all
  insert_all-Omits t k nil = refl
  insert_all-Omits t k (both {x} o) =
      insert_all-Omits (insert_or_ignore same t x) (λ y p. keeps_key y t x (k y p)) o
  insert_all-Omits t k (omit {x} {more} p o) =
      insert_all-Omits t k o
      ∙ ap (λ u. insert_all same u more) (sym (insert_or_ignore-has_key t x (k x p)))
