-- ===== src/Reader/Keyed.antt =====
-- What a query that goes on behind a row gives, in the terms of the keys of its ORDER BY.
use mathlib.Core.Path.{subst}
use semindex.Base.{
  Bool, true, ◌&&◌, List, [], ◌∷◌, ◌++◌, Text, keep, keep-In, ◌≡◌, refl, sym, ap, ◌∙◌, arith,
  Bool-cases, inl, inr, In, here, there, In-append_right,
}
use semindex.Reader.Order.{
  key_lt, key_lt_irrefl, key_lt_total, insert_ordered, insert_ordered-In, order_by, IsOrdered,
  order_by-IsOrdered, order_by-keep,
}

module _ {R : Type 0} (key : R → List Text) where
  -- No two rows have the same key.
  abbrev pub AreKeyed : List R → Type 0
  AreKeyed [] = Unit
  AreKeyed (x ∷ xs) = ((y : R) → In y xs → ¬ (key x ≡ key y)) × AreKeyed xs

  AreKeyed-insert :
      (r : R) (xs : List R)
      → ((y : R) → In y xs → ¬ (key r ≡ key y))
      → AreKeyed xs
      → AreKeyed (insert_ordered key r xs)
  unfolding insert_ordered
  AreKeyed-insert r [] new k = (λ y m. elim m [ ], tt)
  AreKeyed-insert r (x ∷ xs) new k = elim (Bool-cases (key_lt (key x) (key r))) [
    | inl e ↦ rw e (
      λ y m. elim (insert_ordered-In key r xs m) [
        | inl p ↦ λ q. new x (here refl) (sym (q ∙ ap (λ z. key z) p))
        | inr n ↦ k.0 y n
      ],
      AreKeyed-insert r xs (λ y m. new y (there m)) k.1,
    )
    | inr e ↦ rw e (new, k)
  ]

  order_by-In : (xs : List R) {y : R} → In y (order_by key xs) → In y xs
  unfolding order_by
  order_by-In [] m = m
  order_by-In (x ∷ xs) m = elim (insert_ordered-In key x (order_by key xs) m) [
    | inl p ↦ here p
    | inr k ↦ there (order_by-In xs k)
  ]

  AreKeyed-order_by : (xs : List R) → AreKeyed xs → AreKeyed (order_by key xs)
  unfolding order_by
  AreKeyed-order_by [] k = tt
  AreKeyed-order_by (x ∷ xs) k =
      AreKeyed-insert x (order_by key xs) (λ y m. k.0 y (order_by-In xs m))
        (AreKeyed-order_by xs k.1)

  pub AreKeyed-keep : (p : R → Bool) (xs : List R) → AreKeyed xs → AreKeyed (keep p xs)
  unfolding keep
  AreKeyed-keep p [] k = tt
  AreKeyed-keep p (x ∷ xs) k = elim (Bool-cases (p x)) [
    | inl e ↦ rw e (λ y m. k.0 y (keep-In p xs m).0, AreKeyed-keep p xs k.1)
    | inr e ↦ rw e (AreKeyed-keep p xs k.1)
  ]

  keep-keep : (p q : R → Bool) (xs : List R) → keep (λ r. p r && q r) xs ≡ keep p (keep q xs)
  unfolding keep
  keep-keep p q [] = refl
  keep-keep p q (x ∷ xs) = elim (Bool-cases (q x)) [
    | inl e ↦ ground (arith, e, keep-keep p q xs)
    | inr e ↦ ground (arith, e, keep-keep p q xs)
  ]

  -- Of rows in order, with keys of their own, those behind `r` are the rest of the list.
  keep-all : (p : R → Bool) (xs : List R) → ((y : R) → In y xs → p y ≡ true) → keep p xs ≡ xs
  unfolding keep
  keep-all p [] h = refl
  keep-all p (x ∷ xs) h =
      rw (h x (here refl)) (ap (λ l. x ∷ l) (keep-all p xs (λ y m. h y (there m))))

  keep-behind :
      (front : List R) (r : R) (rest : List R)
      → IsOrdered key (front ++ r ∷ rest)
      → AreKeyed (front ++ r ∷ rest)
      → keep (λ x. key_lt (key r) (key x)) (front ++ r ∷ rest) ≡ rest
  unfolding keep
  keep-behind [] r rest o k = rw (key_lt_irrefl (key r)) (
      keep-all (λ x. key_lt (key r) (key x)) rest
        (λ y m. elim (key_lt_total (key y) (key r) (o.0 y m)) [
          | inl less ↦ less
          | inr same ↦ absurd (k.0 y m (sym same))
        ]))
  keep-behind (x ∷ front) r rest o k =
      rw (o.0 r (In-append_right front (here refl))) (keep-behind front r rest o.1 k.1)

  -- The query behind `r`: the cursor's test beside the selection, then ORDER BY.
  pub order_by-behind :
      (p : R → Bool) (rows front rest : List R) (r : R)
      → AreKeyed (keep p rows)
      → order_by key (keep p rows) ≡ front ++ r ∷ rest
      → order_by key (keep (λ x. key_lt (key r) (key x) && p x) rows) ≡ rest
  order_by-behind p rows front rest r k whole =
      let o = subst (IsOrdered key) whole (order_by-IsOrdered key (keep p rows)) in
      let d = subst AreKeyed whole (AreKeyed-order_by (keep p rows) k) in
      let behind = λ (x : R). key_lt (key r) (key x) in
      ap (λ l. order_by key l) (keep-keep behind p rows)
      ∙ order_by-keep key behind (keep p rows)
      ∙ ap (λ l. keep behind l) whole
      ∙ keep-behind front r rest o d
