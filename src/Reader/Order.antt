-- ===== src/Reader/Order.antt =====
-- ORDER BY and row-value comparison, as SQLite does them with the BINARY collation: a key is a list
-- of texts, where a number is a text of one element.
use mathlib.Core.Path.{subst}
use semindex.Base.{
  Bool, true, false, ◌&&◌, ◌||◌, List, [], ◌∷◌, Text, text_eq, text_eq_iff, text_eq_comm, keep-In,
  if◌then◌else◌, ltb, ◌==◌, ◌≡◌, refl, sym, ap, ◌∙◌, arith, keep, Bool-cases, inl, inr, In, here,
  there, In-cons, ◌⊎◌,
}

unfoldable pub text_lt : Text → Text → Bool
text_lt [] [] = false
text_lt [] (y ∷ ys) = true
text_lt (x ∷ xs) [] = false
text_lt (x ∷ xs) (y ∷ ys) = ltb x y || (x == y && text_lt xs ys)

-- (a, …) < (b, …)
unfoldable pub key_lt : List Text → List Text → Bool
unfolding text_lt
key_lt [] [] = false
key_lt [] (b ∷ more_b) = true
key_lt (a ∷ more_a) [] = false
key_lt (a ∷ more_a) (b ∷ more_b) = text_lt a b || (text_eq a b && key_lt more_a more_b)

pub text_lt_trans : (a b c : Text) → text_lt a b ≡ true → text_lt b c ≡ true → text_lt a c ≡ true
unfolding text_lt
text_lt_trans [] [] c h k = absurd (cc h)
text_lt_trans [] (y ∷ b) [] h k = absurd (cc k)
text_lt_trans [] (y ∷ b) (z ∷ c) h k = refl
text_lt_trans (x ∷ a) [] c h k = absurd (cc h)
text_lt_trans (x ∷ a) (y ∷ b) [] h k = absurd (cc k)
text_lt_trans (x ∷ a) (y ∷ b) (z ∷ c) h k = ground (arith, h, k, text_lt_trans a b c)

pub text_lt_irrefl : (a : Text) → text_lt a a ≡ false
unfolding text_lt
text_lt_irrefl [] = refl
text_lt_irrefl (x ∷ a) = ground (arith, text_lt_irrefl a)

pub key_lt_irrefl : (a : List Text) → key_lt a a ≡ false
unfolding key_lt
key_lt_irrefl [] = refl
key_lt_irrefl (x ∷ a) = ground (arith, text_lt_irrefl x, key_lt_irrefl a)

pub key_lt_trans : (a b c : List Text) → key_lt a b ≡ true → key_lt b c ≡ true → key_lt a c ≡ true
unfolding key_lt
key_lt_trans [] [] c h k = absurd (cc h)
key_lt_trans [] (y ∷ b) [] h k = absurd (cc k)
key_lt_trans [] (y ∷ b) (z ∷ c) h k = refl
key_lt_trans (x ∷ a) [] c h k = absurd (cc h)
key_lt_trans (x ∷ a) (y ∷ b) [] h k = absurd (cc k)
key_lt_trans (x ∷ a) (y ∷ b) (z ∷ c) h k = elim (or_cases _ _ h) [
  | inl xy ↦ elim (or_cases _ _ k) [
    | inl yz ↦ rw (text_lt_trans x y z xy yz) refl
    | inr yz ↦
        rw (subst (λ t. text_lt x t ≡ true) ((text_eq_iff y z).0 (ground (arith, yz))) xy) refl
  ]
  | inr xy ↦
      let x_is : x ≡ y = (text_eq_iff x y).0 (ground (arith, xy)) in
      elim (or_cases _ _ k) [
        | inl yz ↦ rw (subst (λ t. text_lt t z ≡ true) (sym x_is) yz) refl
        | inr yz ↦
            let y_is : text_eq x z ≡ true =
              subst (λ t. text_eq t z ≡ true) (sym x_is) (ground (arith, yz)) in
            let rest = key_lt_trans a b c (ground (arith, xy)) (ground (arith, yz)) in
            ground (arith, y_is, rest)
      ]
]
  where
    or_cases : (p q : Bool) → (p || q) ≡ true → (p ≡ true) ⊎ (q ≡ true)
    or_cases true q h = inl refl
    or_cases false q h = inr h

text_lt_total : (a b : Text) → text_lt a b ≡ false → text_eq a b ≡ false → text_lt b a ≡ true
unfolding text_lt text_eq
text_lt_total [] [] h k = absurd (cc k)
text_lt_total [] (y ∷ b) h k = absurd (cc h)
text_lt_total (x ∷ a) [] h k = refl
text_lt_total (x ∷ a) (y ∷ b) h k = ground (arith, h, k, text_lt_total a b)

-- "Not less" is transitive, since keys that are not less either way are equal.
pub key_lt_total : (a b : List Text) → key_lt a b ≡ false → (key_lt b a ≡ true) ⊎ (a ≡ b)
unfolding key_lt
key_lt_total [] [] h = inr refl
key_lt_total [] (y ∷ b) h = absurd (cc h)
key_lt_total (x ∷ a) [] h = inl refl
key_lt_total (x ∷ a) (y ∷ b) h = elim (Bool-cases (text_eq x y)) [
  | inl e ↦
      let same = (text_eq_iff x y).0 e in
      elim (key_lt_total a b (ground (arith, h, e))) [
        | inl less ↦ inl (ground (arith, less, text_eq_comm x y, e))
        | inr rest ↦ inr (λ i. same i ∷ rest i)
      ]
  | inr e ↦ inl (ground (arith, text_lt_total x y (ground (arith, h)) e))
]

pub key_lt_asym : (a b : List Text) → key_lt a b ≡ true → key_lt b a ≡ false
key_lt_asym a b h = elim (Bool-cases (key_lt b a)) [
  | inl k ↦ absurd (cc (key_lt_trans a b a h k, key_lt_irrefl a))
  | inr k ↦ k
]

pub key_ge_trans :
    (a b c : List Text) → key_lt b a ≡ false → key_lt c b ≡ false → key_lt c a ≡ false
key_ge_trans a b c h k = elim (key_lt_total c b k) [
  | inl less ↦ elim (key_lt_total b a h) [
    | inl more ↦ key_lt_asym a c (key_lt_trans a b c more less)
    | inr same ↦ subst (λ x. key_lt c x ≡ false) same k
  ]
  | inr same ↦ subst (λ x. key_lt x a ≡ false) (sym same) h
]

module _ {R : Type 0} (key : R → List Text) where
  abbrev pub before : R → R → Bool
  before a b = key_lt (key a) (key b)

  -- ORDER BY: rows with the same key stay in their order.
  unfoldable pub insert_ordered : R → List R → List R
  unfolding key_lt
  insert_ordered r [] = r ∷ []
  insert_ordered r (x ∷ xs) =
      let later = insert_ordered r xs in if key_lt (key x) (key r) then x ∷ later else r ∷ x ∷ xs

  unfoldable pub order_by : List R → List R
  unfolding insert_ordered
  order_by [] = []
  order_by (r ∷ rs) = insert_ordered r (order_by rs)

-- Each row stands before all that follow it, so that no two have the same key.
abbrev pub IsOrdered : {R : Type 0} → (R → List Text) → List R → Type 0
IsOrdered key [] = Unit
IsOrdered key (x ∷ xs) = ((y : _) → In y xs → key_lt (key y) (key x) ≡ false) × IsOrdered key xs

module _ {R : Type 0} (key : R → List Text) where
  pub insert_ordered-In :
      (r : R) (xs : List R) {y : R} → In y (insert_ordered key r xs) → (y ≡ r) ⊎ In y xs
  unfolding insert_ordered
  insert_ordered-In r [] m = In-cons m
  insert_ordered-In r (x ∷ xs) m = elim (Bool-cases (key_lt (key x) (key r))) [
    | inl e ↦ elim (In-cons (rw e at m)) [
      | inl p ↦ inr (here p)
      | inr k ↦ elim (insert_ordered-In r xs k) [ inl p ↦ inl p | inr q ↦ inr (there q) ]
    ]
    | inr e ↦ In-cons (rw e at m)
  ]

  not_before :
      (a b c : R)
      → key_lt (key b) (key a) ≡ false
      → key_lt (key c) (key b) ≡ false
      → key_lt (key c) (key a) ≡ false
  not_before a b c h k = key_ge_trans (key a) (key b) (key c) h k

  insert_ordered-IsOrdered :
      (r : R) (xs : List R) → IsOrdered key xs → IsOrdered key (insert_ordered key r xs)
  unfolding insert_ordered
  insert_ordered-IsOrdered r [] o = (λ y m. elim m [ ], tt)
  insert_ordered-IsOrdered r (x ∷ xs) o = elim (Bool-cases (key_lt (key x) (key r))) [
    | inl e ↦ rw e (
      λ y m. elim (insert_ordered-In r xs m) [
        | inl p ↦
            subst (λ z. key_lt (key z) (key x) ≡ false) (sym p) (key_lt_asym (key x) (key r) e)
        | inr k ↦ o.0 y k
      ],
      insert_ordered-IsOrdered r xs o.1,
    )
    | inr e ↦ rw e (
      λ y m. elim (In-cons m) [
        | inl p ↦ subst (λ z. key_lt (key z) (key r) ≡ false) (sym p) e
        | inr k ↦ not_before r x y e (o.0 y k)
      ],
      o,
    )
  ]

  pub order_by-IsOrdered : (xs : List R) → IsOrdered key (order_by key xs)
  unfolding order_by
  order_by-IsOrdered [] = tt
  order_by-IsOrdered (x ∷ xs) = insert_ordered-IsOrdered x (order_by key xs) (order_by-IsOrdered xs)

  keep-insert_ordered :
      (p : R → Bool) (r : R) (xs : List R)
      → IsOrdered key xs
      → keep p (insert_ordered key r xs)
        ≡ (if p r then insert_ordered key r (keep p xs) else keep p xs)
  unfolding insert_ordered keep
  keep-insert_ordered p r [] o = refl
  keep-insert_ordered p r (x ∷ xs) o = elim (Bool-cases (key_lt (key x) (key r))) [
    | inl e ↦ elim (Bool-cases (p x)) [
      | inl a ↦ ground (arith, e, a, keep-insert_ordered p r xs o.1)
      | inr a ↦ ground (arith, e, a, keep-insert_ordered p r xs o.1)
    ]
    | inr e ↦ elim (Bool-cases (p x)) [
      | inl a ↦ ground (arith, e, a)
      | inr a ↦
          rw (e, a)
            (ap (λ l. if p r then l else keep p xs)
              (sym (
                insert_first r (keep p xs) (λ y m. not_before r x y e (o.0 y (keep-In p xs m).0)))))
    ]
  ]
    where
      insert_first :
          (r : R) (l : List R)
          → ((y : R) → In y l → key_lt (key y) (key r) ≡ false)
          → insert_ordered key r l ≡ r ∷ l
      insert_first r [] h = refl
      insert_first r (y ∷ l) h = rw (h y (here refl)) refl

  -- Selecting rows and ordering them is ordering them and then selecting.
  pub order_by-keep :
      (p : R → Bool) (xs : List R) → order_by key (keep p xs) ≡ keep p (order_by key xs)
  unfolding order_by keep
  order_by-keep p [] = refl
  order_by-keep p (x ∷ xs) =
      let e = keep-insert_ordered p x (order_by key xs) (order_by-IsOrdered xs) in
      elim (Bool-cases (p x)) [
        | inl h ↦ rw h (ap (λ l. insert_ordered key x l) (order_by-keep p xs) ∙ sym (rw h at e))
        | inr h ↦ rw h (order_by-keep p xs ∙ sym (rw h at e))
      ]
