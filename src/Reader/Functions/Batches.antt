-- ===== src/Reader/Functions/Batches.antt =====
-- The batches of semindex_db_query_functions of lib/semindex_database/index_db_reader.c.
use mathlib.Core.Path.{subst}
use semindex.Base.{
  ℕ, zero, suc, ◌-◌, ◌≤◌, true, false, List, [], ◌∷◌, ◌++◌, Text, any, keep, take, drop, length,
  ◌==◌, ◌≡◌, refl, ap, arith, Bool-cases, ◌⊎◌, inl, inr, In, here, there, In-cons, In-append,
  In-append_left, In-append_right, ◌↔◌,
}
use semindex.Reader.{Row}
use semindex.Reader.Order.{key_lt, insert_ordered, order_by, insert_ordered-In}
use semindex.Reader.Emit.{Ret, success, covers, emit_records, GoesOn}
use semindex.Reader.Functions.{
  DbFunction, is_requested, requested_rows, function_key, query_function_batch, then_batches,
  query_batches, is_nameless, query_functions,
}

module _ {R : Type 0} (key : R → List Text) where
  In-insert_ordered :
      (r : R) (xs : List R) {y : R} → (y ≡ r) ⊎ In y xs → In y (insert_ordered key r xs)
  unfolding insert_ordered
  In-insert_ordered r [] (inl e) = here e
  In-insert_ordered r [] (inr m) = there m
  In-insert_ordered r (x ∷ xs) h = elim (Bool-cases (key_lt (key x) (key r))) [
    | inl e ↦ rw e (elim h [
      | inl p ↦ there (In-insert_ordered r xs (inl p))
      | inr m ↦ elim (In-cons m) [ inl p ↦ here p | inr k ↦ there (In-insert_ordered r xs (inr k)) ]
    ])
    | inr e ↦ rw e (elim h [ inl p ↦ here p | inr m ↦ there m ])
  ]

  order_by-In : (xs : List R) {y : R} → In y (order_by key xs) ↔ In y xs
  unfolding order_by
  order_by-In [] = (λ m. m, λ m. m)
  order_by-In (x ∷ xs) = (
    λ m. elim (insert_ordered-In key x (order_by key xs) m) [
      | inl p ↦ here p
      | inr k ↦ there ((order_by-In xs).0 k)
    ],
    λ m.
        In-insert_ordered x (order_by key xs)
          (elim (In-cons m) [ inl p ↦ inl p | inr k ↦ inr ((order_by-In xs).1 k) ]),
  )

emit_records-whole :
    (callback : Row → ℕ) (rows : List Row)
    → GoesOn callback
    → emit_records callback 0 rows true ≡ (success, rows)
unfolding emit_records covers
emit_records-whole callback [] g = refl
emit_records-whole callback (r ∷ rows) g = rw (g r, emit_records-whole callback rows g) refl

requested_rows-append :
    (fs gs : List DbFunction) (rows : List Row) {r : Row}
    → In r (requested_rows (fs ++ gs) rows)
      ↔ (In r (requested_rows fs rows) ⊎ In r (requested_rows gs rows))
requested_rows-append [] gs rows = (λ m. inr m, λ h. elim h [ inl m ↦ elim m [ ] | inr m ↦ m ])
requested_rows-append (f ∷ fs) gs rows = (
  λ m. elim (In-append (keep (is_requested f) rows) m) [
    | inl k ↦ inl (In-append_left (requested_rows fs rows) k)
    | inr k ↦ elim ((requested_rows-append fs gs rows).0 k) [
      | inl a ↦ inl (In-append_right (keep (is_requested f) rows) a)
      | inr b ↦ inr b
    ]
  ],
  λ h. elim h [
    | inl m ↦ elim (In-append (keep (is_requested f) rows) m) [
      | inl k ↦ In-append_left (requested_rows (fs ++ gs) rows) k
      | inr k ↦
          In-append_right (keep (is_requested f) rows)
            ((requested_rows-append fs gs rows).1 (inl k))
    ]
    | inr m ↦
        In-append_right (keep (is_requested f) rows) ((requested_rows-append fs gs rows).1 (inr m))
  ],
)

take-drop : {A : Type 0} (n : ℕ) (xs : List A) → take n xs ++ drop n xs ≡ xs
take-drop zero xs = refl
take-drop (suc n) [] = refl
take-drop (suc n) (x ∷ xs) = ap (λ l. x ∷ l) (take-drop n xs)

length-drop : {A : Type 0} (n : ℕ) (xs : List A) → length (drop n xs) ≡ length xs - n
length-drop zero xs = omega arith
length-drop (suc n) [] = omega arith
length-drop (suc n) (x ∷ xs) = omega (arith, length-drop n xs)

nonzero : (n : ℕ) → 1 ≤ n → (n == 0) ≡ false
nonzero n one = ground arith

module _ (size : ℕ) (callback : Row → ℕ) (rows : List Row) (goes : GoesOn callback) where
  query_function_batch-rows :
      (fs : List DbFunction)
      → query_function_batch fs callback rows true
        ≡ (success, order_by function_key (requested_rows fs rows))
  unfolding query_function_batch
  query_function_batch-rows fs =
      emit_records-whole callback (order_by function_key (requested_rows fs rows)) goes

  then_batches-rows :
      (fs gs : List DbFunction) (later : Ret × List Row)
      → later.0 ≡ success
      → ((r : Row) → In r later.1 ↔ In r (requested_rows gs rows))
      → ((then_batches (query_function_batch fs callback rows true) later).0 ≡ success)
        × ((r : Row)
            → In r (then_batches (query_function_batch fs callback rows true) later).1
              ↔ In r (requested_rows (fs ++ gs) rows))
  then_batches-rows fs gs later ok same = rw (query_function_batch-rows fs) (
    ok,
    λ r. (
      λ m. elim (In-append (order_by function_key (requested_rows fs rows)) m) [
        | inl k ↦
            (requested_rows-append fs gs rows).1
              (inl ((order_by-In function_key (requested_rows fs rows)).0 k))
        | inr k ↦ (requested_rows-append fs gs rows).1 (inr ((same r).0 k))
      ],
      λ m. elim ((requested_rows-append fs gs rows).0 m) [
        | inl k ↦ In-append_left later.1 ((order_by-In function_key (requested_rows fs rows)).1 k)
        | inr k ↦ In-append_right (order_by function_key (requested_rows fs rows)) ((same r).1 k)
      ],
    ),
  )

  query_batches-rows :
      (fuel : ℕ) (fs : List DbFunction)
      → 1 ≤ size
      → length fs ≤ fuel
      → ((query_batches fuel size fs callback rows true).0 ≡ success)
        × ((r : Row)
            → In r (query_batches fuel size fs callback rows true).1
              ↔ In r (requested_rows fs rows))
  unfolding query_batches
  query_batches-rows fuel [] one enough = (refl, λ r. (λ m. m, λ m. m))
  query_batches-rows zero (f ∷ rest) one enough = let no : ⊥ = omega (arith, enough) in elim no [ ]
  query_batches-rows (suc fuel) (f ∷ rest) one enough =
      let later =
        query_batches-rows fuel (drop size (f ∷ rest)) one
          (omega (arith, length-drop size (f ∷ rest), enough, one)) in
      subst
        (λ l.
          ((then_batches (query_function_batch (take size (f ∷ rest)) callback rows true)
              (query_batches fuel size (drop size (f ∷ rest)) callback rows true)).0
            ≡ success)
          × ((r : Row)
              → In r
                  (then_batches (query_function_batch (take size (f ∷ rest)) callback rows true)
                    (query_batches fuel size (drop size (f ∷ rest)) callback rows true)).1
                ↔ In r (requested_rows l rows)))
        (take-drop size (f ∷ rest))
        (then_batches-rows (take size (f ∷ rest)) (drop size (f ∷ rest))
          (query_batches fuel size (drop size (f ∷ rest)) callback rows true) later.0 later.1)

-- When the callback goes on and no statement fails, semindex_db_query_functions succeeds and gives,
-- whatever the size of its batches, exactly the rows of definitions and declarations of functions
-- whose variant, symbol and hash are those of a requested function, none of which has an empty name
-- or variant. A row whose hash is NULL is of no requested function.
pub query_functions-rows :
    (size : ℕ) (fs : List DbFunction) (callback : Row → ℕ) (rows : List Row)
    → GoesOn callback
    → 1 ≤ size
    → any is_nameless fs ≡ false
    → ((query_functions size fs callback rows true).0 ≡ success)
      × ((r : Row)
          → In r (query_functions size fs callback rows true).1 ↔ In r (requested_rows fs rows))
unfolding query_functions
query_functions-rows size [] callback rows goes one named = (refl, λ r. (λ m. m, λ m. m))
query_functions-rows size (f ∷ rest) callback rows goes one named =
    rw (named, nonzero size one)
      (query_batches-rows size callback rows goes (length (f ∷ rest)) (f ∷ rest) one (omega arith))
