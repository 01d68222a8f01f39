-- ===== src/Reader/Leaf.antt =====
-- qualified_leaf of lib/semindex_database/index_db_reader.c: what stands behind the last separator.
use mathlib.Core.Path.{subst}
use semindex.Base.{
  ℕ, Bool, true, false, ◌&&◌, ◌||◌, [], ◌∷◌, ◌++◌, Text, ◌==◌, ==_iff, ◌≡◌, refl, sym, ap, ◌⊎◌, inl,
  inr, arith, Bool-cases, &&-left, &&-right,
}
use semindex.Reader.{colon_next, behind_colon, leaf_from, qualified_leaf}

-- Whether a '.' or a "::" is in a text
abbrev pub has_separator : Text → Bool
has_separator [] = false
has_separator (c ∷ cs) = c == b':' && colon_next cs || c == b'.' || has_separator cs

-- The text itself, if there is no separator in it, or what follows the last one.
pub data IsLeaf : Text → Text → Type 0 where
  whole : {s : Text} → has_separator s ≡ false → IsLeaf s s
  after_dot :
      {s leaf : Text} (front : Text)
      → s ≡ front ++ b'.' ∷ leaf
      → has_separator leaf ≡ false
      → IsLeaf s leaf
  after_colons :
      {s leaf : Text} (front : Text)
      → s ≡ front ++ b':' ∷ b':' ∷ leaf
      → has_separator leaf ≡ false
      → IsLeaf s leaf

-- Of the rest of a text, where `last` is what follows the last separator before it.
abbrev LeafFrom : Text → Text → Text → Type 0
LeafFrom last cs r =
    ((has_separator cs ≡ false) × (r ≡ last)) ⊎ ((has_separator cs ≡ true) × IsLeaf cs r)

cons-IsLeaf : (c : ℕ) {s r : Text} → has_separator s ≡ true → IsLeaf s r → IsLeaf (c ∷ s) r
cons-IsLeaf c h (whole k) = absurd (cc (h, k))
cons-IsLeaf c h (after_dot front e k) = after_dot (c ∷ front) (ap (λ t. c ∷ t) e) k
cons-IsLeaf c h (after_colons front e k) = after_colons (c ∷ front) (ap (λ t. c ∷ t) e) k

colons : (cs : Text) → colon_next cs ≡ true → cs ≡ b':' ∷ behind_colon cs
colons [] h = absurd (cc h)
colons (c ∷ cs) h = ap (λ x. x ∷ cs) ((==_iff c b':').0 h)

behind-clean : (cs : Text) → has_separator cs ≡ false → has_separator (behind_colon cs) ≡ false
behind-clean [] h = refl
behind-clean (c ∷ cs) h = ground (arith, h)

-- The separator in front of a rest that has none.
at_colons :
    (c : ℕ) (cs r : Text)
    → (c == b':' && colon_next cs) ≡ true
    → LeafFrom (behind_colon cs) cs r
    → IsLeaf (c ∷ cs) r
at_colons c cs r h (inl (k, e)) =
    let c_is : c ≡ b':' = (==_iff c b':').0 (&&-left (c == b':') _ h) in
    subst (IsLeaf (c ∷ cs)) (sym e)
      (after_colons [] (λ i. c_is i ∷ colons cs (&&-right (c == b':') _ h) i) (behind-clean cs k))
at_colons c cs r h (inr (k, leaf)) = cons-IsLeaf c k leaf

at_dot : (c : ℕ) (cs r : Text) → (c == b'.') ≡ true → LeafFrom cs cs r → IsLeaf (c ∷ cs) r
at_dot c cs r h (inl (k, e)) =
    subst (IsLeaf (c ∷ cs)) (sym e) (after_dot [] (ap (λ x. x ∷ cs) ((==_iff c b'.').0 h)) k)
at_dot c cs r h (inr (k, leaf)) = cons-IsLeaf c k leaf

at_other :
    (c : ℕ) (last cs r : Text)
    → (c == b':' && colon_next cs) ≡ false
    → (c == b'.') ≡ false
    → LeafFrom last cs r
    → LeafFrom last (c ∷ cs) r
at_other c last cs r h d (inl (k, e)) = inl (rw (h, d) k, e)
at_other c last cs r h d (inr (k, leaf)) = inr (rw (h, d) k, cons-IsLeaf c k leaf)

leaf_from-LeafFrom : (last cs : Text) → LeafFrom last cs (leaf_from last cs)
unfolding leaf_from
leaf_from-LeafFrom last [] = inl (refl, refl)
leaf_from-LeafFrom last (c ∷ cs) = elim (Bool-cases (c == b':' && colon_next cs)) [
  | inl h ↦ rw h (
      inr (
        refl,
        at_colons c cs (leaf_from (behind_colon cs) cs) h (leaf_from-LeafFrom (behind_colon cs) cs),
      ))
  | inr h ↦ elim (Bool-cases (c == b'.')) [
    | inl d ↦ rw (h, d) (inr (refl, at_dot c cs (leaf_from cs cs) d (leaf_from-LeafFrom cs cs)))
    | inr d ↦
        let later = at_other c last cs (leaf_from last cs) h d (leaf_from-LeafFrom last cs) in
        rw (h, d) (rw (h, d) at later)
  ]
]

-- The leaf of a symbol's name is what stands behind the last '.' or "::" of it, and the whole
-- name if there is none.
pub qualified_leaf-IsLeaf : (symbol : Text) → IsLeaf symbol (qualified_leaf symbol)
unfolding qualified_leaf
qualified_leaf-IsLeaf symbol = of_whole (leaf_from symbol symbol) (leaf_from-LeafFrom symbol symbol)
  where
    of_whole : (r : Text) → LeafFrom symbol symbol r → IsLeaf symbol r
    of_whole r (inl (k, e)) = subst (IsLeaf symbol) (sym e) (whole k)
    of_whole r (inr (k, leaf)) = leaf
