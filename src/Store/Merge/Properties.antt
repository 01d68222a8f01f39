-- ===== src/Store/Merge/Properties.antt =====
-- The symbol properties of a merge of lib/semindex_index_db/index_db_writer.c: an insert adds its bits
-- to those of the row with its key.
use Prim.Native.Nat.{bit_or}
use semindex.Base.{
  ℕ, Bool, true, false, List, [], ◌∷◌, In, In-cons, keep, text_eq_refl, ◌==◌, ==_iff, if◌then◌else◌,
  ◌≡◌, refl, sym, ap, ◌∙◌, Bool-cases, inl, inr, &&-left,
}
use mathlib.Core.Path.{subst}
use semindex.Base.Bits.{bit_or-swap, bit_or_self, bit_or-again}
use semindex.Store.Rows.{PropertyBody, same_property}
use semindex.Store.Sql.{upsert, upsert_all, delete_where}
use semindex.Store.Sql.Laws.{Omits, nil, both, omit}
use semindex.Store.Stage.{or_properties}
use semindex.Store.Merge.{same_stored}
use semindex.Store.Merge.Sound.{Adds}

abbrev PropertyRow : Type 0
PropertyRow = ℕ × PropertyBody

abbrev same_key : PropertyRow → PropertyRow → Bool
same_key = same_stored same_property

-- The row with the key of `r` has the bits of `r`.
abbrev pub has_properties_of : PropertyRow → List PropertyRow → Bool
has_properties_of r [] = false
has_properties_of r (x ∷ t) =
    let rest = has_properties_of r t in
    if same_key x r then bit_or x.1.properties r.1.properties == x.1.properties else rest

abbrev insert_properties : List PropertyRow → PropertyRow → List PropertyRow
insert_properties = upsert same_key or_properties

same_key_refl : (r : PropertyRow) → same_key r r ≡ true
unfolding same_property
same_key_refl r =
    rw
      (
        (==_iff r.0 _).1 refl,
        text_eq_refl r.1.symbol,
        (==_iff r.1.kind _).1 refl,
        (==_iff r.1.usr_id _).1 refl,
      )
      refl

same_key-or : (x y r : PropertyRow) → same_key (or_properties x y) r ≡ same_key x r
unfolding or_properties same_property
same_key-or x y r = refl

bits-or :
    (x y : PropertyRow) → (or_properties x y).1.properties ≡ bit_or x.1.properties y.1.properties
unfolding or_properties
bits-or x y = refl

-- A row that has the bits is left as it is.
or_properties-same :
    (x r : PropertyRow)
    → bit_or x.1.properties r.1.properties ≡ x.1.properties
    → or_properties x r ≡ x
unfolding or_properties
or_properties-same x r e = ap (λ n. (x.0, record x.1 { properties = n })) e

upsert-held :
    (t : List PropertyRow) (r : PropertyRow)
    → has_properties_of r t ≡ true
    → insert_properties t r ≡ t
unfolding upsert
upsert-held [] r h = absurd (cc h)
upsert-held (x ∷ t) r h = elim (Bool-cases (same_key x r)) [
  | inl e ↦
      rw e (ap (λ y. y ∷ t) (or_properties-same x r ((==_iff _ x.1.properties).0 (rw e at h))))
  | inr e ↦ rw e (ap (λ l. x ∷ l) (upsert-held t r (rw e at h)))
]

upsert-holds :
    (t : List PropertyRow) (r : PropertyRow) → has_properties_of r (insert_properties t r) ≡ true
unfolding upsert
upsert-holds [] r = rw (same_key_refl r) ((==_iff _ r.1.properties).1 (bit_or_self r.1.properties))
upsert-holds (x ∷ t) r = elim (Bool-cases (same_key x r)) [
  | inl e ↦
      rw (e, same_key-or x r r ∙ e, bits-or x r)
        ((==_iff _ (bit_or x.1.properties r.1.properties)).1
          (bit_or-again x.1.properties r.1.properties))
  | inr e ↦ rw (e, e) (upsert-holds t r)
]

upsert-keeps :
    (t : List PropertyRow) (r y : PropertyRow)
    → has_properties_of r t ≡ true
    → has_properties_of r (insert_properties t y) ≡ true
unfolding upsert
upsert-keeps [] r y h = absurd (cc h)
upsert-keeps (x ∷ t) r y h = elim (Bool-cases (same_key x y)) [
  | inl e ↦ elim (Bool-cases (same_key x r)) [
    | inl k ↦
        let was : bit_or x.1.properties r.1.properties ≡ x.1.properties =
          (==_iff _ x.1.properties).0 (rw k at h) in
        rw (e, same_key-or x y r ∙ k, bits-or x y)
          ((==_iff _ (bit_or x.1.properties y.1.properties)).1 (
            bit_or-swap x.1.properties y.1.properties r.1.properties
            ∙ ap (λ n. bit_or n y.1.properties) was))
    | inr k ↦ rw (e, same_key-or x y r ∙ k) (rw k at h)
  ]
  | inr e ↦ elim (Bool-cases (same_key x r)) [
    | inl k ↦ rw (e, k) (rw k at h)
    | inr k ↦ rw (e, k) (upsert-keeps t r y (rw k at h))
  ]
]

all-keeps :
    (r : PropertyRow) (t rs : List PropertyRow)
    → has_properties_of r t ≡ true
    → has_properties_of r (upsert_all same_key or_properties t rs) ≡ true
unfolding upsert_all
all-keeps r t [] h = h
all-keeps r t (y ∷ rs) h = all-keeps r (insert_properties t y) rs (upsert-keeps t r y h)

all-holds :
    (r : PropertyRow) (t rs : List PropertyRow)
    → In r rs
    → has_properties_of r (upsert_all same_key or_properties t rs) ≡ true
unfolding upsert_all
all-holds r t [] m = elim m [ ]
all-holds r t (y ∷ rs) m = elim (In-cons m) [
  | inl p ↦
      all-keeps r (insert_properties t y) rs
        (subst (λ z. has_properties_of r (insert_properties t z) ≡ true) p (upsert-holds t r))
  | inr k ↦ all-holds r (insert_properties t y) rs k
]

all-Omits :
    (P : PropertyRow → Type 0) (t : List PropertyRow) {fewer more : List PropertyRow}
    → ((r : PropertyRow) → P r → has_properties_of r t ≡ true)
    → Omits P fewer more
    → upsert_all same_key or_properties t fewer ≡ upsert_all same_key or_properties t more
unfolding upsert_all
all-Omits P t k nil = refl
all-Omits P t k (both {x} o) =
    all-Omits P (insert_properties t x) (λ r p. upsert-keeps t r x (k r p)) o
all-Omits P t k (omit {x} {more} p o) =
    all-Omits P t k o
    ∙ ap (λ u. upsert_all same_key or_properties u more) (sym (upsert-held t x (k x p)))

all-deletes :
    (gone : ℕ → Bool) (id : ℕ) (b : PropertyBody) (t : List PropertyRow)
    → gone id ≡ false
    → has_properties_of (id, b) t ≡ true
    → has_properties_of (id, b) (delete_where (λ r. gone r.0) t) ≡ true
unfolding keep
all-deletes gone id b [] g h = h
all-deletes gone id b (x ∷ t) g h = elim (Bool-cases (same_key x (id, b))) [
  | inl e ↦
      let i : x.0 ≡ id = (==_iff x.0 id).0 (&&-left (x.0 == id) _ e) in
      let stays : gone x.0 ≡ false = ap gone i ∙ g in rw (stays, e) (rw e at h)
  | inr e ↦ elim (Bool-cases (gone x.0)) [
    | inl d ↦ rw d (all-deletes gone id b t g (rw e at h))
    | inr d ↦ rw (d, e) (all-deletes gone id b t g (rw e at h))
  ]
]

-- What the insert of the merge does to the table.
abbrev pub add_properties : List PropertyRow → List PropertyRow → List PropertyRow
add_properties = upsert_all same_key or_properties

pub upsert_all-Adds : Adds has_properties_of add_properties
upsert_all-Adds = record {
  keeps = all-keeps;
  adds = all-holds;
  omits = all-Omits;
  deletes = all-deletes;
}
