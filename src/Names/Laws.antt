-- ===== src/Names/Laws.antt =====
-- Names of lib/semindex_names, there and back.
use semindex.Base.{
  ℕ, zero, suc, ◌<◌, Bool, true, false, some, List, [], ◌∷◌, Text, text_eq, text_eq_iff, ◌≡◌, refl,
  sym, ap, ◌∙◌, ◌↔◌, arith, Bool-cases, inl, inr, All,
}
use mathlib.Core.Path.{subst}
use Prim.Native.Nat.{◌/◌, ◌%◌}
use semindex.Names.Kinds.{
  SymbolKind, var, field, struct, union, enum, enum_constant, typedef, function, macro, file, class,
  lambda, template,
}
use semindex.Names.{
  SymbolKindName, symbol_kind_names, semindex_symbol_kind_name, kind_in, semindex_symbol_kind_parse,
}
use semindex.Names.Output.{output_mode_string, has_bit, access_char}

parse-name : (k : SymbolKind) → semindex_symbol_kind_parse (semindex_symbol_kind_name k) ≡ some k
unfolding semindex_symbol_kind_name semindex_symbol_kind_parse text_eq
parse-name var = refl
parse-name field = refl
parse-name struct = refl
parse-name union = refl
parse-name enum = refl
parse-name enum_constant = refl
parse-name typedef = refl
parse-name function = refl
parse-name macro = refl
parse-name file = refl
parse-name class = refl
parse-name lambda = refl
parse-name template = refl

kind_in-name :
    (table : List SymbolKindName) (name : Text) (k : SymbolKind)
    → All (λ (e : SymbolKindName). semindex_symbol_kind_name e.kind ≡ e.name) table
    → kind_in table name ≡ some k
    → semindex_symbol_kind_name k ≡ name
unfolding kind_in
kind_in-name [] name k all h = absurd (cc h)
kind_in-name (e ∷ rest) name k all h = elim (Bool-cases (text_eq name e.name)) [
  | inl q ↦
      let r : some e.kind ≡ some k = rw q at h in
      let same : e.kind ≡ k = cc r in
      subst (λ x. semindex_symbol_kind_name x ≡ name) same
        (all.0 ∙ sym ((text_eq_iff name e.name).0 q))
  | inr q ↦ kind_in-name rest name k all.1 (rw q at h)
]

-- A name parses as a kind exactly when it is the name of that kind; so every kind's name parses
-- as the kind itself, and no two kinds share a name.
pub symbol_kind_parse_iff :
    (name : Text) (k : SymbolKind)
    → (semindex_symbol_kind_parse name ≡ some k) ↔ (semindex_symbol_kind_name k ≡ name)
unfolding semindex_symbol_kind_parse semindex_symbol_kind_name
symbol_kind_parse_iff name k = (
  λ h.
      kind_in-name symbol_kind_names name k
        (
          refl,
          (
            refl,
            (
              refl,
              (refl, (refl, (refl, (refl, (refl, (refl, (refl, (refl, (refl, (refl, tt)))))))))),
            ),
          ),
        )
        h,
  λ e. subst (λ n. kind_in symbol_kind_names n ≡ some k) e (parse-name k),
)

access_char-injective :
    (r w r' w' : Bool) → access_char r w ≡ access_char r' w' → (r ≡ r') × (w ≡ w')
access_char-injective true true true true h = (refl, refl)
access_char-injective true true true false h = absurd (omega (arith, h))
access_char-injective true true false true h = absurd (omega (arith, h))
access_char-injective true true false false h = absurd (omega (arith, h))
access_char-injective true false true true h = absurd (omega (arith, h))
access_char-injective true false true false h = (refl, refl)
access_char-injective true false false true h = absurd (omega (arith, h))
access_char-injective true false false false h = absurd (omega (arith, h))
access_char-injective false true true true h = absurd (omega (arith, h))
access_char-injective false true true false h = absurd (omega (arith, h))
access_char-injective false true false true h = (refl, refl)
access_char-injective false true false false h = absurd (omega (arith, h))
access_char-injective false false true true h = absurd (omega (arith, h))
access_char-injective false false true false h = absurd (omega (arith, h))
access_char-injective false false false true h = absurd (omega (arith, h))
access_char-injective false false false false h = (refl, refl)

same_bit : (m n bit : ℕ) → has_bit m bit ≡ has_bit n bit → (m / bit) % 2 ≡ (n / bit) % 2
same_bit m n bit h =
    let a : (m / bit) % 2 < 2 = omega arith in
    let b : (n / bit) % 2 < 2 = omega arith in ground (arith, h, a, b)

six_bits :
    (m n : ℕ)
    → m < 64
    → n < 64
    → (m / 1) % 2 ≡ (n / 1) % 2
    → (m / 2) % 2 ≡ (n / 2) % 2
    → (m / 4) % 2 ≡ (n / 4) % 2
    → (m / 8) % 2 ≡ (n / 8) % 2
    → (m / 16) % 2 ≡ (n / 16) % 2
    → (m / 32) % 2 ≡ (n / 32) % 2
    → m ≡ n
six_bits m n a b b0 b1 b2 b3 b4 b5 = omega (arith, a, b, b0, b1, b2, b3, b4, b5)

abbrev letter : ℕ → Text → ℕ
letter i [] = 0
letter zero (x ∷ t) = x
letter (suc i) (x ∷ t) = letter i t

-- Two modes of six bits are shown by the same three letters only if they are the same mode.
pub mode_string-injective :
    (m n : ℕ) → m < 64 → n < 64 → output_mode_string m ≡ output_mode_string n → m ≡ n
unfolding output_mode_string
mode_string-injective m n a b h =
    let aof =
      access_char-injective (has_bit m 1) (has_bit m 2) (has_bit n 1) (has_bit n 2)
        (ap (letter 0) h) in
    let val =
      access_char-injective (has_bit m 4) (has_bit m 8) (has_bit n 4) (has_bit n 8)
        (ap (letter 1) h) in
    let ptr =
      access_char-injective (has_bit m 16) (has_bit m 32) (has_bit n 16) (has_bit n 32)
        (ap (letter 2) h) in
    six_bits m n a b (same_bit m n 1 aof.0) (same_bit m n 2 aof.1) (same_bit m n 4 val.0)
      (same_bit m n 8 val.1) (same_bit m n 16 ptr.0) (same_bit m n 32 ptr.1)
