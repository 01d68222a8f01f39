-- ===== src/Tests/Types.antt =====
-- The witnesses for the queries of types.
use mathlib.Core.Path.{subst}
use semindex.Base.{
  ℕ, true, none, some, List, [], ◌∷◌, Text, codes, text_eq, take, keep, ◌≡◌, refl, ap, inl, inr,
  In-cons, arith,
}
use semindex.Names.Kinds.{function}
use semindex.Store.Rows.{SymbolTypeBody}
use semindex.Reader.Keyed.{AreKeyed}
use semindex.Reader.Emit.{success}
use semindex.Reader.Functions.{Identity}
use semindex.Reader.Types.{
  FileOf, symbol_type_cursor, symbol_type_key, has_symbol_type, query_symbol_types,
}
use semindex.Reader.Types.Pages.{query_symbol_types-after}

abbrev identity : Identity
identity = record { variant = codes "v"; symbol = codes "f"; usr_id = 9; kind = function }

abbrev typed : ℕ → FileOf SymbolTypeBody
typed c = record {
  variant = codes "v";
  path = codes "m";
  body = record {
    symbol = codes "f";
    kind = 7;
    usr_id = 9;
    declared_type = c ∷ [];
    canonical_type = codes "int";
    type_symbol = [];
    type_kind = none;
    type_usr_id = 0;
  };
}

-- A type of another symbol of the file, with the key of one of these
abbrev other_symbol : FileOf SymbolTypeBody
other_symbol = record {
  variant = codes "v";
  path = codes "m";
  body = record {
    symbol = codes "g";
    kind = 7;
    usr_id = 8;
    declared_type = 1 ∷ [];
    canonical_type = codes "int";
    type_symbol = [];
    type_kind = none;
    type_usr_id = 0;
  };
}

abbrev type_rows : List (FileOf SymbolTypeBody)
type_rows = typed 2 ∷ other_symbol ∷ typed 1 ∷ []

abbrev first_code : List Text → ℕ
first_code [] = 0
first_code ([] ∷ rest) = 0
first_code ((c ∷ cs) ∷ rest) = c

type_rows-AreKeyed : AreKeyed symbol_type_key (keep (has_symbol_type identity) type_rows)
unfolding keep text_eq
type_rows-AreKeyed = (
  λ y m same. elim (In-cons m) [
    | inl p ↦
        let no : 2 ≡ 1 =
          ap first_code (subst (λ z. symbol_type_key (typed 2) ≡ symbol_type_key z) p same) in
        omega (arith, no)
    | inr k ↦ elim k [ ]
  ],
  (λ y m same. elim m [ ], tt),
)

both_types :
    query_symbol_types identity none 0 (λ t. 0) type_rows true ≡ (success, typed 1 ∷ typed 2 ∷ [])
unfolding query_symbol_types keep text_eq
both_types = refl

query_symbol_types-after_example :
    query_symbol_types identity (some (symbol_type_cursor (typed 1))) 5 (λ t. 0) type_rows true
    ≡ (success, take 5 (typed 2 ∷ []))
query_symbol_types-after_example =
    query_symbol_types-after identity (λ t. 0) type_rows [] (typed 2 ∷ []) (typed 1) 5 (λ t. refl)
      type_rows-AreKeyed (omega arith) both_types
