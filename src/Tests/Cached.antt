-- ===== src/Tests/Cached.antt =====
-- Merges into a small index, where one file is cached.
use mathlib.Core.Path.{subst}
use semindex.Base.{
  ℕ, true, false, none, some, [], ◌∷◌, any, ◌≡◌, refl, sym, ap, ◌∙◌, ◌⊎◌, inl, inr, In, here, there,
  In-cons, Text, codes, text_eq, if◌then◌else◌, arith,
}
use semindex.Store.Rows.{
  stored_symbol, RecordBody, SymbolTypeBody, FunctionTypeBody, PropertyBody, same_property, FileRow,
  StagingFile, VariantRow, Db, Staging, same_record,
}
use semindex.Store.Sql.{has_key}
use semindex.Store.Sql.Laws.{nil, both, omit}
use semindex.Store.Stage.Files.{cached_files_valid, is_stored}
use semindex.Store.Merge.{same_stored}
use semindex.Store.Merge.Files.{IsFileTable}
use semindex.Store.Merge.Cache.{IsStagingTable}
use semindex.Store.Merge.Sound.{OfCached}
use semindex.Store.Merge.Properties.{has_properties_of}
use semindex.Store.Run.Merging.{merge_all}
use semindex.Store.Run.Cached.{
  Meaning, IsSound, IsComplete, OmitsCached, merge_all-IsSound, merge_all-OmitsCached,
}
use semindex.Store.Run.Replaced.{IdAfter, is_gone, merge_all-records, merge_all-other_variant}

abbrev record_of : Text → RecordBody
record_of name = record {
  symbol = name;
  stored = stored_symbol;
  action = 1;
  kind = 7;
  mode = 0;
  line = 1;
  column = 1;
  context = [];
  usr_id = none;
  context_usr_id = none;
  is_local = 0;
}

abbrev property_of : ℕ → PropertyBody
property_of bits = record { symbol = codes "f"; kind = 7; usr_id = 9; properties = bits }

abbrev header_print : Text
header_print = codes "A"

abbrev main_print : Text
main_print = codes "B"

abbrev meaning : Meaning
meaning = record {
  records = λ g.
      if text_eq g header_print
      then record_of (codes "f") ∷ []
      else if text_eq g main_print
      then record_of (codes "main") ∷ []
      else [];
  symbol_types = λ _. [];
  function_types = λ _. [];
  symbol_properties = λ g. if text_eq g header_print then property_of 5 ∷ [] else [];
}

abbrev header : FileRow
header = record { id = 1; variant = codes "v"; path = codes "h"; mtime_ns = 3; size = 4 }

abbrev before : Db
before = record {
  version = 18;
  has_tables = true;
  files = header ∷ [];
  records = (1, record_of (codes "f")) ∷ [];
  symbol_types = [];
  function_types = [];
  symbol_properties = (1, property_of 7) ∷ [];
  fingerprints = (1, header_print) ∷ [];
  variants = [];
}

abbrev staged_header : StagingFile
staged_header = record {
  path = codes "h";
  mtime_ns = 3;
  size = 4;
  is_main = false;
  ordinal = some 1;
  fingerprint = some header_print;
  cached = true;
}

abbrev staged_main : StagingFile
staged_main = record {
  path = codes "m";
  mtime_ns = 5;
  size = 6;
  is_main = true;
  ordinal = some 0;
  fingerprint = some main_print;
  cached = false;
}

abbrev staged : Staging
staged = record {
  files = staged_main ∷ staged_header ∷ [];
  records = (codes "m", record_of (codes "main")) ∷ [];
  symbol_types = [];
  function_types = [];
  symbol_properties = [];
}

-- The same with the rows of the cached file.
abbrev staged_all : Staging
staged_all = record staged {
  records = (codes "m", record_of (codes "main")) ∷ (codes "h", record_of (codes "f")) ∷ [];
  symbol_properties = (codes "h", property_of 5) ∷ [];
}

abbrev variant_row : VariantRow
variant_row = record { name = codes "v"; git_commit = none; repository_root = none }

only : {A : Type 0} {a x : A} → In a (x ∷ []) → a ≡ x
only m = elim (In-cons m) [ inl e ↦ e | inr k ↦ elim k [ ] ]

one_of_two : {A : Type 0} {a x y : A} → In a (x ∷ y ∷ []) → (a ≡ x) ⊎ (a ≡ y)
one_of_two m = elim (In-cons m) [ inl e ↦ inl e | inr k ↦ inr (only k) ]

before-IsFileTable : IsFileTable (header ∷ [])
before-IsFileTable = record {
  by_id = λ f g m n e. only m ∙ sym (only n);
  by_path = λ f g m n e k. only m ∙ sym (only n);
}

before-IsSound : IsSound meaning before
unfolding text_eq any same_record same_property
before-IsSound = record {
  files = before-IsFileTable;
  records = record {
    at = λ id g b m k.
        let pair = only m in
        let g_is : g ≡ header_print = ap (λ p. p.1) pair in
        let b_is : b ≡ record_of (codes "f") =
          only (subst (λ x. In b (meaning.records x)) g_is k) in
        subst (λ p. has_key (same_stored same_record) (p.0, b) before.records ≡ true) (sym pair)
          (subst (λ x. has_key (same_stored same_record) (1, x) before.records ≡ true) (sym b_is)
            refl);
  };
  symbol_types = record { at = λ id g b m k. elim k [ ] };
  function_types = record { at = λ id g b m k. elim k [ ] };
  symbol_properties = record {
    at = λ id g b m k.
        let pair = only m in
        let g_is : g ≡ header_print = ap (λ p. p.1) pair in
        let b_is : b ≡ property_of 5 =
          only (subst (λ x. In b (meaning.symbol_properties x)) g_is k) in
        subst (λ p. has_properties_of (p.0, b) before.symbol_properties ≡ true) (sym pair)
          (subst (λ x. has_properties_of (1, x) before.symbol_properties ≡ true) (sym b_is) refl);
  };
}

other_path : (s u : StagingFile) → s ≡ staged_main → u ≡ staged_header → ¬ (s.path ≡ u.path)
other_path s u p q e =
    let same : codes "m" ≡ codes "h" =
      ap (λ (x : StagingFile). x.path) (sym p) ∙ e ∙ ap (λ (x : StagingFile). x.path) q in
    omega (arith, ap first same)
  where
    first : Text → ℕ
    first [] = 0
    first (x ∷ t) = x

staged-IsStagingTable : IsStagingTable staged.files
staged-IsStagingTable = record {
  by_path = λ s u m n e. elim (one_of_two m) [
    | inl p ↦ elim (one_of_two n) [ inl q ↦ p ∙ sym q | inr q ↦ absurd (other_path s u p q e) ]
    | inr p ↦ elim (one_of_two n) [
      | inl q ↦ absurd (other_path u s q p (sym e))
      | inr q ↦ p ∙ sym q
    ]
  ];
  main_not_cached = λ s m c. elim (one_of_two m) [
    | inl p ↦ absurd (cc (sym (ap (λ (x : StagingFile). x.cached) p) ∙ c))
    | inr p ↦ ap (λ (x : StagingFile). x.is_main) p
  ];
}

staged-IsComplete : IsComplete meaning staged
unfolding text_eq
staged-IsComplete = record {
  files = staged-IsStagingTable;
  records = record {
    at = λ s g b m e c k. elim (one_of_two m) [
      | inl p ↦
          let print_is : some g ≡ some main_print =
            sym e ∙ ap (λ (x : StagingFile). x.fingerprint) p in
          let g_is : g ≡ main_print = cc print_is in
          let b_is : b ≡ record_of (codes "main") =
            only (subst (λ x. In b (meaning.records x)) g_is k) in
          here (λ i. ((p i).path, b_is i))
      | inr p ↦ absurd (cc (sym (ap (λ (x : StagingFile). x.cached) p) ∙ c))
    ];
  };
  symbol_types = record { at = λ s g b m e c k. elim k [ ] };
  function_types = record { at = λ s g b m e c k. elim k [ ] };
  symbol_properties = record {
    at = λ s g b m e c k. elim (one_of_two m) [
      | inl p ↦
          let print_is : some g ≡ some main_print =
            sym e ∙ ap (λ (x : StagingFile). x.fingerprint) p in
          let g_is : g ≡ main_print = cc print_is in
          elim (subst (λ x. In b (meaning.symbol_properties x)) g_is k) [ ]
      | inr p ↦ absurd (cc (sym (ap (λ (x : StagingFile). x.cached) p) ∙ c))
    ];
  };
}

header_row-OfCached : OfCached meaning.records staged.files (codes "h", record_of (codes "f"))
unfolding text_eq
header_row-OfCached = record {
  file = staged_header;
  print = header_print;
  member = there (here refl);
  path = refl;
  fingerprint = refl;
  cached = refl;
  row = here refl;
}

header_property-OfCached :
    OfCached meaning.symbol_properties staged.files (codes "h", property_of 5)
unfolding text_eq
header_property-OfCached = record {
  file = staged_header;
  print = header_print;
  member = there (here refl);
  path = refl;
  fingerprint = refl;
  cached = refl;
  row = here refl;
}

staged-OmitsCached : OmitsCached meaning staged staged_all
staged-OmitsCached = record {
  files = refl;
  symbol_properties = omit header_property-OfCached nil;
  records = both (omit header_row-OfCached nil);
  symbol_types = nil;
  function_types = nil;
}

staged-valid : cached_files_valid before (codes "v") staged.files ≡ true
unfolding cached_files_valid is_stored any text_eq
staged-valid = refl

merge_all-IsSound_example : IsSound meaning (merge_all variant_row staged before)
merge_all-IsSound_example =
    merge_all-IsSound meaning variant_row staged before staged-valid staged-IsComplete
      before-IsSound

merge_all-OmitsCached_example :
    merge_all variant_row staged before ≡ merge_all variant_row staged_all before
merge_all-OmitsCached_example =
    merge_all-OmitsCached meaning variant_row staged staged_all before staged-valid
      staged-IsStagingTable before-IsSound staged-OmitsCached

merge_all-records_example :
    (In (2, record_of (codes "main")) (merge_all variant_row staged before).records
      → ((path : Text) × In (path, record_of (codes "main")) staged.records
          × IdAfter variant_row staged before path 2)
        ⊎ (In (2, record_of (codes "main")) before.records
            × (is_gone variant_row staged before 2 ≡ false)))
    × (In (2, record_of (codes "main")) before.records
        → is_gone variant_row staged before 2 ≡ false
        → In (2, record_of (codes "main")) (merge_all variant_row staged before).records)
    × ((path : Text)
        → In (path, record_of (codes "main")) staged.records
        → IdAfter variant_row staged before path 2
        → has_key
            (same_stored same_record)
            (2, record_of (codes "main"))
            (merge_all variant_row staged before).records
          ≡ true)
merge_all-records_example = merge_all-records variant_row staged before 2 (record_of (codes "main"))

abbrev other_row : VariantRow
other_row = record { name = codes "w"; git_commit = none; repository_root = none }

other_name : ¬ (codes "v" ≡ codes "w")
other_name e = omega (arith, ap first e)
  where
    first : Text → ℕ
    first [] = 0
    first (x ∷ t) = x

merge_all-other_variant_example :
    ((b : RecordBody)
      → (In (1, b) (merge_all other_row staged before).records → In (1, b) before.records)
        × (In (1, b) before.records → In (1, b) (merge_all other_row staged before).records))
    × ((b : SymbolTypeBody)
        → (In (1, b) (merge_all other_row staged before).symbol_types
            → In (1, b) before.symbol_types)
          × (In (1, b) before.symbol_types
              → In (1, b) (merge_all other_row staged before).symbol_types))
    × ((b : FunctionTypeBody)
        → (In (1, b) (merge_all other_row staged before).function_types
            → In (1, b) before.function_types)
          × (In (1, b) before.function_types
              → In (1, b) (merge_all other_row staged before).function_types))
merge_all-other_variant_example =
    merge_all-other_variant other_row staged before header before-IsFileTable (here refl) other_name
