-- ===== src/Store/Stage/Keeps.antt =====
-- The staging functions of lib/semindex_index_db/index_db_writer.c touch only the temporary tables.
use semindex.Base.{ℕ, ◌+◌, Bool, Option, none, some, List, [], ◌∷◌, Text}
use semindex.Repository.{Host}
use semindex.Store.Index.{Symbol, Use, Parameter, FunctionSignature, FileFingerprint, Index}
use semindex.Store.Session.Laws.{OnlyStaging, staging_rules}
use semindex.Store.Stage.{
  StoredPaths, StagingCounts, stage_record, stage_symbol_type, stage_function_type,
  stage_symbol_properties,
}
use semindex.Store.Stage.Records.{
  stage_type_of, stage_properties_of, stage_new_symbol, stage_symbol, stage_symbols, stage_use,
  stage_uses, stage_parameters, stage_signature, stage_signatures, stage_records,
}
use semindex.Store.Stage.Files.{give, insert_file, insert_files, insert_main, stage_files}

stage_record-OnlyStaging : (r : _) → OnlyStaging (stage_record r)
unfolding stage_record
stage_record-OnlyStaging r = search staging_rules

stage_symbol_type-OnlyStaging : (r : _) → OnlyStaging (stage_symbol_type r)
unfolding stage_symbol_type
stage_symbol_type-OnlyStaging r = search staging_rules

stage_function_type-OnlyStaging : (r : _) → OnlyStaging (stage_function_type r)
unfolding stage_function_type
stage_function_type-OnlyStaging r = search staging_rules

stage_symbol_properties-OnlyStaging : (r : _) → OnlyStaging (stage_symbol_properties r)
unfolding stage_symbol_properties
stage_symbol_properties-OnlyStaging r = search staging_rules

ruleset row_rules = (
  staging_rules, stage_record-OnlyStaging, stage_symbol_type-OnlyStaging,
  stage_function_type-OnlyStaging, stage_symbol_properties-OnlyStaging,
)

module _ (paths : StoredPaths) (include_local : Bool) (cached : List Bool) where
  type_of-OnlyStaging :
      (s : Symbol) (counts : StagingCounts)
      → OnlyStaging (stage_type_of paths include_local cached s counts)
  unfolding stage_type_of
  type_of-OnlyStaging s counts = search row_rules

  properties_of-OnlyStaging :
      (s : Symbol) (counts : StagingCounts)
      → OnlyStaging (stage_properties_of paths include_local cached s counts)
  unfolding stage_properties_of
  properties_of-OnlyStaging s counts = search row_rules

  ruleset symbol_rules = (row_rules, type_of-OnlyStaging, properties_of-OnlyStaging)

  new_symbol-OnlyStaging :
      (s : Symbol) (counts : StagingCounts)
      → OnlyStaging (stage_new_symbol paths include_local cached s counts)
  unfolding stage_new_symbol
  new_symbol-OnlyStaging s counts = search symbol_rules

  symbol-OnlyStaging :
      (s : Symbol) (counts : StagingCounts)
      → OnlyStaging (stage_symbol paths include_local cached s counts)
  unfolding stage_symbol
  symbol-OnlyStaging s counts = search (row_rules, new_symbol-OnlyStaging)

  symbols-OnlyStaging :
      (l : List Symbol) (counts : StagingCounts)
      → OnlyStaging (stage_symbols paths include_local cached l counts)
  unfolding stage_symbols
  symbols-OnlyStaging [] counts = search staging_rules
  symbols-OnlyStaging (s ∷ rest) counts =
      search (staging_rules, symbol-OnlyStaging, symbols-OnlyStaging rest)

  use-OnlyStaging :
      (u : Use) (counts : StagingCounts)
      → OnlyStaging (stage_use paths include_local cached u counts)
  unfolding stage_use
  use-OnlyStaging u counts = search row_rules

  uses-OnlyStaging :
      (l : List Use) (counts : StagingCounts)
      → OnlyStaging (stage_uses paths include_local cached l counts)
  unfolding stage_uses
  uses-OnlyStaging [] counts = search staging_rules
  uses-OnlyStaging (u ∷ rest) counts =
      search (staging_rules, use-OnlyStaging, uses-OnlyStaging rest)

  parameters-OnlyStaging :
      (f : FunctionSignature) (position : ℕ) (l : List Parameter) (counts : StagingCounts)
      → OnlyStaging (stage_parameters paths include_local cached f position l counts)
  unfolding stage_parameters
  parameters-OnlyStaging f position [] counts = search staging_rules
  parameters-OnlyStaging f position (p ∷ rest) counts =
      search (row_rules, λ (n : ℕ) (c : StagingCounts). parameters-OnlyStaging f n rest c)

  signature-OnlyStaging :
      (f : FunctionSignature) (counts : StagingCounts)
      → OnlyStaging (stage_signature paths include_local cached f counts)
  unfolding stage_signature
  signature-OnlyStaging f counts = search (row_rules, parameters-OnlyStaging)

  signatures-OnlyStaging :
      (l : List FunctionSignature) (counts : StagingCounts)
      → OnlyStaging (stage_signatures paths include_local cached l counts)
  unfolding stage_signatures
  signatures-OnlyStaging [] counts = search staging_rules
  signatures-OnlyStaging (f ∷ rest) counts =
      search (staging_rules, signature-OnlyStaging, signatures-OnlyStaging rest)

  pub stage_records-OnlyStaging :
      (s : Index) → OnlyStaging (stage_records paths include_local cached s)
  unfolding stage_records
  stage_records-OnlyStaging s =
      search (staging_rules, symbols-OnlyStaging, uses-OnlyStaging, signatures-OnlyStaging) depth 12

give-OnlyStaging : {A : Type 0} (o : Option A) → OnlyStaging (give o)
give-OnlyStaging none = search staging_rules
give-OnlyStaging (some a) = search staging_rules

insert_file-OnlyStaging : (f : _) (r : _) → OnlyStaging (insert_file f r)
unfolding insert_file
insert_file-OnlyStaging f r = search staging_rules

ruleset file_rules = (staging_rules, give-OnlyStaging, insert_file-OnlyStaging)

insert_main-OnlyStaging :
    (h : Host) (main_file path : Option Text) → OnlyStaging (insert_main h main_file path)
unfolding insert_main
insert_main-OnlyStaging h none path = search staging_rules
insert_main-OnlyStaging h (some m) path = search file_rules

insert_files-OnlyStaging :
    (h : Host) (main_file : Option Text) (i : ℕ) (paths : List Text) (l : List FileFingerprint)
    (n : ℕ)
    → OnlyStaging (insert_files h main_file i paths l n)
unfolding insert_files
insert_files-OnlyStaging h m i [] l n = search staging_rules
insert_files-OnlyStaging h m i (p ∷ paths) [] n = search staging_rules
insert_files-OnlyStaging h m i (p ∷ paths) (f ∷ rest) n =
    search (file_rules, λ (k : ℕ). insert_files-OnlyStaging h m (i + 1) paths rest k)

pub stage_files-OnlyStaging :
    (h : Host) (s : Index) (paths : StoredPaths) (main_file : Option Text) (variant : Text)
    (l : Bool)
    → OnlyStaging (stage_files h s paths main_file variant l)
unfolding stage_files
stage_files-OnlyStaging h s paths main_file variant l =
    search (file_rules, insert_main-OnlyStaging, insert_files-OnlyStaging) depth 10
