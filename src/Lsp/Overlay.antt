-- ===== src/Lsp/Overlay.antt =====
-- LspOverlay of tools/lsp/lsp_overlay.cpp: the records of the files that are open, which stand for
-- those of the database. Paths are normalized and resolved by std::filesystem.
pub mod Files
pub mod Answers
use semindex.Base.{
  ℕ, ◌+◌, ◌-◌, Bool, true, false, not, ◌&&◌, ◌||◌, Option, none, some, List, [], ◌∷◌, ◌++◌, Text,
  text_eq, or_empty, ltb, leb, ◌==◌, if◌then◌else◌, length, map, keep, find,
}
use semindex.Names.Kinds.{kind_code, use_code}
use semindex.Store.Index.{Symbol, Use, Index}
use semindex.Store.Rows.{StoredKind}
use semindex.Store.Stage.{qualified_name}
use semindex.Reader.{
  Row, RecordType, declaration, definition, reference, RecordFilter, all_records, symbol_records,
  declarations, definitions, references, QueryOptions, of_text, of_number, or_zero, of_kind,
  stored_record_type, record_type, qualified_leaf,
}
use semindex.Reader.Emit.{Ret, success, error, stopped}

-- LspOverlay::Record
pub record OverlayRecord : Type 0 where
  pub symbol : Text
  pub context : Text
  pub record_kind : RecordType
  pub kind : ℕ
  pub action : ℕ
  pub mode : ℕ
  pub line : ℕ
  pub column : ℕ
  pub usr_id : ℕ
  pub context_usr_id : ℕ
  pub is_local : ℕ

-- `indices`: the records of each path
abbrev pub Overlay : Type 0
Overlay = List (Text × List OverlayRecord)

abbrev pub overlay_symbol : Symbol → OverlayRecord
overlay_symbol s = record {
  symbol = qualified_name s.owner s.name;
  context = or_empty s.context;
  record_kind = if s.definition == 0 then declaration else definition;
  kind = kind_code s.kind;
  action = s.definition;
  mode = 0;
  line = s.line;
  column = s.column;
  usr_id = s.usr_id;
  context_usr_id = 0;
  is_local = s.is_local;
}

abbrev pub overlay_use : Use → OverlayRecord
overlay_use u = record {
  symbol = qualified_name u.owner u.name;
  context = or_empty u.context;
  record_kind = reference;
  kind = kind_code u.symbol_kind;
  action = use_code u.kind;
  mode = u.mode;
  line = u.line;
  column = u.column;
  usr_id = u.usr_id;
  context_usr_id = u.context_usr_id;
  is_local = u.is_local;
}

-- std::map::find
unfoldable pub lookup : Text → Overlay → Option (List OverlayRecord)
lookup path [] = none
lookup path (e ∷ rest) =
    let found = lookup path rest in if text_eq path e.0 then some e.1 else found

-- std::map::erase and std::map::insert_or_assign
unfoldable pub without : Text → Overlay → Overlay
without path overlay = keep (λ e. not (text_eq path e.0)) overlay

abbrev pub insert_or_assign : Text → List OverlayRecord → Overlay → Overlay
insert_or_assign path records overlay = (path, records) ∷ without path overlay

-- matchesFilter
abbrev pub matches_filter : RecordFilter → RecordType → Bool
matches_filter all_records type = true
matches_filter symbol_records declaration = true
matches_filter symbol_records definition = true
matches_filter symbol_records reference = false
matches_filter declarations declaration = true
matches_filter declarations definition = false
matches_filter declarations reference = false
matches_filter definitions declaration = false
matches_filter definitions definition = true
matches_filter definitions reference = false
matches_filter references declaration = false
matches_filter references definition = false
matches_filter references reference = true

-- SemindexSourceResolver::normalize and ::resolveAgainst
module _ (normalize : Text → Text) (resolve_against : Text → Text → Text) where
  abbrev pub is_in : Text → Text → Option Text → Bool
  is_in directory main_path file = text_eq (resolve_against directory (or_empty file)) main_path

  -- The two loops of replace
  abbrev pub records_of : Text → Text → Index → List OverlayRecord
  records_of directory main_path index =
      map overlay_symbol (keep (λ s. is_in directory main_path s.file) index.symbols)
      ++ map overlay_use (keep (λ u. is_in directory main_path u.file) index.uses)

  -- LspOverlay::replace
  unfoldable pub replace : Text → Text → Index → Overlay → Overlay
  unfolding without
  replace path directory index overlay =
      insert_or_assign (normalize path) (records_of directory (normalize path) index) overlay

  -- LspOverlay::erase
  unfoldable pub erase : Text → Overlay → Overlay
  unfolding without
  erase path overlay = without (normalize path) overlay

  -- LspOverlay::contains
  unfoldable pub contains : Text → Overlay → Bool
  unfolding lookup
  contains path overlay = elim (lookup (normalize path) overlay) [ none ↦ false | some r ↦ true ]

  -- The record that emitRecord makes of a stored one
  abbrev pub emitted_row : Text → Text → OverlayRecord → Row
  emitted_row path variant r = record {
    variant = variant;
    path = path;
    line = r.line;
    column = r.column;
    stored = stored_record_type r.record_kind;
    action = r.action;
    kind = r.kind;
    symbol = r.symbol;
    context = r.context;
    mode = r.mode;
    usr_id = some r.usr_id;
    context_usr_id = some r.context_usr_id;
    is_local = r.is_local;
  }

  -- `if (line)`: the position is on the leaf of the name
  abbrev pub is_at : ℕ → ℕ → Row → Bool
  is_at line column r =
      line == 0
      || not (
          not (r.line == line)
          || ltb column r.column
          || leb (length (qualified_leaf r.symbol)) (column - r.column))

  abbrev pub same_path : Option Text → Text → Bool
  same_path none path = true
  same_path (some p) path = text_eq (normalize path) (normalize p)

  -- matchesOptions
  abbrev pub matches_options : QueryOptions → Row → Bool
  matches_options opts r =
      of_text opts.symbol r.symbol
      && same_path opts.path r.path
      && of_text opts.context r.context
      && of_number opts.mode r.mode
      && of_number opts.usr_id (or_zero r.usr_id)
      && of_kind opts.kind r.kind
      && of_number opts.is_local r.is_local
      && matches_filter opts.record_kind (record_type r.stored r.action)

  -- emitRecord for one record after the other, until a callback does not return 0
  unfoldable pub emit_each : (Row → Bool) → (Row → ℕ) → List Row → Ret × List Row
  emit_each matches callback [] = (success, [])
  emit_each matches callback (r ∷ rows) =
      let rest = emit_each matches callback rows in
      if not (matches r)
      then rest
      else if callback r == 0
      then (rest.0, r ∷ rest.1)
      else (stopped (callback r), r ∷ [])

  abbrev pub found_at :
      Text → Option Text → ℕ → ℕ → (Row → ℕ) → Option (List OverlayRecord) → Ret × List Row
  found_at path variant line column callback none = (success, [])
  found_at path variant line column callback (some records) =
      if line == 0 || column == 0
      then (error, [])
      else emit_each (is_at line column) callback
          (map (emitted_row (normalize path) (or_empty variant)) records)

  -- LspOverlay::findAt, with the records that the callback is given
  unfoldable pub find_at : Text → Option Text → ℕ → ℕ → (Row → ℕ) → Overlay → Ret × List Row
  unfolding lookup emit_each
  find_at path variant line column callback overlay =
      found_at path variant line column callback (lookup (normalize path) overlay)

  abbrev pub found_by :
      Text → Option Text → QueryOptions → (Row → ℕ) → Option (List OverlayRecord) → Ret × List Row
  found_by path variant opts callback none = (success, [])
  found_by path variant opts callback (some records) =
      emit_each (matches_options opts) callback
        (map (emitted_row (normalize path) (or_empty variant)) records)

  -- LspOverlay::query
  unfoldable pub query : Text → Option Text → QueryOptions → (Row → ℕ) → Overlay → Ret × List Row
  unfolding lookup emit_each
  query path variant opts callback overlay =
      found_by path variant opts callback (lookup (normalize path) overlay)
