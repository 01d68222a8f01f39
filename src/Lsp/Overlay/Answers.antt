-- ===== src/Lsp/Overlay/Answers.antt =====
-- LspOverlay of tools/lsp/lsp_overlay.cpp answers as lib/semindex_database/index_db_reader.c does.
use semindex.Base.{
  ℕ, true, false, ◌&&◌, Option, some, List, [], ◌∷◌, map, Text, or_empty, ◌==◌, keep, ◌≡◌, refl,
  ◌∙◌, arith, Bool-cases, inl, inr,
}
use semindex.Reader.{Row}
use semindex.Reader.Emit.{covers, emit_records}
use semindex.Lsp.Overlay.{
  OverlayRecord, Overlay, lookup, emitted_row, is_at, emit_each, found_at, find_at,
}

module _ (normalize : Text → Text) (resolve_against : Text → Text → Text) where
  -- The rows of a file of the overlay
  abbrev pub rows_of : Text → Option Text → List OverlayRecord → List Row
  rows_of path variant records =
      map (emitted_row normalize resolve_against (normalize path) (or_empty variant)) records

  is_at-covers :
      (line column : ℕ) (r : Row)
      → (line == 0) ≡ false
      → (column == 0) ≡ false
      → is_at normalize resolve_against line column r ≡ (r.line == line && covers column r)
  unfolding covers
  is_at-covers line column r h k = ground (arith, h, k)

  emit_each-emit_records :
      (line column : ℕ) (callback : Row → ℕ) (rows : List Row)
      → (line == 0) ≡ false
      → (column == 0) ≡ false
      → emit_each normalize resolve_against
          (is_at normalize resolve_against line column)
          callback
          rows
        ≡ emit_records callback column (keep (λ r. r.line == line) rows) true
  unfolding emit_each emit_records keep
  emit_each-emit_records line column callback [] h k = refl
  emit_each-emit_records line column callback (r ∷ rows) h k =
      let at = is_at-covers line column r h k in
      let rest = emit_each-emit_records line column callback rows h k in
      elim (Bool-cases (r.line == line)) [
        | inl e ↦ elim (Bool-cases (covers column r)) [
          | inl c ↦
              let inside : is_at normalize resolve_against line column r ≡ true =
                at ∙ ground (arith, e, c) in
              rw (inside, e, emit_records, c, rest) refl
          | inr c ↦
              let outside : is_at normalize resolve_against line column r ≡ false =
                at ∙ ground (arith, e, c) in
              rw (outside, e, emit_records, c) rest
        ]
        | inr e ↦
            let outside : is_at normalize resolve_against line column r ≡ false =
              at ∙ ground (arith, e) in
            rw (outside, e) rest
      ]

  -- For a position, counted from 1, in a file of the overlay, the callback is given what
  -- emit_records of the database would give it of the rows of that line.
  pub find_at-emit_records :
      (path : Text) (variant : Option Text) (line column : ℕ) (callback : Row → ℕ) (o : Overlay)
      (records : List OverlayRecord)
      → lookup (normalize path) o ≡ some records
      → (line == 0) ≡ false
      → (column == 0) ≡ false
      → find_at normalize resolve_against path variant line column callback o
        ≡ emit_records callback column
            (keep (λ r. r.line == line) (rows_of path variant records))
            true
  unfolding find_at
  find_at-emit_records path variant line column callback o records e h k =
      rw (find_at, e, found_at, h, k)
        (emit_each-emit_records line column callback (rows_of path variant records) h k)
