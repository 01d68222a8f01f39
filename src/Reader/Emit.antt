-- ===== src/Reader/Emit.antt =====
-- How rows reach a callback in lib/semindex_database/index_db_reader.c: emit_records, and the loop
-- that semindex_db_query_symbol_types and semindex_db_query_function_types have. The rows are those
-- that sqlite3_step gives; `done` says whether SQLITE_DONE follows them or an error.
use semindex.Base.{
  ℕ, ◌+◌, ◌-◌, Bool, true, false, not, ◌&&◌, ◌||◌, List, [], ◌∷◌, length, ltb, leb, ◌==◌,
  if◌then◌else◌, ◌≡◌, refl, Bool-cases, inl, inr, keep,
}
use semindex.Reader.{Row, qualified_leaf}

-- What a loop returns: 0, -1, or what the callback returned, which ended it.
pub data Ret : Type 0 where
  success error : Ret
  stopped : ℕ → Ret

-- `position_column` and whether it is inside the leaf of the symbol's name
unfoldable pub covers : ℕ → Row → Bool
covers position r =
    position == 0
    || not (ltb position r.column || leb (length (qualified_leaf r.symbol)) (position - r.column))

-- emit_records; `callback` returns 0 to go on
unfoldable pub emit_records : (Row → ℕ) → ℕ → List Row → Bool → Ret × List Row
unfolding covers
emit_records callback position [] done = (if done then success else error, [])
emit_records callback position (r ∷ rows) done =
    let rest = emit_records callback position rows done in
    if not (covers position r)
    then rest
    else if callback r == 0
    then (rest.0, r ∷ rest.1)
    else (stopped (callback r), r ∷ [])

module _ {T : Type 0} (callback : T → ℕ) (limit : ℕ) where
  -- The rows that a callback is given, and the result; `ret` is the variable of that name.
  unfoldable pub emit_types : Ret → ℕ → List T → Bool → Ret × List T
  emit_types ret count [] done =
      (if not (limit == 0) && count == limit then success else if done then success else ret, [])
  emit_types ret count (t ∷ rows) done =
      let rest = emit_types success (count + 1) rows done in
      if not (limit == 0) && not (ltb count limit)
      then (if count == limit then success else ret, [])
      else if callback t == 0
      then (rest.0, t ∷ rest.1)
      else (stopped (callback t), t ∷ [])

-- A callback that never ends the loop.
abbrev pub GoesOn : {T : Type 0} → (T → ℕ) → Type 0
GoesOn {T} callback = (t : T) → callback t ≡ 0

-- With a callback that goes on, emit_records hands over every row at the position, in order, and
-- reports an error exactly when the last step was one.
pub emit_records-all :
    (callback : Row → ℕ) (position : ℕ) (rows : List Row) (done : Bool)
    → GoesOn callback
    → emit_records callback position rows done
      ≡ (if done then success else error, keep (covers position) rows)
unfolding emit_records keep
emit_records-all callback position [] done g = refl
emit_records-all callback position (r ∷ rows) done g =
    let e = emit_records-all callback position rows done g in
    elim (Bool-cases (covers position r)) [ inl h ↦ rw (h, g r, e) refl | inr h ↦ rw (h, e) refl ]

emit_types-success :
    {T : Type 0} (callback : T → ℕ) (count : ℕ) (rows : List T) (done : Bool)
    → GoesOn callback
    → emit_types callback 0 success count rows done ≡ (success, rows)
unfolding emit_types
emit_types-success callback count [] true g = refl
emit_types-success callback count [] false g = refl
emit_types-success callback count (t ∷ rows) done g =
    rw (g t, emit_types-success callback (count + 1) rows done g) refl

-- A query of types without a limit, whose callback goes on, returns 0 after it was given at least
-- one row, also when the step after the rows was an error; it returns -1 if the very first step
-- was one.
pub emit_types-hides_error :
    {T : Type 0} (callback : T → ℕ) (t : T) (rows : List T)
    → GoesOn callback
    → (emit_types callback 0 error 0 (t ∷ rows) false ≡ (success, t ∷ rows))
      × (emit_types callback 0 error 0 [] false ≡ (error, []))
unfolding emit_types
emit_types-hides_error callback t rows g =
    (rw (g t, emit_types-success callback (0 + 1) rows false g) refl, refl)
