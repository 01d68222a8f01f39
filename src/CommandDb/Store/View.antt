-- ===== src/CommandDb/Store/View.antt =====
-- The table of lib/semindex_command_db as a map from variants and files to commands, and what an
-- upsert of lib/semindex_command_db/command_db_writer.c does to it.
use mathlib.Core.Path.{subst}
use semindex.Base.{
  Bool, true, false, ◌&&◌, Option, none, some, List, [], ◌∷◌, ◌++◌, map, any, find, Text,
  text_eq_iff, text_eq_refl, if◌then◌else◌, ◌≡◌, refl, sym, ◌∙◌, arith, inl, inr, Bool-cases,
}
use semindex.CommandDb.{CompileCommand, CommandDb, CommandRow, is_key}
use semindex.CommandDb.Arguments.{unpack_arguments}
use semindex.CommandDb.Store.{create_table, update_row, upsert_rows, upsert}
use semindex.CommandDb.Load.{selected}

-- What a row stands for; a row whose blob is malformed stands for nothing.
abbrev pub command_of : CommandRow → Option CompileCommand
command_of r = elim (unpack_arguments r.arguments) [
  | none ↦ none
  | some argv ↦ some (record { directory = r.directory; file = r.file; argv = argv })
]

-- The map: the command of a variant and an absolute file.
abbrev pub Commands : Type 0
Commands = Text → Text → Option CompileCommand

abbrev pub view : CommandDb → Commands
view db variant file = elim (selected variant file db) [ none ↦ none | some r ↦ command_of r ]

abbrev pub put : CommandRow → Commands → Commands
put row commands variant file =
    if is_key variant file row then command_of row else commands variant file

abbrev pub Shows : CommandDb → Commands → Type 0
Shows db c = (variant file : Text) → view db variant file ≡ c variant file

is_key-same :
    (r s : CommandRow)
    → is_key r.variant r.file s ≡ true
    → (variant file : Text) → is_key variant file s ≡ is_key variant file r
is_key-same r s h variant file =
    let v : s.variant ≡ r.variant = (text_eq_iff _ _).0 (ground (arith, h)) in
    let f : s.file ≡ r.file = (text_eq_iff _ _).0 (ground (arith, h)) in rw (v, f) refl

is_key-both :
    (r s : CommandRow) (variant file : Text)
    → is_key variant file r ≡ true
    → is_key variant file s ≡ true
    → is_key r.variant r.file s ≡ true
is_key-both r s variant file h k =
    let v : s.variant ≡ r.variant =
      (text_eq_iff s.variant variant).0 (ground (arith, k))
      ∙ sym ((text_eq_iff r.variant variant).0 (ground (arith, h))) in
    let f : s.file ≡ r.file =
      (text_eq_iff s.file file).0 (ground (arith, k))
      ∙ sym ((text_eq_iff r.file file).0 (ground (arith, h))) in
    rw (v, f, text_eq_refl r.variant, text_eq_refl r.file) refl

abbrev found : Text → Text → List CommandRow → Option CompileCommand
found variant file rows = elim (find (is_key variant file) rows) [
  | none ↦ none
  | some r ↦ command_of r
]

found-cons :
    (variant file : Text) (r : CommandRow) (rows : List CommandRow)
    → found variant file (r ∷ rows)
      ≡ (if is_key variant file r then command_of r else found variant file rows)
unfolding find
found-cons variant file r rows = by_test (is_key variant file r)
  where
    by_test :
        (b : Bool)
        → (elim (if b then some r else find (is_key variant file) rows) [
          | none ↦ none
          | some s ↦ command_of s
        ])
          ≡ (if b then command_of r else found variant file rows)
    by_test true = refl
    by_test false = refl

abbrev updated : CommandRow → CommandRow → CommandRow
updated row r = record r { directory = row.directory; arguments = row.arguments }

command_of-updated :
    (row r : CommandRow)
    → is_key row.variant row.file r ≡ true
    → command_of (record r { directory = row.directory; arguments = row.arguments })
      ≡ command_of row
command_of-updated row r h =
    let f : r.file ≡ row.file = (text_eq_iff _ _).0 (ground (arith, h)) in rw f refl

not_both :
    (row r : CommandRow) (variant file : Text)
    → is_key row.variant row.file r ≡ false
    → (is_key variant file r && is_key variant file row) ≡ false
not_both row r variant file e = ground (arith, e, is_key-both row r variant file)

found-update :
    (row : CommandRow) (variant file : Text) (rows : List CommandRow)
    → found variant file (map (update_row row) rows) ≡ (
        if is_key variant file row && any (is_key row.variant row.file) rows
        then command_of row
        else found variant file rows)
unfolding any
found-update row variant file [] = ground arith
found-update row variant file (r ∷ rows) =
    let rest = found-update row variant file rows in
    let it = found-cons variant file r rows in
    elim (Bool-cases (is_key row.variant row.file r)) [
      | inl e ↦
          let same = is_key-same row r e variant file in
          let whole = command_of-updated row r e in
          rw (e, found-cons variant file (updated row r) (map (update_row row) rows))
            (ground (arith, it, same, whole, rest))
      | inr e ↦
          let no : (is_key variant file r && is_key variant file row) ≡ false =
            not_both row r variant file e in
          rw (e, found-cons variant file r (map (update_row row) rows))
            (ground (arith, it, no, rest))
    ]

found-append :
    (row : CommandRow) (variant file : Text) (rows : List CommandRow)
    → any (is_key row.variant row.file) rows ≡ false
    → found variant file (rows ++ row ∷ [])
      ≡ (if is_key variant file row then command_of row else found variant file rows)
unfolding any
found-append row variant file [] h = found-cons variant file row []
found-append row variant file (r ∷ rows) h =
    let e : is_key row.variant row.file r ≡ false = ground (arith, h) in
    let rest = found-append row variant file rows (ground (arith, h)) in
    let no = not_both row r variant file e in
    rw (found-cons variant file r (rows ++ row ∷ []))
      (ground (arith, found-cons variant file r rows, no, rest))

found-upsert_rows :
    (row : CommandRow) (variant file : Text) (rows : List CommandRow)
    → found variant file (upsert_rows row rows)
      ≡ (if is_key variant file row then command_of row else found variant file rows)
unfolding upsert_rows
found-upsert_rows row variant file rows =
    elim (Bool-cases (any (is_key row.variant row.file) rows)) [
      | inl e ↦ rw e (ground (arith, found-update row variant file rows, e))
      | inr e ↦ rw e (found-append row variant file rows e)
    ]

-- An upsert puts its row into the map.
pub upsert-Shows :
    (row : CommandRow) (db db' : CommandDb) (c : Commands)
    → upsert row db ≡ some db'
    → Shows db c
    → Shows db' (put row c)
upsert-Shows row db db' c e h = go db.commands refl
  where
    go : (t : Option (List CommandRow)) → db.commands ≡ t → Shows db' (put row c)
    go none k = absurd (cc (rw k at e))
    go (some rows) k =
        let end : record db { commands = some (upsert_rows row rows) } ≡ db' = cc (rw k at e) in
        subst (λ d. Shows d (put row c)) end
          (λ variant file.
            let before : found variant file rows ≡ c variant file = rw k at (h variant file) in
            ground (arith, found-upsert_rows row variant file rows, before))

-- Making the table and setting the version leave the map as it is.
pub create_table-Shows :
    (db db' : CommandDb) (c : Commands) → create_table db ≡ some db' → Shows db c → Shows db' c
unfolding find
create_table-Shows db db' c e h = go db.commands refl
  where
    go : (t : Option (List CommandRow)) → db.commands ≡ t → Shows db' c
    go (some rows) k = absurd (cc (rw k at e))
    go none k =
        let end : record db { commands = some [] } ≡ db' = cc (rw k at e) in
        subst (λ d. Shows d c) end (λ variant file. rw k at (h variant file))
