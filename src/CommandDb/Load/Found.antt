-- ===== src/CommandDb/Load/Found.antt =====
-- What command_db_load of lib/semindex_command_db/command_db_reader.c finds.
use mathlib.Core.Path.{subst}
use semindex.Base.{
  Bool, true, false, Option, none, some, List, [], Text, codes, is_empty, ◌==◌, All, ◌≡◌, refl, sym,
  ap, ◌∙◌, Option-cases, Bool-cases, inl, inr,
}
use semindex.Base.Effects.{◌>>◌, fail}
use semindex.Base.Effects.Triple.{
  Triple, Post, Triple-bind, Triple-pure, Triple-fail, Triple-if, Triple-gets, Triple-weaken,
}
use semindex.Repository.{Host}
use semindex.CommandDb.{
  CompileCommand, CommandDb, CommandRow, command_db_schema_version, command_db_absolute_path,
}
use semindex.CommandDb.Arguments.{unpack_arguments}
use semindex.CommandDb.Connection.{Connection, M, command_db_prepare, read_once, schema_version}
use semindex.CommandDb.Connection.Rules.{Triple-call_retried, Triple-call_once}
use semindex.CommandDb.Store.{CommandRequest}
use semindex.CommandDb.Store.View.{view, command_of}
use semindex.CommandDb.Store.History.{
  command_of-unpack, IsClean, store_all, after, store_all-refines,
}
use semindex.CommandDb.Load.{
  command_db_open_reader, selected, of_row, read_command, read_and_close, command_db_load,
}

Sees : CommandDb → Connection → Type 0
Sees db w = w.db ≡ db

module _ (db : CommandDb) where
  prepare-Sees :
      (valid : CommandDb → Bool)
      → Triple (Sees db) (command_db_prepare valid) (λ _. Sees db) (Sees db)
  unfolding command_db_prepare Sees
  prepare-Sees valid =
      Triple-call_retried _ (λ w rs h. h)
        (λ w rs w' h e. of_valid (valid w.db) (record w { retried = rs }) w' h e)
    where
      of_valid :
          (b : Bool) (w w' : Connection)
          → Sees db w
          → (elim b [ true ↦ some w | false ↦ none ]) ≡ some w'
          → Sees db w'
      of_valid true w w' h e = subst (Sees db) {x = w} {y = w'} (cc e) h
      of_valid false w w' h e = absurd (cc e)

  read_once-Sees : Triple (Sees db) read_once (λ _. Sees db) (Sees db)
  unfolding read_once Sees
  read_once-Sees =
      Triple-call_once _ (λ w bs h. h)
        (λ w bs w' h e. subst (Sees db) {x = record w { once = bs }} {y = w'} (cc e) h)

  schema_version-Sees : Triple (Sees db) schema_version (λ _. Sees db) (Sees db)
  unfolding schema_version
  schema_version-Sees = Triple-bind {Q = λ _. Sees db} _ _ (prepare-Sees (λ d. true)) (λ _.
      Triple-bind {Q = λ _. Sees db} _ _ read_once-Sees (λ _.
        Triple-weaken {P = Sees db} {Q = λ a w. Sees db w × (a ≡ w.db.version)} {E = Sees db} _
          (λ w h. h) (λ a w h. h.0) (λ w h. h) (Triple-gets (λ w. w.db.version))))

  open_reader-Sees : Triple (Sees db) command_db_open_reader (λ _. Sees db) (Sees db)
  unfolding command_db_open_reader
  open_reader-Sees = Triple-bind {Q = λ _. Sees db} _ _ read_once-Sees (λ _.
      Triple-bind {Q = λ _. Sees db} _ _ read_once-Sees (λ _.
        Triple-bind {Q = λ _. Sees db} _ _ schema_version-Sees (λ version.
          Triple-if (version == command_db_schema_version) _ _ (λ _. Triple-pure tt (λ w h. h))
            (λ _. Triple-fail (λ w h. h)))))

  view-selected :
      (variant file : Text) (row : Option CommandRow) (w : Connection)
      → Sees db w × (row ≡ selected variant file w.db)
      → (elim row [ none ↦ none | some r ↦ command_of r ]) ≡ view db variant file
  unfolding Sees
  view-selected variant file row w (same, e) =
      ap (λ (o : Option CommandRow). elim o [ none ↦ none | some r ↦ command_of r ]) e
      ∙ ap (λ d. view d variant file) same

  -- A row that is handed over is what the map has.
  of_row-view :
      (variant file : Text) (row : Option CommandRow)
      → Triple
          (λ w. Sees db w × (row ≡ selected variant file w.db))
          (of_row row)
          (λ r _. r ≡ view db variant file)
          (λ _. Unit)
  of_row-view variant file none = Triple-pure none (view-selected variant file none)
  of_row-view variant file (some r) = elim (Option-cases (unpack_arguments r.arguments)) [
    | inl n ↦ rw n (Triple-fail (λ w h. tt))
    | inr (argv, s) ↦ rw s (
        Triple-pure _
          (λ w h. sym (command_of-unpack r argv s) ∙ view-selected variant file (some r) w h))
  ]

  read_command-view :
      (variant file : Text)
      → Triple (Sees db) (read_command variant file) (λ r _. r ≡ view db variant file) (λ _. Unit)
  unfolding read_command
  read_command-view variant file = then_ _ _ open_reader-Sees (
      then_ _ _ (prepare-Sees _) (
        then_ _ _ read_once-Sees (
          then_ _ _ read_once-Sees (
            then_ _ _ read_once-Sees (
              Triple-bind {Q = λ row w. Sees db w × (row ≡ selected variant file w.db)} _ _
                (Triple-gets _) (of_row-view variant file))))))
    where
      then_ :
          {A : Type 0} {Q : A → Connection → Type 0} (m : M (Unit {0})) (n : M A)
          → Triple (Sees db) m (λ _. Sees db) (Sees db)
          → Triple (Sees db) n Q (λ _. Unit)
          → Triple (Sees db) (m >> n) Q (λ _. Unit)
      then_ m n t u =
          Triple-bind {Q = λ _. Sees db} m (λ _. n)
            (Triple-weaken m (λ w h. h) (λ a w h. h) (λ w h. tt) t) (λ _. u)

returned :
    (d : Option CompileCommand) (r : Option (Option CompileCommand)) (w : Connection)
    → Post (λ a _. a ≡ d) (λ _. Unit) r w
    → (a : Option CompileCommand) → r ≡ some a
    → a ≡ d
returned d none w h a e = absurd (cc e)
returned d (some b) w h a e = sym (cc e) ∙ h

-- What a load returns is what the map of the database has for the variant and the absolute path of
-- the file, and nothing where it has nothing.
pub command_db_load-view :
    (h : Host) (path variant file : Text) (w : Connection) (r : Option CompileCommand)
    → (command_db_load h (some path) (some variant) (some file) w).0 ≡ some r
    → r ≡ view w.db variant (command_db_absolute_path h (codes ".") file)
unfolding command_db_load read_and_close fail Sees
command_db_load-view h path variant file w r e = elim (Bool-cases (is_empty variant)) [
  | inl bad ↦ absurd (cc (rw bad at e))
  | inr good ↦
      let abs_file = command_db_absolute_path h (codes ".") file in
      returned _ _ _ ((read_command-view w.db variant abs_file).run w refl) r (rw good at e)
]

-- After any calls of command_db_store, whichever of them failed, a load that returns gives the
-- command of the last call for its variant and file that returned 0, or what the database had for
-- them if there was none. No other process writes to the database, no transaction is open at first,
-- and the arguments are C strings.
pub store_all-load :
    (h : Host) (rs : List CommandRequest) (w : Connection) (path variant file : Text)
    → All IsClean rs
    → w.others ≡ []
    → w.saved ≡ none
    → (r : Option CompileCommand)
    → (command_db_load h (some path) (some variant) (some file) (store_all h rs w).1).0 ≡ some r
    → r
      ≡ after h rs
          (store_all h rs w).0
          (view w.db)
          variant
          (command_db_absolute_path h (codes ".") file)
store_all-load h rs w path variant file clean alone closed r e =
    command_db_load-view h path variant file (store_all h rs w).1 r e
    ∙ store_all-refines h rs w clean alone closed variant
        (command_db_absolute_path h (codes ".") file)
