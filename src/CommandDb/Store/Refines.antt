-- ===== src/CommandDb/Store/Refines.antt =====
-- command_db_store of lib/semindex_command_db/command_db_writer.c refines a map from variants and
-- files to commands.
use mathlib.Core.Path.{subst}
use semindex.Base.{
  Bool, true, false, not, Option, none, some, List, [], ◌∷◌, is_some, ◌==◌, if◌then◌else◌, ◌≡◌,
  refl, sym, ◌∙◌, Option-cases, inl, inr,
}
use semindex.Base.Effects.{◌>>◌}
use semindex.Base.Effects.Triple.{
  Triple, Post, Triple-bind, Triple-pure, Triple-fail, Triple-if, Triple-gets, Triple-weaken,
}
use semindex.Repository.{Host}
use semindex.CommandDb.{CommandDb, CommandRow, command_db_schema_version}
use semindex.CommandDb.Connection.{
  Answer, Connection, M, begin_immediate, commit, exec_sql, command_db_prepare, read_once,
  step_once, on_db, rollback_ignored, schema_version, close, restore, save, interfere, begin_in,
}
use semindex.CommandDb.Connection.Rules.{
  Triple-call_retried, Triple-call_once, Triple-or_rollback, rollback_ignored_elim,
}
use semindex.CommandDb.Store.{
  create_table, set_version, create_schema, init_schema, open_writer, upsert, CommandRequest,
  requested_row, write_row, write_and_close, store_row, command_db_store,
}
use semindex.CommandDb.Store.View.{Commands, Shows, put, upsert-Shows, create_table-Shows}

-- The tables show a map, and so does what a ROLLBACK would bring back.
record Holds (c : Commands) (w : Connection) : Type 0 where
  alone : w.others ≡ []
  shows : Shows w.db c
  saved : (db : CommandDb) → w.saved ≡ some db → Shows db c

-- The same outside a transaction.
pub record Rests (c : Commands) (w : Connection) : Type 0 where
  pub alone : w.others ≡ []
  pub shows : Shows w.db c
  pub closed : w.saved ≡ none

Rests-Holds : (c : Commands) (w : Connection) → Rests c w → Holds c w
Rests-Holds c w h = record {
  alone = h.alone;
  shows = h.shows;
  saved = λ db e. absurd (cc (sym h.closed ∙ e));
}

pub interfere-none : (w : Connection) → w.others ≡ [] → interfere w.others w ≡ w
interfere-none w h = go w.others h
  where
    go : (l : List (CommandDb → CommandDb)) → l ≡ [] → interfere l w ≡ w
    go [] e = refl
    go (g ∷ l) e = absurd (cc e)

-- Both say nothing of what SQLite will answer.
record IsSteady (c : Commands) (P : Connection → Type 0) : Type 0 where
  retries : (w : Connection) (rs : List Answer) → P w → P (record w { retried = rs })
  calls : (w : Connection) (bs : List Bool) → P w → P (record w { once = bs })
  tables : (w : Connection) (db : CommandDb) → Shows db c → P w → P (record w { db = db })
  shows : (w : Connection) → P w → Shows w.db c

Holds-IsSteady : (c : Commands) → IsSteady c (Holds c)
Holds-IsSteady c = record {
  retries = λ w rs h. record { alone = h.alone; shows = h.shows; saved = h.saved };
  calls = λ w bs h. record { alone = h.alone; shows = h.shows; saved = h.saved };
  tables = λ w db k h. record { alone = h.alone; shows = k; saved = h.saved };
  shows = λ w h. h.shows;
}

Rests-IsSteady : (c : Commands) → IsSteady c (Rests c)
Rests-IsSteady c = record {
  retries = λ w rs h. record { alone = h.alone; shows = h.shows; closed = h.closed };
  calls = λ w bs h. record { alone = h.alone; shows = h.shows; closed = h.closed };
  tables = λ w db k h. record { alone = h.alone; shows = k; closed = h.closed };
  shows = λ w h. h.shows;
}

-- A statement that leaves the map as it is.
Keeps : Commands → (CommandDb → Option CommandDb) → Type 0
Keeps c f = (db db' : CommandDb) → f db ≡ some db' → Shows db c → Shows db' c

on_db-elim :
    (P : Connection → Type 0) (f : CommandDb → Option CommandDb) (w w' : Connection)
    → on_db f w ≡ some w'
    → ((db : CommandDb) → f w.db ≡ some db → P (record w { db = db }))
    → P w'
on_db-elim P f w w' e k = elim (Option-cases (f w.db)) [
  | inl n ↦ absurd (cc (rw (on_db, n) at e))
  | inr (db, s) ↦ subst P (cc (rw (on_db, s) at e)) (k db s)
]

module _ (c : Commands) (P : Connection → Type 0) (st : IsSteady c P) where
  exec_sql-keeps : (f : CommandDb → Option CommandDb) → Keeps c f → Triple P (exec_sql f) (λ _. P) P
  unfolding exec_sql Keeps
  exec_sql-keeps f k = Triple-call_retried (on_db f) st.retries (λ w rs w' h e.
      let v = record w { retried = rs } in
      on_db-elim P f v w' e
        (λ db s. st.tables v db (k w.db db s (st.shows w h)) (st.retries w rs h)))

  prepare-keeps : (valid : CommandDb → Bool) → Triple P (command_db_prepare valid) (λ _. P) P
  unfolding command_db_prepare
  prepare-keeps valid =
      Triple-call_retried _ st.retries (λ w rs w' h e. of_valid (valid w.db) w w' rs h e)
    where
      of_valid :
          (b : Bool) (w w' : Connection) (rs : List Answer)
          → P w
          → (elim b [ true ↦ some (record w { retried = rs }) | false ↦ none ]) ≡ some w'
          → P w'
      of_valid true w w' rs h e = subst P (cc e) (st.retries w rs h)
      of_valid false w w' rs h e = absurd (cc e)

  read_once-keeps : Triple P read_once (λ _. P) P
  unfolding read_once
  read_once-keeps = Triple-call_once _ st.calls (λ w bs w' h e. subst P (cc e) (st.calls w bs h))

  schema_version-keeps : Triple P schema_version (λ _. P) P
  unfolding schema_version
  schema_version-keeps = Triple-bind {Q = λ _. P} _ _ (prepare-keeps (λ db. true)) (λ _.
      Triple-bind {Q = λ _. P} _ _ read_once-keeps (λ _.
        Triple-weaken {P = P} {Q = λ a w. P w × (a ≡ w.db.version)} {E = P} _ (λ w h. h)
          (λ a w h. h.0) (λ w h. h) (Triple-gets (λ w. w.db.version))))

module _ (c : Commands) where
  create_table-Keeps : Keeps c create_table
  unfolding Keeps
  create_table-Keeps db db' = create_table-Shows db db' c

  set_version-Keeps : Keeps c set_version
  unfolding Keeps
  set_version-Keeps db db' e h =
      subst (λ d. Shows d c) {x = record db { version = command_db_schema_version }} {y = db'}
        (cc e) h

  create_schema-Holds : Triple (Holds c) create_schema (λ _. Holds c) (Holds c)
  unfolding create_schema
  create_schema-Holds =
      let st = Holds-IsSteady c in
      Triple-bind {Q = λ _. Holds c} _ _ (schema_version-keeps c (Holds c) st) (λ version.
        Triple-if (version == command_db_schema_version) _ _ (λ _. Triple-pure tt (λ w h. h))
          (λ _.
            Triple-bind {Q = λ _. Holds c} _ _
              (exec_sql-keeps c (Holds c) st create_table create_table-Keeps)
              (λ _. exec_sql-keeps c (Holds c) st set_version set_version-Keeps)))

  begin-Holds : Triple (Rests c) begin_immediate (λ _. Holds c) (Holds c)
  unfolding begin_immediate
  begin-Holds =
      let st = Rests-IsSteady c in
      Triple-call_retried _ (λ w rs h. Rests-Holds c _ (st.retries w rs h))
        (λ w rs w' h e.
          let v = record w { retried = rs } in
          let sole : begin_in none v ≡ some w' = subst (λ o. begin_in o v ≡ some w') h.closed e in
          let begun : some (save v) ≡ some w' =
            subst (λ u. some (save u) ≡ some w') (interfere-none v h.alone) sole in
          subst (Holds c) {x = save v} (cc begun) (record {
            alone = h.alone;
            shows = h.shows;
            saved = λ db k. subst (λ d. Shows d c) {x = w.db} {y = db} (cc k) h.shows;
          }))

  commit-Rests : Triple (Holds c) commit (λ _. Rests c) (Holds c)
  unfolding commit
  commit-Rests = Triple-call_retried _ (Holds-IsSteady c).retries (λ w rs w' h e.
      subst (Rests c) {x = record w { retried = rs; saved = none }} (cc e)
        (record { alone = h.alone; shows = h.shows; closed = refl }))

  restore-Rests : (w : Connection) → Holds c w → Rests c (restore w.saved w)
  restore-Rests w h = go w.saved refl
    where
      go : (s : Option CommandDb) → w.saved ≡ s → Rests c (restore s w)
      go none e = record { alone = h.alone; shows = h.shows; closed = e }
      go (some db) e = record { alone = h.alone; shows = h.saved db e; closed = refl }

  rollback-Holds : (w : Connection) → Holds c w → Holds c (rollback_ignored w)
  rollback-Holds w h =
      rollback_ignored_elim (Holds c) w (λ rs. (Holds-IsSteady c).retries w rs h)
        (λ rs.
          Rests-Holds c _
            (restore-Rests (record w { retried = rs }) ((Holds-IsSteady c).retries w rs h)))

  init_schema-Rests : Triple (Rests c) init_schema (λ _. Rests c) (Holds c)
  unfolding init_schema
  init_schema-Rests =
      Triple-bind {Q = λ _. Rests c} _ _
        (Triple-weaken _ (λ w h. h) (λ a w h. h) (Rests-Holds c)
          (schema_version-keeps c (Rests c) (Rests-IsSteady c)))
        (λ version.
          Triple-if (version == command_db_schema_version) _ _ (λ _. Triple-pure tt (λ w h. h))
            (λ _.
              Triple-if (not (version == 0)) _ _ (λ _. Triple-fail (Rests-Holds c))
                (λ _. Triple-bind {Q = λ _. Holds c} _ _ begin-Holds (λ _.
                  Triple-bind {Q = λ _. Holds c} _ _
                    (Triple-or_rollback _ create_schema-Holds rollback-Holds)
                    (λ _. commit-Rests)))))

  -- A first step that leaves the map as it is, and may fail.
  first :
      (m : M (Unit {0})) {A : Type 0} {Q : A → Connection → Type 0} (n : M A)
      → Triple (Rests c) m (λ _. Rests c) (Rests c)
      → Triple (Rests c) n Q (Holds c)
      → Triple (Rests c) (m >> n) Q (Holds c)
  first m n t u =
      Triple-bind {Q = λ _. Rests c} m (λ _. n)
        (Triple-weaken m (λ w h. h) (λ a w h. h) (Rests-Holds c) t) (λ _. u)

  any_db-Keeps : Keeps c (λ db. some db)
  unfolding Keeps
  any_db-Keeps db db' e h = subst (λ d. Shows d c) {x = db} {y = db'} (cc e) h

  open_writer-Rests : Triple (Rests c) open_writer (λ _. Rests c) (Holds c)
  unfolding open_writer
  open_writer-Rests =
      let st = Rests-IsSteady c in
      let read = read_once-keeps c (Rests c) st in
      let pragma = exec_sql-keeps c (Rests c) st (λ db. some db) any_db-Keeps in
      first _ _ read
        (first _ _ read (first _ _ read (first _ _ pragma (first _ _ pragma init_schema-Rests))))

  upsert-Rests :
      (row : CommandRow)
      → Triple (Rests c) (step_once (upsert row)) (λ _. Rests (put row c)) (Holds c)
  unfolding step_once
  upsert-Rests row =
      Triple-call_once _ (λ w bs h. Rests-Holds c _ ((Rests-IsSteady c).calls w bs h))
        (λ w bs w' h e.
          let v = record w { once = bs } in
          let done : on_db (upsert row) v ≡ some w' =
            subst (λ u. on_db (upsert row) u ≡ some w') (interfere-none v h.alone) e in
          on_db-elim (Rests (put row c)) (upsert row) v w' done (λ db s. record {
            alone = h.alone;
            shows = upsert-Shows row w.db db c s h.shows;
            closed = h.closed;
          }))

  write_row-Rests :
      (row : CommandRow) → Triple (Rests c) (write_row row) (λ _. Rests (put row c)) (Holds c)
  unfolding write_row
  write_row-Rests row =
      let st = Rests-IsSteady c in
      let read = read_once-keeps c (Rests c) st in
      Triple-bind {Q = λ _. Rests c} _ _ open_writer-Rests (λ _.
        first _ _ (prepare-keeps c (Rests c) st _)
          (first _ _ read (first _ _ read (first _ _ read (first _ _ read (upsert-Rests row))))))

-- What a store makes of the map.
abbrev pub stored : Host → CommandRequest → Bool → Commands → Commands
stored h r ok c = if ok then elim (requested_row h r) [ none ↦ c | some row ↦ put row c ] else c

write_and_close-Rests :
    (c : Commands) (row : CommandRow) (w : Connection)
    → Rests c w
    → Rests (if is_some (write_and_close row w).0 then put row c else c) (write_and_close row w).1
unfolding write_and_close close
write_and_close-Rests c row w h = of_post _ _ ((write_row-Rests c row).run w h)
  where
    of_post :
        (r : Option (Unit {0})) (v : Connection)
        → Post (λ _. Rests (put row c)) (Holds c) r v
        → Rests (if is_some r then put row c else c) (restore v.saved v)
    of_post none v p = restore-Rests c v p
    of_post (some u) v p = restore-Rests (put row c) v (Rests-Holds (put row c) v p)

pub command_db_store-Rests :
    (h : Host) (r : CommandRequest) (c : Commands) (w : Connection)
    → Rests c w
    → Rests (stored h r (is_some (command_db_store h r w).0) c) (command_db_store h r w).1
unfolding command_db_store
command_db_store-Rests h r c w k =
    elim (requested_row h r)
      as (λ o.
        Rests (if is_some (store_row o w).0 then elim o [ none ↦ c | some row ↦ put row c ] else c)
          (store_row o w).1) [ none ↦ k | some row ↦ write_and_close-Rests c row w k ]
