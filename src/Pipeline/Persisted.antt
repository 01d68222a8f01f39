-- ===== src/Pipeline/Persisted.antt =====
-- What index_pipeline_run of lib/semindex_pipeline/index_pipeline.c reports, against what the two
-- databases hold.
use mathlib.Core.Path.{subst}
use semindex.Base.{
  Bool, true, false, ◌||◌, Option, none, some, Text, [], is_some, if◌then◌else◌, ◌≡◌, refl, sym,
  ◌⊎◌, inl, inr, All,
}
use semindex.Repository.{Host, repository_root_explicit}
use semindex.Store.Session.{World}
use semindex.Store.Run.{index_db_store}
use semindex.Store.Run.Durable.{Untouched, same}
use semindex.Store.Run.Atomic.{Ends, index_db_store_atomic}
use semindex.CommandDb.{CompileCommand}
use semindex.CommandDb.Arguments.RoundTrip.{IsCString}
use semindex.CommandDb.Connection.{Connection}
use semindex.CommandDb.Store.{command_db_store}
use semindex.CommandDb.Store.View.{view}
use semindex.CommandDb.Store.Refines.{Rests}
use semindex.CommandDb.Store.History.{asked, put_command, command_db_store-put}
use semindex.Pipeline.{
  Storage, output_only, store_symbols, store_symbols_and_command, Stage, stage_none, stage_create,
  stage_repository_root, stage_frontend, stage_fingerprint, stage_symbol_database,
  stage_command_database, Status, index_clean, index_partial, index_failed, Frontend, Request,
  Result, Databases, stop, succeed, command_request, end_command, store_command, after_symbols,
  end_symbols, symbol_request, store_index, with_root, check_fingerprints, is_returned, is_output,
  result_command, after_frontend, index_pipeline_run,
}

abbrev is_none : Stage → Bool
is_none stage_none = true
is_none stage_create = false
is_none stage_repository_root = false
is_none stage_frontend = false
is_none stage_fingerprint = false
is_none stage_symbol_database = false
is_none stage_command_database = false

-- The symbols are the whole of one merge, of what was staged of the request's index.
abbrev pub IsMerged : Host → Frontend → Request → World → World → Type 0
IsMerged h fe r w w' = (given : Option Text) × Ends h (symbol_request h fe r given) w (some tt) w'

-- What the databases hold, for what is reported to be stored.
abbrev pub IsPersisted :
    Host → Frontend → Request → Storage → Option CompileCommand → Databases → Databases → Type 0
IsPersisted h fe r output_only command s s' =
    Untouched s.symbols.db s.symbols.writers s'.symbols.db s'.symbols.writers
    × (s'.commands ≡ s.commands)
IsPersisted h fe r store_symbols command s s' =
    IsMerged h fe r s.symbols s'.symbols × Rests (view s.commands.db) s'.commands
IsPersisted h fe r store_symbols_and_command command s s' =
    IsMerged h fe r s.symbols s'.symbols
    × (c : CompileCommand) × (command ≡ some c)
    × Rests (put_command (asked h (command_request h fe r c)) (view s.commands.db)) s'.commands

pub record Reported (h : Host) (fe : Frontend) (r : Request) (s : Databases) (result : Result)
    (s' : Databases) : Type 0 where
  pub persisted : IsPersisted h fe r result.persisted result.command s s'
  pub stage : result.ok ≡ is_none result.failed_stage
  pub reached : result.ok ≡ true → (result.persisted ≡ r.storage) ⊎ (result.persisted ≡ output_only)

module _ (h : Host) (fe : Frontend) (r : Request) (s : Databases)
    (rests : Rests (view s.commands.db) s.commands) where
  Told : Result × Databases → Type 0
  Told (result, s') = Reported h fe r s result s'

  HasArguments : Option CompileCommand → Type 0
  HasArguments command = (c : CompileCommand) → command ≡ some c → All IsCString c.argv

  early :
      (stage : Stage) (command : Option CompileCommand)
      → is_none stage ≡ false
      → Told (stop h fe r stage output_only command s)
  unfolding Told
  early stage command e = record {
    persisted = (same refl refl, refl);
    stage = sym e;
    reached = λ bad. absurd (cc bad);
  }

  returned : (command : Option CompileCommand) → Told (succeed h fe r output_only command s)
  unfolding Told
  returned command = record {
    persisted = (same refl refl, refl);
    stage = refl;
    reached = λ ok. inr refl;
  }

  store_command-Told :
      (command : Option CompileCommand) (w : World)
      → IsMerged h fe r s.symbols w
      → HasArguments command
      → r.storage ≡ store_symbols_and_command
      → Told (store_command h fe r command (record s { symbols = w }))
  unfolding Told HasArguments
  store_command-Told none w m clean e = record {
    persisted = (m, rests);
    stage = refl;
    reached = λ bad. absurd (cc bad);
  }
  store_command-Told (some c) w m clean e =
      let request = command_request h fe r c in
      ended (command_db_store h request s.commands).0 (command_db_store h request s.commands).1 (
        command_db_store-put h request (view s.commands.db) s.commands
          (λ argv k. subst (All IsCString) (cc k) (clean c refl)) rests)
    where
      ended :
          (done : Option (Unit {0})) (v : Connection)
          → Rests
              (if is_some done
                then put_command (asked h (command_request h fe r c)) (view s.commands.db)
                else view s.commands.db)
              v
          → Told (end_command h fe r (some c) done (record s { symbols = w; commands = v }))
      ended none v k = record { persisted = (m, k); stage = refl; reached = λ bad. absurd (cc bad) }
      ended (some u) v k = record {
        persisted = (m, c, refl, k);
        stage = refl;
        reached = λ ok. inl (sym e);
      }

  store_index-Told :
      (given : Option Text) (command : Option CompileCommand)
      → s.symbols.saved ≡ none
      → HasArguments command
      → (is_output h fe r r.storage) ≡ false
      → Told (store_index h fe r given command s)
  unfolding Told store_index
  store_index-Told given command idle clean stores =
      let request = symbol_request h fe r given in
      ended (index_db_store h request s.symbols).0 (index_db_store h request s.symbols).1
        (index_db_store_atomic h request s.symbols idle)
    where
      after :
          (storage : Storage) (w : World)
          → IsMerged h fe r s.symbols w
          → r.storage ≡ storage
          → is_output h fe r storage ≡ false
          → Told (after_symbols h fe r storage command (record s { symbols = w }))
      after output_only w m e bad = absurd (cc bad)
      after store_symbols w m e bad = record {
        persisted = (m, rests);
        stage = refl;
        reached = λ ok. inl (sym e);
      }
      after store_symbols_and_command w m e bad = store_command-Told command w m clean e

      ended :
          (done : Option (Unit {0})) (w : World)
          → Ends h (symbol_request h fe r given) s.symbols done w
          → Told (end_symbols h fe r command done (record s { symbols = w }))
      ended none w k = record {
        persisted = (k, refl);
        stage = refl;
        reached = λ bad. absurd (cc bad);
      }
      ended (some u) w k = after r.storage w (given, k) refl stores

  Told-if :
      (b : Bool) (x y : Result × Databases)
      → (b ≡ true → Told x)
      → (b ≡ false → Told y)
      → Told (if b then x else y)
  Told-if true x y k l = k refl
  Told-if false x y k l = l refl

  fingerprint-Told :
      (command : Option CompileCommand)
      → s.symbols.saved ≡ none
      → HasArguments command
      → is_output h fe r r.storage ≡ false
      → Told (check_fingerprints h fe r command s)
  fingerprint-Told command idle clean stores =
      Told-if fe.fingerprinted _ _ (λ _. rooted r.repository_root)
        (λ _. early stage_fingerprint command refl)
    where
      rooted : (given : Option Text) → Told (with_root h fe r given command s)
      rooted none = store_index-Told none command idle clean stores
      rooted (some path) = found (repository_root_explicit h (some path))
        where
          found :
              (o : Option Text)
              → Told (elim o [
                | none ↦ stop h fe r stage_repository_root output_only command s
                | some root ↦ store_index h fe r (some root) command s
              ])
          found none = early stage_repository_root command refl
          found (some root) = store_index-Told (some root) command idle clean stores

  run-Told :
      s.symbols.saved ≡ none
      → HasArguments (result_command h fe r r.input)
      → Told (index_pipeline_run h fe r s)
  unfolding index_pipeline_run after_frontend
  run-Told idle clean =
      Told-if fe.created _ _ (λ _. read (fe.status r.input)) (λ _. early stage_create none refl)
    where
      go_on :
          (b : Bool)
          → Told (
              if b || is_output h fe r r.storage
              then succeed h fe r output_only (result_command h fe r r.input) s
              else check_fingerprints h fe r (result_command h fe r r.input) s)
      go_on true = returned (result_command h fe r r.input)
      go_on false =
          Told-if (is_output h fe r r.storage) _ _ (λ _. returned (result_command h fe r r.input))
            (λ stores. fingerprint-Told (result_command h fe r r.input) idle clean stores)

      read : (status : Option Status) → Told (after_frontend h fe r status s)
      read none = early stage_frontend none refl
      read (some index_failed) = early stage_frontend none refl
      read (some index_clean) = go_on (is_returned h fe r r.partial index_clean)
      read (some index_partial) = go_on (is_returned h fe r r.partial index_partial)

-- Whatever fails, index_pipeline_run reports what the databases hold. Where nothing is reported as
-- stored, the symbol database is what other processes made of it, with at most an empty schema
-- added, and the command database is as it was. Where the symbols are, they are the whole of one
-- merge of what was staged of the index, and the command database maps files to the commands that
-- it did. Where the command is too, that map has it as well. The value returned is 0 exactly where
-- no stage failed, and then as much is stored as was asked for, or nothing. No transaction is open
-- at first, no other process writes to the command database, and the arguments of the command are C
-- strings.
pub index_pipeline_run-Reported :
    (h : Host) (fe : Frontend) (r : Request) (s : Databases)
    → s.symbols.saved ≡ none
    → s.commands.saved ≡ none
    → s.commands.others ≡ []
    → ((c : CompileCommand) → result_command h fe r r.input ≡ some c → All IsCString c.argv)
    → Reported h fe r s (index_pipeline_run h fe r s).0 (index_pipeline_run h fe r s).1
unfolding Told HasArguments
index_pipeline_run-Reported h fe r s idle closed alone clean =
    run-Told h fe r s (record { alone = alone; shows = λ v f. refl; closed = closed }) idle clean
