-- ===== src/CommandDb/Store/History.antt =====
-- A history of calls of command_db_store, of lib/semindex_command_db/command_db_writer.c, and the
-- map that it makes of the database.
use mathlib.Core.Path.{subst}
use semindex.Base.{
  Bool, true, false, ◌&&◌, Option, none, some, List, [], ◌∷◌, Text, text_eq, is_empty, ◌||◌,
  is_some, if◌then◌else◌, All, ◌≡◌, refl, sym, ◌∙◌, arith, Option-cases, Bool-cases, inl, inr, ℕ,
  zero, suc, take, length, ap,
}
use semindex.Repository.{Host}
use semindex.CommandDb.{CompileCommand, CommandRow, resolved, command_db_absolute_path}
use semindex.CommandDb.Arguments.{pack_arguments, unpack_arguments}
use semindex.CommandDb.Arguments.RoundTrip.{
  IsCString, IsNonempty, unpack_arguments_iff, pack_arguments_iff,
}
use semindex.CommandDb.Connection.{Connection}
use semindex.CommandDb.Store.{
  CommandRequest, no_arguments, row_with, row_of, row_if, requested_row, command_db_store,
}
use semindex.CommandDb.Store.View.{Commands, view, put, command_of}
use semindex.CommandDb.Store.Refines.{Rests, stored, command_db_store-Rests}

-- The variant and the command that a request names.
abbrev pub asked_if :
    Host
    → Option Text
    → Option Text
    → Option Text
    → Option (List Text)
    → Option (Text × CompileCommand)
asked_if h (some variant) (some directory) (some file) (some argv) = some (
  variant,
  record {
    directory = resolved h directory;
    file = command_db_absolute_path h (resolved h directory) file;
    argv = argv;
  },
)
asked_if h _ _ _ _ = none

abbrev pub asked : Host → CommandRequest → Option (Text × CompileCommand)
asked h r = asked_if h r.variant r.directory r.file r.argv

-- The map with the command of a request in it.
abbrev pub put_command : Option (Text × CompileCommand) → Commands → Commands
put_command none c variant file = c variant file
put_command (some (v, command)) c variant file =
    if text_eq v variant && text_eq command.file file then some command else c variant file

-- The map after a history: a call that returned 0 has put its command into it.
abbrev pub after : Host → List CommandRequest → List Bool → Commands → Commands
after h (r ∷ rs) (true ∷ oks) c = after h rs oks (put_command (asked h r) c)
after h (r ∷ rs) (false ∷ oks) c = after h rs oks c
after h _ _ c = c

-- The calls one after the other, each on a connection of its own, and which of them returned 0.
abbrev pub store_all : Host → List CommandRequest → Connection → List Bool × Connection
store_all h [] w = ([], w)
store_all h (r ∷ rs) w =
    let (ok, w1) = command_db_store h r w in
    let (oks, w2) = store_all h rs w1 in (is_some ok ∷ oks, w2)

-- The arguments of a request are C strings.
abbrev pub IsClean : CommandRequest → Type 0
IsClean r = (argv : List Text) → r.argv ≡ some argv → All IsCString argv

IsNonempty-cases : (argv : List Text) → no_arguments argv ≡ false → IsNonempty argv
IsNonempty-cases [] e = absurd (cc e)
IsNonempty-cases (arg ∷ rest) e = tt

pub command_of-unpack :
    (r : CommandRow) (argv : List Text)
    → unpack_arguments r.arguments ≡ some argv
    → command_of r ≡ some (record { directory = r.directory; file = r.file; argv = argv })
command_of-unpack r argv e = rw (command_of, e) refl

take-whole : {A : Type 0} (n : ℕ) (xs : List A) → n ≡ length xs → take n xs ≡ xs
take-whole zero [] e = refl
take-whole zero (x ∷ xs) e = absurd (omega (arith, e))
take-whole (suc n) [] e = refl
take-whole (suc n) (x ∷ xs) e = ap (λ l. x ∷ l) (take-whole n xs (omega (arith, e)))

row_of-asked :
    (h : Host) (variant directory file : Text) (argv : List Text) (row : CommandRow)
    → row_of h variant directory file argv ≡ some row
    → All IsCString argv
    → IsNonempty argv
    → (c : Commands) (v f : Text)
    → put row c v f
      ≡ put_command (asked_if h (some variant) (some directory) (some file) (some argv)) c v f
unfolding row_of
row_of-asked h variant directory file argv row e clean one c v f =
    elim (Option-cases (pack_arguments argv)) [
      | inl n ↦ absurd (cc (rw (row_of, n) at e))
      | inr ((blob, size), s) ↦
          let (packed, whole, _) = (pack_arguments_iff argv blob size).0 s in
          let it : row_with h variant directory file blob ≡ row =
            ap (λ b. row_with h variant directory file b) (sym (take-whole size blob whole))
            ∙ cc (rw (row_of, s) at e) in
          let read : unpack_arguments blob ≡ some argv =
            (unpack_arguments_iff blob argv).1 (sym packed, clean, one) in
          subst
            (λ (r : CommandRow).
              put r c v f
              ≡ put_command (asked_if h (some variant) (some directory) (some file) (some argv)) c v
                  f)
            it (rw (command_of-unpack (row_with h variant directory file blob) argv read) refl)
    ]

requested_row-asked :
    (h : Host) (r : CommandRequest) (row : CommandRow)
    → requested_row h r ≡ some row
    → IsClean r
    → (c : Commands) (v f : Text) → put row c v f ≡ put_command (asked h r) c v f
unfolding requested_row
requested_row-asked h r row e clean c v f = elim (Bool-cases (is_some r.path)) [
  | inl p ↦ go r.variant r.directory r.file r.argv clean (rw p at e)
  | inr p ↦ absurd (cc (rw p at e))
]
  where
    go :
        (a b d : Option Text) (argv : Option (List Text))
        → ((l : List Text) → argv ≡ some l → All IsCString l)
        → row_if h a b d argv ≡ some row
        → put row c v f ≡ put_command (asked_if h a b d argv) c v f
    go none b d argv k e = absurd (cc e)
    go (some a) none d argv k e = absurd (cc e)
    go (some a) (some b) none argv k e = absurd (cc e)
    go (some a) (some b) (some d) none k e = absurd (cc e)
    go (some a) (some b) (some d) (some argv) k e =
        elim (Bool-cases (is_empty a || no_arguments argv)) [
          | inl bad ↦ absurd (cc (rw bad at e))
          | inr good ↦
              row_of-asked h a b d argv row (rw good at e) (k argv refl)
                (IsNonempty-cases argv (ground (arith, good))) c v f
        ]

Rests-same :
    (c d : Commands) (w : Connection) → ((v f : Text) → c v f ≡ d v f) → Rests c w → Rests d w
Rests-same c d w e h = record {
  alone = h.alone;
  shows = λ v f. h.shows v f ∙ e v f;
  closed = h.closed;
}

not_requested :
    (h : Host) (r : CommandRequest) (w : Connection)
    → requested_row h r ≡ none
    → is_some (command_db_store h r w).0 ≡ false
unfolding command_db_store
not_requested h r w e = rw e refl

-- One call puts its command into the map, or leaves the map as it is.
pub command_db_store-put :
    (h : Host) (r : CommandRequest) (c : Commands) (w : Connection)
    → IsClean r
    → Rests c w
    → Rests
        (if is_some (command_db_store h r w).0 then put_command (asked h r) c else c)
        (command_db_store h r w).1
command_db_store-put h r c w clean k =
    let k1 = command_db_store-Rests h r c w k in
    elim (Bool-cases (is_some (command_db_store h r w).0)) [
      | inl e ↦ rw e (Rests-same _ _ (command_db_store h r w).1 (put_asked e) (rw e at k1))
      | inr e ↦ rw e (rw e at k1)
    ]
  where
    put_asked :
        is_some (command_db_store h r w).0 ≡ true
        → (v f : Text) → stored h r true c v f ≡ put_command (asked h r) c v f
    put_asked e v f = elim (Option-cases (requested_row h r)) [
      | inl n ↦ absurd (cc (sym e ∙ not_requested h r w n))
      | inr (row, s) ↦ rw s (requested_row-asked h r row s clean c v f)
    ]

store_all-Rests :
    (h : Host) (rs : List CommandRequest) (c : Commands) (w : Connection)
    → All IsClean rs
    → Rests c w
    → Rests (after h rs (store_all h rs w).0 c) (store_all h rs w).1
store_all-Rests h [] c w clean k = k
store_all-Rests h (r ∷ rs) c w clean k =
    let k1 = command_db_store-put h r c w clean.0 k in
    let w1 = (command_db_store h r w).1 in
    elim (Bool-cases (is_some (command_db_store h r w).0)) [
      | inl e ↦ rw e (store_all-Rests h rs (put_command (asked h r) c) w1 clean.1 (rw e at k1))
      | inr e ↦ rw e (store_all-Rests h rs c w1 clean.1 (rw e at k1))
    ]

-- Whatever calls of SQLite fail or find the database busy, after any calls of command_db_store the
-- database maps variants and files to the commands that the calls which returned 0 put there, the
-- later over the earlier, and elsewhere to what it did before. No other process writes to it, no
-- transaction is open at first, and the arguments are C strings.
pub store_all-refines :
    (h : Host) (rs : List CommandRequest) (w : Connection)
    → All IsClean rs
    → w.others ≡ []
    → w.saved ≡ none
    → (variant file : Text)
    → view (store_all h rs w).1.db variant file
      ≡ after h rs (store_all h rs w).0 (view w.db) variant file
store_all-refines h rs w clean alone closed =
    let start : Rests (view w.db) w = record {
      alone = alone;
      shows = λ v f. refl;
      closed = closed;
    } in
    (store_all-Rests h rs (view w.db) w clean start).shows
