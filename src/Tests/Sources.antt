-- ===== src/Tests/Sources.antt =====
-- The witnesses for assembly sources and the driver of the parser.
use semindex.Base.{ℕ, none, some, true, false, List, [], ◌∷◌, length, Text, codes, ◌≡◌}
use semindex.Parser.{
  ToolCommand, ToolRun, GivenCommand, Semindex, no_result, semindex_index_command,
}
use semindex.Parser.Indexed.{IsRun, is_unusable, semindex_index_command-Agrees}
use semindex.Assembly.{AsmToken, identifier, period, comma, colon, other, AsmIndexer, asm_indexer}
use semindex.Assembly.Observe.{observe_all}
use semindex.Assembly.Once.{IsIndexed}
use semindex.Assembly.Observed.{observe_all-IsIndexed}
use semindex.Assembly.Finish.{finish}
use semindex.Assembly.Contained.{Begins, ended, uses_of, finish-uses}

-- `.type f, @function`, `f:` and `call g`
abbrev tokens : List AsmToken
tokens =
    record { kind = period; text = codes "."; location = 1 }
    ∷ record { kind = identifier; text = codes "type"; location = 2 }
    ∷ record { kind = identifier; text = codes "f"; location = 3 }
    ∷ record { kind = comma; text = codes ","; location = 4 }
    ∷ record { kind = other; text = codes "@function"; location = 5 }
    ∷ record { kind = identifier; text = codes "f"; location = 6 }
    ∷ record { kind = colon; text = codes ":"; location = 7 }
    ∷ record { kind = identifier; text = codes "call"; location = 8 }
    ∷ record { kind = identifier; text = codes "g"; location = 9 }
    ∷ []

observe_all-IsIndexed_example : IsIndexed (observe_all tokens asm_indexer).found
observe_all-IsIndexed_example = observe_all-IsIndexed tokens

abbrev observed : AsmIndexer
observed = observe_all tokens asm_indexer

finish-uses_example :
    (finish observed ≡ uses_of (ended observed) observed.calls) × Begins (ended observed)
finish-uses_example = finish-uses observed

abbrev arguments : List Text
arguments =
    codes "cc" ∷ codes "-Werror" ∷ codes "--arch" ∷ codes "x" ∷ codes "-c" ∷ codes "a.c" ∷ []

-- A tool that counts one error and leaves some data
abbrev tool : ToolCommand → ToolRun ℕ
tool c = record {
  ret_is_zero = false;
  warnings = 0;
  errors = 1;
  fatal = false;
  index_data = some (length c.arguments);
}

abbrev given : GivenCommand
given = record { directory = none; file = some (codes "a.c"); argv = some arguments }

-- An index that holds the data of an earlier run
abbrev used : Semindex ℕ
used = record { command = none; result = no_result; index_data = some 7 }

semindex_index_command-Agrees_example :
    ((file arg : Text) (rest : List Text)
      → given.file ≡ some file
      → given.argv ≡ some (arg ∷ rest)
      → IsRun tool given.directory file
          (arg ∷ rest)
          (semindex_index_command tool given used).0
          (semindex_index_command tool given used).1)
    × (is_unusable given.file given.argv ≡ true
        → semindex_index_command tool given used ≡ (false, used))
semindex_index_command-Agrees_example = semindex_index_command-Agrees tool given used
