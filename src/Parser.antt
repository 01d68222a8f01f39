-- ===== src/Parser.antt =====
-- The driver of the parser: lib/semindex_parser/semindex.cpp, around the tool that Clang runs on one
-- command. What that tool does is a parameter.
pub mod CommandLines
pub mod Sanitized
pub mod Indexed
use semindex.Base.{
  ℕ, Bool, true, false, not, ◌&&◌, Option, none, some, List, [], ◌∷◌, Text, codes, is_empty, ◌==◌,
  if◌then◌else◌,
}
use semindex.CompilerCommand.{has_suffix}
use semindex.CommandDb.{CompileCommand}
use semindex.Pipeline.{Status, index_clean, index_partial, index_failed}
use semindex.Parser.CommandLines.{sanitize_command_line}

-- semindex_index_result_t
pub record IndexResult : Type 0 where
  pub status : Status
  pub warnings : ℕ
  pub errors : ℕ
  pub fatal : Bool

-- What semindex_index_command sets in a semindex_t; the symbols, uses and signatures are what the
-- tool leaves, and `argv` is empty before the first command.
pub record Semindex (Data : Type 0) : Type 0 where
  pub command : Option CompileCommand
  pub result : IndexResult
  pub index_data : Option Data

-- What the tool of Clang comes to: its value, the numbers of its diagnostics, and the index data of
-- the front end's action, if it came so far: only then has_index_data is set.
pub record ToolRun (Data : Type 0) : Type 0 where
  pub ret_is_zero : Bool
  pub warnings : ℕ
  pub errors : ℕ
  pub fatal : Bool
  pub index_data : Option Data

-- The tool's command: the arguments as they are adjusted, and whether the source is assembly
pub record ToolCommand : Type 0 where
  pub directory : Text
  pub file : Text
  pub arguments : List Text
  pub is_assembly : Bool

-- isPreprocessedAssembly
abbrev pub is_preprocessed_assembly : Text → Bool
is_preprocessed_assembly file = has_suffix file (codes ".S")

-- semindex_compile_command_t as it is given, with its pointers
pub record GivenCommand : Type 0 where
  pub directory : Option Text
  pub file : Option Text
  pub argv : Option (List Text)

abbrev pub no_result : IndexResult
no_result = record { status = index_failed; warnings = 0; errors = 0; fatal = false }

abbrev pub or_dot : Option Text → Text
or_dot none = codes "."
or_dot (some directory) = directory

module _ {Data : Type 0} where
  abbrev pub has_data : Option Data → Bool
  has_data none = false
  has_data (some d) = true

  -- The `if … else if … else` behind the run
  abbrev pub status_of : Bool → ℕ → Option Data → Status
  status_of ret_is_zero errors none = index_failed
  status_of ret_is_zero errors (some d) =
      if ret_is_zero && errors == 0 then index_clean else index_partial

  -- clearIndex
  abbrev pub clear_index : Semindex Data → Semindex Data
  clear_index s = record s { command = none; result = no_result; index_data = none }

  -- saveCompileCommand
  abbrev pub save_compile_command : Option Text → Text → List Text → Semindex Data → Semindex Data
  save_compile_command directory file argv s = record s {
    command = some (record { directory = or_dot directory; file = file; argv = argv });
  }

  module _ (tool : ToolCommand → ToolRun Data) where
    abbrev pub run_tool : Option Text → Text → List Text → ToolRun Data
    run_tool directory file argv = tool (record {
      directory = or_dot directory;
      file = file;
      arguments = sanitize_command_line argv;
      is_assembly = is_preprocessed_assembly file;
    })

    -- has_index_data and the data stay as they are where the action does not come so far.
    abbrev pub with_data : Option Data → Option Data → Option Data
    with_data none before = before
    with_data (some d) before = some d

    abbrev pub with_run : ToolRun Data → Semindex Data → Bool × Semindex Data
    with_run run s = (
      run.ret_is_zero,
      record s {
        result = record {
          status = status_of run.ret_is_zero run.errors (with_data run.index_data s.index_data);
          warnings = run.warnings;
          errors = run.errors;
          fatal = run.fatal;
        };
        index_data = with_data run.index_data s.index_data;
      },
    )

    -- Whether it returned 0, and the index. A missing file or an empty command is refused, and
    -- changes nothing.
    abbrev pub index_given :
        Option Text → Option Text → Option (List Text) → Semindex Data → Bool × Semindex Data
    index_given directory (some file) (some (arg ∷ rest)) s =
        with_run (run_tool directory file (arg ∷ rest))
          (save_compile_command directory file (arg ∷ rest) (clear_index s))
    index_given directory _ _ s = (false, s)

    -- semindex_index_command
    unfoldable pub semindex_index_command : GivenCommand → Semindex Data → Bool × Semindex Data
    semindex_index_command c s = index_given c.directory c.file c.argv s

    -- The first command of the database for a source, where the database was loaded; the name of
    -- the source stands for the name of the file.
    abbrev pub index_first : Text → List CompileCommand → Semindex Data → Bool × Semindex Data
    index_first source_file [] s = (false, s)
    index_first source_file (c ∷ rest) s =
        semindex_index_command
          (record { directory = some c.directory; file = some source_file; argv = some c.argv }) s

    -- semindex_index_file, with what the compilation database has for a source
    unfoldable pub semindex_index_file :
        (Text → Option (List CompileCommand)) → Option Text → Semindex Data → Bool × Semindex Data
    unfolding semindex_index_command
    semindex_index_file database none s = (false, s)
    semindex_index_file database (some source_file) s = elim (database source_file) [
      | none ↦ (false, s)
      | some commands ↦ index_first source_file commands s
    ]
