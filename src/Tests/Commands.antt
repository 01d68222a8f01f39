-- ===== src/Tests/Commands.antt =====
-- Names, compiler commands and repository paths on small inputs.
use semindex.Base.{
  ℕ, true, false, some, List, [], ◌∷◌, Text, codes, text_eq, starts_with, any, ◌≡◌, refl, ap, ◌↔◌,
  arith,
}
use semindex.Names.Kinds.{function}
use semindex.Names.{semindex_symbol_kind_name, semindex_symbol_kind_parse}
use semindex.Names.Laws.{symbol_kind_parse_iff, mode_string-injective}
use semindex.CompilerCommand.{
  compiler_command_find_source, has_suffix, is_source, option_takes_joined_or_next_arg, takes_arg,
  scan,
}
use semindex.CompilerCommand.Laws.{
  IsOnlySource, find_source_iff, two_argument_options, takes_next, takes_next_iff,
}
use semindex.Repository.{slash, repository_path, repository_root}
use semindex.Repository.Laws.{repository_path_below, repository_path-slash}
use semindex.Repository.Search.{IsNearest, first_directory, repository_root-IsNearest}
use semindex.Tests.Samples.{host, main_path, stat_main}

symbol_kind_parse_iff_example :
    (semindex_symbol_kind_parse (codes "function") ≡ some function)
    ↔ (semindex_symbol_kind_name function ≡ codes "function")
symbol_kind_parse_iff_example = symbol_kind_parse_iff (codes "function") function

mode_string-injective_example : ◌≡◌ {A = ℕ} 5 5
mode_string-injective_example = mode_string-injective 5 5 (omega arith) (omega arith) refl

abbrev arguments : List Text
arguments = codes "-I" ∷ codes "x.c" ∷ codes "-c" ∷ codes "m.c" ∷ []

find_source_iff_example :
    (compiler_command_find_source (codes "cc" ∷ arguments) ≡ (true, some (codes "m.c")))
    ↔ IsOnlySource (codes "m.c") arguments
find_source_iff_example = find_source_iff (codes "cc") arguments (codes "m.c")

takes_next_iff_example : takes_next (codes "-I") ≡ any (text_eq (codes "-I")) two_argument_options
takes_next_iff_example = takes_next_iff (codes "-I")

-- The value of `-include` counts as a source.
include_counts :
    compiler_command_find_source (codes "cc" ∷ codes "-include" ∷ codes "a.c" ∷ codes "m.c" ∷ [])
    ≡ (false, some (codes "m.c"))
unfolding compiler_command_find_source is_source has_suffix option_takes_joined_or_next_arg
    takes_arg text_eq starts_with scan
include_counts = refl

repository_path_below_example :
    repository_path host (some (codes "/r")) (some (codes "/r/a.c")) ≡ some (codes "a.c")
repository_path_below_example =
    repository_path_below host (codes "/r") (codes "/r/a.c") (codes "a.c") not_slash refl
  where
    length_of : Text → ℕ
    length_of [] = 0
    length_of (x ∷ []) = 1
    length_of (x ∷ y ∷ t) = 2

    not_slash : ¬ (codes "/r" ≡ slash)
    not_slash e = omega (arith, ap length_of e)

repository_path-slash_example :
    repository_path host (some slash) (some (codes "/abc")) ≡ some (codes "bc")
repository_path-slash_example = repository_path-slash host slash (codes "/abc") 97 (codes "bc") refl

repository_root-IsNearest_example :
    IsNearest host (first_directory main_path stat_main) (repository_root host (some main_path))
unfolding text_eq
repository_root-IsNearest_example =
    repository_root-IsNearest host main_path main_path stat_main refl stat_found refl
  where
    stat_found : host.stat main_path ≡ some stat_main
    stat_found = refl
