-- ===== src/CompilerCommand.antt =====
-- tools/common/compiler_command.c: which argument of a compiler's command line is the source file.
-- An argument is never NULL here, so that has_suffix's test for it is left out.
pub mod Laws
use semindex.Base.{
  ℕ, zero, suc, ◌+◌, ◌-◌, Bool, true, false, not, ◌&&◌, ◌||◌, Option, none, some, List, [], ◌∷◌,
  Text, codes, text_eq, starts_with, if◌then◌else◌, length, drop, ltb, ◌==◌,
}

unfoldable pub has_suffix : Text → Text → Bool
has_suffix str suffix =
    if ltb (length str) (length suffix)
    then false
    else text_eq (drop (length str - length suffix) str) suffix

unfoldable pub is_source : Text → Bool
unfolding has_suffix
is_source arg =
    has_suffix arg (codes ".c")
    || has_suffix arg (codes ".S")
    || has_suffix arg (codes ".cpp")
    || has_suffix arg (codes ".cc")
    || has_suffix arg (codes ".cxx")
    || has_suffix arg (codes ".c++")

-- arg[0] == '-'
abbrev pub is_option : Text → Bool
is_option [] = false
is_option (x ∷ xs) = x == 45

-- !arg[0] || arg[0] == '-' || arg[0] == '@'
abbrev pub is_no_name : Text → Bool
is_no_name [] = true
is_no_name (x ∷ xs) = x == 45 || x == 64

unfoldable pub compiler_command_driver_is_omitted : Text → Bool
unfolding is_source
compiler_command_driver_is_omitted arg = is_no_name arg || is_source arg

abbrev pub opts : List Text
opts =
    codes "-D"
    ∷ codes "-I"
    ∷ codes "-U"
    ∷ codes "-include"
    ∷ codes "-imacros"
    ∷ codes "-isystem"
    ∷ codes "-iquote"
    ∷ codes "-idirafter"
    ∷ codes "-iprefix"
    ∷ codes "-iwithprefix"
    ∷ codes "-iwithprefixbefore"
    ∷ codes "-isysroot"
    ∷ codes "-target"
    ∷ codes "-x"
    ∷ codes "-std"
    ∷ codes "-MF"
    ∷ codes "-MT"
    ∷ codes "-MQ"
    ∷ codes "-o"
    ∷ []

unfoldable pub takes_arg : Text → List Text → Bool
takes_arg arg [] = false
takes_arg arg (opt ∷ rest) =
    let later = takes_arg arg rest in
    if text_eq arg opt
    then true
    else if starts_with opt arg && ltb (length opt) (length arg)
    then false
    else later

unfoldable pub option_takes_joined_or_next_arg : Text → Bool
unfolding takes_arg
option_takes_joined_or_next_arg arg = takes_arg arg opts

-- !arg[2], of an argument of two bytes at least
abbrev pub no_third : Text → Bool
no_third arg = length arg == 2

-- The counters of compiler_command_find_source and what it has put into `*source_file`.
pub record Scan : Type 0 where
  pub unsupported : Bool
  pub sources : ℕ
  pub source_file : Option Text

abbrev pub is_unsupported : Text → Bool
is_unsupported arg =
    text_eq arg (codes "-E")
    || text_eq arg (codes "-S")
    || text_eq arg (codes "-M")
    || text_eq arg (codes "-MM")

-- The loop. `skip` says that `i` was moved past this argument.
unfoldable pub scan : Bool → List Text → Scan → Scan
unfolding option_takes_joined_or_next_arg is_source
scan skip [] s = s
scan true (arg ∷ rest) s = scan false rest s
scan false (arg ∷ rest) s =
    let next = scan false rest s in
    let next_refused = scan false rest (record s { unsupported = true }) in
    let next_skipped = scan true rest s in
    let next_found =
      scan false rest (record s { sources = s.sources + 1; source_file = some arg }) in
    if text_eq arg (codes "-c")
    then next
    else if is_unsupported arg
    then next_refused
    else if text_eq arg (codes "--")
    then next
    else if is_option arg
    then if option_takes_joined_or_next_arg arg && no_third arg then next_skipped else next
    else if not (is_source arg)
    then next
    else next_found

abbrev pub start : Scan
start = record { unsupported = false; sources = 0; source_file = none }

-- Whether the result is 0, and `*source_file`. The first argument is the compiler.
unfoldable pub compiler_command_find_source : List Text → Bool × Option Text
unfolding scan
compiler_command_find_source [] = (false, none)
compiler_command_find_source (driver ∷ args) =
    let s = scan false args start in (not (s.unsupported || not (s.sources == 1)), s.source_file)
