-- ===== src/Parser/CommandLines.antt =====
-- sanitizeCommandLine of lib/semindex_parser/semindex.cpp: the arguments that Clang is given.
use semindex.Base.{
  Bool, true, false, ◌&&◌, ◌||◌, List, [], ◌∷◌, ◌++◌, Text, codes, text_eq, starts_with, any, drop,
  ◌==◌, if◌then◌else◌,
}

-- isUnsupportedJoinedArg
abbrev pub unsupported_prefixes : List Text
unsupported_prefixes =
    codes "--arch="
    ∷ codes "-mpreferred-stack-boundary="
    ∷ codes "-mindirect-branch="
    ∷ codes "-fzero-init-padding-bits="
    ∷ codes "-fdiagnostics-show-context="
    ∷ codes "-fmin-function-alignment="
    ∷ codes "-falign-jumps="
    ∷ []

abbrev pub unsupported_arguments : List Text
unsupported_arguments =
    codes "-mindirect-branch-register"
    ∷ codes "-fno-allow-store-data-races"
    ∷ codes "-fconserve-stack"
    ∷ []

abbrev pub is_unsupported_joined_arg : Text → Bool
is_unsupported_joined_arg arg =
    any (λ prefix. starts_with prefix arg) unsupported_prefixes
    || any (text_eq arg) unsupported_arguments

-- unsupportedArgTakesValue
abbrev pub unsupported_arg_takes_value : Text → Bool
unsupported_arg_takes_value arg = text_eq arg (codes "--arch")

-- isWarningErrorArg
abbrev pub is_warning_error_arg : Text → Bool
is_warning_error_arg arg = text_eq arg (codes "-Werror") || starts_with (codes "-Werror=") arg

-- `value.split('=').first`
unfoldable pub before_equals : Text → Text
before_equals [] = []
before_equals (c ∷ rest) = let name = before_equals rest in if c == b'=' then [] else c ∷ name

abbrev pub builtin_names : List Text
builtin_names = codes "__x86_64__" ∷ codes "__x86_64" ∷ codes "__amd64__" ∷ codes "__amd64" ∷ []

-- isX86_64BuiltinDefinition
abbrev pub is_x86_64_builtin_definition : Text → Bool
is_x86_64_builtin_definition value = any (text_eq (before_equals value)) builtin_names

-- The tests of one argument that is dropped alone
abbrev pub is_dropped : Text → Bool
is_dropped arg =
    text_eq arg (codes "--") || is_unsupported_joined_arg arg || is_warning_error_arg arg

abbrev pub is_joined_definition : Text → Bool
is_joined_definition arg = starts_with (codes "-D") arg && is_x86_64_builtin_definition (drop 2 arg)

-- `i + 1 < input.size() && isX86_64BuiltinDefinition(input[i + 1])`
abbrev pub defines_next : List Text → Bool
defines_next [] = false
defines_next (value ∷ rest) = is_x86_64_builtin_definition value

-- What a round of the loop does with its argument: `continue`, the same after `i++`, or nothing.
pub data Fate : Type 0 where
  dropped dropped_with_next kept : Fate

abbrev pub fate : Text → List Text → Fate
fate arg rest =
    if is_dropped arg
    then dropped
    else if text_eq arg (codes "-D") && defines_next rest
    then dropped_with_next
    else if is_joined_definition arg
    then dropped
    else if unsupported_arg_takes_value arg
    then dropped_with_next
    else kept

-- The loop; its first argument says that `i++` passed over an argument.
unfoldable pub sanitize : Bool → List Text → List Text
unfolding before_equals
sanitize skip [] = []
sanitize true (arg ∷ rest) = sanitize false rest
sanitize false (arg ∷ rest) = elim (fate arg rest) [
  | dropped ↦ sanitize false rest
  | dropped_with_next ↦ sanitize true rest
  | kept ↦ arg ∷ sanitize false rest
]

abbrev pub added_arguments : List Text
added_arguments =
    codes "-w"
    ∷ codes "-Wno-error"
    ∷ codes "-Wno-unknown-warning-option"
    ∷ codes "-Wno-error=ignored-optimization-argument"
    ∷ codes "-Wno-builtin-macro-redefined"
    ∷ []

-- sanitizeCommandLine
unfoldable pub sanitize_command_line : List Text → List Text
unfolding sanitize
sanitize_command_line input = sanitize false input ++ added_arguments
