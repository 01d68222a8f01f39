-- ===== src/Parser/Sanitized.antt =====
-- What sanitizeCommandLine of lib/semindex_parser/semindex.cpp leaves of a command.
use semindex.Base.{
  Bool, true, false, ◌&&◌, ◌||◌, List, [], ◌∷◌, Text, codes, text_eq, if◌then◌else◌, ◌≡◌, arith,
  ◌⊎◌,
}
use semindex.Parser.CommandLines.{
  unsupported_arg_takes_value, is_dropped, is_joined_definition, defines_next,
  is_x86_64_builtin_definition, dropped, dropped_with_next, kept,
}

-- An argument that Clang is never given.
abbrev pub is_refused : Text → Bool
is_refused arg = is_dropped arg || is_joined_definition arg || unsupported_arg_takes_value arg

or-left : (a b : Bool) → (a || b) ≡ false → a ≡ false
or-left a b h = ground arith

or-right : (a b : Bool) → (a || b) ≡ false → b ≡ false
or-right a b h = ground arith

tests_kept :
    (a b c d : Bool)
    → (a || b || c) ≡ false
    → d ≡ false
    → (if a
        then dropped
        else if d
        then dropped_with_next
        else if b
        then dropped
        else if c
        then dropped_with_next
        else kept)
      ≡ kept
tests_kept a b c d h k = ground (arith, h, k)

-- What a command is cut down to, argument by argument: some are dropped alone; `-D` and the name of
-- x86-64 behind it together; and `--arch` with the argument behind it, which is its value, if there is
-- one.
pub data CutTo : List Text → List Text → Type 0 where
  cut_end : CutTo [] []
  cut_alone :
      {arg : Text} {rest front : List Text}
      → (is_dropped arg || is_joined_definition arg) ≡ true
      → CutTo rest front
      → CutTo (arg ∷ rest) front
  cut_definition :
      {value : Text} {rest front : List Text}
      → is_x86_64_builtin_definition value ≡ true
      → CutTo rest front
      → CutTo (codes "-D" ∷ value ∷ rest) front
  cut_value :
      {value : Text} {rest front : List Text}
      → CutTo rest front
      → CutTo (codes "--arch" ∷ value ∷ rest) front
  cut_last : CutTo (codes "--arch" ∷ []) []
  cut_none :
      {arg : Text} {rest front : List Text}
      → is_refused arg ≡ false
      → (text_eq arg (codes "-D") && defines_next rest) ≡ false
      → CutTo rest front
      → CutTo (arg ∷ rest) (arg ∷ front)

-- Why an argument is dropped with the next one
abbrev PassesOver : Text → List Text → Type 0
PassesOver arg rest =
    ((text_eq arg (codes "-D") && defines_next rest) ≡ true)
    ⊎ (unsupported_arg_takes_value arg ≡ true)
