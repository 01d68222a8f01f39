-- ===== src/CommandDb/Export/Json.antt =====
-- What lib/semindex_command_db/command_db_export.c writes, read as JSON.
use mathlib.Core.Path.{subst}
use semindex.Base.{
  ℕ, zero, suc, ◌+◌, ◌-◌, ◌*◌, ◌/◌, ◌%◌, ◌<◌, ◌≤◌, Bool, true, false, ◌&&◌, ◌||◌, Option, none,
  some, List, [], ◌∷◌, ◌++◌, Text, codes, ltb, leb, ◌==◌, if◌then◌else◌, length, All, ◌≡◌, refl,
  sym, ap, ◌∙◌, arith, inl, inr, Bool-cases, ==_iff, length-append,
}
use mathlib.Core.List.{append_assoc}
use semindex.CommandDb.Arguments.{pack}
use semindex.CommandDb.Arguments.RoundTrip.{IsCString}
use semindex.CommandDb.Export.{
  quote, hex_digit, escape, escape_all, write_json_string, before_nul, separator, with_argument,
  arguments_from, write_arguments,
}

-- A reader of JSON strings, one byte at a time: in the text, behind a backslash, or in the digits of
-- an escape, with how many are left and their value so far.
data Mode : Type 0 where
  plain escaped : Mode
  hex : ℕ → ℕ → Mode

-- What a byte does: end the string, give a byte or none of the value, or break the rules.
data Next : Type 0 where
  close : Next
  gives : ℕ → Next
  goes : Mode → Next
  bad : Next

abbrev hex_value : ℕ → Option ℕ
hex_value c =
    if leb b'0' c && leb c b'9'
    then some (c - b'0')
    else if leb b'a' c && leb c b'f'
    then some (c - b'a' + 10)
    else if leb b'A' c && leb c b'F'
    then some (c - b'A' + 10)
    else none

abbrev after_digit : ℕ → ℕ → Next
after_digit zero v = Next.gives v
after_digit (suc n) v = Next.goes (Mode.hex (suc n) v)

abbrev next : Mode → ℕ → Next
next Mode.plain c =
    if c == b'"'
    then Next.close
    else if c == b'\\'
    then Next.goes Mode.escaped
    else if ltb c 32
    then Next.bad
    else Next.gives c
next Mode.escaped c =
    if c == b'"' || c == b'\\' || c == b'/'
    then Next.gives c
    else if c == b'b'
    then Next.gives 8
    else if c == b'f'
    then Next.gives 12
    else if c == b'n'
    then Next.gives 10
    else if c == b'r'
    then Next.gives 13
    else if c == b't'
    then Next.gives 9
    else if c == b'u'
    then Next.goes (Mode.hex 4 0)
    else Next.bad
next (Mode.hex zero v) c = Next.bad
next (Mode.hex (suc n) v) c = elim (hex_value c) [
  | none ↦ Next.bad
  | some d ↦ after_digit n (v * 16 + d)
]

abbrev prepend : ℕ → Option (Text × Text) → Option (Text × Text)
prepend c none = none
prepend c (some (s, rest)) = some (c ∷ s, rest)

-- The value and what stands behind the closing quote
read_chars : Mode → Text → Option (Text × Text)
read_chars m [] = none
read_chars m (c ∷ s) = elim (next m c) [
  | Next.close ↦ some ([], s)
  | Next.gives v ↦ prepend v (read_chars Mode.plain s)
  | Next.goes m' ↦ read_chars m' s
  | Next.bad ↦ none
]

abbrev read_quoted : Bool → Text → Option (Text × Text)
read_quoted true s = read_chars Mode.plain s
read_quoted false s = none

pub read_json_string : Text → Option (Text × Text)
unfolding read_chars
read_json_string [] = none
read_json_string (c ∷ s) = read_quoted (c == b'"') s

-- A digit that was written is read with its value.
next-hex_digit :
    (n v d : ℕ) → d < 16 → next (Mode.hex (suc n) v) (hex_digit d) ≡ after_digit n (v * 16 + d)
next-hex_digit n v d h = rw (next, value d h) refl
  where
    value : (d : ℕ) → d < 16 → hex_value (hex_digit d) ≡ some d
    value d h = ground (arith, h)

next-plain :
    (c : ℕ)
    → (c == 34) ≡ false
    → (c == 92) ≡ false
    → ltb c 32 ≡ false
    → next Mode.plain c ≡ Next.gives c
next-plain c a b s = rw (next, a, b, s) refl

-- What is written for a byte is read as that byte.
read_chars-escape :
    (ch : ℕ) (t : Text)
    → read_chars Mode.plain (escape ch ++ t) ≡ prepend ch (read_chars Mode.plain t)
unfolding escape read_chars
read_chars-escape ch t = elim (Bool-cases (ch == 34)) [
  | inl e ↦ named 34 e refl
  | inr a ↦ elim (Bool-cases (ch == 92)) [
    | inl e ↦ named 92 e refl
    | inr b ↦ elim (Bool-cases (ch == 8)) [
      | inl e ↦ named 8 e refl
      | inr d ↦ elim (Bool-cases (ch == 12)) [
        | inl e ↦ named 12 e refl
        | inr f ↦ elim (Bool-cases (ch == 10)) [
          | inl e ↦ named 10 e refl
          | inr g ↦ elim (Bool-cases (ch == 13)) [
            | inl e ↦ named 13 e refl
            | inr h ↦ elim (Bool-cases (ch == 9)) [
              | inl e ↦ named 9 e refl
              | inr i ↦ others (ltb ch 32) refl a b d f g h i
            ]
          ]
        ]
      ]
    ]
  ]
]
  where
    IsRead : ℕ → Type 0
    IsRead c = read_chars Mode.plain (escape c ++ t) ≡ prepend c (read_chars Mode.plain t)

    named : (k : ℕ) → (ch == k) ≡ true → IsRead k → IsRead ch
    named k e h = subst IsRead (sym ((==_iff ch k).0 e)) h

    plain_byte :
        next Mode.plain ch ≡ Next.gives ch
        → read_chars Mode.plain (ch ∷ t) ≡ prepend ch (read_chars Mode.plain t)
    plain_byte e = rw (read_chars, e) refl

    two_digits :
        (x y v : ℕ)
        → next (Mode.hex 2 0) x ≡ Next.goes (Mode.hex 1 v)
        → next (Mode.hex 1 v) y ≡ Next.gives ch
        → read_chars (Mode.hex 2 0) (x ∷ y ∷ t) ≡ prepend ch (read_chars Mode.plain t)
    two_digits x y v e f = rw (read_chars, e, f) refl

    others :
        (small : Bool)
        → ltb ch 32 ≡ small
        → (ch == 34) ≡ false
        → (ch == 92) ≡ false
        → (ch == 8) ≡ false
        → (ch == 12) ≡ false
        → (ch == 10) ≡ false
        → (ch == 13) ≡ false
        → (ch == 9) ≡ false
        → IsRead ch
    others false s a b d f g h i = rw (a, b, d, f, g, h, i, s) (plain_byte (next-plain ch a b s))
    others true s a b d f g h i =
        let whole : (0 * 16 + ch / 16) * 16 + ch % 16 ≡ ch = omega arith in
        let hi = next-hex_digit 1 0 (ch / 16) (ground (arith, s)) in
        let lo = next-hex_digit 0 (0 * 16 + ch / 16) (ch % 16) (omega arith) in
        rw (a, b, d, f, g, h, i, s)
          (two_digits (hex_digit (ch / 16)) (hex_digit (ch % 16)) (0 * 16 + ch / 16) hi
            (lo ∙ ap (λ x. Next.gives x) whole))

read_chars-escape_all :
    (value rest : Text)
    → read_chars Mode.plain (escape_all value ++ quote ∷ rest) ≡ some (value, rest)
unfolding read_chars
read_chars-escape_all [] rest = refl
read_chars-escape_all (ch ∷ value) rest =
    let whole : (escape ch ++ escape_all value) ++ quote ∷ rest
        ≡ escape ch ++ (escape_all value ++ quote ∷ rest) =
      append_assoc (escape ch) (escape_all value) (quote ∷ rest) in
    rw
      (
        whole,
        read_chars-escape ch (escape_all value ++ quote ∷ rest),
        read_chars-escape_all value rest,
      )
      refl

-- A JSON reader reads the value back from the string that is written for it, and stops behind it.
pub read_json_string-write :
    (value rest : Text) → read_json_string (write_json_string value ++ rest) ≡ some (value, rest)
unfolding read_json_string write_json_string
read_json_string-write value rest =
    let whole : (escape_all value ++ quote ∷ []) ++ rest ≡ escape_all value ++ quote ∷ rest =
      append_assoc (escape_all value) (quote ∷ []) rest in
    rw whole (read_chars-escape_all value rest)

-- A JSON array of strings as it is laid out here, with how its elements are read.
abbrev joined_strings : Bool → List Text → Text
joined_strings first [] = codes "]"
joined_strings first (s ∷ rest) =
    separator first ++ write_json_string s ++ joined_strings false rest

before_nul-append : (s rest : Text) → IsCString s → before_nul (s ++ 0 ∷ rest) ≡ some (s, rest)
unfolding before_nul
before_nul-append [] rest h = refl
before_nul-append (c ∷ s) rest h =
    let no : (c == 0) ≡ false = ground (arith, h.0) in rw (no, before_nul-append s rest h.1) refl

arguments_from-step :
    (fuel : ℕ) (first : Bool) (blob s behind : Text)
    → before_nul blob ≡ some (s, behind)
    → arguments_from (suc fuel) first blob
      ≡ with_argument first s (arguments_from fuel false behind)
unfolding arguments_from before_nul
arguments_from-step fuel first [] s behind e = absurd (cc e)
arguments_from-step fuel first (c ∷ rest) s behind e = rw (arguments_from, e) refl

arguments_from-pack :
    (fuel : ℕ) (first : Bool) (argv : List Text)
    → All IsCString argv
    → length (pack argv) ≤ fuel
    → arguments_from fuel first (pack argv) ≡ some (joined_strings first argv)
unfolding arguments_from pack
arguments_from-pack zero first [] clean n = refl
arguments_from-pack (suc fuel) first [] clean n = refl
arguments_from-pack zero first (s ∷ rest) clean n =
    absurd (omega (arith, n, length-append s (0 ∷ pack rest)))
arguments_from-pack (suc fuel) first (s ∷ rest) clean n =
    let enough : length (pack rest) ≤ fuel = omega (arith, n, length-append s (0 ∷ pack rest)) in
    arguments_from-step fuel first (s ++ 0 ∷ pack rest) s (pack rest)
      (before_nul-append s (pack rest) clean.0)
    ∙ ap (with_argument first s) (arguments_from-pack fuel false rest clean.1 enough)

-- The arguments of a command are written as a JSON array of them: a bracket, the strings with ", "
-- between them, and a bracket. None of them has a NUL.
pub write_arguments-pack :
    (argv : List Text)
    → All IsCString argv
    → write_arguments (pack argv) ≡ some (codes "[" ++ joined_strings true argv)
unfolding write_arguments
write_arguments-pack argv clean =
    rw (write_arguments, arguments_from-pack (length (pack argv)) true argv clean (omega arith))
      refl
