-- ===== src/Output.antt =====
-- The format of search results: compile_format of lib/semindex_index_db/index_db_output.c. The
-- token array is a list; an allocation does not fail.
pub mod Bounds
pub mod Written
pub mod Write
pub mod Source
use semindex.Base.{
  ℕ, zero, suc, ◌+◌, Bool, true, false, not, ◌&&◌, Option, none, some, List, [], ◌∷◌, ◌++◌, Text,
  codes, text_eq, is_empty, if◌then◌else◌, ◌==◌, length,
}

-- enum search_field
pub data Field : Type 0 where
  file variant variant_file line column context symbol record_kind mode kind kind_char : Field
  source : Field

-- struct search_field_name; the length is that of the name
pub record FieldName : Type 0 where
  pub name : Text
  pub field : Field

abbrev pub search_field : Text → Field → FieldName
search_field t f = record { name = t; field = f }

abbrev pub search_fields : List FieldName
search_fields =
    search_field (codes "file") file
    ∷ search_field (codes "variant") variant
    ∷ search_field (codes "variant_file") variant_file
    ∷ search_field (codes "line") line
    ∷ search_field (codes "column") column
    ∷ search_field (codes "context") context
    ∷ search_field (codes "symbol") symbol
    ∷ search_field (codes "record") record_kind
    ∷ search_field (codes "mode") mode
    ∷ search_field (codes "kind") kind
    ∷ search_field (codes "kind_char") kind_char
    ∷ search_field (codes "source") source
    ∷ []

-- struct search_token
pub data Token : Type 0 where
  text : Text → Token
  character : ℕ → Token
  field : Field → Token

-- The loop of find_field
unfoldable pub field_in : List FieldName → Text → Option Field
field_in [] name = none
field_in (f ∷ rest) name =
    let later = field_in rest name in
    if length name == length f.name && text_eq name f.name then some f.field else later

unfoldable pub find_field : Text → Option Field
unfolding field_in
find_field name = field_in search_fields name

-- What stands before the first '}', or `none` where there is none: strchr(format, '}').
abbrev before_brace : ℕ → Option Text → Option Text
before_brace c none = none
before_brace c (some name) = some (c ∷ name)

unfoldable pub until_brace : Text → Option Text
until_brace [] = none
until_brace (c ∷ cs) =
    let rest = until_brace cs in if c == b'}' then some [] else before_brace c rest

-- parse_field on what follows the '%': the field, and how far the '}' stands behind the '%'.
abbrev with_length : Text → Option Field → Option (Field × ℕ)
with_length name none = none
with_length name (some f) = some (f, length name + 2)

abbrev named : Option Text → Option (Field × ℕ)
named none = none
named (some name) = with_length name (find_field name)

unfoldable pub parse_field : Text → Option (Field × ℕ)
unfolding find_field until_brace
parse_field [] = none
parse_field (c ∷ cs) = let at = named (until_brace cs) in if c == b'{' then at else none

-- `\t`, `\r`, `\n`, and any other character as it is
abbrev pub escaped : ℕ → ℕ
escaped c = if c == b't' then 9 else if c == b'r' then 13 else if c == b'n' then 10 else c

-- add_text_token, add_character_token, add_field_token in front of the tokens to come
abbrev pub add_text_token : Text → List Token → List Token
add_text_token [] ts = ts
add_text_token (c ∷ cs) ts = text (c ∷ cs) ∷ ts

abbrev pub put : (List Token → List Token) → Option (List Token) → Option (List Token)
put f none = none
put f (some ts) = some (f ts)

-- After a '\': the end of the format stops the loop.
abbrev pub after_backslash : Text → Option (List Token) → Option (List Token)
after_backslash [] later = some []
after_backslash (c ∷ cs) later = put (λ ts. character (escaped c) ∷ ts) later

-- After a '%'
abbrev pub starts_percent : Text → Bool
starts_percent [] = false
starts_percent (c ∷ cs) = c == b'%'

abbrev pub skip_of : Option (Field × ℕ) → ℕ
skip_of none = 0
skip_of (some at) = at.1

abbrev pub after_field : Option (Field × ℕ) → Option (List Token) → Option (List Token)
after_field none later = none
after_field (some at) later = put (λ ts. field at.0 ∷ ts) later

-- The loop of compile_format. `pending` is what stands from `text` to `p`; `skip` is how many
-- characters `p` was moved on.
unfoldable pub compile : ℕ → Text → Text → Option (List Token)
unfolding parse_field
compile skip pending [] = some (add_text_token pending [])
compile (suc skip) pending (c ∷ cs) = compile skip pending cs
compile zero pending (c ∷ cs) =
    let at = parse_field cs in
    let longer = compile zero (pending ++ c ∷ []) cs in
    let next = compile 1 [] cs in
    let behind = compile (skip_of at) [] cs in
    if c == b'\\'
    then put (add_text_token pending) (after_backslash cs next)
    else if not (c == b'%')
    then longer
    else if starts_percent cs
    then put (add_text_token pending) (put (λ ts. character b'%' ∷ ts) next)
    else put (add_text_token pending) (after_field at behind)

unfoldable pub compile_format : Text → Option (List Token)
unfolding compile
compile_format format = compile zero [] format
