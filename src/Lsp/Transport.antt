-- ===== src/Lsp/Transport.antt =====
-- LspTransport of tools/lsp/lsp_transport.cpp. The input is the bytes that are still to come; the log
-- takes each message or not.
pub mod RoundTrip
use semindex.Base.{
  ℕ, zero, suc, ◌+◌, ◌-◌, ◌*◌, ◌/◌, ◌%◌, ◌^◌, Bool, true, false, not, ◌&&◌, ◌||◌, Option, none,
  some, List, [], ◌∷◌, ◌++◌, Text, codes, is_empty, starts_with, is_some, ltb, leb, ◌==◌,
  if◌then◌else◌, length, take, drop,
}

-- MAX_MESSAGE_SIZE
abbrev pub max_message_size : ℕ
max_message_size = 64 * 1024 * 1024

abbrev pub size_max : ℕ
size_max = 2 ^ 64 - 1

-- std::getline: a line without its newline, and what is behind it; `none` at the end of the input
unfoldable pub get_line : Text → Option (Text × Text)
get_line [] = none
get_line (c ∷ rest) =
    let later = get_line rest in
    if c == b'\n'
    then some ([], rest)
    else elim later [ none ↦ some (c ∷ [], []) | some (line, behind) ↦ some (c ∷ line, behind) ]

-- `line.back() == '\r'`, `line.pop_back()`
unfoldable pub without_return : Text → Text
without_return [] = []
without_return (c ∷ []) = if c == b'\r' then [] else c ∷ []
without_return (c ∷ d ∷ rest) = c ∷ without_return (d ∷ rest)

abbrev pub prefix : Text
prefix = codes "Content-Length:"

-- The loop over ' ' and '\t'
unfoldable pub skip_blanks : Text → Text
skip_blanks [] = []
skip_blanks (c ∷ rest) =
    let later = skip_blanks rest in if c == b' ' || c == b'\t' then later else c ∷ rest

-- std::from_chars of a size_t, which has to take the whole text and one digit at least
unfoldable pub from_digits : ℕ → Text → Option ℕ
from_digits value [] = some value
from_digits value (c ∷ rest) =
    let value' = value * 10 + (c - b'0') in
    let later = from_digits value' rest in
    if leb b'0' c && leb c b'9' then if ltb size_max value' then none else later else none

abbrev pub from_chars : Text → Option ℕ
from_chars [] = none
from_chars (c ∷ rest) = from_digits 0 (c ∷ rest)

abbrev pub checked_length : Option ℕ → Option ℕ
checked_length none = none
checked_length (some n) = if n == 0 || ltb max_message_size n then none else some n

-- The length that a header gives, if it is a valid one
unfoldable pub content_length : Text → Option ℕ
unfolding skip_blanks from_digits
content_length line = checked_length (from_chars (skip_blanks (drop (length prefix) line)))

-- ReadResult, with the payload of a message
pub data ReadResult : Type 0 where
  message : Text → ReadResult
  end_of_file error : ReadResult

-- How the loop over the headers ends: behind an empty line, at the end of the input, with what
-- `line` holds then, or by an error
pub data Headers : Type 0 where
  closed : Option ℕ → Text → Headers
  ended : Option ℕ → Text → Headers
  invalid : Headers

-- What one header makes of the length; `none` is an error
abbrev pub with_header : Text → Option ℕ → Option (Option ℕ)
with_header line have =
    if starts_with prefix line
    then if is_some have
      then none
      else elim (content_length line) [ none ↦ none | some n ↦ some (some n) ]
    else some have

-- One round of the loop: `break` behind an empty line, or a header and the rounds after it
abbrev pub with_line : Text → Option ℕ → Text → (Option ℕ → Headers) → Headers
with_line line have rest next = elim (is_empty line) [
  | true ↦ Headers.closed have rest
  | false ↦ elim (with_header line have) [ none ↦ Headers.invalid | some have' ↦ next have' ]
]

-- What `line` holds when the next std::getline finds the end of the input: getline empties it, but
-- not where the line before had no newline, since its sentry fails then.
abbrev pub left_line : Text → Text → Text → Text
left_line raw input line = if length raw == length input then line else []

-- The `while (std::getline(input, line))`. Each round takes a byte at least, so the length of the
-- input and one more is fuel enough.
unfoldable pub read_headers : ℕ → Option ℕ → Text → Text → Headers
unfolding get_line without_return content_length
read_headers zero have line input = Headers.invalid
read_headers (suc fuel) have line input = elim (get_line input) [
  | none ↦ Headers.ended have line
  | some (raw, rest) ↦
      with_line (without_return raw) have rest
        (λ have'. read_headers fuel have' (left_line raw input (without_return raw)) rest)
]

abbrev pub logged : Bool → Text → ReadResult
logged true payload = ReadResult.message payload
logged false payload = ReadResult.error

-- `input.read(payload.data(), content_length)`, and the log
abbrev pub read_body : Bool → ℕ → Text → ReadResult × Text
read_body log n input =
    if leb n (length input)
    then (logged log (take n input), drop n input)
    else (ReadResult.error, [])

abbrev pub after_headers : Bool → Headers → ReadResult × Text
after_headers log (Headers.closed none rest) = (ReadResult.error, rest)
after_headers log (Headers.closed (some n) rest) = read_body log n rest
after_headers log (Headers.ended none line) =
    (if is_empty line then ReadResult.end_of_file else ReadResult.error, [])
after_headers log (Headers.ended (some n) line) = (ReadResult.error, [])
after_headers log Headers.invalid = (ReadResult.error, [])

-- LspTransport::read: the result and what is left of the input. After an error the server stops, and
-- what is left of the input does not matter.
unfoldable pub read : Bool → Text → ReadResult × Text
unfolding read_headers
read log input = after_headers log (read_headers (length input + 1) none [] input)

-- A number as `operator<<` writes it. A number has no more digits than its value and one.
unfoldable pub digits : ℕ → ℕ → Text
digits zero n = []
digits (suc fuel) n =
    let front = digits fuel (n / 10) in (if ltb n 10 then [] else front) ++ (b'0' + n % 10) ∷ []

-- LspTransport::write: the bytes that are written for a payload
unfoldable pub write : Text → Text
unfolding digits
write payload =
    codes "Content-Length: "
    ++ digits (length payload + 1) (length payload)
    ++ codes "\r\n\r\n"
    ++ payload
