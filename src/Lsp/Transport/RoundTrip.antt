-- ===== src/Lsp/Transport/RoundTrip.antt =====
-- What LspTransport::write of tools/lsp/lsp_transport.cpp writes, LspTransport::read reads.
use mathlib.Core.List.{append_assoc}
use semindex.Base.{
  ℕ, zero, suc, ◌+◌, ◌-◌, ◌*◌, ◌/◌, ◌%◌, ◌<◌, ◌≤◌, true, false, ◌&&◌, ◌||◌, Option, none, some, [],
  ◌∷◌, ◌++◌, Text, codes, is_empty, starts_with, any, ltb, leb, ◌==◌, length, length-append, take,
  drop, All, ◌≡◌, ◌≢◌, refl, ap, ◌∙◌, arith, Bool-cases, inl, inr,
}
use semindex.Lsp.Transport.{
  max_message_size, size_max, get_line, without_return, skip_blanks, from_digits, from_chars,
  content_length, ReadResult, Headers, with_header, with_line, left_line, read_headers, read_body,
  read, digits, write,
}

-- The bytes of a number
abbrev IsDigits : Text → Type 0
IsDigits = All (λ c. (leb b'0' c && leb c b'9') ≡ true)

All-snoc :
    (s : Text) (c : ℕ) → IsDigits s → (leb b'0' c && leb c b'9') ≡ true → IsDigits (s ++ c ∷ [])
All-snoc [] c h k = (k, tt)
All-snoc (x ∷ s) c h k = (h.0, All-snoc s c h.1 k)

digits-IsDigits : (fuel n : ℕ) → IsDigits (digits fuel n)
unfolding digits
digits-IsDigits zero n = tt
digits-IsDigits (suc fuel) n = elim (Bool-cases (ltb n 10)) [
  | inl e ↦ rw e (ground arith, tt)
  | inr e ↦ rw e (
      All-snoc (digits fuel (n / 10)) (b'0' + n % 10) (digits-IsDigits fuel (n / 10))
        (ground arith))
]

from_digits-snoc :
    (value n c : ℕ) (s : Text)
    → from_digits value s ≡ some n
    → (leb b'0' c && leb c b'9') ≡ true
    → n * 10 + (c - b'0') ≤ size_max
    → from_digits value (s ++ c ∷ []) ≡ some (n * 10 + (c - b'0'))
unfolding from_digits
from_digits-snoc value n c [] e d h =
    let v : value ≡ n = cc e in
    let fits : ltb size_max (n * 10 + (c - b'0')) ≡ false = ground (arith, h) in
    rw (v, d, fits) refl
from_digits-snoc value n c (x ∷ s) e d h = elim (Bool-cases (leb b'0' x && leb x b'9')) [
  | inl k ↦ elim (Bool-cases (ltb size_max (value * 10 + (x - b'0')))) [
    | inl m ↦ absurd (cc (rw (from_digits, k, m) at e))
    | inr m ↦
        let e' : from_digits (value * 10 + (x - b'0')) s ≡ some n = rw (from_digits, k, m) at e in
        rw (k, m) (from_digits-snoc (value * 10 + (x - b'0')) n c s e' d h)
  ]
  | inr k ↦ absurd (cc (rw (from_digits, k) at e))
]

from_digits-digits : (fuel n : ℕ) → n < fuel → n ≤ size_max → from_digits 0 (digits fuel n) ≡ some n
unfolding digits from_digits
from_digits-digits zero n h k = absurd (omega arith)
from_digits-digits (suc fuel) n h k =
    let last : n / 10 * 10 + (b'0' + n % 10 - b'0') ≡ n = omega arith in
    let is_digit : (leb b'0' (b'0' + n % 10) && leb (b'0' + n % 10) b'9') ≡ true = ground arith in
    elim (Bool-cases (ltb n 10)) [
      | inl e ↦
          let small : n / 10 ≡ 0 = ground (arith, e) in
          let whole = from_digits-snoc 0 0 (b'0' + n % 10) [] refl is_digit (omega arith) in
          rw e (whole ∙ ap (λ x. some x) (omega (arith, small)))
      | inr e ↦
          let before = from_digits-digits fuel (n / 10) (ground (arith, e, h)) (omega (arith, k)) in
          let whole =
            from_digits-snoc 0 (n / 10) (b'0' + n % 10) (digits fuel (n / 10)) before is_digit
              (omega (arith, last, k)) in
          rw e (whole ∙ ap (λ x. some x) last)
    ]

get_line-append :
    (line rest : Text)
    → All (λ c. c ≢ b'\n') line
    → get_line (line ++ b'\n' ∷ rest) ≡ some (line, rest)
unfolding get_line
get_line-append [] rest h = refl
get_line-append (c ∷ line) rest h =
    let other : (c == b'\n') ≡ false = ground (arith, h.0) in
    rw (other, get_line-append line rest h.1) refl

without_return-append : (line : Text) → without_return (line ++ b'\r' ∷ []) ≡ line
unfolding without_return
without_return-append [] = refl
without_return-append (c ∷ []) = refl
without_return-append (c ∷ d ∷ line) = ap (λ l. c ∷ l) (without_return-append (d ∷ line))

IsDigits-line : (s : Text) → IsDigits s → All (λ c. c ≢ b'\n') (s ++ b'\r' ∷ [])
IsDigits-line [] h = (ground arith, tt)
IsDigits-line (c ∷ s) h = (ground (arith, h.0), IsDigits-line s h.1)

skip_blanks-digits : (s : Text) → IsDigits s → skip_blanks s ≡ s
unfolding skip_blanks
skip_blanks-digits [] h = refl
skip_blanks-digits (c ∷ s) h =
    let other : (c == b' ' || c == b'\t') ≡ false = ground (arith, h.0) in rw other refl

from_chars-snoc : (s : Text) (c : ℕ) → from_chars (s ++ c ∷ []) ≡ from_digits 0 (s ++ c ∷ [])
from_chars-snoc [] c = refl
from_chars-snoc (x ∷ s) c = refl

from_chars-digits :
    (fuel n : ℕ) → from_chars (digits (suc fuel) n) ≡ from_digits 0 (digits (suc fuel) n)
unfolding digits
from_chars-digits fuel n = from_chars-snoc _ _

-- A number behind the prefix is the length, if a message may be so long.
content_length-digits :
    (n : ℕ)
    → 0 < n
    → n ≤ max_message_size
    → content_length (codes "Content-Length: " ++ digits (suc n) n) ≡ some n
unfolding content_length skip_blanks
content_length-digits n h k =
    let number : from_chars (digits (suc n) n) ≡ some n =
      from_chars-digits n n ∙ from_digits-digits (suc n) n (omega arith) (omega arith) in
    let valid : (n == 0 || ltb max_message_size n) ≡ false = ground (arith, h, k) in
    rw (skip_blanks-digits (digits (suc n) n) (digits-IsDigits (suc n) n), number, valid) refl

with_line-header :
    (line : Text) (have have' : Option ℕ) (rest : Text) (next : Option ℕ → Headers)
    → is_empty line ≡ false
    → with_header line have ≡ some have'
    → with_line line have rest next ≡ next have'
with_line-header line have have' rest next e w = rw (with_line, e, w) refl

-- One round over a header line
read_headers-line :
    (fuel : ℕ) (have have' : Option ℕ) (before line rest : Text)
    → All (λ c. c ≢ b'\n') (line ++ b'\r' ∷ [])
    → is_empty line ≡ false
    → with_header line have ≡ some have'
    → (left : Text) × (read_headers (suc fuel) have before ((line ++ b'\r' ∷ []) ++ b'\n' ∷ rest)
        ≡ read_headers fuel have' left rest)
unfolding read_headers
read_headers-line fuel have have' before line rest h e w =
    let raw = line ++ b'\r' ∷ [] in
    let left = left_line raw (raw ++ b'\n' ∷ rest) (without_return raw) in
    (
      left,
      rw (read_headers, get_line-append raw rest h)
          (ap (λ l. with_line l have rest (λ o. read_headers fuel o left rest))
              (without_return-append line)
            ∙ with_line-header line have have' rest (λ o. read_headers fuel o left rest) e w),
    )

read_headers-end :
    (fuel : ℕ) (have : Option ℕ) (before rest : Text)
    → read_headers (suc fuel) have before (b'\r' ∷ b'\n' ∷ rest) ≡ Headers.closed have rest
unfolding read_headers get_line without_return
read_headers-end fuel have before rest = refl

take-append : (xs ys : Text) → take (length xs) (xs ++ ys) ≡ xs
take-append [] [] = refl
take-append [] (y ∷ ys) = refl
take-append (x ∷ xs) ys = ap (λ l. x ∷ l) (take-append xs ys)

drop-append : (xs ys : Text) → drop (length xs) (xs ++ ys) ≡ ys
drop-append [] ys = refl
drop-append (x ∷ xs) ys = drop-append xs ys

read_body-append :
    (payload rest : Text)
    → read_body true (length payload) (payload ++ rest) ≡ (ReadResult.message payload, rest)
read_body-append payload rest =
    let all : leb (length payload) (length (payload ++ rest)) ≡ true =
      ground (arith, length-append payload rest) in
    rw (all, take-append payload rest, drop-append payload rest) refl

-- What is written, as a header line, an empty line and the payload
abbrev header : ℕ → Text
header n = codes "Content-Length: " ++ digits (suc n) n

abbrev framed : Text → Text → Text
framed payload rest =
    (header (length payload) ++ b'\r' ∷ []) ++ b'\n' ∷ b'\r' ∷ b'\n' ∷ (payload ++ rest)

abbrev blank_line : Text
blank_line = codes "\r\n\r\n"

framing :
    (front number payload rest : Text)
    → (front ++ number ++ blank_line ++ payload) ++ rest
      ≡ ((front ++ number) ++ b'\r' ∷ []) ++ b'\n' ∷ b'\r' ∷ b'\n' ∷ (payload ++ rest)
framing front number payload rest = simp (append_assoc)

write-framed : (payload rest : Text) → write payload ++ rest ≡ framed payload rest
unfolding write
write-framed payload rest =
    let one : length payload + 1 ≡ suc (length payload) = omega arith in
    ap
      (λ n.
        (codes "Content-Length: " ++ digits n (length payload) ++ blank_line ++ payload) ++ rest)
      one
    ∙ framing (codes "Content-Length: ") (digits (suc (length payload)) (length payload)) payload
        rest

All-line :
    (front line : Text)
    → any (λ c. c == b'\n') front ≡ false
    → All (λ c. c ≢ b'\n') line
    → All (λ c. c ≢ b'\n') (front ++ line)
unfolding any
All-line [] line h k = k
All-line (c ∷ front) line h k = (ground (arith, h), All-line front line (ground (arith, h)) k)

header-plain : (n : ℕ) → All (λ c. c ≢ b'\n') (header n ++ b'\r' ∷ [])
unfolding any
header-plain n =
    All-line (codes "Content-Length: ") (digits (suc n) n ++ b'\r' ∷ []) refl
      (IsDigits-line (digits (suc n) n) (digits-IsDigits (suc n) n))

with_header-header :
    (n : ℕ) → 0 < n → n ≤ max_message_size → with_header (header n) none ≡ some (some n)
unfolding starts_with
with_header-header n h k = rw (content_length-digits n h k) refl

read_headers-framed :
    (fuel : ℕ) (payload rest : Text)
    → 0 < length payload
    → length payload ≤ max_message_size
    → read_headers (suc (suc fuel)) none [] (framed payload rest)
      ≡ Headers.closed (some (length payload)) (payload ++ rest)
read_headers-framed fuel payload rest h k =
    let (left, one) =
      read_headers-line (suc fuel) none (some (length payload)) [] (header (length payload))
        (b'\r' ∷ b'\n' ∷ (payload ++ rest)) (header-plain (length payload)) refl
        (with_header-header (length payload) h k) in
    one ∙ read_headers-end fuel (some (length payload)) left (payload ++ rest)

-- A message that was written is read as it was, with nothing of what comes behind it, if it is not
-- empty and no longer than MAX_MESSAGE_SIZE, and the log takes it.
pub read-write :
    (payload rest : Text)
    → 0 < length payload
    → length payload ≤ max_message_size
    → read true (write payload ++ rest) ≡ (ReadResult.message payload, rest)
unfolding read
read-write payload rest h k =
    let fuel : length (framed payload rest) + 1 ≡ suc (suc (length (framed payload rest) - 1)) =
      omega arith in
    rw
      (
        write-framed payload rest,
        fuel,
        read_headers-framed (length (framed payload rest) - 1) payload rest h k,
      )
      (read_body-append payload rest)
