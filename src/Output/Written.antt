-- ===== src/Output/Written.antt =====
-- What compile_format of lib/semindex_index_db/index_db_output.c reads back from a format that is
-- written from tokens.
use semindex.Base.{
  ℕ, zero, Bool, true, false, ◌||◌, some, List, [], ◌∷◌, ◌++◌, Text, codes, text_eq, if◌then◌else◌,
  ◌==◌, length, ◌≡◌, refl, sym, ap, ◌∙◌, arith, any,
}
use semindex.Output.{
  Token, text, character, field, Field, file, variant, variant_file, line, column, context, symbol,
  record_kind, mode, kind, kind_char, source, parse_field, add_text_token, put, compile,
  compile_format, escaped,
}

abbrev pub field_name : Field → Text
field_name file = codes "file"
field_name variant = codes "variant"
field_name variant_file = codes "variant_file"
field_name line = codes "line"
field_name column = codes "column"
field_name context = codes "context"
field_name symbol = codes "symbol"
field_name record_kind = codes "record"
field_name mode = codes "mode"
field_name kind = codes "kind"
field_name kind_char = codes "kind_char"
field_name source = codes "source"

-- A character that a format can produce from an escape: `\` before t, r and n writes another.
abbrev pub escape : ℕ → ℕ
escape c = if c == 9 then b't' else if c == 13 then b'r' else if c == 10 then b'n' else c

abbrev pub write_token : Token → Text
write_token (text t) = t
write_token (character c) = b'\\' ∷ escape c ∷ []
write_token (field f) = b'%' ∷ b'{' ∷ (field_name f ++ b'}' ∷ [])

abbrev pub write_tokens : List Token → Text
write_tokens [] = []
write_tokens (t ∷ ts) = write_token t ++ write_tokens ts

abbrev pub is_special : ℕ → Bool
is_special c = c == b'\\' || c == b'%'

-- Text that stands for itself, and characters that an escape can produce.
abbrev pub IsPlain : Text → Type 0
IsPlain t = any is_special t ≡ false

abbrev pub IsTokens : Bool → List Token → Type 0
IsTokens after_text [] = Unit
IsTokens true (text t ∷ ts) = ⊥
IsTokens false (text t ∷ ts) = (¬ (t ≡ [])) × IsPlain t × IsTokens true ts
IsTokens after_text (character c ∷ ts) = (escaped (escape c) ≡ c) × IsTokens false ts
IsTokens after_text (field f ∷ ts) = IsTokens false ts

drop_skipped :
    (skipped rest : Text) → compile (length skipped) [] (skipped ++ rest) ≡ compile zero [] rest
unfolding compile
drop_skipped [] rest = refl
drop_skipped (c ∷ cs) rest = drop_skipped cs rest

-- Text that stands for itself is pending.
compile-plain :
    (t pending rest : Text)
    → IsPlain t
    → compile zero pending (t ++ rest) ≡ compile zero (pending ++ t) rest
unfolding compile any
compile-plain [] pending rest h = ap (λ p. compile zero p rest) (append_nil pending)
  where
    append_nil : (p : Text) → p ≡ p ++ []
    append_nil [] = refl
    append_nil (x ∷ xs) = ap (λ l. x ∷ l) (append_nil xs)
compile-plain (c ∷ t) pending rest h =
    let (a, b, k) = three c t h in
    rw (a, b)
      (compile-plain t (pending ++ c ∷ []) rest k ∙ ap (λ p. compile zero p rest) (assoc pending))
  where
    three :
        (c : ℕ) (t : Text)
        → any is_special (c ∷ t) ≡ false
        → ((c == b'\\') ≡ false) × ((c == b'%') ≡ false) × (any is_special t ≡ false)
    three c t h = ground (arith, h)

    assoc : (p : Text) → (p ++ c ∷ []) ++ t ≡ p ++ c ∷ t
    assoc [] = refl
    assoc (x ∷ xs) = ap (λ l. x ∷ l) (assoc xs)

compile-field :
    (f : Field) (pending rest : Text)
    → compile zero pending (write_token (field f) ++ rest)
      ≡ put (add_text_token pending) (put (λ ts. field f ∷ ts) (compile zero [] rest))
unfolding compile parse_field text_eq
compile-field file pending rest = refl
compile-field variant pending rest = refl
compile-field variant_file pending rest = refl
compile-field line pending rest = refl
compile-field column pending rest = refl
compile-field context pending rest = refl
compile-field symbol pending rest = refl
compile-field record_kind pending rest = refl
compile-field mode pending rest = refl
compile-field kind pending rest = refl
compile-field kind_char pending rest = refl
compile-field source pending rest = refl

compile-character :
    (c : ℕ) (pending rest : Text)
    → escaped (escape c) ≡ c
    → compile zero pending (write_token (character c) ++ rest)
      ≡ put (add_text_token pending) (put (λ ts. character c ∷ ts) (compile zero [] rest))
unfolding compile
compile-character c pending rest h =
    ap (λ x. put (add_text_token pending) (put (λ ts. character x ∷ ts) (compile zero [] rest))) h

abbrev Pending : Bool → Text → Type 0
Pending true p = Unit
Pending false p = p ≡ []

add_nonempty : (t : Text) (ts : List Token) → ¬ (t ≡ []) → add_text_token t ts ≡ text t ∷ ts
add_nonempty [] ts h = absurd (h refl)
add_nonempty (c ∷ t) ts h = refl

compile-write :
    (b : Bool) (ts : List Token)
    → IsTokens b ts
    → (pending : Text) → Pending b pending
    → compile zero pending (write_tokens ts) ≡ some (add_text_token pending ts)
unfolding compile
compile-write b [] h pending p = refl
compile-write true (text t ∷ ts) h pending p = elim h [ ]
compile-write false (text t ∷ ts) h pending p =
    let e = compile-write true ts h.2 t tt in
    ap (λ q. compile zero q (t ++ write_tokens ts)) p
    ∙ compile-plain t [] (write_tokens ts) h.1
    ∙ e
    ∙ ap (λ l. some l) (add_nonempty t ts h.0)
    ∙ ap (λ q. some (add_text_token q (text t ∷ ts))) (sym p)
compile-write true (character c ∷ ts) h pending p =
    compile-character c pending (write_tokens ts) h.0
    ∙ ap (λ o. put (add_text_token pending) (put (λ l. character c ∷ l) o))
        (compile-write false ts h.1 [] refl)
compile-write false (character c ∷ ts) h pending p =
    compile-character c pending (write_tokens ts) h.0
    ∙ ap (λ o. put (add_text_token pending) (put (λ l. character c ∷ l) o))
        (compile-write false ts h.1 [] refl)
compile-write true (field f ∷ ts) h pending p =
    compile-field f pending (write_tokens ts)
    ∙ ap (λ o. put (add_text_token pending) (put (λ l. field f ∷ l) o))
        (compile-write false ts h [] refl)
compile-write false (field f ∷ ts) h pending p =
    compile-field f pending (write_tokens ts)
    ∙ ap (λ o. put (add_text_token pending) (put (λ l. field f ∷ l) o))
        (compile-write false ts h [] refl)

-- Tokens written as a format are what the format compiles to, where a text token is not empty,
-- holds no backslash and no percent sign and follows no other text token, and a character is one
-- that an escape can produce.
pub compile_format-write :
    (ts : List Token) → IsTokens false ts → compile_format (write_tokens ts) ≡ some ts
unfolding compile_format
compile_format-write ts h = compile-write false ts h [] refl
