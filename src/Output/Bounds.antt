-- ===== src/Output/Bounds.antt =====
-- compile_format of lib/semindex_index_db/index_db_output.c stays inside its token array, which has
-- one element more than the format has bytes.
use semindex.Base.{
  ℕ, zero, suc, ◌+◌, ◌≤◌, Option, none, some, List, [], ◌∷◌, ◌++◌, Text, ◌==◌, length, ◌≡◌, refl,
  arith, Bool-cases, inl, inr,
}
use semindex.Output.{
  Token, character, field, Field, parse_field, add_text_token, put, after_backslash, starts_percent,
  skip_of, after_field, compile, compile_format, escaped,
}

-- Whether a text token is still to come.
abbrev pending_tokens : Text → ℕ
pending_tokens [] = 0
pending_tokens (c ∷ cs) = 1

abbrev Within : ℕ → Option (List Token) → Type 0
Within n none = Unit
Within n (some ts) = length ts ≤ n

Within-put :
    (n k : ℕ) (f : List Token → List Token) (o : Option (List Token))
    → ((ts : List Token) → length (f ts) ≤ k + length ts)
    → Within n o
    → Within (k + n) (put f o)
Within-put n k f none h w = tt
Within-put n k f (some ts) h w = omega (arith, h ts, w)

Within-weaken : (n k : ℕ) (o : Option (List Token)) → n ≤ k → Within n o → Within k o
Within-weaken n k none h w = tt
Within-weaken n k (some ts) h w = omega (arith, h, w)

length-add_text_token :
    (pending : Text) (ts : List Token)
    → length (add_text_token pending ts) ≤ pending_tokens pending + length ts
length-add_text_token [] ts = omega arith
length-add_text_token (c ∷ cs) ts = omega arith

pending-append : (pending : Text) (c : ℕ) → pending_tokens (pending ++ c ∷ []) ≡ 1
pending-append [] c = refl
pending-append (x ∷ xs) c = refl

after_backslash-Within :
    (cs : Text) (n : ℕ) (o : Option (List Token))
    → Within n o
    → Within (1 + n) (after_backslash cs o)
after_backslash-Within [] n o w = omega arith
after_backslash-Within (c ∷ cs) n o w =
    Within-put n 1 (λ ts. character (escaped c) ∷ ts) o (λ ts. omega arith) w

after_field-Within :
    (at : Option (Field × ℕ)) (n : ℕ) (o : Option (List Token))
    → Within n o
    → Within (1 + n) (after_field at o)
after_field-Within none n o w = tt
after_field-Within (some at) n o w = Within-put n 1 (λ ts. field at.0 ∷ ts) o (λ ts. omega arith) w

compile-Within :
    (skip : ℕ) (pending format : Text)
    → Within (pending_tokens pending + length format) (compile skip pending format)
unfolding compile
compile-Within zero pending [] = ground (arith, length-add_text_token pending [])
compile-Within (suc skip) pending [] = ground (arith, length-add_text_token pending [])
compile-Within (suc skip) pending (c ∷ cs) =
    Within-weaken (pending_tokens pending + length cs) _ _ (omega arith)
      (compile-Within skip pending cs)
compile-Within zero pending (c ∷ cs) =
    let n = 0 + length cs in
    let more : (o : Option (List Token))
        → Within (1 + n) o
        → Within (pending_tokens pending + suc (length cs)) (put (add_text_token pending) o) =
      λ o w. Within-weaken (pending_tokens pending + (1 + n)) _ _ (omega arith) (
        Within-put (1 + n) (pending_tokens pending) (add_text_token pending) o
          (length-add_text_token pending) w) in
    elim (Bool-cases (c == b'\\')) [
      | inl e ↦ rw e (more _ (after_backslash-Within cs n _ (compile-Within 1 [] cs)))
      | inr e ↦ elim (Bool-cases (c == b'%')) [
        | inl p ↦ elim (Bool-cases (starts_percent cs)) [
          | inl q ↦
              rw (e, p, q)
                (more _ (Within-put n 1 _ _ (λ ts. omega arith) (compile-Within 1 [] cs)))
          | inr q ↦
              rw (e, p, q)
                (more _ (
                  after_field-Within (parse_field cs) n _
                    (compile-Within (skip_of (parse_field cs)) [] cs)))
        ]
        | inr p ↦
            rw (e, p)
              (Within-weaken (pending_tokens (pending ++ c ∷ []) + length cs) _ _
                (omega (arith, pending-append pending c))
                (compile-Within zero (pending ++ c ∷ []) cs))
      ]
    ]

-- A compiled format has at most as many tokens as the format has bytes, so that the token array,
-- which has one element more than that, is never overrun.
pub compile_format-length :
    (format : Text) (ts : List Token) → compile_format format ≡ some ts → length ts ≤ length format
unfolding compile_format
compile_format-length format ts e =
    within (compile zero [] format) e (compile-Within zero [] format)
  where
    within :
        (o : Option (List Token))
        → o ≡ some ts
        → Within (0 + length format) o
        → length ts ≤ length format
    within none e w = absurd (cc e)
    within (some us) e w = let same : us ≡ ts = cc e in ground (arith, same, w)
