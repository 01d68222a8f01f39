-- ===== src/CommandLine/Laws.antt =====
-- What the parsers of lib/semindex_cmdline/cmdline.c accept.
use semindex.Base.{
  ℕ, Bool, true, false, not, ◌&&◌, some, [], ◌∷◌, Text, codes, text_eq, text_eq_iff, ◌==◌, ==_iff,
  length, All, ◌≡◌, refl, ap, ◌⊎◌, inl, inr, ◌↔◌, arith, Bool-cases,
}
use semindex.CommandLine.{commit_auto, commit_explicit, is_xdigit, all_xdigits, parse_git_commit}

all_xdigits_iff : (t : Text) → (all_xdigits t ≡ true) ↔ All (λ c. is_xdigit c ≡ true) t
unfolding all_xdigits
all_xdigits_iff [] = (λ h. tt, λ h. refl)
all_xdigits_iff (c ∷ cs) =
    let (there_to, back) = all_xdigits_iff cs in
    elim (Bool-cases (is_xdigit c)) [
      | inl e ↦ (λ h. (e, there_to (rw e at h)), λ h. rw e (back h.1))
      | inr e ↦ (λ h. absurd (cc (rw e at h)), λ h. absurd (cc (e, h.0)))
    ]

-- A value names a commit exactly when it has the length of a SHA-1 or a SHA-256 hash in
-- hexadecimal digits, 40 or 64, and every character of it is such a digit.
pub parse_git_commit_iff :
    (value : Text)
    → (parse_git_commit value ≡ some commit_explicit)
      ↔ (((length value ≡ 40) ⊎ (length value ≡ 64)) × All (λ c. is_xdigit c ≡ true) value)
unfolding parse_git_commit
parse_git_commit_iff value = (
  λ h. elim (Bool-cases (text_eq value (codes "auto"))) [
    | inl a ↦ absurd (not_auto (rw a at h))
    | inr a ↦ elim (Bool-cases (not (length value == 40) && not (length value == 64))) [
      | inl b ↦ absurd (cc (rw (a, b) at h))
      | inr b ↦ elim (Bool-cases (all_xdigits value)) [
        | inl d ↦ (is_hash (length value) b, (all_xdigits_iff value).0 d)
        | inr d ↦ absurd (cc (rw (a, b, d) at h))
      ]
    ]
  ],
  λ p.
      let four : text_eq value (codes "auto") ≡ true → length value ≡ 4 =
        λ e. ap (λ (t : Text). length t) ((text_eq_iff value (codes "auto")).0 e) in
      let (a, b) = of_hash (text_eq value (codes "auto")) (length value) four p.0 in
      rw (a, b, (all_xdigits_iff value).1 p.1) refl,
)
  where
    not_auto : ¬ (some commit_auto ≡ some commit_explicit)
    not_auto e = let same : commit_auto ≡ commit_explicit = cc e in absurd (cc same)

    is_hash : (n : ℕ) → (not (n == 40) && not (n == 64)) ≡ false → (n ≡ 40) ⊎ (n ≡ 64)
    is_hash n h = elim (Bool-cases (n == 40)) [
      | inl e ↦ inl ((==_iff n 40).0 e)
      | inr e ↦ inr (ground (arith, h, e))
    ]

    of_hash :
        (a : Bool) (n : ℕ)
        → (a ≡ true → n ≡ 4)
        → (n ≡ 40) ⊎ (n ≡ 64)
        → (a ≡ false) × ((not (n == 40) && not (n == 64)) ≡ false)
    of_hash a n f (inl e) = ground (arith, f, e)
    of_hash a n f (inr e) = ground (arith, f, e)
