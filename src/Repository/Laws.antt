-- ===== src/Repository/Laws.antt =====
-- Where semindex_repository_path of lib/semindex_support/repository.c puts a file.
use mathlib.Core.Path.{ap₂}
use semindex.Base.{
  ℕ, none, some, [], ◌∷◌, ◌++◌, ◌≡◌, ◌≢◌, refl, sym, inl, inr, arith, Text, text_eq_iff,
  text_eq_refl, ◌==◌, ==_iff, Bool-cases,
}
use semindex.Repository.{Host, slash, after_prefix, repository_path}

after_prefix-append : (root rest : Text) → after_prefix root (root ++ rest) ≡ some rest
unfolding after_prefix
after_prefix-append [] rest = refl
after_prefix-append (r ∷ root) rest = ground (arith, after_prefix-append root rest)

pub after_prefix-some :
    (root text : Text) {rest : Text} → after_prefix root text ≡ some rest → text ≡ root ++ rest
unfolding after_prefix
after_prefix-some [] text h = cc
after_prefix-some (r ∷ root) [] h = cc
after_prefix-some (r ∷ root) (c ∷ cs) {rest} h = elim (Bool-cases (r == c)) [
  | inl e ↦
      let q : after_prefix root cs ≡ some rest = rw e at h in
      ap₂ ◌∷◌ (sym ((==_iff r c).0 e)) (after_prefix-some root cs q)
  | inr e ↦ let q : none ≡ some rest = rw e at h in cc
]

module _ (h : Host) (root path : Text) where
  -- A file strictly below a root other than "/" is stored by its path from the root.
  pub repository_path_below :
      (rest : Text)
      → root ≢ slash
      → h.realpath path ≡ some (root ++ (b'/' ∷ rest))
      → repository_path h (some root) (some path) ≡ some rest
  unfolding repository_path
  repository_path_below rest ne e =
      rw (e, repository_path) (rw after_prefix-append (ground (arith, text_eq_iff root slash)))

  -- Below the root "/" the first byte of the path from the root is lost.
  pub repository_path-slash :
      (c : ℕ) (rest : Text)
      → h.realpath path ≡ some (b'/' ∷ c ∷ rest)
      → repository_path h (some slash) (some path) ≡ some rest
  unfolding repository_path
  repository_path-slash c rest e = ground (arith, text_eq_refl slash)
