-- ===== src/Repository/Search.antt =====
-- The search for .git of semindex_repository_root in lib/semindex_support/repository.c: it comes to
-- the nearest directory that has one, and the fuel of the model is enough.
use mathlib.Core.Path.{subst}
use semindex.Base.{
  ℕ, zero, suc, ◌+◌, ◌≤◌, ◌<◌, true, false, Option, none, some, [], ◌∷◌, ◌++◌, Text, codes, text_eq,
  text_eq_iff, ◌==◌, if◌then◌else◌, length, ◌≡◌, refl, sym, ap, inl, inr, arith, Bool-cases,
  Option-cases,
}
use semindex.Repository.{
  Host, slash, parent, before_slash, cut, up_of, find_git, Stat, repository_root,
}

-- The path of .git in a directory
abbrev pub marker : Text → Text
marker path = path ++ ((if text_eq path slash then [] else slash) ++ codes ".git")

-- The nearest directory, from `path` up to "/", that has a .git; `none` if there is none.
pub data IsNearest (h : Host) : Text → Option Text → Type 0 where
  found : {path : Text} → h.lstat_exists (marker path) ≡ true → IsNearest h path (some path)
  at_top :
      {path : Text} → h.lstat_exists (marker path) ≡ false → path ≡ slash → IsNearest h path none
  above :
      {path : Text} {r : Option Text}
      → h.lstat_exists (marker path) ≡ false
      → ¬ (path ≡ slash)
      → IsNearest h (up_of (parent path) path) r
      → IsNearest h path r

abbrev pub IsAbsolute : Text → Type 0
IsAbsolute [] = ⊥
IsAbsolute (c ∷ cs) = c ≡ b'/'

abbrev EmptyOrAbsolute : Text → Type 0
EmptyOrAbsolute [] = Unit
EmptyOrAbsolute (c ∷ cs) = c ≡ b'/'

-- What stands before the last '/' is shorter.
parent-length : (path : Text) {dir : Text} → parent path ≡ some dir → length dir < length path
unfolding parent
parent-length [] e = absurd (cc e)
parent-length (c ∷ cs) {dir} e = elim (Option-cases (parent cs)) [
  | inl n ↦ elim (Bool-cases (c == b'/')) [
    | inl h ↦
        let q : some [] ≡ some dir = rw (n, h) at e in
        let d : [] ≡ dir = cc q in omega (arith, ap (λ (t : Text). length t) d)
    | inr h ↦ let q : none ≡ some dir = rw (n, h) at e in absurd (cc q)
  ]
  | inr (d, s) ↦
      let q : some (c ∷ d) ≡ some dir = rw s at e in
      let k : c ∷ d ≡ dir = cc q in omega (arith, parent-length cs s, ap (λ (t : Text). length t) k)
]

before_slash-absolute :
    (o : Option Text) → (d : Text) × (before_slash o b'/' ≡ some d) × EmptyOrAbsolute d
before_slash-absolute none = ([], refl, tt)
before_slash-absolute (some dir) = (b'/' ∷ dir, refl, refl)

parent-absolute :
    (path : Text) → IsAbsolute path → (d : Text) × (parent path ≡ some d) × EmptyOrAbsolute d
unfolding parent
parent-absolute [] a = elim a [ ]
parent-absolute (c ∷ cs) a =
    subst (λ x. (d : Text) × (before_slash (parent cs) x ≡ some d) × EmptyOrAbsolute d) (sym a)
      (before_slash-absolute (parent cs))

two_bytes : (path : Text) → IsAbsolute path → ¬ (path ≡ slash) → 2 ≤ length path
two_bytes [] a n = elim a [ ]
two_bytes (c ∷ []) a n = absurd (n (ap (λ x. x ∷ []) a))
two_bytes (c ∷ d ∷ path) a n = omega arith

cut-shorter :
    (d path : Text)
    → EmptyOrAbsolute d
    → length d < length path
    → 2 ≤ length path
    → IsAbsolute (cut d) × (length (cut d) < length path)
cut-shorter [] path a l t = (refl, omega (arith, t))
cut-shorter (c ∷ d) path a l t = (a, l)

-- A step up from a directory other than "/" makes its path shorter, and it is absolute again.
up-shorter :
    (path : Text)
    → IsAbsolute path
    → ¬ (path ≡ slash)
    → IsAbsolute (up_of (parent path) path) × (length (up_of (parent path) path) < length path)
up-shorter path a n =
    let (d, e, k) = parent-absolute path a in
    subst (λ o. IsAbsolute (up_of o path) × (length (up_of o path) < length path)) (sym e)
      (cut-shorter d path k (parent-length path e) (two_bytes path a n))

-- With fuel for one byte more than the absolute path has, the search gives the nearest directory
-- that has a .git, from the path up to "/", and nothing if there is none.
pub find_git-IsNearest :
    (h : Host) (fuel : ℕ) (path : Text)
    → IsAbsolute path
    → length path < fuel
    → IsNearest h path (find_git h fuel path)
unfolding find_git
find_git-IsNearest h zero path a l = absurd (omega (arith, l))
find_git-IsNearest h (suc fuel) path a l = elim (Bool-cases (h.lstat_exists (marker path))) [
  | inl e ↦ rw e (found e)
  | inr e ↦ elim (Bool-cases (text_eq path slash)) [
    | inl s ↦ rw (e, s) (at_top e ((text_eq_iff path slash).0 s))
    | inr s ↦
        let n : ¬ (path ≡ slash) = λ p. absurd (cc ((text_eq_iff path slash).1 p, s)) in
        let (a', l') = up-shorter path a n in
        let r = find_git-IsNearest h fuel (up_of (parent path) path) a' (omega (arith, l, l')) in
        rw (e, s) (above e n r)
  ]
]

-- Where the search begins: at a directory itself, and at a file's directory.
abbrev pub first_directory : Text → Stat → Text
first_directory path st = if st.is_directory then path else up_of (parent path) path

-- For a path that realpath makes absolute and that stat finds, semindex_repository_root gives the nearest
-- directory that has a .git, from the path, or from its directory if it is a file, up to "/".
pub repository_root-IsNearest :
    (h : Host) (input path : Text) (st : Stat)
    → h.realpath input ≡ some path
    → h.stat path ≡ some st
    → IsAbsolute path
    → IsNearest h (first_directory path st) (repository_root h (some input))
unfolding repository_root
repository_root-IsNearest h input path st e s a =
    let (d, p, k) = parent-absolute path a in
    elim (Bool-cases st.is_directory) [
      | inl y ↦ rw (e, s, y) (find_git-IsNearest h (length path + 1) path a (omega arith))
      | inr y ↦
          rw (e, s, y, p)
            (find_git-IsNearest h (length (cut d) + 1) (cut d) (absolute d k) (omega arith))
    ]
  where
    absolute : (d : Text) → EmptyOrAbsolute d → IsAbsolute (cut d)
    absolute [] k = refl
    absolute (c ∷ d) k = k
