-- ===== src/Repository.antt =====
-- Repository roots and the paths stored below them: lib/semindex_support/repository.c. The file
-- system is a parameter, and an allocation does not fail.
pub mod Laws
pub mod Search
use semindex.Base.{
  ℕ, zero, suc, ◌+◌, Bool, true, false, not, ◌&&◌, Option, none, some, [], ◌∷◌, ◌++◌, Text, codes,
  text_eq, is_empty, ◌==◌, if◌then◌else◌, length,
}

-- `struct stat`, with times since the epoch
pub record Stat : Type 0 where
  pub dev : ℕ
  pub ino : ℕ
  pub seconds : ℕ
  pub nanoseconds : ℕ
  pub size : ℕ
  pub is_directory : Bool

-- What the program asks of the operating system.
pub record Host : Type 0 where
  pub realpath : Text → Option Text
  pub stat : Text → Option Stat
  pub lstat_exists : Text → Bool

abbrev pub slash : Text
slash = b'/' ∷ []

-- What stands before the last '/' of a text, or `none` where it has none: strrchr(path, '/').
abbrev pub before_slash : Option Text → ℕ → Option Text
before_slash none c = if c == b'/' then some [] else none
before_slash (some dir) c = some (c ∷ dir)

unfoldable pub parent : Text → Option Text
parent [] = none
parent (c ∷ cs) = before_slash (parent cs) c

-- `if (slash == path) slash[1] = 0; else *slash = 0;`
abbrev pub cut : Text → Text
cut [] = slash
cut (c ∷ dir) = c ∷ dir

-- A path of realpath has a '/', so the case of none does not arise in the loop.
abbrev pub up_of : Option Text → Text → Text
up_of none path = path
up_of (some dir) path = cut dir

-- The `for (;;)` of semindex_repository_root. A round that goes on makes the path shorter, or
-- "/" of it, so its length and one more is fuel enough.
unfoldable pub find_git : Host → ℕ → Text → Option Text
unfolding parent
find_git h zero path = none
find_git h (suc fuel) path =
    let marker = path ++ ((if text_eq path slash then [] else slash) ++ codes ".git") in
    let rest = find_git h fuel (up_of (parent path) path) in
    if h.lstat_exists marker then some path else if text_eq path slash then none else rest

abbrev search_from : Host → Option Text → Option Text
search_from h none = none
search_from h (some dir) = find_git h (length dir + 1) dir

-- `if (!S_ISDIR(…))`: a file is replaced by its directory
abbrev directory_of : Text → Option Stat → Option Text
directory_of path none = none
directory_of path (some st) =
    if st.is_directory
    then some path
    else elim (parent path) [ none ↦ none | some dir ↦ some (cut dir) ]

abbrev repository_root_at : Host → Option Text → Option Text
repository_root_at h none = none
repository_root_at h (some path) = search_from h (directory_of path (h.stat path))

-- semindex_repository_root
unfoldable pub repository_root : Host → Option Text → Option Text
unfolding find_git
repository_root h none = none
repository_root h (some input) = repository_root_at h (h.realpath input)

abbrev explicit_at : Host → Option Text → Option Text
explicit_at h none = none
explicit_at h (some path) = elim (h.stat path) [
  | none ↦ none
  | some st ↦ if st.is_directory then some path else none
]

-- semindex_repository_root_explicit
unfoldable pub repository_root_explicit : Host → Option Text → Option Text
repository_root_explicit h none = none
repository_root_explicit h (some input) = explicit_at h (h.realpath input)

-- What follows a prefix: `strncmp(resolved, root, strlen(root)) == 0` and `resolved + root_len`.
unfoldable pub after_prefix : Text → Text → Option Text
after_prefix [] text = some text
after_prefix (r ∷ rs) [] = none
after_prefix (r ∷ rs) (c ∷ cs) = let rest = after_prefix rs cs in if r == c then rest else none

-- The rest of semindex_repository_path, with what follows the root in the resolved path.
abbrev below_root : Text → Text → Option Text → Text
below_root root resolved none = resolved
below_root root resolved (some []) = codes "."
below_root root resolved (some (c ∷ rest)) =
    if not (text_eq root slash) && not (c == b'/') then resolved else rest

abbrev repository_path_in : Text → Text → Option Text → Text
repository_path_in root path none = path
repository_path_in root path (some resolved) = below_root root resolved (after_prefix root resolved)

-- semindex_repository_path
unfoldable pub repository_path : Host → Option Text → Option Text → Option Text
unfolding after_prefix
repository_path h root none = none
repository_path h none (some path) = some path
repository_path h (some root) (some path) = some (repository_path_in root path (h.realpath path))
