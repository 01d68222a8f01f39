-- ===== src/CommandLine/IndexCommand/Commits.antt =====
-- What lib/semindex_cmdline/index_command.c asks of the pipeline about Git.
use semindex.Base.{
  Bool, true, ◌||◌, not, Option, none, some, List, [], ◌∷◌, Text, is_empty, length, All, ◌≡◌, refl,
  ◌⊎◌, Bool-cases, inl, inr,
}
use mathlib.Core.Path.{subst}
use semindex.Repository.{Host}
use semindex.CommandLine.{
  GitCommit, commit_disabled, commit_auto, commit_explicit, is_xdigit, parse_git_commit,
  parse_scope,
}
use semindex.CommandLine.Laws.{parse_git_commit_iff}
use semindex.Pipeline.{Request}
use semindex.CommandLine.IndexCommand.{
  IndexCommandOptions, IndexCommandOption, initial_options, Parsed, refused, unknown, parsed,
  opt_no_include_local, opt_no_store_command, opt_no_git_commit, opt_other, opt_variant,
  opt_commands_database, opt_trace, opt_git_commit, opt_root, opt_database, opt_scope,
  set_git_commit, set_scope, parse_option, parse_options, traceable, prepare, fill_request,
}

-- A commit is named exactly in the mode for one, and it is a hash of 40 or 64 digits.
abbrev pub IsCommit : GitCommit → Option Text → Type 0
IsCommit commit_disabled none = Unit
IsCommit commit_auto none = Unit
IsCommit commit_explicit (some v) =
    ((length v ≡ 40) ⊎ (length v ≡ 64)) × All (λ c. is_xdigit c ≡ true) v
IsCommit mode commit = ⊥

-- What parse_option returns has such a commit
abbrev Keeps : Parsed → Type 0
Keeps refused = Unit
Keeps unknown = Unit
Keeps (parsed o) = IsCommit o.git_commit_mode o.git_commit

set_git_commit-Keeps :
    (o : IndexCommandOptions) (a : Text) (m : Option GitCommit)
    → parse_git_commit a ≡ m
    → Keeps (set_git_commit o a m)
set_git_commit-Keeps o a none e = tt
set_git_commit-Keeps o a (some commit_disabled) e = tt
set_git_commit-Keeps o a (some commit_auto) e = tt
set_git_commit-Keeps o a (some commit_explicit) e = (parse_git_commit_iff a).0 e

parse_option-Keeps :
    (o : IndexCommandOptions) (a : IndexCommandOption)
    → IsCommit o.git_commit_mode o.git_commit
    → Keeps (parse_option o a)
unfolding parse_option
parse_option-Keeps o opt_no_include_local k = k
parse_option-Keeps o opt_no_store_command k = k
parse_option-Keeps o opt_no_git_commit k = tt
parse_option-Keeps o opt_other k = tt
parse_option-Keeps o (opt_variant a) k = k
parse_option-Keeps o (opt_commands_database a) k = k
parse_option-Keeps o (opt_trace a) k = k
parse_option-Keeps o (opt_git_commit a) k = set_git_commit-Keeps o a (parse_git_commit a) refl
parse_option-Keeps o (opt_root a) k = k
parse_option-Keeps o (opt_database a) k = k
parse_option-Keeps o (opt_scope a) k = elim (parse_scope a) as (λ s. Keeps (set_scope o s)) [
  | none ↦ tt
  | some s ↦ k
]

parse_options-IsCommit :
    (o p : IndexCommandOptions) (given : List IndexCommandOption)
    → IsCommit o.git_commit_mode o.git_commit
    → parse_options o given ≡ some p
    → IsCommit p.git_commit_mode p.git_commit
unfolding parse_options
parse_options-IsCommit o p [] k e =
    let same : o ≡ p = cc e in subst (λ x. IsCommit x.git_commit_mode x.git_commit) same k
parse_options-IsCommit o p (a ∷ rest) k e =
    let next =
      λ (x : IndexCommandOptions) (j : IsCommit x.git_commit_mode x.git_commit)
          (f : parse_options x rest ≡ some p).
        parse_options-IsCommit x p rest j f in
    (elim (parse_option o a)
        as (λ q.
          Keeps q
          → (elim q [ refused ↦ none | unknown ↦ none | parsed x ↦ parse_options x rest ]) ≡ some p
          → IsCommit p.git_commit_mode p.git_commit) [
            | refused ↦ λ j f. absurd (cc f)
            | unknown ↦ λ j f. absurd (cc f)
            | parsed x ↦ next x
          ])
      (parse_option-Keeps o a k) e

-- Whatever options a command is given, in whatever order, the request that it makes of the pipeline
-- names a commit exactly in the mode for an explicit one, and the commit is a hash of 40 or 64
-- hexadecimal digits.
pub fill_request-IsCommit :
    (h : Host) (trace_opens : Text → Bool) (source_file : Option Text) (only_output : Bool)
    (given : List IndexCommandOption) (o p : IndexCommandOptions) (r : Request)
    → parse_options initial_options given ≡ some o
    → prepare h trace_opens source_file only_output o ≡ some p
    → IsCommit (fill_request p r).git_commit_mode (fill_request p r).git_commit
unfolding prepare fill_request
fill_request-IsCommit h trace_opens source_file only_output given o p r e f =
    let k = parse_options-IsCommit initial_options o given tt e in
    elim (Bool-cases (is_empty o.variant || not (traceable trace_opens o.trace_path))) [
      | inl b ↦ absurd (cc (rw b at f))
      | inr b ↦
          let g = rw b at f in
          let mode : o.git_commit_mode ≡ p.git_commit_mode = cc g in
          let commit : o.git_commit ≡ p.git_commit = cc g in
          subst (λ c. IsCommit p.git_commit_mode c) commit
            (subst (λ m. IsCommit m o.git_commit) mode k)
    ]
