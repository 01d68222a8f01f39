-- ===== src/Tests/Options.antt =====
-- The witness for the options of the commands that index.
use semindex.Base.{true, false, none, some, List, [], ◌∷◌, Text, codes, text_eq, ◌≡◌, refl}
use semindex.CommandLine.{commit_disabled, commit_explicit, parse_git_commit, all_xdigits}
use semindex.CommandLine.IndexCommand.{
  IndexCommandOptions, IndexCommandOption, opt_database, opt_git_commit, opt_no_store_command,
  opt_no_git_commit, initial_options, parse_option, parse_options, prepare, fill_request,
}
use semindex.CommandLine.IndexCommand.Commits.{IsCommit, fill_request-IsCommit}
use semindex.Pipeline.{Request, input_command, store_symbols, store_partial}
use semindex.Tests.Samples.{host, main_path}

abbrev hash : Text
hash = codes "0123456789abcdef0123456789ABCDEF01234567"

abbrev given : List IndexCommandOption
given =
    opt_database (codes "/d") ∷ opt_no_store_command ∷ opt_no_git_commit ∷ opt_git_commit hash ∷ []

abbrev chosen : IndexCommandOptions
chosen = record initial_options {
  database = some (codes "/d");
  store_command = false;
  git_commit_mode = commit_explicit;
  git_commit = some hash;
}

abbrev empty_request : Request
empty_request = record {
  input = input_command;
  storage = store_symbols;
  partial = store_partial;
  command = none;
  source_file = none;
  symbol_database = none;
  commands_database = none;
  variant = none;
  repository_root = none;
  git_commit = none;
  git_commit_mode = commit_disabled;
  include_local = true;
}

is_chosen : parse_options initial_options given ≡ some chosen
unfolding parse_options parse_option parse_git_commit all_xdigits text_eq
is_chosen = refl

is_prepared : prepare host (λ t. true) (some main_path) false chosen ≡ some chosen
unfolding prepare
is_prepared = refl

fill_request-IsCommit_example :
    IsCommit
      (fill_request chosen empty_request).git_commit_mode
      (fill_request chosen empty_request).git_commit
fill_request-IsCommit_example =
    fill_request-IsCommit host (λ t. true) (some main_path) false given chosen chosen empty_request
      is_chosen is_prepared
