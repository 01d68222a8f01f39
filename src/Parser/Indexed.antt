-- ===== src/Parser/Indexed.antt =====
-- What semindex_index_command of lib/semindex_parser/semindex.cpp reports.
use semindex.Base.{
  ℕ, Bool, true, false, ◌&&◌, Option, none, some, List, [], ◌∷◌, Text, ◌==◌, ◌≡◌, refl, arith, ◌↔◌,
  inl, inr, Bool-cases, &&-left, &&-right, ==_iff,
}
use semindex.Pipeline.{index_clean, index_failed}
use semindex.Parser.{
  Semindex, ToolRun, ToolCommand, GivenCommand, or_dot, status_of, with_data, run_tool, index_given,
  semindex_index_command,
}

-- A command without a file or without an argument
abbrev pub is_unusable : Option Text → Option (List Text) → Bool
is_unusable (some file) (some (arg ∷ rest)) = false
is_unusable file argv = true

module _ {Data : Type 0} where
  -- What the status says of the run.
  pub record Agrees (ok : Bool) (s : Semindex Data) : Type 0 where
    pub clean :
        (s.result.status ≡ index_clean)
        ↔ ((d : Data) × (s.index_data ≡ some d) × (ok ≡ true) × (s.result.errors ≡ 0))
    pub failed : (s.result.status ≡ index_failed) ↔ (s.index_data ≡ none)

  status_of-clean :
      (ok : Bool) (errors : ℕ) (o : Option Data)
      → (status_of ok errors o ≡ index_clean)
        ↔ ((d : Data) × (o ≡ some d) × (ok ≡ true) × (errors ≡ 0))
  status_of-clean ok errors none = (λ e. absurd (cc e), λ h. absurd (cc h.1))
  status_of-clean ok errors (some d) = elim (Bool-cases (ok && errors == 0)) [
    | inl e ↦ (
      λ h. (d, refl, &&-left ok (errors == 0) e, (==_iff errors 0).0 (&&-right ok (errors == 0) e)),
      λ h. rw e refl,
    )
    | inr e ↦ (λ h. absurd (cc (rw e at h)), λ h. absurd (ground (arith, e, h.2, h.3)))
  ]

  status_of-failed :
      (ok : Bool) (errors : ℕ) (o : Option Data)
      → (status_of ok errors o ≡ index_failed) ↔ (o ≡ none)
  status_of-failed ok errors none = (λ e. refl, λ e. refl)
  status_of-failed ok errors (some d) = elim (Bool-cases (ok && errors == 0)) [
    | inl e ↦ (λ h. absurd (cc (rw e at h)), λ h. absurd (cc h))
    | inr e ↦ (λ h. absurd (cc (rw e at h)), λ h. absurd (cc h))
  ]

  with_data-none : (tool : ToolCommand → ToolRun Data) (o : Option Data) → with_data tool o none ≡ o
  with_data-none tool none = refl
  with_data-none tool (some d) = refl

  -- What is left of a command that is indexed
  pub record IsRun (tool : ToolCommand → ToolRun Data) (directory : Option Text) (file : Text)
      (argv : List Text) (ok : Bool) (s : Semindex Data) : Type 0 where
    pub command :
        s.command ≡ some (record { directory = or_dot directory; file = file; argv = argv })
    pub returned : ok ≡ (run_tool tool directory file argv).ret_is_zero
    pub errors : s.result.errors ≡ (run_tool tool directory file argv).errors
    pub left : s.index_data ≡ (run_tool tool directory file argv).index_data
    pub agrees : Agrees ok s

  -- A command with a file and an argument is indexed: the index keeps the command, with "." for a
  -- missing directory, and the data and the number of errors of this run of the tool alone,
  -- whatever the index held before; what is returned is 0 exactly where the tool returned 0; the
  -- status is clean exactly where that is so and the tool counted no error and left index data, and
  -- failed exactly where it left none. A command without one of the two returns -1 and leaves the
  -- index as it was.
  pub semindex_index_command-Agrees :
      (tool : ToolCommand → ToolRun Data) (c : GivenCommand) (s : Semindex Data)
      → ((file arg : Text) (rest : List Text)
          → c.file ≡ some file
          → c.argv ≡ some (arg ∷ rest)
          → IsRun tool c.directory file
              (arg ∷ rest)
              (semindex_index_command tool c s).0
              (semindex_index_command tool c s).1)
        × (is_unusable c.file c.argv ≡ true → semindex_index_command tool c s ≡ (false, s))
  unfolding semindex_index_command
  semindex_index_command-Agrees tool c s =
      (λ file arg rest p q. rw (p, q) (ran file arg rest), unusable c.file c.argv)
    where
      ran :
          (file arg : Text) (rest : List Text)
          → IsRun tool c.directory file
              (arg ∷ rest)
              (index_given tool c.directory (some file) (some (arg ∷ rest)) s).0
              (index_given tool c.directory (some file) (some (arg ∷ rest)) s).1
      ran file arg rest =
          let run = run_tool tool c.directory file (arg ∷ rest) in
          let kept = with_data tool run.index_data none in
          record {
            command = refl;
            returned = refl;
            errors = refl;
            left = with_data-none tool run.index_data;
            agrees = record {
              clean = status_of-clean run.ret_is_zero run.errors kept;
              failed = status_of-failed run.ret_is_zero run.errors kept;
            };
          }

      unusable :
          (f : Option Text) (argv : Option (List Text))
          → is_unusable f argv ≡ true
          → index_given tool c.directory f argv s ≡ (false, s)
      unusable none argv e = refl
      unusable (some file) none e = refl
      unusable (some file) (some []) e = refl
      unusable (some file) (some (arg ∷ rest)) e = absurd (cc e)
