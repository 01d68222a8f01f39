-- ===== src/Output/Write/Laws.antt =====
-- What index_db_output_write of lib/semindex_index_db/index_db_output.c writes.
use mathlib.Core.Path.{subst}
use semindex.Base.{
  ℕ, suc, true, some, List, [], ◌∷◌, ◌++◌, Text, get_elem?, if◌then◌else◌, ◌≡◌, refl, sym, ap, inl,
  inr, Bool-cases,
}
use semindex.Output.{Token, text, character, field}
use semindex.Output.Source.{
  Files, Cursor, source_path, Printed, printed, failed, overrun, print_source_line, chop,
}
use semindex.Output.Source.Laws.{
  IsLines, IsCursor, print_source_line-Writes, print_source_line-root,
}
use semindex.Output.Write.{
  OutputRecord, Output, wrote, print_field, is_source_field, after_source, index_db_output_write,
}

-- The text that stands for a token, where `l` is the source line.
abbrev pub shown : (ℕ → Text) → Files → OutputRecord → Text → Token → Text
shown decimal files r l (text t) = t
shown decimal files r l (character c) = c ∷ []
shown decimal files r l (field f) =
    if is_source_field decimal files r f then chop l else print_field decimal files r f

abbrev pub shown_all : (ℕ → Text) → Files → OutputRecord → Text → List Token → Text
shown_all decimal files r l [] = b'\n' ∷ []
shown_all decimal files r l (t ∷ ts) = shown decimal files r l t ++ shown_all decimal files r l ts

after_source-printed :
    (decimal : ℕ → Text) (files : Files) (r : OutputRecord) (t : Text) (x : Printed × Cursor)
    → x.0 ≡ printed t
    → (rest : Cursor → Output) → after_source decimal files r x rest ≡ wrote t (rest x.1)
after_source-printed decimal files r t (printed u, s) e rest = ap (λ v. wrote v (rest s)) (cc e)
after_source-printed decimal files r t (failed, s) e rest = absurd (cc e)
after_source-printed decimal files r t (overrun, s) e rest = absurd (cc e)

-- Let the record's source line, counted from 1, be in its file, let getline give a newline at the
-- end of a line only, and let the cursor stand in some file or in none. Then a write in any format
-- succeeds and writes the texts of the tokens in their order and a newline, and the cursor stands
-- in a file again, or in none.
pub index_db_output_write-shown :
    (decimal : ℕ → Text) (files : Files) (r : OutputRecord) (ts : List Token) (s : Cursor)
    (all : List Text) (n : ℕ) (l : Text)
    → IsLines files
    → IsCursor files s
    → r.line ≡ suc n
    → files (source_path r.root s.root r.file) ≡ some all
    → get_elem? all n ≡ some l
    → ((index_db_output_write decimal files r ts s).ok ≡ true)
      × ((index_db_output_write decimal files r ts s).out ≡ shown_all decimal files r l ts)
      × IsCursor files (index_db_output_write decimal files r ts s).cursor
unfolding index_db_output_write
index_db_output_write-shown decimal files r [] s all n l lines c at there_is e = (refl, refl, c)
index_db_output_write-shown decimal files r (text t ∷ ts) s all n l lines c at there_is e =
    let (a, b, d) =
      index_db_output_write-shown decimal files r ts s all n l lines c at there_is e in
    (a, ap (λ o. t ++ o) b, d)
index_db_output_write-shown decimal files r (character x ∷ ts) s all n l lines c at there_is e =
    let (a, b, d) =
      index_db_output_write-shown decimal files r ts s all n l lines c at there_is e in
    (a, ap (λ o. x ∷ o) b, d)
index_db_output_write-shown decimal files r (field f ∷ ts) s all n l lines c at there_is e =
    elim (Bool-cases (is_source_field decimal files r f)) [
      | inl h ↦
          let x = print_source_line files s r.root r.file r.line in
          let (w, c') =
            subst
              (λ i.
                ((print_source_line files s r.root r.file i).0 ≡ printed (chop l))
                × IsCursor files (print_source_line files s r.root r.file i).1)
              (sym at)
              (print_source_line-Writes files s r.root r.file all n l lines c there_is e) in
          let there_is' =
            subst (λ o. files (source_path r.root o r.file) ≡ some all)
              (sym (print_source_line-root files s r.root r.file r.line)) there_is in
          let (a, b, d) =
            index_db_output_write-shown decimal files r ts x.1 all n l lines c' at there_is' e in
          rw
            (
              h,
              after_source-printed decimal files r (chop l) x w
                  (index_db_output_write decimal files r ts),
            )
            (a, ap (λ o. chop l ++ o) b, d)
      | inr h ↦
          let (a, b, d) =
            index_db_output_write-shown decimal files r ts s all n l lines c at there_is e in
          rw h (a, ap (λ o. print_field decimal files r f ++ o) b, d)
    ]
