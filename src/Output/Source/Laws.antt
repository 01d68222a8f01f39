-- ===== src/Output/Source/Laws.antt =====
-- The line that print_source_line of lib/semindex_index_db/index_db_output.c writes.
use mathlib.Core.Path.{subst}
use semindex.Base.{
  ℕ, zero, suc, ◌+◌, ◌-◌, ◌≤◌, Bool, true, false, ◌&&◌, Option, none, some, List, [], ◌∷◌, Text,
  text_eq_iff, is_some, ltb, drop, get_elem?, ◌≡◌, refl, sym, ap, ◌∙◌, ◌⊎◌, inl, inr, arith,
  Bool-cases, &&-right,
}
use semindex.Output.Source.{
  Files, Cursor, source_path, same_path, open_source, reopen, rewind_before, read_lines, chop,
  Printed, printed, print_text, print_read, print_from, print_source_line,
}

-- getline gives a '\n' at the end of a line only.
pub record IsLines (files : Files) : Type 0 where
  pub at :
      (p : Text) (all : List Text) (i : ℕ) (l : Text)
      → files p ≡ some all
      → get_elem? all i ≡ some l
      → chop (chop l) ≡ chop l

-- The buffer holds the line that the cursor stands behind, with or without its '\n'.
abbrev pub Holds : List Text → ℕ → Option Text → Type 0
Holds all zero t = Unit
Holds all (suc n) t = (l : Text) × (get_elem? all n ≡ some l) × ((t ≡ some l) ⊎ (t ≡ some (chop l)))

-- The cursor stands in the file that it names.
pub record Stands (files : Files) (p : Text) (s : Cursor) : Type 0 where
  pub all : List Text
  pub path : s.path ≡ some p
  pub file : files p ≡ some all
  pub rest : s.source ≡ some (drop s.line all)
  pub text : Holds all s.line s.text

-- No file is open, or the cursor stands in one.
abbrev pub IsCursor : Files → Cursor → Type 0
IsCursor files s = (s.source ≡ none) ⊎ ((p : Text) × Stands files p s)

drop-get :
    {A : Type 0} (n : ℕ) (xs : List A) {x : A}
    → get_elem? xs n ≡ some x
    → drop n xs ≡ x ∷ drop (suc n) xs
drop-get n [] e = absurd (cc e)
drop-get zero (y ∷ xs) e = ap (λ z. z ∷ xs) (cc e)
drop-get (suc n) (y ∷ xs) e = drop-get n xs e

get-before :
    {A : Type 0} (n k : ℕ) (xs : List A) {x : A}
    → get_elem? xs (n + suc k) ≡ some x
    → (y : A) × (get_elem? xs n ≡ some y)
get-before zero k [] e = absurd (cc e)
get-before (suc n) k [] e = absurd (cc e)
get-before zero k (y ∷ xs) e = (y, refl)
get-before (suc n) k (y ∷ xs) {x} e =
    let step : suc n + suc k ≡ suc (n + suc k) = omega arith in
    get-before n k xs (subst (λ i. get_elem? (y ∷ xs) i ≡ some x) step e)

-- Reading on to a line that the file has.
read_lines-get :
    (k : ℕ) (all : List Text) (s : Cursor) (l : Text)
    → get_elem? all (s.line + k) ≡ some l
    → read_lines (suc k) (drop s.line all) s ≡ (
      true,
      record s { source = some (drop (s.line + suc k) all); text = some l; line = s.line + suc k },
    )
unfolding read_lines
read_lines-get zero all s l e =
    let e' : get_elem? all s.line ≡ some l =
      subst (λ i. get_elem? all i ≡ some l) (omega arith) e in
    let one : suc s.line ≡ s.line + 1 = omega arith in rw (drop-get s.line all e', one) refl
read_lines-get (suc k) all s l e =
    let (x, h) = get-before s.line k all e in
    let one : suc s.line ≡ s.line + 1 = omega arith in
    let later : get_elem? all (s.line + 1 + k) ≡ some l =
      subst (λ i. get_elem? all i ≡ some l) (omega arith) e in
    let to : s.line + 1 + suc k ≡ s.line + suc (suc k) = omega arith in
    rw (drop-get s.line all h, one)
      (read_lines-get k all (record s { text = some x; line = s.line + 1 }) l later ∙ rw to refl)

same_path-some : (o : Option Text) (p : Text) → same_path o p ≡ true → o ≡ some p
same_path-some none p h = absurd (cc h)
same_path-some (some q) p h = ap (λ t. some t) ((text_eq_iff q p).0 h)

open_source-Stands :
    (files : Files) (s : Cursor) (root : Option Text) (path : Text) (all : List Text)
    → IsCursor files s
    → files (source_path root s.root path) ≡ some all
    → Stands files (source_path root s.root path) (open_source files s root path)
unfolding open_source
open_source-Stands files s root path all c e =
    let p = source_path root s.root path in
    elim (Bool-cases (is_some s.source && same_path s.path p)) [
      | inl h ↦ rw h (elim c [
        | inl closed ↦ absurd (not_open s.source (same_path s.path p) closed h)
        | inr (q, st) ↦
            let named : some q ≡ some p =
              sym st.path ∙ same_path-some s.path p (&&-right (is_some s.source) _ h) in
            subst (λ x. Stands files x s) (cc named) st
      ])
      | inr h ↦ rw h (record { all = all; path = refl; file = e; rest = e; text = tt })
    ]
  where
    not_open : (o : Option (List Text)) (b : Bool) → o ≡ none → ¬ ((is_some o && b) ≡ true)
    not_open none b e h = absurd (cc h)
    not_open (some x) b e h = absurd (cc e)

rewind_before-Stands :
    (files : Files) (n : ℕ) (p : Text) (s : Cursor)
    → Stands files p s
    → Stands files p (rewind_before files n s) × ((rewind_before files n s).line ≤ n)
unfolding rewind_before
rewind_before-Stands files n p s st = elim (Bool-cases (ltb n s.line)) [
  | inl h ↦ rw h (
    record {
      all = st.all;
      path = st.path;
      file = st.file;
      rest = ap (λ o. reopen files o) st.path ∙ st.file;
      text = tt;
    },
    omega arith,
  )
  | inr h ↦ rw h (st, ground (arith, h))
]

-- What a write of the line `l` of the file is to come to.
abbrev Writes : Files → Text → Text → Printed × Cursor → Type 0
Writes files p l r = (r.0 ≡ printed (chop l)) × Stands files p r.1

module _ (files : Files) (p : Text) (all : List Text) (n : ℕ) (l : Text) (file : files p ≡ some all)
    (lines : IsLines files) (e : get_elem? all n ≡ some l) where
  stands :
      (s : Cursor) (t : Text)
      → s.path ≡ some p
      → s.line ≡ suc n
      → (t ≡ l) ⊎ (t ≡ chop l)
      → Stands files p (record s { source = some (drop s.line all); text = some t })
  stands s t q at h = record {
    all = all;
    path = q;
    file = file;
    rest = refl;
    text =
        subst (λ i. Holds all i (some t)) (sym at)
          (l, e, elim h [ inl a ↦ inl (ap (λ x. some x) a) | inr a ↦ inr (ap (λ x. some x) a) ]);
  }

  print_text-Writes :
      (s : Cursor)
      → s.path ≡ some p
      → s.line ≡ suc n
      → (t : Option Text) → (t ≡ some l) ⊎ (t ≡ some (chop l))
      → Writes files p l (print_text t (record s { source = some (drop s.line all) }))
  print_text-Writes s q at none h = absurd (elim h [ inl a ↦ cc a | inr a ↦ cc a ])
  print_text-Writes s q at (some t) h =
      let same : chop t ≡ chop l = elim h [
        | inl a ↦ let b : t ≡ l = cc a in ap (λ x. chop x) b
        | inr a ↦ let b : t ≡ chop l = cc a in ap (λ x. chop x) b ∙ lines.at p all n l file e
      ] in
      (ap (λ x. printed x) same, stands s (chop t) q at (inr same))

  print_read-Writes :
      (m : ℕ) (s : Cursor)
      → s.path ≡ some p
      → s.line + m ≡ suc n
      → Holds all s.line s.text
      → Writes files p l (print_read (read_lines m (drop s.line all) s))
  unfolding read_lines
  print_read-Writes zero s q at held =
      let at' : s.line ≡ suc n = omega (arith, at) in
      let (l', g, h) = subst (λ i. Holds all i s.text) at' held in
      let same : some l' ≡ some l = sym g ∙ e in
      print_text-Writes s q at' s.text
        (subst (λ x. (s.text ≡ some x) ⊎ (s.text ≡ some (chop x))) (cc same) h)
  print_read-Writes (suc k) s q at held =
      let to : n ≡ s.line + k = omega (arith, at) in
      let e' = subst (λ i. get_elem? all i ≡ some l) to e in
      subst (λ r. Writes files p l (print_read r)) (sym (read_lines-get k all s l e'))
        (print_text-Writes (record s { line = s.line + suc k }) q at (some l) (inl refl))

-- Writing from a cursor that stands at the line or before it.
print_from-Writes :
    (files : Files) (p : Text) (all : List Text) (n : ℕ) (l : Text) (s : Cursor)
    → files p ≡ some all
    → IsLines files
    → get_elem? all n ≡ some l
    → Stands files p s
    → s.line ≤ suc n
    → Writes files p l (print_from (suc n) s.source s)
print_from-Writes files p all n l s file lines e st h =
    let same_file : some st.all ≡ some all = sym st.file ∙ file in
    let same : st.all ≡ all = cc same_file in
    subst (λ o. Writes files p l (print_from (suc n) o s))
      (sym (st.rest ∙ ap (λ x. some (drop s.line x)) same))
      (print_read-Writes files p all n l file lines e (suc n - s.line) s st.path (omega (arith, h))
        (subst (λ x. Holds x s.line s.text) same st.text))

-- Let the cursor stand in some file or in none. Then a write of a line, counted from 1, that the
-- file has writes that line without its newline, whatever lines and files were written before, and
-- the cursor stands in some file or in none again. The file opens, and getline gives a newline at
-- the end of a line only.
pub print_source_line-Writes :
    (files : Files) (s : Cursor) (root : Option Text) (path : Text) (all : List Text) (n : ℕ)
    (l : Text)
    → IsLines files
    → IsCursor files s
    → files (source_path root s.root path) ≡ some all
    → get_elem? all n ≡ some l
    → ((print_source_line files s root path (suc n)).0 ≡ printed (chop l))
      × IsCursor files (print_source_line files s root path (suc n)).1
unfolding print_source_line
print_source_line-Writes files s root path all n l lines c file e =
    let p = source_path root s.root path in
    let st = open_source-Stands files s root path all c file in
    let (st', h) = rewind_before-Stands files (suc n) p (open_source files s root path) st in
    let (a, b) = print_from-Writes files p all n l _ file lines e st' h in
    let is_open : is_some (open_source files s root path).source ≡ true =
      ap (λ (o : Option (List Text)). is_some o) st.rest in
    rw is_open (a, inr (p, b))

read_lines-root : (m : ℕ) (rest : List Text) (s : Cursor) → (read_lines m rest s).1.root ≡ s.root
unfolding read_lines
read_lines-root zero rest s = refl
read_lines-root (suc m) [] s = refl
read_lines-root (suc m) (x ∷ rest) s =
    read_lines-root m rest (record s { text = some x; line = s.line + 1 })

print_read-root : (r : Bool × Cursor) → (print_read r).1.root ≡ r.1.root
print_read-root (false, s) = refl
print_read-root (true, s) = print_text-root s.text s
  where
    print_text-root : (t : Option Text) (s : Cursor) → (print_text t s).1.root ≡ s.root
    print_text-root none s = refl
    print_text-root (some t) s = refl

print_from-root : (n : ℕ) (o : Option (List Text)) (s : Cursor) → (print_from n o s).1.root ≡ s.root
print_from-root n none s = refl
print_from-root n (some rest) s =
    print_read-root (read_lines (n - s.line) rest s) ∙ read_lines-root (n - s.line) rest s

-- The root stays.
pub print_source_line-root :
    (files : Files) (s : Cursor) (root : Option Text) (path : Text) (n : ℕ)
    → (print_source_line files s root path n).1.root ≡ s.root
unfolding print_source_line open_source rewind_before
print_source_line-root files s root path n =
    let opened = open_source files s root path in
    let same : opened.root ≡ s.root = ground arith in
    let back : (rewind_before files n opened).root ≡ opened.root = ground arith in
    elim (Bool-cases (is_some opened.source)) [
      | inl h ↦ rw h (
          print_from-root n (rewind_before files n opened).source (rewind_before files n opened)
          ∙ back
          ∙ same)
      | inr h ↦ rw h same
    ]
