-- ===== src/CompilerCommand/Laws.antt =====
-- What tools/common/compiler_command.c takes for the source file.
use mathlib.Core.Path.{subst}
use semindex.Base.{
  ℕ, zero, suc, ◌+◌, ◌-◌, Bool, true, false, not, ◌&&◌, ◌||◌, Option, none, some, List, [], ◌∷◌,
  ◌++◌, Text, codes, text_eq, text_eq_iff, starts_with, if◌then◌else◌, length, length-append, drop,
  ltb, ◌==◌, ◌≡◌, refl, sym, ap, ◌∙◌, arith, any, keep, All, Bool-cases, ◌↔◌, inl, inr,
}
use semindex.CompilerCommand.{
  has_suffix, is_source, is_option, opts, takes_arg, option_takes_joined_or_next_arg, no_third,
  Scan, is_unsupported, scan, start, compiler_command_find_source,
}

drop-append : {A : Type 0} (xs ys : List A) → drop (length xs) (xs ++ ys) ≡ ys
drop-append [] ys = refl
drop-append (x ∷ xs) ys = drop-append xs ys

take-drop : {A : Type 0} (n : ℕ) (xs : List A) → (ys : List A) × (xs ≡ ys ++ drop n xs)
take-drop zero xs = ([], refl)
take-drop (suc n) [] = ([], refl)
take-drop (suc n) (x ∷ xs) = let (ys, e) = take-drop n xs in (x ∷ ys, ap (λ l. x ∷ l) e)

-- A string has a suffix exactly when it is some string followed by it.
pub has_suffix_iff :
    (str suffix : Text)
    → (has_suffix str suffix ≡ true) ↔ ((front : Text) × (str ≡ front ++ suffix))
unfolding has_suffix
has_suffix_iff str suffix = (
  λ h.
      let (front, e) = take-drop (length str - length suffix) str in
      let same : drop (length str - length suffix) str ≡ suffix =
        (text_eq_iff _ suffix).0 (ground (arith, h)) in
      (front, e ∙ ap (λ t. front ++ t) same),
  λ p.
      let (front, e) = p in
      subst
        (λ s.
          (if ltb (length s) (length suffix)
            then false
            else text_eq (drop (length s - length suffix) s) suffix)
          ≡ true)
        (sym e) (of_append front),
)
  where
    of_append :
        (front : Text)
        → (if ltb (length (front ++ suffix)) (length suffix)
            then false
            else text_eq (drop (length (front ++ suffix) - length suffix) (front ++ suffix)) suffix)
          ≡ true
    of_append front =
        let n : length (front ++ suffix) - length suffix ≡ length front =
          omega (arith, length-append front suffix) in
        let short : ltb (length (front ++ suffix)) (length suffix) ≡ false =
          ground (arith, length-append front suffix) in
        rw (short, n, drop-append front suffix) ((text_eq_iff suffix suffix).1 refl)

-- The options whose next argument is passed over.
abbrev pub two_argument_options : List Text
two_argument_options = codes "-D" ∷ codes "-I" ∷ codes "-U" ∷ codes "-x" ∷ codes "-o" ∷ []

abbrev pub takes_next : Text → Bool
takes_next arg = option_takes_joined_or_next_arg arg && no_third arg

and_true : (x : Bool) → (x && true) ≡ x
and_true x = ground arith

or_right : (x y : Bool) → (x || y) ≡ false → y ≡ false
or_right x y h = ground arith

and_false : (x y : Bool) → y ≡ false → (x && y) ≡ false
and_false x y h = ground arith

-- Among options of two bytes or more, an argument of two bytes is looked up as it is.
takes_arg-two :
    (a b : ℕ) (table : List Text)
    → any (λ o. ltb (length o) 2) table ≡ false
    → takes_arg (a ∷ b ∷ []) table ≡ any (text_eq (a ∷ b ∷ [])) (keep (λ o. length o == 2) table)
unfolding takes_arg starts_with text_eq any keep
takes_arg-two a b [] h = refl
takes_arg-two a b ((x ∷ y ∷ []) ∷ rest) h = ground (
  arith,
  takes_arg-two a b rest
      (or_right (ltb (length (x ∷ y ∷ [])) 2) (any (λ t. ltb (length t) 2) rest) h),
)
takes_arg-two a b ((x ∷ y ∷ z ∷ o) ∷ rest) h = ground (
  arith,
  takes_arg-two a b rest
      (or_right (ltb (length (x ∷ y ∷ z ∷ o)) 2) (any (λ t. ltb (length t) 2) rest) h),
)
takes_arg-two a b ([] ∷ rest) h = absurd (cc h)
takes_arg-two a b ((x ∷ []) ∷ rest) h = absurd (cc h)

-- No option of two bytes is an argument of another length.
other_length :
    (arg : Text) (table : List Text)
    → no_third arg ≡ false
    → any (λ o. not (length o == 2)) table ≡ false
    → any (text_eq arg) table ≡ false
unfolding any
other_length arg [] n h = refl
other_length arg (o ∷ rest) n h = elim (Bool-cases (text_eq arg o)) [
  | inl e ↦
      let same = ap (λ (t : Text). length t) ((text_eq_iff arg o).0 e) in
      absurd (ground (arith, same, n, h))
  | inr e ↦ rw e (other_length arg rest n (or_right _ _ h))
]

-- The argument after an option is passed over for `-D`, `-I`, `-U`, `-x` and `-o`, and for no other
-- of the options that the table names.
pub takes_next_iff : (arg : Text) → takes_next arg ≡ any (text_eq arg) two_argument_options
unfolding option_takes_joined_or_next_arg any keep
takes_next_iff (a ∷ b ∷ []) = and_true _ ∙ takes_arg-two a b opts refl
takes_next_iff [] = and_false _ _ refl ∙ sym (other_length [] two_argument_options refl refl)
takes_next_iff (a ∷ []) =
    and_false _ _ refl ∙ sym (other_length (a ∷ []) two_argument_options refl refl)
takes_next_iff (a ∷ b ∷ c ∷ rest) =
    let longer : no_third (a ∷ b ∷ c ∷ rest) ≡ false = ground arith in
    and_false _ _ longer ∙ sym (other_length (a ∷ b ∷ c ∷ rest) two_argument_options longer refl)

-- The arguments that are not passed over.
abbrev pub looked_at : Bool → List Text → List Text
looked_at skip [] = []
looked_at true (arg ∷ rest) = looked_at false rest
looked_at false (arg ∷ rest) = arg ∷ looked_at (any (text_eq arg) two_argument_options) rest

abbrev pub is_source_argument : Text → Bool
is_source_argument arg = not (is_option arg) && is_source arg

abbrev last_source : Option Text → List Text → Option Text
last_source found [] = found
last_source found (f ∷ rest) = last_source (some f) rest

-- The command has no flag that is not supported and `f` is its only source.
abbrev pub IsOnlySource : Text → List Text → Type 0
IsOnlySource f args =
    (any is_unsupported (looked_at false args) ≡ false)
    × (keep is_source_argument (looked_at false args) ≡ f ∷ [])

-- What holds of the entries of a table holds of an argument that is one of them.
of_table :
    (P : Text → Type 0) (arg : Text) (table : List Text)
    → All P table
    → any (text_eq arg) table ≡ true
    → P arg
unfolding any
of_table P arg [] all h = absurd (cc h)
of_table P arg (o ∷ rest) all h = elim (Bool-cases (text_eq arg o)) [
  | inl e ↦ subst P (sym ((text_eq_iff arg o).0 e)) all.0
  | inr e ↦ of_table P arg rest all.1 (rw e at h)
]

abbrev flags : List Text
flags = codes "-c" ∷ codes "--" ∷ []

abbrev unsupported : List Text
unsupported = codes "-E" ∷ codes "-S" ∷ codes "-M" ∷ codes "-MM" ∷ []

abbrev IsFlag : Text → Type 0
IsFlag arg =
    (is_unsupported arg ≡ false)
    × (is_option arg ≡ true)
    × (any (text_eq arg) two_argument_options ≡ false)

flags-IsFlag : All IsFlag flags
unfolding text_eq any
flags-IsFlag = ((refl, refl, refl), ((refl, refl, refl), tt))

abbrev IsRefused : Text → Type 0
IsRefused arg = (is_option arg ≡ true) × (any (text_eq arg) two_argument_options ≡ false)

unsupported-IsRefused : All IsRefused unsupported
unfolding text_eq any
unsupported-IsRefused = ((refl, refl), ((refl, refl), ((refl, refl), ((refl, refl), tt))))

two_argument-is_option : All (λ arg. is_option arg ≡ true) two_argument_options
two_argument-is_option = (refl, (refl, (refl, (refl, (refl, tt)))))

-- What one argument does to the counters.
abbrev count : Text → Scan → Scan
count arg s =
    if is_unsupported arg
    then record s { unsupported = true }
    else if is_source_argument arg
    then record s { sources = s.sources + 1; source_file = some arg }
    else s

IsFlag-cases :
    (arg : Text)
    → ((text_eq arg (codes "-c") || text_eq arg (codes "--")) ≡ true → IsFlag arg)
      × (is_unsupported arg ≡ true → IsRefused arg)
      × (any (text_eq arg) two_argument_options ≡ true → is_option arg ≡ true)
unfolding any
IsFlag-cases arg = (
  λ h. of_table IsFlag arg flags flags-IsFlag (ground (arith, h)),
  λ h. of_table IsRefused arg unsupported unsupported-IsRefused (ground (arith, h)),
  λ h. of_table (λ a. is_option a ≡ true) arg two_argument_options two_argument-is_option h,
)

scan-step :
    (arg : Text) (rest : List Text) (s : Scan)
    → scan false (arg ∷ rest) s ≡ scan (any (text_eq arg) two_argument_options) rest (count arg s)
unfolding scan
scan-step arg rest s =
    let (flag, refused, taken) = IsFlag-cases arg in
    ground (arith, flag, refused, taken, takes_next_iff arg)

abbrev count_all : List Text → Scan → Scan
count_all [] s = s
count_all (arg ∷ rest) s = count_all rest (count arg s)

scan-looked_at :
    (skip : Bool) (args : List Text) (s : Scan)
    → scan skip args s ≡ count_all (looked_at skip args) s
unfolding scan
scan-looked_at true [] s = refl
scan-looked_at false [] s = refl
scan-looked_at true (arg ∷ rest) s = scan-looked_at false rest s
scan-looked_at false (arg ∷ rest) s =
    scan-step arg rest s
    ∙ scan-looked_at (any (text_eq arg) two_argument_options) rest (count arg s)

-- What the counters are in the end.
record Counted (l : List Text) (s end : Scan) : Type 0 where
  refused : end.unsupported ≡ (s.unsupported || any is_unsupported l)
  number : end.sources ≡ s.sources + length (keep is_source_argument l)
  found : end.source_file ≡ last_source s.source_file (keep is_source_argument l)

count-Counted :
    (arg : Text) (rest : List Text) (s end : Scan)
    → Counted rest (count arg s) end
    → Counted (arg ∷ rest) s end
unfolding any keep
count-Counted arg rest s end k =
    let (flag, refused, taken) = IsFlag-cases arg in
    record {
      refused = ground (arith, k.refused, refused);
      number = ground (arith, k.number, refused);
      found = ground (arith, k.found, refused);
    }

count_all-Counted : (l : List Text) (s : Scan) → Counted l s (count_all l s)
unfolding any keep
count_all-Counted [] s = record { refused = ground arith; number = omega arith; found = refl }
count_all-Counted (arg ∷ rest) s =
    count-Counted arg rest s (count_all rest (count arg s)) (count_all-Counted rest (count arg s))

only_one : (l : List Text) (f : Text) → length l ≡ 1 → last_source none l ≡ some f → l ≡ f ∷ []
only_one (x ∷ []) f n e = cc e
only_one [] f n e = absurd (omega (arith, n))
only_one (x ∷ y ∷ l) f n e = absurd (omega (arith, n))

-- The search succeeds with a given source exactly when, among the arguments that are not passed
-- over as the value of -D, -I, -U, -x or -o, there is none of -E, -S, -M and -MM, and the source
-- is the only one that is no option and has the suffix of a source file.
pub find_source_iff :
    (driver : Text) (args : List Text) (f : Text)
    → (compiler_command_find_source (driver ∷ args) ≡ (true, some f)) ↔ IsOnlySource f args
unfolding compiler_command_find_source
find_source_iff driver args f = (
  λ e.
      let k = counted in
      let ok : not (end.unsupported || not (end.sources == 1)) ≡ true = ap (λ p. p.0) e in
      let file : end.source_file ≡ some f = ap (λ p. p.1) e in
      (
        ground (arith, ok, k.refused),
        only_one (keep is_source_argument (looked_at false args)) f (ground (arith, ok, k.number))
            (sym k.found ∙ file),
      ),
  λ p.
      let k = counted in
      let one : end.sources ≡ 1 = omega (arith, k.number, ap (λ (l : List Text). length l) p.1) in
      let file : end.source_file ≡ some f = k.found ∙ ap (λ l. last_source none l) p.1 in
      let fine : end.unsupported ≡ false = k.refused ∙ p.0 in
      λ i. (not (fine i || not (one i == 1)), file i),
)
  where
    end : Scan
    end = scan false args start

    counted : Counted (looked_at false args) start end
    counted =
        subst (Counted (looked_at false args) start) (sym (scan-looked_at false args start))
          (count_all-Counted (looked_at false args) start)
