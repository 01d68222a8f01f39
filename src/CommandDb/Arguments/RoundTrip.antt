-- ===== src/CommandDb/Arguments/RoundTrip.antt =====
-- What pack_arguments writes, unpack_arguments of lib/semindex_command_db reads, and nothing else.
use mathlib.Core.Path.{subst}
use semindex.Base.{
  ℕ, zero, suc, ◌+◌, true, false, none, some, List, [], ◌∷◌, ◌++◌, Text, ◌==◌, length, ◌≡◌, ◌≢◌,
  ◌⊎◌, ◌↔◌, ◌≤◌, ◌-◌, leb, ltb, length-append, if◌then◌else◌, refl, sym, ap, ◌∙◌, arith, All, inl,
  inr, Bool-cases,
}
use semindex.CommandDb.Arguments.{
  size_max, pack, pack_size, pack_arguments, ends_in_nul, count_nuls, c_string, unpack,
  unpack_arguments,
}

-- A C string has no NUL in it.
abbrev pub IsCString : Text → Type 0
IsCString = All (λ c. c ≢ 0)

c_string-append : (s rest : Text) → IsCString s → c_string (s ++ 0 ∷ rest) ≡ (s, rest)
unfolding c_string
c_string-append [] rest h = refl
c_string-append (c ∷ s) rest h =
    let no : (c == 0) ≡ false = ground (arith, h.0) in rw (no, c_string-append s rest h.1) refl

count_nuls-append :
    (s rest : Text) → IsCString s → count_nuls (s ++ 0 ∷ rest) ≡ suc (count_nuls rest)
unfolding count_nuls
count_nuls-append [] rest h = refl
count_nuls-append (c ∷ s) rest h =
    let no : (c == 0) ≡ false = ground (arith, h.0) in rw no (count_nuls-append s rest h.1)

unpack-pack :
    (argv : List Text) → All IsCString argv → unpack (count_nuls (pack argv)) (pack argv) ≡ argv
unfolding unpack pack count_nuls
unpack-pack [] h = refl
unpack-pack (arg ∷ rest) h =
    rw (count_nuls-append arg (pack rest) h.0, c_string-append arg (pack rest) h.0)
      (ap (λ l. arg ∷ l) (unpack-pack rest h.1))

ends_in_nul-append : (s rest : Text) → ends_in_nul rest ≡ true → ends_in_nul (s ++ rest) ≡ true
unfolding ends_in_nul
ends_in_nul-append [] rest h = h
ends_in_nul-append (c ∷ []) [] h = absurd (cc h)
ends_in_nul-append (c ∷ []) (d ∷ rest) h = h
ends_in_nul-append (c ∷ d ∷ s) rest h = ends_in_nul-append (d ∷ s) rest h

ends_in_nul-pack : (arg : Text) (argv : List Text) → ends_in_nul (pack (arg ∷ argv)) ≡ true
unfolding ends_in_nul pack
ends_in_nul-pack arg [] = ends_in_nul-append arg (0 ∷ []) refl
ends_in_nul-pack arg (next ∷ rest) =
    ends_in_nul-append arg (0 ∷ pack (next ∷ rest))
      (ends_in_nul-append (0 ∷ []) (pack (next ∷ rest)) (ends_in_nul-pack next rest))

-- The first C string of a blob that ends in NUL.
record FirstOf (blob : Text) : Type 0 where
  whole : blob ≡ (c_string blob).0 ++ 0 ∷ (c_string blob).1
  clean : IsCString (c_string blob).0
  closed : ((c_string blob).1 ≡ []) ⊎ (ends_in_nul (c_string blob).1 ≡ true)
  fewer : count_nuls blob ≡ suc (count_nuls (c_string blob).1)

FirstOf-c_string : (blob : Text) → ends_in_nul blob ≡ true → FirstOf blob
unfolding ends_in_nul c_string count_nuls
FirstOf-c_string [] h = absurd (cc h)
FirstOf-c_string (c ∷ []) h =
    let zero_c : c ≡ 0 = ground (arith, h) in
    rw zero_c (record { whole = refl; clean = tt; closed = inl refl; fewer = refl })
FirstOf-c_string (c ∷ d ∷ rest) h =
    let k = FirstOf-c_string (d ∷ rest) h in
    elim (Bool-cases (c == 0)) [
      | inl e ↦
          let zero_c : c ≡ 0 = ground (arith, e) in
          rw zero_c (record { whole = refl; clean = tt; closed = inr h; fewer = refl })
      | inr e ↦ record {
        whole = rw e (ap (λ t. c ∷ t) k.whole);
        clean = rw e (ground (arith, e), k.clean);
        closed = rw e k.closed;
        fewer = rw e k.fewer;
      }
    ]

-- Whether there is a first argument; argc is not 0.
abbrev pub IsNonempty : List Text → Type 0
IsNonempty [] = ⊥
IsNonempty (arg ∷ rest) = Unit

pack-unpack :
    (n : ℕ) (blob : Text)
    → count_nuls blob ≡ n
    → ends_in_nul blob ≡ true
    → (pack (unpack n blob) ≡ blob) × All IsCString (unpack n blob) × IsNonempty (unpack n blob)
unfolding pack unpack count_nuls
pack-unpack zero blob n h = absurd (omega (arith, n, (FirstOf-c_string blob h).fewer))
pack-unpack (suc n) blob e h =
    let k = FirstOf-c_string blob h in
    let less : count_nuls (c_string blob).1 ≡ n = omega (arith, e, k.fewer) in
    elim k.closed [
      | inl last ↦
          let left : n ≡ 0 = sym less ∙ ap count_nuls last ∙ refl in
          let whole : (c_string blob).0 ++ 0 ∷ [] ≡ blob = sym (rw last at k.whole) in
          rw left (whole, (k.clean, tt), tt)
      | inr more ↦
          let (same, clean, _) = pack-unpack n (c_string blob).1 less more in
          (ap (λ t. (c_string blob).0 ++ 0 ∷ t) same ∙ sym k.whole, (k.clean, clean), tt)
    ]

-- The arguments of a blob are read exactly where the blob is what some arguments, of which there is
-- one at least and none has a NUL in it, are written as; and it is these arguments that are read.
pub unpack_arguments_iff :
    (blob : Text) (argv : List Text)
    → (unpack_arguments blob ≡ some argv)
      ↔ ((pack argv ≡ blob) × All IsCString argv × IsNonempty argv)
unfolding unpack_arguments
unpack_arguments_iff blob argv = (read, λ (same, clean, one). written argv same clean one)
  where
    read :
        unpack_arguments blob ≡ some argv
        → (pack argv ≡ blob) × All IsCString argv × IsNonempty argv
    read e = elim (Bool-cases (ends_in_nul blob)) [
      | inl h ↦
          let same : unpack (count_nuls blob) blob ≡ argv = cc (rw h at e) in
          subst (λ l. (pack l ≡ blob) × All IsCString l × IsNonempty l) same
            (pack-unpack (count_nuls blob) blob refl h)
      | inr h ↦ absurd (cc (rw h at e))
    ]

    written :
        (argv : List Text)
        → pack argv ≡ blob
        → All IsCString argv
        → IsNonempty argv
        → unpack_arguments blob ≡ some argv
    written [] same clean one = absurd one
    written (arg ∷ rest) same clean one =
        subst (λ b. unpack_arguments b ≡ some (arg ∷ rest)) same
          (rw (ends_in_nul-pack arg rest) (ap (λ l. some l) (unpack-pack (arg ∷ rest) clean)))

pack_size-length :
    (total : ℕ) (argv : List Text)
    → total ≤ size_max
    → pack_size total argv ≡ (
        if leb (total + length (pack argv)) size_max
        then some (total + length (pack argv))
        else none)
unfolding pack_size pack
pack_size-length total [] h = ground (arith, h)
pack_size-length total (arg ∷ rest) h =
    let n : length (arg ++ 0 ∷ pack rest) ≡ length arg + suc (length (pack rest)) =
      length-append arg (0 ∷ pack rest) in
    elim (Bool-cases (ltb (size_max - total) (length arg + 1))) [
      | inl e ↦ ground (arith, e, n, h)
      | inr e ↦
          let more = pack_size-length (total + (length arg + 1)) rest (ground (arith, e, h)) in
          let sum : total + length (arg ++ 0 ∷ pack rest)
              ≡ total + (length arg + 1) + length (pack rest) =
            omega (arith, n) in
          rw (e, sum) more
    ]

-- The arguments of a command are written exactly where their bytes, each argument with its NUL, are
-- no more than SIZE_MAX, and then the size that is given for the blob is its size.
pub pack_arguments_iff :
    (argv : List Text) (blob : Text) (size : ℕ)
    → (pack_arguments argv ≡ some (blob, size))
      ↔ ((blob ≡ pack argv) × (size ≡ length blob) × (length blob ≤ size_max))
unfolding pack_arguments
pack_arguments_iff argv blob size = elim (Bool-cases (leb (length (pack argv)) size_max)) [
  | inl e ↦
      let total : pack_size 0 argv ≡ some (length (pack argv)) = rw e at all in
      (
        λ h.
            let g = rw (pack_arguments, total) at h in
            let it : blob ≡ pack argv = cc g in
            let n : size ≡ length (pack argv) = cc g in (it, rw it n, rw it (ground (arith, e))),
        λ h.
            let n : size ≡ length (pack argv) = h.1 ∙ ap length h.0 in
            rw (pack_arguments, total) (cc (h.0, n)),
      )
  | inr e ↦
      let total : pack_size 0 argv ≡ none = rw e at all in
      (
        λ h. absurd (cc (rw (pack_arguments, total) at h)),
        λ h.
            let n : length blob ≡ length (pack argv) = ap length h.0 in
            absurd (ground (arith, e, h.2, n)),
      )
]
  where
    all :
        pack_size 0 argv
        ≡ (if leb (length (pack argv)) size_max then some (length (pack argv)) else none)
    all = ground (arith, pack_size-length 0 argv (omega arith))
