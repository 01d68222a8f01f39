-- ===== src/Lsp/Overlay/Files.antt =====
-- LspOverlay of tools/lsp/lsp_overlay.cpp as a map from paths to records.
use mathlib.Core.Path.{subst}
use semindex.Base.{
  false, Option, none, some, List, [], ◌∷◌, Text, text_eq, text_eq_iff, text_eq_comm, keep,
  if◌then◌else◌, ◌≡◌, refl, ap, ◌∙◌, arith, Bool-cases, inl, inr,
}
use semindex.Store.Index.{Index}
use semindex.Lsp.Overlay.{OverlayRecord, Overlay, lookup, without, records_of, replace, erase}

lookup-without :
    (path other : Text) (o : Overlay)
    → lookup path (without other o) ≡ (if text_eq path other then none else lookup path o)
unfolding lookup without keep
lookup-without path other [] = ground arith
lookup-without path other (e ∷ rest) = elim (Bool-cases (text_eq other e.0)) [
  | inl k ↦
      let gone : without other (e ∷ rest) ≡ without other rest = rw (without, k) refl in
      let key : other ≡ e.0 = (text_eq_iff other e.0).0 k in
      rw (gone, lookup-without path other rest)
        (subst
          (λ t. (if text_eq path other then none else lookup path rest) ≡ (
            if text_eq path other
            then none
            else if text_eq path t
            then some e.1
            else lookup path rest))
          key (ground arith))
  | inr k ↦ elim (Bool-cases (text_eq path e.0)) [
    | inl m ↦
        let same : path ≡ e.0 = (text_eq_iff path e.0).0 m in
        let apart : text_eq path other ≡ false =
          text_eq_comm path other ∙ ap (text_eq other) same ∙ k in
        rw (k, m, apart) refl
    | inr m ↦ rw (k, m) (lookup-without path other rest)
  ]
]

-- What the server does with its overlay: a file is parsed again, or closed.
pub data Change : Type 0 where
  replaced : Text → Text → Index → Change
  erased : Text → Change

module _ (normalize : Text → Text) (resolve_against : Text → Text → Text) where
  abbrev pub apply : Change → Overlay → Overlay
  apply (replaced path directory index) o = replace normalize resolve_against path directory index o
  apply (erased path) o = erase normalize resolve_against path o

  abbrev pub apply_all : List Change → Overlay → Overlay
  apply_all [] o = o
  apply_all (c ∷ rest) o = apply_all rest (apply c o)

  -- The abstract map: what one change does to the records of a path, and all of them.
  abbrev pub records_after :
      Text → Change → Option (List OverlayRecord) → Option (List OverlayRecord)
  records_after path (replaced p directory index) before =
      if text_eq path (normalize p)
      then some (records_of normalize resolve_against directory (normalize p) index)
      else before
  records_after path (erased p) before = if text_eq path (normalize p) then none else before

  abbrev pub records_after_all :
      Text → List Change → Option (List OverlayRecord) → Option (List OverlayRecord)
  records_after_all path [] before = before
  records_after_all path (c ∷ rest) before =
      records_after_all path rest (records_after path c before)

  lookup-apply :
      (path : Text) (c : Change) (o : Overlay)
      → lookup path (apply c o) ≡ records_after path c (lookup path o)
  unfolding replace erase lookup
  lookup-apply path (erased p) o = lookup-without path (normalize p) o
  lookup-apply path (replaced p directory index) o =
      elim (Bool-cases (text_eq path (normalize p))) [
        | inl e ↦ rw e refl
        | inr e ↦ rw (e, lookup-without path (normalize p) o, e) refl
      ]

  -- After any replacements and erasures, the overlay has for a path the records of its last
  -- replacement, unless it was erased since, or those that it had before if it was not changed; a
  -- path is changed under its normal form.
  pub apply_all-records :
      (changes : List Change) (path : Text) (o : Overlay)
      → lookup path (apply_all changes o) ≡ records_after_all path changes (lookup path o)
  apply_all-records [] path o = refl
  apply_all-records (c ∷ rest) path o =
      apply_all-records rest path (apply c o)
      ∙ ap (records_after_all path rest) (lookup-apply path c o)
