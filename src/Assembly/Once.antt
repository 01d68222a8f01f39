-- ===== src/Assembly/Once.antt =====
-- Which symbols lib/semindex_parser/index_asm.cpp finds.
use semindex.Base.{
  ℕ, Bool, true, false, ◌&&◌, ◌||◌, Option, none, some, List, [], ◌∷◌, ◌++◌, map, Text, text_eq,
  text_eq_iff, text_eq_comm, any, any-append, is_some, ◌≡◌, refl, ap, ◌∙◌, arith, Bool-cases, inl,
  inr,
}
use semindex.Assembly.{Marker, Function, AsmSymbol, Found, nothing_found}
use semindex.Assembly.Types.{
  lookup, has_key, emplace, add_function, try_with, try_add_function, add_function_type, add_label,
  end_if, end_function,
}

-- No name twice
abbrev pub IsOnce : List Text → Type 0
IsOnce [] = Unit
IsOnce (n ∷ rest) = (any (text_eq n) rest ≡ false) × IsOnce rest

abbrev pub is_function : Text → Found → Bool
is_function n f = has_key n f.function_types && has_key n f.labels

-- The symbols have each name that has a type and a label, and have it once.
pub record IsIndexed (f : Found) : Type 0 where
  pub once : IsOnce f.emitted
  pub symbols : map (λ (s : AsmSymbol). s.name) f.symbols ≡ f.emitted
  pub functions : map (λ (g : Function). g.name) f.functions ≡ f.emitted
  pub exact : (n : Text) → any (text_eq n) f.emitted ≡ is_function n f

-- The same but for one name, which has perhaps got its type or its label.
record IsOpen (name : Text) (f : Found) : Type 0 where
  once : IsOnce f.emitted
  symbols : map (λ (s : AsmSymbol). s.name) f.symbols ≡ f.emitted
  functions : map (λ (g : Function). g.name) f.functions ≡ f.emitted
  others : (n : Text) → text_eq n name ≡ false → any (text_eq n) f.emitted ≡ is_function n f
  this : any (text_eq name) f.emitted ≡ true → is_function name f ≡ true

lookup-has_key : (name : Text) (m : List (Text × Marker)) → is_some (lookup name m) ≡ has_key name m
unfolding lookup any
lookup-has_key name [] = refl
lookup-has_key name (e ∷ rest) = elim (Bool-cases (text_eq name e.0)) [
  | inl k ↦ rw k refl
  | inr k ↦ rw k (lookup-has_key name rest)
]

has_key-emplace :
    (n name : Text) (marker : Marker) (m : List (Text × Marker))
    → has_key n (emplace name marker m) ≡ (has_key n m || text_eq n name)
unfolding any
has_key-emplace n name marker m = elim (Bool-cases (has_key name m)) [
  | inl k ↦ elim (Bool-cases (text_eq n name)) [
    | inl e ↦ rw (k, (text_eq_iff n name).0 e, k) refl
    | inr e ↦ rw (k, e) (ground arith)
  ]
  | inr k ↦ rw (k, any-append (λ e. text_eq n e.0) m ((name, marker) ∷ [])) (ground arith)
]

map-append :
    {A B : Type 0} (f : A → B) (xs : List A) (y : A) → map f (xs ++ y ∷ []) ≡ map f xs ++ f y ∷ []
map-append f [] y = refl
map-append f (x ∷ xs) y = ap (λ l. f x ∷ l) (map-append f xs y)

IsOnce-append :
    (l : List Text) (n : Text) → any (text_eq n) l ≡ false → IsOnce l → IsOnce (l ++ n ∷ [])
unfolding any
IsOnce-append [] n h k = (refl, tt)
IsOnce-append (x ∷ l) n h k =
    let apart : text_eq x n ≡ false = text_eq_comm x n ∙ ground (arith, h) in
    let new : any (text_eq x) (l ++ n ∷ []) ≡ false =
      any-append (text_eq x) l (n ∷ []) ∙ ground (arith, k.0, apart) in
    (new, IsOnce-append l n (ground (arith, h)) k.1)

add_function-IsIndexed :
    (name : Text) (type label : Marker) (f : Found)
    → IsOpen name f
    → any (text_eq name) f.emitted ≡ false
    → is_function name f ≡ true
    → IsIndexed (add_function name type label f)
unfolding any
add_function-IsIndexed name type label f o fresh both = record {
  once = IsOnce-append f.emitted name fresh o.once;
  symbols = map-append _ f.symbols _ ∙ ap (λ l. l ++ name ∷ []) o.symbols;
  functions = map-append _ f.functions _ ∙ ap (λ l. l ++ name ∷ []) o.functions;
  exact = λ n. any-append (text_eq n) f.emitted (name ∷ []) ∙ elim (Bool-cases (text_eq n name)) [
    | inl e ↦
        let same = (text_eq_iff n name).0 e in
        let now : is_function n f ≡ true = rw same both in ground (arith, e, now)
    | inr e ↦ ground (arith, e, o.others n e)
  ];
}

IsOpen-close :
    (name : Text) (f : Found)
    → IsOpen name f
    → any (text_eq name) f.emitted ≡ is_function name f
    → IsIndexed f
IsOpen-close name f o e = record {
  once = o.once;
  symbols = o.symbols;
  functions = o.functions;
  exact = λ n. elim (Bool-cases (text_eq n name)) [
    | inl k ↦ let same = (text_eq_iff n name).0 k in rw same e
    | inr k ↦ o.others n k
  ];
}

try_add_function-IsIndexed :
    (name : Text) (f : Found) → IsOpen name f → IsIndexed (try_add_function name f)
unfolding try_add_function
try_add_function-IsIndexed name f o =
    go (lookup name f.function_types) (lookup name f.labels) (lookup-has_key name f.function_types)
      (lookup-has_key name f.labels)
  where
    go :
        (type label : Option Marker)
        → is_some type ≡ has_key name f.function_types
        → is_some label ≡ has_key name f.labels
        → IsIndexed (try_with name type label f)
    go none label t l = IsOpen-close name f o (ground (arith, t, o.this))
    go (some type) none t l = IsOpen-close name f o (ground (arith, t, l, o.this))
    go (some type) (some label) t l = elim (Bool-cases (any (text_eq name) f.emitted)) [
      | inl e ↦ rw e (IsOpen-close name f o (ground (arith, t, l, e)))
      | inr e ↦ rw e (add_function-IsIndexed name type label f o e (ground (arith, t, l)))
    ]

pub add_function_type-IsIndexed :
    (name : Text) (marker : Marker) (f : Found)
    → IsIndexed f
    → IsIndexed (add_function_type name marker f)
unfolding add_function_type
add_function_type-IsIndexed name marker f x =
    try_add_function-IsIndexed name
      (record f { function_types = emplace name marker f.function_types })
      (record {
        once = x.once;
        symbols = x.symbols;
        functions = x.functions;
        others =
            λ n e. ground (arith, e, x.exact n, has_key-emplace n name marker f.function_types);
        this =
            λ e. ground (arith, e, x.exact name, has_key-emplace name name marker f.function_types);
      })

pub add_label-IsIndexed :
    (name : Text) (marker : Marker) (f : Found) → IsIndexed f → IsIndexed (add_label name marker f)
unfolding add_label
add_label-IsIndexed name marker f x =
    try_add_function-IsIndexed name (record f { labels = emplace name marker f.labels })
      (record {
        once = x.once;
        symbols = x.symbols;
        functions = x.functions;
        others = λ n e. ground (arith, e, x.exact n, has_key-emplace n name marker f.labels);
        this = λ e. ground (arith, e, x.exact name, has_key-emplace name name marker f.labels);
      })

pub end_function-IsIndexed :
    (name : Text) (order : ℕ) (f : Found) → IsIndexed f → IsIndexed (end_function name order f)
unfolding end_function
end_function-IsIndexed name order f x = record {
  once = x.once;
  symbols = x.symbols;
  functions = names f.functions ∙ x.functions;
  exact = x.exact;
}
  where
    names :
        (l : List Function)
        → map (λ (g : Function). g.name) (map (end_if name order) l)
          ≡ map (λ (g : Function). g.name) l
    names [] = refl
    names (g ∷ l) = elim (Bool-cases (text_eq g.name name)) [
      | inl e ↦ rw e (ap (λ r. g.name ∷ r) (names l))
      | inr e ↦ rw e (ap (λ r. g.name ∷ r) (names l))
    ]

pub nothing_found-IsIndexed : IsIndexed nothing_found
unfolding any
nothing_found-IsIndexed = record { once = tt; symbols = refl; functions = refl; exact = λ n. refl }
