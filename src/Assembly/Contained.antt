-- ===== src/Assembly/Contained.antt =====
-- Which function finish of lib/semindex_parser/index_asm.cpp puts a call in.
use semindex.Base.{
  ℕ, ◌≤◌, Bool, true, false, ◌&&◌, Option, none, some, List, [], ◌∷◌, keep, ltb, leb, ◌≡◌, refl,
  arith, All, Bool-cases, inl, inr,
}
use semindex.Assembly.{Function, Call, AsmIndexer}
use semindex.Assembly.Finish.{
  insert_function, sort_functions, end_functions, containing_from, containing_function, AsmUse,
  add_call, add_calls, finish,
}

-- The functions begin one after the other.
abbrev pub Begins : List Function → Type 0
Begins [] = Unit
Begins (f ∷ rest) = All (λ (g : Function). f.begin ≤ g.begin) rest × Begins rest

-- The last element of a list, or one that is given for an empty list
abbrev pub last_or {ℓ} : {A : Type ℓ} → Option A → List A → Option A
last_or o [] = o
last_or o (x ∷ xs) = last_or (some x) xs

-- The token of the call is one of the function's.
abbrev pub is_inside : Call → Function → Bool
is_inside call f = leb f.begin call.order && leb call.order f.end

none_later :
    (call : Call) (n : ℕ) (fs : List Function)
    → ltb call.order n ≡ true
    → All (λ (g : Function). n ≤ g.begin) fs
    → keep (is_inside call) fs ≡ []
unfolding keep
none_later call n [] h all = refl
none_later call n (f ∷ fs) h all =
    let out : is_inside call f ≡ false = ground (arith, h, all.0) in
    rw out (none_later call n fs h all.1)

containing_from-last :
    (call : Call) (result : Option Function) (fs : List Function)
    → Begins fs
    → containing_from call result fs ≡ last_or result (keep (is_inside call) fs)
unfolding containing_from keep
containing_from-last call result [] b = refl
containing_from-last call result (f ∷ fs) b = elim (Bool-cases (ltb call.order f.begin)) [
  | inl e ↦
      let out : is_inside call f ≡ false = ground (arith, e) in
      rw (e, out, none_later call f.begin fs e b.0) refl
  | inr e ↦ elim (Bool-cases (leb call.order f.end)) [
    | inl k ↦
        let inside : is_inside call f ≡ true = ground (arith, e, k) in
        rw (e, inside, k) (containing_from-last call (some f) fs b.1)
    | inr k ↦
        let out : is_inside call f ≡ false = ground (arith, k) in
        rw (e, out, k) (containing_from-last call result fs b.1)
  ]
]

containing_function-last :
    (call : Call) (fs : List Function)
    → Begins fs
    → containing_function call fs ≡ last_or none (keep (is_inside call) fs)
unfolding containing_function
containing_function-last call fs b = containing_from-last call none fs b

All-insert :
    (n : ℕ) (f : Function) (fs : List Function)
    → n ≤ f.begin
    → All (λ (g : Function). n ≤ g.begin) fs
    → All (λ (g : Function). n ≤ g.begin) (insert_function f fs)
unfolding insert_function
All-insert n f [] h all = (h, tt)
All-insert n f (g ∷ fs) h all = elim (Bool-cases (ltb g.begin f.begin)) [
  | inl e ↦ rw e (all.0, All-insert n f fs h all.1)
  | inr e ↦ rw e (h, all)
]

All-weaken :
    (m n : ℕ) (fs : List Function)
    → m ≤ n
    → All (λ (g : Function). n ≤ g.begin) fs
    → All (λ (g : Function). m ≤ g.begin) fs
All-weaken m n [] h all = tt
All-weaken m n (f ∷ fs) h all = (omega (arith, h, all.0), All-weaken m n fs h all.1)

insert_function-Begins :
    (f : Function) (fs : List Function) → Begins fs → Begins (insert_function f fs)
unfolding insert_function
insert_function-Begins f [] b = (tt, tt)
insert_function-Begins f (g ∷ fs) b = elim (Bool-cases (ltb g.begin f.begin)) [
  | inl e ↦ rw e (All-insert g.begin f fs (ground (arith, e)) b.0, insert_function-Begins f fs b.1)
  | inr e ↦
      let first : f.begin ≤ g.begin = ground (arith, e) in
      rw e ((first, All-weaken f.begin g.begin fs first b.0), b)
]

pub sort_functions-Begins : (fs : List Function) → Begins (sort_functions fs)
unfolding sort_functions
sort_functions-Begins [] = tt
sort_functions-Begins (f ∷ fs) =
    insert_function-Begins f (sort_functions fs) (sort_functions-Begins fs)

-- The functions of finish: sorted, and each with its end.
abbrev pub ended : AsmIndexer → List Function
ended s = end_functions (sort_functions s.found.functions)

same_begins :
    (n : ℕ) (fs : List Function)
    → All (λ (g : Function). n ≤ g.begin) fs
    → All (λ (g : Function). n ≤ g.begin) (end_functions fs)
unfolding end_functions
same_begins n [] all = tt
same_begins n (f ∷ fs) all = elim (Bool-cases (ltb f.end f.begin)) [
  | inl e ↦ rw e (all.0, same_begins n fs all.1)
  | inr e ↦ rw e (all.0, same_begins n fs all.1)
]

end_functions-Begins : (fs : List Function) → Begins fs → Begins (end_functions fs)
unfolding end_functions
end_functions-Begins [] b = tt
end_functions-Begins (f ∷ fs) b = elim (Bool-cases (ltb f.end f.begin)) [
  | inl e ↦ rw e (same_begins f.begin fs b.0, end_functions-Begins fs b.1)
  | inr e ↦ rw e (same_begins f.begin fs b.0, end_functions-Begins fs b.1)
]

-- What is handed over for some calls: for each in its order, a use in the context of the last of the
-- functions that contain it, and nothing for a call in none of them.
abbrev pub uses_of : List Function → List Call → List AsmUse
uses_of fs [] = []
uses_of fs (call ∷ rest) = add_call call (last_or none (keep (is_inside call) fs)) (uses_of fs rest)

-- finish hands over, for each call in its order, a use in the context of the last function that
-- contains its token, in the order in which the functions begin, and nothing for a call in no
-- function; and the functions are in that order.
pub finish-uses : (s : AsmIndexer) → (finish s ≡ uses_of (ended s) s.calls) × Begins (ended s)
unfolding finish
finish-uses s = (all s.calls, begins)
  where
    begins : Begins (ended s)
    begins =
        end_functions-Begins (sort_functions s.found.functions)
          (sort_functions-Begins s.found.functions)

    all : (calls : List Call) → add_calls (ended s) calls ≡ uses_of (ended s) calls
    all [] = refl
    all (call ∷ rest) = rw (containing_function-last call (ended s) begins, all rest) refl
