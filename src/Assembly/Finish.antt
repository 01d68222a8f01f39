-- ===== src/Assembly/Finish.antt =====
-- finish, containingFunction and addCall of lib/semindex_parser/index_asm.cpp: the functions in their
-- order and the calls in them.
use semindex.Base.{ℕ, ◌-◌, ◌^◌, Option, none, some, List, [], ◌∷◌, Text, ltb, leb, if◌then◌else◌}
use semindex.Assembly.{Function, Call, AsmIndexer}

-- std::numeric_limits<size_t>::max()
abbrev pub size_max : ℕ
size_max = 2 ^ 64 - 1

unfoldable pub insert_function : Function → List Function → List Function
insert_function f [] = f ∷ []
insert_function f (g ∷ rest) =
    let later = insert_function f rest in if ltb g.begin f.begin then g ∷ later else f ∷ g ∷ rest

-- std::sort by `begin`. No two functions begin at one token, so the order is the only one.
unfoldable pub sort_functions : List Function → List Function
unfolding insert_function
sort_functions [] = []
sort_functions (f ∷ rest) = insert_function f (sort_functions rest)

abbrev pub end_before : List Function → ℕ
end_before [] = size_max
end_before (g ∷ rest) = g.begin

-- The loop that ends the functions that have no end
unfoldable pub end_functions : List Function → List Function
end_functions [] = []
end_functions (f ∷ rest) =
    let later = end_functions rest in
    (if ltb f.end f.begin then record f { end = end_before rest } else f) ∷ later

abbrev pub or_this : Call → Function → Option Function → Option Function
or_this call f result = if leb call.order f.end then some f else result

-- The loop of containingFunction, with its `break`
unfoldable pub containing_from : Call → Option Function → List Function → Option Function
containing_from call result [] = result
containing_from call result (f ∷ rest) =
    let later = containing_from call (or_this call f result) rest in
    if ltb call.order f.begin then result else later

-- containingFunction
unfoldable pub containing_function : Call → List Function → Option Function
unfolding containing_from
containing_function call functions = containing_from call none functions

-- addCall: a use of the target in the context of a function
pub record AsmUse : Type 0 where
  pub name : Text
  pub context : Text
  pub location : ℕ

abbrev pub add_call : Call → Option Function → List AsmUse → List AsmUse
add_call call none uses = uses
add_call call (some f) uses =
    record { name = call.target; context = f.name; location = call.location } ∷ uses

unfoldable pub add_calls : List Function → List Call → List AsmUse
unfolding containing_function
add_calls functions [] = []
add_calls functions (call ∷ rest) =
    add_call call (containing_function call functions) (add_calls functions rest)

-- finish: the uses that are handed to the index
unfoldable pub finish : AsmIndexer → List AsmUse
unfolding sort_functions end_functions add_calls
finish s = add_calls (end_functions (sort_functions s.found.functions)) s.calls
