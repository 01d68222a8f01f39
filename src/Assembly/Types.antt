-- ===== src/Assembly/Types.antt =====
-- addFunctionType, addLabel, endFunction, tryAddFunction and observeType of
-- lib/semindex_parser/index_asm.cpp: which names are functions.
use semindex.Base.{
  ℕ, Bool, ◌&&◌, Option, none, some, List, [], ◌∷◌, ◌++◌, map, Text, codes, text_eq, any, ltb,
  if◌then◌else◌,
}
use semindex.Assembly.{
  AsmToken, Marker, Function, Found, AsmIndexer, TypeState, type_none, type_dot, type_directive,
  type_ent_name, type_end_name, type_at_name, type_comma, type_marker, is_identifier, is_comma,
  is_period, is_function_marker, is_marker_prefix,
}

-- map.find
unfoldable pub lookup : Text → List (Text × Marker) → Option Marker
lookup name [] = none
lookup name (e ∷ rest) =
    let found = lookup name rest in if text_eq name e.0 then some e.1 else found

abbrev pub has_key : Text → List (Text × Marker) → Bool
has_key name entries = any (λ e. text_eq name e.0) entries

-- map.emplace, which leaves an entry that is there
abbrev pub emplace : Text → Marker → List (Text × Marker) → List (Text × Marker)
emplace name marker entries =
    if has_key name entries then entries else entries ++ (name, marker) ∷ []

abbrev pub add_function : Text → Marker → Marker → Found → Found
add_function name type label f = record f {
  emitted = f.emitted ++ name ∷ [];
  symbols = f.symbols ++ record { name = name; location = label.location } ∷ [];
  functions =
      f.functions
      ++ record {
        name = name;
        begin = label.order;
        end = if ltb label.order type.order then type.order else 0;
      }
        ∷ [];
}

abbrev pub try_with : Text → Option Marker → Option Marker → Found → Found
try_with name (some type) (some label) f =
    if any (text_eq name) f.emitted then f else add_function name type label f
try_with name _ _ f = f

-- tryAddFunction
unfoldable pub try_add_function : Text → Found → Found
unfolding lookup
try_add_function name f = try_with name (lookup name f.function_types) (lookup name f.labels) f

-- addFunctionType
unfoldable pub add_function_type : Text → Marker → Found → Found
unfolding try_add_function
add_function_type name marker f =
    try_add_function name (record f { function_types = emplace name marker f.function_types })

-- addLabel
unfoldable pub add_label : Text → Marker → Found → Found
unfolding try_add_function
add_label name marker f = try_add_function name (record f { labels = emplace name marker f.labels })

abbrev pub end_if : Text → ℕ → Function → Function
end_if name order f = if text_eq f.name name then record f { end = order } else f

-- endFunction
unfoldable pub end_function : Text → ℕ → Found → Found
end_function name order f = record f { functions = map (end_if name order) f.functions }

-- resetType
abbrev pub reset_type : AsmToken → AsmIndexer → AsmIndexer
reset_type token s = record s {
  type_state = if is_period token.kind then type_dot else type_none;
  type_name = [];
  type_location = 0;
}

abbrev pub to_type : TypeState → AsmIndexer → AsmIndexer
to_type state s = record s { type_state = state }

abbrev pub marker_at : ℕ → AsmIndexer → Marker
marker_at location s = record { location = location; order = s.token_order }

-- addFunctionType of the name behind `.type`
abbrev pub add_named_type : AsmIndexer → AsmIndexer
add_named_type s = record s {
  found = add_function_type s.type_name (marker_at s.type_location s) s.found;
}

abbrev pub observe_directive : AsmToken → AsmIndexer → AsmIndexer
observe_directive token s =
    if text_eq token.text (codes "type")
    then to_type type_directive s
    else if text_eq token.text (codes "ent")
    then to_type type_ent_name s
    else if text_eq token.text (codes "end")
    then to_type type_end_name s
    else reset_type token s

abbrev pub observe_type_in : TypeState → AsmToken → AsmIndexer → AsmIndexer
observe_type_in type_none token s = s
observe_type_in type_dot token s =
    if is_identifier token.kind then observe_directive token s else reset_type token s
observe_type_in type_ent_name token s = to_type type_none (
    if is_identifier token.kind
    then record s { found = add_function_type token.text (marker_at token.location s) s.found }
    else s)
observe_type_in type_end_name token s = to_type type_none (
    if is_identifier token.kind
    then record s { found = end_function token.text s.token_order s.found }
    else s)
observe_type_in type_directive token s =
    if is_identifier token.kind
    then record s {
      type_name = token.text;
      type_location = token.location;
      type_state = type_at_name;
    }
    else reset_type token s
observe_type_in type_at_name token s =
    if is_comma token.kind then to_type type_comma s else reset_type token s
observe_type_in type_comma token s =
    if is_function_marker token.text
    then to_type type_none (add_named_type s)
    else if is_marker_prefix token.text
    then to_type type_marker s
    else reset_type token s
observe_type_in type_marker token s = to_type type_none (
    if is_function_marker token.text && text_eq token.text (codes "function")
    then add_named_type s
    else s)

-- observeType
unfoldable pub observe_type : AsmToken → AsmIndexer → AsmIndexer
unfolding add_function_type end_function
observe_type token s = observe_type_in s.type_state token s
