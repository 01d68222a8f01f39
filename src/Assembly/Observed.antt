-- ===== src/Assembly/Observed.antt =====
-- What lib/semindex_parser/index_asm.cpp has found after any tokens.
use semindex.Base.{
  Bool, true, false, not, ◌&&◌, List, [], ◌∷◌, codes, text_eq, is_empty, if◌then◌else◌,
}
use semindex.Assembly.{
  Marker, AsmToken, AsmIndexer, asm_indexer, TypeState, type_none, type_dot, type_directive,
  type_ent_name, type_end_name, type_at_name, type_comma, type_marker, CallState, call_none,
  call_direct, call_jal_first, call_jal_after_first, call_skip_to_comma, is_identifier, is_comma,
  is_colon, is_period, is_function_marker, is_marker_prefix, is_direct_call_mnemonic,
}
use semindex.Assembly.Calls.{observe_call, observe_call_in}
use semindex.Assembly.Types.{observe_type, observe_type_in, add_named_type, marker_at}
use semindex.Assembly.Observe.{
  is_in_type, observe, observe_all, observe_dot, observe_label, remember, next_token,
}
use semindex.Assembly.Once.{
  IsIndexed, add_function_type-IsIndexed, add_label-IsIndexed, end_function-IsIndexed,
  nothing_found-IsIndexed,
}

-- A step keeps what is found as it should be.
abbrev Good : AsmIndexer → Type 0
Good s = IsIndexed s.found

Good-if : (b : Bool) (s t : AsmIndexer) → Good s → Good t → Good (if b then s else t)
Good-if true s t g k = g
Good-if false s t g k = k

observe_call-Good : (token : AsmToken) (s : AsmIndexer) → Good s → Good (observe_call token s)
unfolding observe_call
observe_call-Good token s g = go s.call_state
  where
    go : (c : CallState) → Good (observe_call_in c token s)
    go call_none =
        Good-if (is_identifier token.kind) _ _
          (Good-if (is_direct_call_mnemonic token.text) _ _ g (
            Good-if (text_eq token.text (codes "jal")) _ _ g
              (Good-if (text_eq token.text (codes "brasl")) _ _ g g)))
          g
    go call_direct = Good-if (is_identifier token.kind) _ _ g g
    go call_skip_to_comma = Good-if (is_comma token.kind) _ _ g g
    go call_jal_first = Good-if (is_identifier token.kind) _ _ g g
    go call_jal_after_first = Good-if (is_comma token.kind) _ _ g g

observe_type-Good : (token : AsmToken) (s : AsmIndexer) → Good s → Good (observe_type token s)
unfolding observe_type
observe_type-Good token s g = go s.type_state
  where
    named : Good (add_named_type s)
    named = add_function_type-IsIndexed s.type_name (marker_at s.type_location s) s.found g

    go : (t : TypeState) → Good (observe_type_in t token s)
    go type_none = g
    go type_dot =
        Good-if (is_identifier token.kind) _ _
          (Good-if (text_eq token.text (codes "type")) _ _ g (
            Good-if (text_eq token.text (codes "ent")) _ _ g
              (Good-if (text_eq token.text (codes "end")) _ _ g g)))
          g
    go type_ent_name =
        Good-if (is_identifier token.kind) _ _
          (add_function_type-IsIndexed token.text (marker_at token.location s) s.found g) g
    go type_end_name =
        Good-if (is_identifier token.kind) _ _
          (end_function-IsIndexed token.text s.token_order s.found g) g
    go type_directive = Good-if (is_identifier token.kind) _ _ g g
    go type_at_name = Good-if (is_comma token.kind) _ _ g g
    go type_comma =
        Good-if (is_function_marker token.text) _ _ named
          (Good-if (is_marker_prefix token.text) _ _ g g)
    go type_marker =
        Good-if (is_function_marker token.text && text_eq token.text (codes "function")) _ _ named g

observe_dot-Good : (token : AsmToken) (s : AsmIndexer) → Good s → Good (observe_dot token s)
observe_dot-Good token s g =
    Good-if (is_in_type s.type_state) _ _ (observe_type-Good token s g)
      (Good-if (is_period token.kind) _ _ g g)

observe_label-Good : (token : AsmToken) (s : AsmIndexer) → Good s → Good (observe_label token s)
observe_label-Good token s g =
    let previous : Marker = record { location = s.previous_location; order = s.previous_order } in
    Good-if (is_colon token.kind && not (is_empty s.previous_identifier)) _ _
      (add_label-IsIndexed s.previous_identifier previous s.found g) g

remember-Good : (token : AsmToken) (s : AsmIndexer) → Good s → Good (next_token (remember token s))
remember-Good token s g = Good-if (is_identifier token.kind) _ _ g g

observe-Good : (token : AsmToken) (s : AsmIndexer) → Good s → Good (observe token s)
unfolding observe
observe-Good token s g =
    let called = observe_call token s in
    let dotted = observe_dot token called in
    let labelled = observe_label token dotted in
    remember-Good token labelled (
      observe_label-Good token dotted (observe_dot-Good token called (observe_call-Good token s g)))

-- After any tokens the symbols that were handed to the index, and the functions that calls are
-- looked for in, have each name that is both of a function type and a label, and have it once, in
-- one order.
pub observe_all-IsIndexed :
    (tokens : List AsmToken) → IsIndexed (observe_all tokens asm_indexer).found
unfolding observe_all
observe_all-IsIndexed tokens = all tokens asm_indexer nothing_found-IsIndexed
  where
    all : (l : List AsmToken) (s : AsmIndexer) → Good s → Good (observe_all l s)
    all [] s g = g
    all (token ∷ rest) s g = all rest (observe token s) (observe-Good token s g)
