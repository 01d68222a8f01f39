-- ===== src/Assembly/Observe.antt =====
-- observe of lib/semindex_parser/index_asm.cpp: one token.
use semindex.Base.{◌+◌, Bool, true, false, not, ◌&&◌, List, [], ◌∷◌, is_empty, if◌then◌else◌}
use semindex.Assembly.{
  AsmToken, AsmIndexer, TypeState, type_none, type_dot, type_directive, type_ent_name,
  type_end_name, type_at_name, type_comma, type_marker, is_identifier, is_period, is_colon,
}
use semindex.Assembly.Calls.{observe_call}
use semindex.Assembly.Types.{add_label, observe_type, to_type}

-- `type_state != TypeState::None`
abbrev pub is_in_type : TypeState → Bool
is_in_type type_none = false
is_in_type type_dot = true
is_in_type type_directive = true
is_in_type type_ent_name = true
is_in_type type_end_name = true
is_in_type type_at_name = true
is_in_type type_comma = true
is_in_type type_marker = true

abbrev pub observe_dot : AsmToken → AsmIndexer → AsmIndexer
observe_dot token s =
    if is_in_type s.type_state
    then observe_type token s
    else if is_period token.kind
    then to_type type_dot s
    else s

abbrev pub observe_label : AsmToken → AsmIndexer → AsmIndexer
observe_label token s =
    if is_colon token.kind && not (is_empty s.previous_identifier)
    then record s {
      found =
          add_label s.previous_identifier
            (record { location = s.previous_location; order = s.previous_order }) s.found;
    }
    else s

abbrev pub remember : AsmToken → AsmIndexer → AsmIndexer
remember token s =
    if is_identifier token.kind
    then record s {
      previous_identifier = token.text;
      previous_location = token.location;
      previous_order = s.token_order;
    }
    else record s { previous_identifier = []; previous_location = 0 }

abbrev pub next_token : AsmIndexer → AsmIndexer
next_token s = record s { token_order = s.token_order + 1 }

-- observe
unfoldable pub observe : AsmToken → AsmIndexer → AsmIndexer
unfolding observe_call observe_type add_label
observe token s =
    next_token (remember token (observe_label token (observe_dot token (observe_call token s))))

-- The tokens that the preprocessor gives, in their order
unfoldable pub observe_all : List AsmToken → AsmIndexer → AsmIndexer
unfolding observe
observe_all [] s = s
observe_all (token ∷ rest) s = observe_all rest (observe token s)
