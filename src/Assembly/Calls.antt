-- ===== src/Assembly/Calls.antt =====
-- observeCall of lib/semindex_parser/index_asm.cpp: the calls of a function.
use semindex.Base.{ℕ, [], ◌∷◌, ◌++◌, Text, codes, text_eq, if◌then◌else◌}
use semindex.Assembly.{
  AsmToken, CallState, call_none, call_direct, call_jal_first, call_jal_after_first,
  call_skip_to_comma, AsmIndexer, is_identifier, is_comma, is_direct_call_mnemonic,
}

-- addPendingCall
abbrev pub add_pending_call : Text → ℕ → ℕ → AsmIndexer → AsmIndexer
add_pending_call target location order s = record s {
  calls = s.calls ++ record { target = target; location = location; order = order } ∷ [];
}

abbrev pub to_call : CallState → AsmIndexer → AsmIndexer
to_call state s = record s { call_state = state }

-- The mnemonics, from no state
abbrev pub observe_mnemonic : AsmToken → AsmIndexer → AsmIndexer
observe_mnemonic token s =
    if is_identifier token.kind
    then if is_direct_call_mnemonic token.text
      then to_call call_direct s
      else if text_eq token.text (codes "jal")
      then to_call call_jal_first s
      else if text_eq token.text (codes "brasl")
      then to_call call_skip_to_comma s
      else s
    else s

abbrev pub observe_call_in : CallState → AsmToken → AsmIndexer → AsmIndexer
observe_call_in call_none token s = observe_mnemonic token s
observe_call_in call_direct token s = to_call call_none (
    if is_identifier token.kind
    then add_pending_call token.text token.location s.token_order s
    else s)
observe_call_in call_skip_to_comma token s =
    if is_comma token.kind then to_call call_direct s else s
observe_call_in call_jal_first token s =
    if is_identifier token.kind
    then record s {
      jal_target = token.text;
      jal_location = token.location;
      jal_order = s.token_order;
      call_state = call_jal_after_first;
    }
    else to_call call_none s
observe_call_in call_jal_after_first token s =
    if is_comma token.kind
    then to_call call_direct s
    else to_call call_none (add_pending_call s.jal_target s.jal_location s.jal_order s)

-- observeCall
unfoldable pub observe_call : AsmToken → AsmIndexer → AsmIndexer
observe_call token s = observe_call_in s.call_state token s
