-- ===== src/Assembly.antt =====
-- The indexer of assembly sources: lib/semindex_parser/index_asm.cpp, on the tokens of Clang's
-- preprocessor. A source location is a number that Clang gives.
pub mod Calls
pub mod Types
pub mod Observe
pub mod Finish
pub mod Once
pub mod Observed
pub mod Contained
use semindex.Base.{
  ℕ, Bool, true, false, ◌||◌, Option, none, some, List, [], ◌∷◌, Text, codes, text_eq, any,
}

-- The kinds of token that the indexer tells apart
pub data TokenKind : Type 0 where
  identifier raw_identifier comma period colon other : TokenKind

-- clang::Token, with its spelling
pub record AsmToken : Type 0 where
  pub kind : TokenKind
  pub text : Text
  pub location : ℕ

-- Marker
pub record Marker : Type 0 where
  pub location : ℕ
  pub order : ℕ

-- Function
pub record Function : Type 0 where
  pub name : Text
  pub begin : ℕ
  pub end : ℕ

-- Call
pub record Call : Type 0 where
  pub target : Text
  pub location : ℕ
  pub order : ℕ

-- TypeState
pub data TypeState : Type 0 where
  type_none type_dot type_directive type_ent_name type_end_name type_at_name type_comma
        type_marker :
      TypeState

-- CallState
pub data CallState : Type 0 where
  call_none call_direct call_jal_first call_jal_after_first call_skip_to_comma : CallState

-- The symbols that are handed to the index: a name and the location of its label.
pub record AsmSymbol : Type 0 where
  pub name : Text
  pub location : ℕ

-- The maps of the indexer, the set of emitted names, and its functions.
pub record Found : Type 0 where
  pub function_types : List (Text × Marker)
  pub labels : List (Text × Marker)
  pub emitted : List Text
  pub functions : List Function
  pub symbols : List AsmSymbol

-- SemindexAsmIndexer
pub record AsmIndexer : Type 0 where
  pub type_state : TypeState
  pub type_name : Text
  pub type_location : ℕ
  pub previous_identifier : Text
  pub previous_location : ℕ
  pub previous_order : ℕ
  pub token_order : ℕ
  pub call_state : CallState
  pub jal_target : Text
  pub jal_location : ℕ
  pub jal_order : ℕ
  pub found : Found
  pub calls : List Call

-- The members as they are at first
abbrev pub nothing_found : Found
nothing_found = record {
  function_types = [];
  labels = [];
  emitted = [];
  functions = [];
  symbols = [];
}

abbrev pub asm_indexer : AsmIndexer
asm_indexer = record {
  type_state = type_none;
  type_name = [];
  type_location = 0;
  previous_identifier = [];
  previous_location = 0;
  previous_order = 0;
  token_order = 0;
  call_state = call_none;
  jal_target = [];
  jal_location = 0;
  jal_order = 0;
  found = nothing_found;
  calls = [];
}

-- isIdentifier
abbrev pub is_identifier : TokenKind → Bool
is_identifier identifier = true
is_identifier raw_identifier = true
is_identifier comma = false
is_identifier period = false
is_identifier colon = false
is_identifier other = false

abbrev pub is_comma : TokenKind → Bool
is_comma comma = true
is_comma identifier = false
is_comma raw_identifier = false
is_comma period = false
is_comma colon = false
is_comma other = false

abbrev pub is_period : TokenKind → Bool
is_period period = true
is_period identifier = false
is_period raw_identifier = false
is_period comma = false
is_period colon = false
is_period other = false

abbrev pub is_colon : TokenKind → Bool
is_colon colon = true
is_colon identifier = false
is_colon raw_identifier = false
is_colon comma = false
is_colon period = false
is_colon other = false

abbrev pub function_markers : List Text
function_markers =
    codes "function"
    ∷ codes "@function"
    ∷ codes "%function"
    ∷ codes "#function"
    ∷ codes "STT_FUNC"
    ∷ []

-- isFunctionMarker
abbrev pub is_function_marker : Text → Bool
is_function_marker text = any (text_eq text) function_markers

-- isMarkerPrefix
abbrev pub is_marker_prefix : Text → Bool
is_marker_prefix text = any (text_eq text) (codes "@" ∷ codes "%" ∷ codes "#" ∷ [])

abbrev pub direct_call_mnemonics : List Text
direct_call_mnemonics = codes "call" ∷ codes "callq" ∷ codes "bl" ∷ codes "jbsr" ∷ codes "bsr" ∷ []

-- isDirectCallMnemonic
abbrev pub is_direct_call_mnemonic : Text → Bool
is_direct_call_mnemonic text = any (text_eq text) direct_call_mnemonics
