-- ===== src/Semantic/State.antt =====
-- What semantic analysis (src/semanticAnalysis.c) reads and writes besides the tree: the symbol
-- table, the function signatures, the messages that it prints and `g_anyErrorOccur`.
use ntu_csie_complier.Prelude.{ℕ, Bool, true, List, ◌∷◌, if◌then◌else◌}
pub use ntu_csie_complier.Effect.{pure, ◌>>=◌, ◌>>◌, modify}
use ntu_csie_complier.Effect.{Action}
use ntu_csie_complier.SymbolTable.Defs.{SymbolTable}
use ntu_csie_complier.Types.{SymbolAttribute, FunctionSignature}

pub data ErrorMsgKind : Type 0 where
  symbol_is_not_type symbol_redeclare symbol_undeclared not_function_name try_to_init_array
        excessive_array_dim_declaration return_array void_variable typedef_void_array
        parameter_type_unmatch too_few_arguments too_many_arguments return_type_unmatch
        incompatible_array_dimension not_assignable not_array is_type_not_variable
        is_function_not_variable string_operation array_size_not_int array_size_negative
        array_subscript_not_int pass_array_to_scalar pass_scalar_to_array :
      ErrorMsgKind

-- The text of a message follows from its kind, its line and a name of the tree.
pub record Message : Type 0 where
  pub linenumber : ℕ
  pub kind : ErrorMsgKind

-- `messages` holds the latest first.
pub record State : Type 0 where
  pub table : SymbolTable SymbolAttribute
  pub signatures : List FunctionSignature
  pub messages : List Message
  pub any_error_occur : Bool

-- `printErrorMsg` and `printErrorMsgSpecial`.
unfoldable pub print_error_msg : ℕ → ErrorMsgKind → State → State
print_error_msg line kind s = record s {
  messages = record { linenumber = line; kind = kind } ∷ s.messages;
  any_error_occur = true;
}

unfoldable pub print_when : Bool → ℕ → ErrorMsgKind → State → State
unfolding print_error_msg
print_when test line kind s = if test then print_error_msg line kind s else s

-- `none` is behaviour that C leaves undefined: a division trap, or a union that is read at a member
-- which it does not hold.
abbrev pub M : Type 0 → Type 0
M A = Action State A
