-- ===== src/Semantic/Variables.antt =====
-- `processVariableLValue` and `processVariableRValue` of src/semanticAnalysis.c, given the action that
-- processes the subscripts.
use ntu_csie_complier.Prelude.{Option, none, some, ltb, ◌==◌, if◌then◌else◌}
use ntu_csie_complier.SymbolTable.Defs.{SymbolTableEntry, retrieve_symbol}
use ntu_csie_complier.Types.{
  DataType, int_type, int_ptr_type, float_ptr_type, error_type, ArrayProperties, TypeDescriptor,
  scalar, array, SymbolAttribute, variable_attribute, type_attribute, function_signature, same_type,
}
use ntu_csie_complier.Ast.{IdNode, Expr, Exprs, normal_id, array_id}
use ntu_csie_complier.Semantic.State.{
  State, M, print_error_msg, symbol_undeclared, is_type_not_variable, is_function_not_variable,
  incompatible_array_dimension, not_array,
}
use ntu_csie_complier.Semantic.Calls.{count_exprs}

abbrev pub typed_id : IdNode → DataType → IdNode
typed_id i d = record i { data_type = d }

abbrev pub with_entry : IdNode → Option (SymbolTableEntry SymbolAttribute) → IdNode
with_entry i entry = record i { symbol_table_entry = entry }

-- The data type of an array, or of a part of one.
abbrev pub ptr_type : DataType → DataType
ptr_type element = if same_type element int_type then int_ptr_type else float_ptr_type

-- A subscripted name's subscripts and the data type that they leave the name with.
abbrev pub Subscripts : Type 0
Subscripts = Exprs × DataType

-- An l-value `x`.
abbrev pub l_value_normal : IdNode → TypeDescriptor → M Expr
l_value_normal i (array p) s =
    some (
      normal_id (typed_id i error_type),
      print_error_msg i.linenumber incompatible_array_dimension s,
    )
l_value_normal i (scalar d) s = some (normal_id (typed_id i d), s)

-- An l-value `x[..]`, behind the loop over the subscripts.
abbrev pub l_value_array : IdNode → TypeDescriptor → Exprs → State → Expr × State
l_value_array i (scalar d) ds s =
    (array_id (typed_id i error_type) ds, print_error_msg i.linenumber not_array s)
l_value_array i (array p) ds s =
    if count_exprs ds == p.dimension then (array_id (typed_id i p.element_type) ds, s) else (
      array_id (typed_id i error_type) ds,
      print_error_msg i.linenumber incompatible_array_dimension s,
    )

-- An r-value `x`.
abbrev pub r_value_type : TypeDescriptor → DataType
r_value_type (array p) = ptr_type p.element_type
r_value_type (scalar d) = d

-- An r-value `x[..]`, behind the loop over the subscripts, which leaves the data type `d`.
abbrev pub r_value_array : IdNode → ArrayProperties → Exprs → DataType → State → Expr × State
r_value_array i p ds d s =
    if same_type d error_type
    then (array_id (typed_id i d) ds, s)
    else if count_exprs ds == p.dimension
    then (array_id (typed_id i p.element_type) ds, s)
    else if ltb p.dimension (count_exprs ds)
    then (
      array_id (typed_id i error_type) ds,
      print_error_msg i.linenumber incompatible_array_dimension s,
    )
    else (array_id (typed_id i (ptr_type p.element_type)) ds, s)

-- `wrap` rebuilds the name's node: with its subscripts, if it has any.
abbrev pub l_value_attribute :
    (IdNode → Expr) → IdNode → (TypeDescriptor → M Expr) → SymbolAttribute → M Expr
l_value_attribute wrap i next (variable_attribute t) s = next t s
l_value_attribute wrap i next (type_attribute t) s =
    some (wrap (typed_id i error_type), print_error_msg i.linenumber is_type_not_variable s)
l_value_attribute wrap i next (function_signature k) s =
    some (wrap (typed_id i error_type), print_error_msg i.linenumber is_function_not_variable s)

-- An undeclared name's node keeps its entry.
abbrev pub l_value_found :
    (IdNode → Expr)
    → IdNode
    → (IdNode → TypeDescriptor → M Expr)
    → Option (SymbolTableEntry SymbolAttribute)
    → M Expr
l_value_found wrap i next none s =
    some (wrap (typed_id i error_type), print_error_msg i.linenumber symbol_undeclared s)
l_value_found wrap i next (some entry) s =
    let i' = with_entry i (some entry) in
    l_value_attribute wrap i' (next i') entry.binding.attribute s

-- There is no test for `FUNCTION_SIGNATURE`: the name of a function has its signature read as a
-- type descriptor.
abbrev pub r_value_attribute :
    (IdNode → Expr) → IdNode → (TypeDescriptor → M Expr) → SymbolAttribute → M Expr
r_value_attribute wrap i next (variable_attribute t) s = next t s
r_value_attribute wrap i next (type_attribute t) s =
    some (wrap (typed_id i error_type), print_error_msg i.linenumber is_type_not_variable s)
r_value_attribute wrap i next (function_signature k) s = none

abbrev pub r_value_found :
    (IdNode → Expr)
    → IdNode
    → (IdNode → TypeDescriptor → M Expr)
    → Option (SymbolTableEntry SymbolAttribute)
    → M Expr
r_value_found wrap i next none s = some (
  wrap (typed_id (with_entry i none) error_type),
  print_error_msg i.linenumber symbol_undeclared s,
)
r_value_found wrap i next (some entry) s =
    let i' = with_entry i (some entry) in
    r_value_attribute wrap i' (next i') entry.binding.attribute s

abbrev pub l_value_subscripts :
    IdNode → TypeDescriptor → Option (Subscripts × State) → Option (Expr × State)
l_value_subscripts i t none = none
l_value_subscripts i t (some ((ds, d), s)) = some (l_value_array i t ds s)

-- An r-value's subscripts are processed only if the name is an array's.
abbrev pub r_value_subscripts :
    IdNode → ArrayProperties → Option (Subscripts × State) → Option (Expr × State)
r_value_subscripts i p none = none
r_value_subscripts i p (some ((ds, d), s)) = some (r_value_array i p ds d s)

abbrev pub r_value_dims : Exprs → M Subscripts → IdNode → TypeDescriptor → M Expr
r_value_dims ds process i (scalar d) s =
    some (array_id (typed_id i error_type) ds, print_error_msg i.linenumber not_array s)
r_value_dims ds process i (array p) s = r_value_subscripts i p (process s)

-- `processVariableLValue`.
unfoldable pub process_l_value_normal : IdNode → M Expr
process_l_value_normal i s =
    l_value_found normal_id i l_value_normal (retrieve_symbol i.identifier_name s.table) s

unfoldable pub process_l_value_array : IdNode → Exprs → M Subscripts → M Expr
process_l_value_array i ds process s =
    l_value_found (λ j. array_id j ds) i (λ j t s1. l_value_subscripts j t (process s1))
      (retrieve_symbol i.identifier_name s.table) s

-- `processVariableRValue`.
unfoldable pub process_r_value_normal : IdNode → M Expr
process_r_value_normal i s =
    r_value_found normal_id i (λ j t s1. some (normal_id (typed_id j (r_value_type t)), s1))
      (retrieve_symbol i.identifier_name s.table) s

unfoldable pub process_r_value_array : IdNode → Exprs → M Subscripts → M Expr
process_r_value_array i ds process s =
    r_value_found (λ j. array_id j ds) i (r_value_dims ds process)
      (retrieve_symbol i.identifier_name s.table) s
