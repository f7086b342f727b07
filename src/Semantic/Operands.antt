-- ===== src/Semantic/Operands.antt =====
-- What `processExprNode` and `processConstValueNode` of src/semanticAnalysis.c do with operands that
-- have been processed.
use ntu_csie_complier.Prelude.{
  Bool, true, false, not, ◌&&◌, ◌||◌, Option, none, some, if◌then◌else◌,
}
use ntu_csie_complier.Types.{
  DataType, int_type, float_type, void_type, const_string_type, error_type, BinaryOperator, op_add,
  op_sub, op_mul, op_div, UnaryOperator, op_logical_negation, ConType, integerc, floatc, stringc,
  same_type, is_ptr,
}
use ntu_csie_complier.Ast.{ExprNode, ConstNode, Expr, binary, unary, data_type_of, line_of}
use ntu_csie_complier.Semantic.State.{
  State, M, print_when, incompatible_array_dimension, string_operation,
}
use ntu_csie_complier.Semantic.Fold.{Fpu, evaluate_binary, evaluate_unary}

unfoldable pub get_bigger_type : DataType → DataType → DataType
get_bigger_type d1 d2 =
    if same_type d1 float_type || same_type d2 float_type then float_type else int_type

-- The operators below `default:` keep the bigger type of their operands.
abbrev pub is_arithmetic : BinaryOperator → Bool
is_arithmetic op_add = true
is_arithmetic op_sub = true
is_arithmetic op_mul = true
is_arithmetic op_div = true
is_arithmetic _ = false

abbrev pub error_when : Bool → DataType → DataType
error_when test d = if test then error_type else d

-- `CONST_VALUE_NODE`, or an `EXPR_NODE` with `isConstEval`.
abbrev pub is_const : Expr → Bool
is_const (Expr.const c) = true
is_const (Expr.binary n op l r) = n.is_const_eval
is_const (Expr.unary n op e) = n.is_const_eval
is_const e = false

-- The messages about the operands, in their order.
unfoldable pub print_operands : ExprNode → Expr → Expr → State → State
print_operands n l r s =
    print_when
      (same_type (data_type_of l) const_string_type || same_type (data_type_of r) const_string_type)
      n.linenumber string_operation
      (print_when (is_ptr (data_type_of r)) (line_of r) incompatible_array_dimension
        (print_when (is_ptr (data_type_of l)) (line_of l) incompatible_array_dimension s))

-- The data type, from the one that the node has: the same tests, each of which sets `ERROR_TYPE`.
unfoldable pub binary_type : BinaryOperator → DataType → DataType → DataType → DataType
unfolding get_bigger_type
binary_type op d l r =
    let checked =
      error_when
        (same_type l error_type
          || same_type r error_type
          || same_type l void_type
          || same_type r void_type)
        (error_when (same_type l const_string_type || same_type r const_string_type)
          (error_when (is_ptr r) (error_when (is_ptr l) d))) in
    if same_type checked error_type
    then checked
    else if is_arithmetic op
    then get_bigger_type l r
    else int_type

unfoldable pub fold_binary : Fpu → ExprNode → BinaryOperator → Expr → Expr → Option ExprNode
unfolding evaluate_binary
fold_binary fpu n op l r =
    if not (same_type n.data_type error_type) && (is_const l && is_const r)
    then evaluate_binary fpu n op l r
    else some n

abbrev pub rebuild_binary :
    BinaryOperator → Expr → Expr → State → Option ExprNode → Option (Expr × State)
rebuild_binary op l r s none = none
rebuild_binary op l r s (some n) = some (binary n op l r, s)

-- `processExprNode` of a binary operation, behind the calls on its operands.
unfoldable pub check_binary : Fpu → ExprNode → BinaryOperator → Expr → Expr → M Expr
unfolding print_operands binary_type fold_binary
check_binary fpu n op l r s =
    let d = binary_type op n.data_type (data_type_of l) (data_type_of r) in
    rebuild_binary op l r (print_operands n l r s)
      (fold_binary fpu (record n { data_type = d }) op l r)

abbrev pub unary_result : UnaryOperator → DataType → DataType
unary_result op_logical_negation d = int_type
unary_result _ d = d

unfoldable pub unary_type : UnaryOperator → DataType → DataType
unary_type op d =
    if is_ptr d || (same_type d const_string_type || same_type d error_type)
    then error_type
    else unary_result op d

unfoldable pub print_operand : ExprNode → Expr → State → State
print_operand n e s =
    if is_ptr (data_type_of e)
    then print_when true (line_of e) incompatible_array_dimension s
    else print_when (same_type (data_type_of e) const_string_type) n.linenumber string_operation s

unfoldable pub fold_unary : Fpu → ExprNode → UnaryOperator → Expr → ExprNode
unfolding evaluate_unary
fold_unary fpu n op e =
    if not (same_type n.data_type error_type) && is_const e then evaluate_unary fpu n op e else n

-- `processExprNode` of a unary operation, behind the call on its operand.
unfoldable pub check_unary : Fpu → ExprNode → UnaryOperator → Expr → M Expr
unfolding print_operand unary_type fold_unary
check_unary fpu n op e s =
    let n' = record n { data_type = unary_type op (data_type_of e) } in
    some (unary (fold_unary fpu n' op e) op e, print_operand n e s)

abbrev pub typed_const : Fpu → ConstNode → ConType → ConstNode
typed_const fpu c (integerc w) = record c { data_type = int_type; const_eval_value = w }
typed_const fpu c (floatc d) = record c {
  data_type = float_type;
  const_eval_value = fpu.of_double d;
}
typed_const fpu c (stringc t) = record c { data_type = const_string_type }

unfoldable pub process_const_value_node : Fpu → ConstNode → ConstNode
process_const_value_node fpu c = typed_const fpu c c.const1
