-- ===== src/Semantic/Expr.antt =====
-- `processExprRelatedNode` of src/semanticAnalysis.c and the loops over lists of expressions.
use ntu_csie_complier.Prelude.{ℕ, none, if◌then◌else◌}
use ntu_csie_complier.Types.{DataType, float_type, error_type, same_type}
use ntu_csie_complier.Ast.{
  Expr, binary, unary, call, normal_id, array_id, const, Exprs, nil, cons, data_type_of,
}
use ntu_csie_complier.Semantic.State.{State, M, pure, ◌>>=◌, print_when, array_subscript_not_int}
use ntu_csie_complier.Semantic.Fold.{Fpu}
use ntu_csie_complier.Semantic.Operands.{check_binary, check_unary, process_const_value_node}
use ntu_csie_complier.Semantic.Calls.{call_expr, check_function_call, is_error}
use ntu_csie_complier.Semantic.Variables.{
  Subscripts, process_r_value_normal, process_r_value_array, process_l_value_normal,
  process_l_value_array,
}

-- What a subscript makes of the data type of the name that it stands behind.
unfoldable pub subscript_type : Expr → DataType → DataType
subscript_type e d =
    if is_error e
    then error_type
    else if same_type (data_type_of e) float_type
    then error_type
    else d

unfoldable pub print_subscript : ℕ → Expr → State → State
print_subscript line e s =
    print_when (same_type (data_type_of e) float_type) line array_subscript_not_int s

module _ (fpu : Fpu) where
  unfoldable mutual
    unfolding check_binary check_unary process_const_value_node check_function_call
        process_r_value_normal process_r_value_array subscript_type print_subscript

    pub process_expr_related_node : Expr → M Expr
    process_expr_related_node (binary n op l r) = do
      l' ← process_expr_related_node l
      r' ← process_expr_related_node r
      check_binary fpu n op l' r'
    process_expr_related_node (unary n op e) = do
      e' ← process_expr_related_node e
      check_unary fpu n op e'
    process_expr_related_node (call n f p es) = do
      c ←
          check_function_call (record { node = n; function_id_node = f; list = p; actuals = es })
            (process_expr_list es)
      pure (call_expr c)
    process_expr_related_node (normal_id i) = process_r_value_normal i
    process_expr_related_node (array_id i ds) =
        process_r_value_array i ds (process_subscripts i.linenumber i.data_type ds)
    process_expr_related_node (const c) = pure (const (process_const_value_node fpu c))

    -- `processGeneralNode` of a `NONEMPTY_RELOP_EXPR_LIST_NODE`.
    pub process_expr_list : Exprs → M Exprs
    process_expr_list nil = pure nil
    process_expr_list (cons e es) = do
      e' ← process_expr_related_node e
      es' ← process_expr_list es
      pure (cons e' es')

    -- The loops over the subscripts of a name, from its line and its data type.
    pub process_subscripts : ℕ → DataType → Exprs → M Subscripts
    process_subscripts line d nil = pure (nil, d)
    process_subscripts line d (cons e es) = do
      e' ← process_expr_related_node e
      λ s.
          (do (es', d') ← process_subscripts line (subscript_type e' d) es; pure (cons e' es', d'))
            (print_subscript line e' s)

  -- An l-value is a name, with subscripts or without: `var_ref` of the grammar.
  unfoldable pub process_variable_l_value : Expr → M Expr
  unfolding process_l_value_normal process_l_value_array process_subscripts
  process_variable_l_value (normal_id i) = process_l_value_normal i
  process_variable_l_value (array_id i ds) =
      process_l_value_array i ds (process_subscripts i.linenumber i.data_type ds)
  process_variable_l_value e = λ s. none
