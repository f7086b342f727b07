-- ===== src/Semantic/Prints/Exprs.antt =====
-- What processing an expression (src/semanticAnalysis.c) prints.
use ntu_csie_complier.Semantic.Prints.Variables.{
  process_l_value_normal-Prints, process_r_value_normal-Prints, process_l_value_array-Prints,
  process_r_value_array-Prints,
}
use ntu_csie_complier.Semantic.Prints.Calls.{check_function_call-Prints}
use ntu_csie_complier.Semantic.Prints.Operands.{check_binary-Prints, check_unary-Prints}
use ntu_csie_complier.Prelude.{ℕ}
use ntu_csie_complier.Types.{DataType, same_type, float_type}
use ntu_csie_complier.Ast.{
  Expr, binary, unary, call, normal_id, array_id, const, Exprs, nil, cons, data_type_of,
}
use ntu_csie_complier.Semantic.State.{State, array_subscript_not_int}
use ntu_csie_complier.Semantic.Prints.{quiet, print_when-Prints, PrintsOnly, seq, after}
use ntu_csie_complier.Effect.Post.{faults, returns}
use ntu_csie_complier.Semantic.Fold.{Fpu}
use ntu_csie_complier.Semantic.Calls.{check_function_call}
use ntu_csie_complier.Semantic.Expr.{
  process_expr_related_node, process_expr_list, process_subscripts, print_subscript,
  process_variable_l_value, subscript_type,
}

module _ (fpu : Fpu) where
  mutual
    unfolding process_expr_related_node process_expr_list process_subscripts print_subscript

    pub process_expr_related_node-Prints :
        (e : Expr) (s : State) → PrintsOnly s (process_expr_related_node fpu e s)
    process_expr_related_node-Prints (binary n op l r) s =
        seq (process_expr_related_node fpu l) _ s (process_expr_related_node-Prints l s) (λ l' t.
          seq (process_expr_related_node fpu r) _ t (process_expr_related_node-Prints r t)
            (λ r' u. check_binary-Prints fpu n op l' r' u))
    process_expr_related_node-Prints (unary n op e) s =
        seq (process_expr_related_node fpu e) _ s (process_expr_related_node-Prints e s)
          (λ e' t. check_unary-Prints fpu n op e' t)
    process_expr_related_node-Prints (call n f p es) s =
        seq
          (check_function_call (record { node = n; function_id_node = f; list = p; actuals = es })
            (process_expr_list fpu es))
          _ s
          (check_function_call-Prints (process_expr_list fpu es) (process_expr_list-Prints es)
            (record { node = n; function_id_node = f; list = p; actuals = es }) s)
          (λ c t. returns quiet)
    process_expr_related_node-Prints (normal_id i) s = process_r_value_normal-Prints i s
    process_expr_related_node-Prints (array_id i ds) s =
        process_r_value_array-Prints (process_subscripts fpu i.linenumber i.data_type ds)
          (process_subscripts-Prints i.linenumber i.data_type ds) i ds s
    process_expr_related_node-Prints (const c) s = returns quiet

    pub process_expr_list-Prints :
        (es : Exprs) (s : State) → PrintsOnly s (process_expr_list fpu es s)
    process_expr_list-Prints nil s = returns quiet
    process_expr_list-Prints (cons e es) s =
        seq (process_expr_related_node fpu e) _ s (process_expr_related_node-Prints e s) (λ e' t.
          seq (process_expr_list fpu es) _ t (process_expr_list-Prints es t)
            (λ es' u. returns quiet))

    pub process_subscripts-Prints :
        (line : ℕ) (d : DataType) (es : Exprs) (s : State)
        → PrintsOnly s (process_subscripts fpu line d es s)
    process_subscripts-Prints line d nil s = returns quiet
    process_subscripts-Prints line d (cons e es) s =
        seq (process_expr_related_node fpu e) _ s (process_expr_related_node-Prints e s) (λ e' t.
          after
            (print_when-Prints (same_type (data_type_of e') float_type) line array_subscript_not_int
              quiet)
            (seq (process_subscripts fpu line (subscript_type e' d) es) _ _
              (process_subscripts-Prints line _ es _) (λ r u. returns quiet)))

  pub process_variable_l_value-Prints :
      (e : Expr) (s : State) → PrintsOnly s (process_variable_l_value fpu e s)
  unfolding process_variable_l_value
  process_variable_l_value-Prints (normal_id i) s = process_l_value_normal-Prints i s
  process_variable_l_value-Prints (array_id i ds) s =
      process_l_value_array-Prints (process_subscripts fpu i.linenumber i.data_type ds)
        (process_subscripts-Prints i.linenumber i.data_type ds) i ds s
  process_variable_l_value-Prints (binary n op l r) s = faults
  process_variable_l_value-Prints (unary n op e) s = faults
  process_variable_l_value-Prints (call n f p es) s = faults
  process_variable_l_value-Prints (const c) s = faults
