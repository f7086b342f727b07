-- ===== src/Semantic/Runs/Stmt.antt =====
-- Statements (src/semanticAnalysis.c) are runs.
use ntu_csie_complier.Prelude.{Option, none, some, List, [], ◌∷◌}
use ntu_csie_complier.Types.{DataType, is_ptr}
use ntu_csie_complier.Ast.{Node, Expr, data_type_of, Decl, DeclList}
use ntu_csie_complier.Semantic.State.{State, pure}
use ntu_csie_complier.Effect.Post.{Post, returns, faults}
use ntu_csie_complier.Semantic.Prints
use ntu_csie_complier.Semantic.Prints.{
  Prints, quiet, PrintsOnly, Prints-trans, print_when-Prints, if-Prints, if-PrintsOnly,
  if_pair-Prints,
}
use ntu_csie_complier.Semantic.Prints.Exprs.{process_expr_related_node-Prints}
use ntu_csie_complier.Semantic.Expr.{process_expr_related_node}
use ntu_csie_complier.Ast.{
  AssignOrExpr, assign, expr, AssignExprList, Stmt, while_stmt, for_stmt, assign_stmt, if_stmt,
  call_stmt, return_stmt, block_stmt, nul, Stmts,
}
use ntu_csie_complier.Semantic.Dims.{Machine}
use ntu_csie_complier.Semantic.Calls.{check_function_call, list_node}
use ntu_csie_complier.Semantic.Expr.{process_expr_list, process_variable_l_value}
use ntu_csie_complier.Semantic.Prints.Calls.{check_function_call-Prints}
use ntu_csie_complier.Semantic.Prints.Exprs.{
  process_expr_list-Prints, process_variable_l_value-Prints,
}
use ntu_csie_complier.Semantic.Declare.{process_declaration_node}
use ntu_csie_complier.Semantic.Stmt.{
  print_assignment, check_assignment, check_assign_or_expr, check_items, process_assign_exprs,
  process_decls, process_decl_list, finish_return, check_return_stmt, return_mismatch,
  returned_type, process_stmt_node, process_stmts, enter_block, any_stmt_error,
}
use ntu_csie_complier.Semantic.Runs.{
  inner, widen, whole, start, leave_block-Run, RunsOnly, seq, after, prints,
}
use ntu_csie_complier.Semantic.Runs.Declare.{process_declaration_node-Run}
use ntu_csie_complier.Effect.Post

print_assignment-Prints : (e : Expr) (s : State) → Prints s (print_assignment e s)
unfolding print_assignment
print_assignment-Prints e s =
    if-Prints (is_ptr (data_type_of e)) (Prints.printed _ _ quiet) (print_when-Prints _ _ _ quiet)

finish_return-Prints :
    (declared : DataType) (n : Node) (e : Option Expr) (s : State)
    → PrintsOnly s (finish_return declared n e s)
unfolding finish_return
finish_return-Prints declared n e s =
    if-PrintsOnly (return_mismatch declared (returned_type e)) (returns (Prints.printed _ _ quiet))
      (returns quiet)

module _ (m : Machine) where
  check_assignment-Prints :
      (n : Node) (l r : Expr) (s : State) → PrintsOnly s (check_assignment m n l r s)
  unfolding check_assignment
  check_assignment-Prints n l r s =
      Prints.seq (process_variable_l_value m.fpu l) _ s (process_variable_l_value-Prints m.fpu l s)
        (λ l' t.
          Prints.seq (process_expr_related_node m.fpu r) _ t
            (process_expr_related_node-Prints m.fpu r t)
            (λ r' u. returns (print_assignment-Prints r' u)))

  check_assign_or_expr-Prints :
      (x : AssignOrExpr) (s : State) → PrintsOnly s (check_assign_or_expr m x s)
  unfolding check_assign_or_expr
  check_assign_or_expr-Prints (assign n l r) s =
      Prints.seq (check_assignment m n l r) _ s (check_assignment-Prints n l r s)
        (λ x t. returns quiet)
  check_assign_or_expr-Prints (expr e) s =
      Prints.seq (process_expr_related_node m.fpu e) _ s
        (process_expr_related_node-Prints m.fpu e s) (λ x t. returns quiet)

  check_items-Prints : (xs : List AssignOrExpr) (s : State) → PrintsOnly s (check_items m xs s)
  unfolding check_items
  check_items-Prints [] s = returns quiet
  check_items-Prints (x ∷ xs) s =
      Prints.seq (check_assign_or_expr m x) _ s (check_assign_or_expr-Prints x s) (λ x' t.
        Prints.seq (check_items m xs) _ t (check_items-Prints xs t) (λ xs' u. returns quiet))

  process_assign_exprs-Prints :
      (l : AssignExprList) (s : State) → PrintsOnly s (process_assign_exprs m l s)
  unfolding process_assign_exprs
  process_assign_exprs-Prints l s =
      Prints.seq (check_items m l.items) _ s (check_items-Prints l.items s) (λ xs t. returns quiet)

  check_return_stmt-Prints :
      (declared : DataType) (n : Node) (e : Option Expr) (s : State)
      → PrintsOnly s (check_return_stmt m declared n e s)
  unfolding check_return_stmt
  check_return_stmt-Prints declared n none s = finish_return-Prints declared n none s
  check_return_stmt-Prints declared n (some e) s =
      Prints.seq (process_expr_related_node m.fpu e) _ s
        (process_expr_related_node-Prints m.fpu e s)
        (λ e' t. finish_return-Prints declared n (some e') t)

  process_decls-Run : (ds : List Decl) (s : State) → RunsOnly whole s (process_decls m ds s)
  unfolding process_decls
  process_decls-Run [] s = returns start
  process_decls-Run (d ∷ ds) s =
      seq (process_declaration_node m d) _ s (process_declaration_node-Run m d s)
        (λ d' t. seq (process_decls m ds) _ t (process_decls-Run ds t) (λ ds' u. returns start))

  pub process_decl_list-Run :
      (l : DeclList) (s : State) → RunsOnly whole s (process_decl_list m l s)
  unfolding process_decl_list
  process_decl_list-Run l s =
      seq (process_decls m l.decls) _ s (process_decls-Run l.decls s) (λ ds t. returns start)

  module _ (declared : DataType) where
    mutual
      unfolding process_stmt_node process_stmts

      pub process_stmt_node-Run :
          (x : Stmt) (s : State) → RunsOnly inner s (process_stmt_node m declared x s)
      process_stmt_node-Run (while_stmt n c body) s =
          seq (check_assign_or_expr m c) _ s (prints (check_assign_or_expr-Prints c s)) (λ c' t.
            seq (process_stmt_node m declared body) _ t (process_stmt_node-Run body t)
              (λ b u. returns start))
      process_stmt_node-Run (for_stmt n init cn cond step body) s =
          seq (process_assign_exprs m init) _ s (prints (process_assign_exprs-Prints init s))
            (λ i t.
              seq (process_expr_list m.fpu cond) _ t
                (prints (process_expr_list-Prints m.fpu cond t))
                (λ c u.
                  seq (process_assign_exprs m step) _ u
                    (prints (process_assign_exprs-Prints step u))
                    (λ st v.
                      seq (process_stmt_node m declared body) _ v (process_stmt_node-Run body v)
                        (λ b w. returns start))))
      process_stmt_node-Run (assign_stmt n l r) s =
          seq (check_assignment m n l r) _ s (prints (check_assignment-Prints n l r s))
            (λ x t. returns start)
      process_stmt_node-Run (if_stmt n c body rest) s =
          seq (check_assign_or_expr m c) _ s (prints (check_assign_or_expr-Prints c s)) (λ c' t.
            seq (process_stmt_node m declared body) _ t (process_stmt_node-Run body t) (λ b u.
              seq (process_stmt_node m declared rest) _ u (process_stmt_node-Run rest u)
                (λ r v. returns start)))
      process_stmt_node-Run (call_stmt n f p es) s = prints (
          Prints.seq
            (check_function_call (record { node = n; function_id_node = f; list = p; actuals = es })
              (process_expr_list m.fpu es))
            _ s
            (check_function_call-Prints (process_expr_list m.fpu es)
              (process_expr_list-Prints m.fpu es)
              (record { node = n; function_id_node = f; list = p; actuals = es }) s)
            (λ c t. returns quiet))
      process_stmt_node-Run (return_stmt n e) s = prints (check_return_stmt-Prints declared n e s)
      process_stmt_node-Run (block_stmt n ds sn ss) s =
          Post.bind (process_decl_list m ds) _ (enter_block s)
            (process_decl_list-Run ds (enter_block s))
            (λ ds' t p.
              Post.bind (process_stmts m declared ss) _ t (after p (widen (process_stmts-Run ss t)))
                (λ ss' u q.
                  leave_block-Run
                    (λ x. pure (block_stmt n ds' (list_node sn (any_stmt_error ss')) ss')) start q
                    (λ v. returns start)))
      process_stmt_node-Run (nul n) s = returns start

      pub process_stmts-Run :
          (xs : Stmts) (s : State) → RunsOnly inner s (process_stmts m declared xs s)
      process_stmts-Run Stmts.nil s = returns start
      process_stmts-Run (Stmts.cons x xs) s =
          seq (process_stmt_node m declared x) _ s (process_stmt_node-Run x s) (λ x' t.
            seq (process_stmts m declared xs) _ t (process_stmts-Run xs t) (λ xs' u. returns start))
