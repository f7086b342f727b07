-- ===== src/Semantic/Stmt.antt =====
-- Statements of src/semanticAnalysis.c.
use ntu_csie_complier.Prelude.{
  Bool, false, not, ◌&&◌, ◌||◌, Option, none, some, List, [], ◌∷◌, if◌then◌else◌,
}
use ntu_csie_complier.SymbolTable.Defs.{SymbolTable, open_scope, close_scope}
use ntu_csie_complier.Types.{
  DataType, int_type, float_type, void_type, const_string_type, error_type, same_type, is_ptr,
  SymbolAttribute,
}
use ntu_csie_complier.Ast.{
  Node, Expr, data_type_of, line_of, Decl, DeclList, AssignOrExpr, assign, expr, AssignExprList,
  Stmt, while_stmt, for_stmt, assign_stmt, if_stmt, call_stmt, return_stmt, block_stmt, nul, Stmts,
  nil, cons,
}
use ntu_csie_complier.Semantic.State.{
  State, M, pure, ◌>>=◌, ◌>>◌, modify, print_error_msg, print_when, incompatible_array_dimension,
  string_operation, return_type_unmatch,
}
use ntu_csie_complier.Semantic.Operands.{get_bigger_type}
use ntu_csie_complier.Semantic.Calls.{check_function_call, list_node, any_error}
use ntu_csie_complier.Semantic.Expr.{
  process_expr_related_node, process_expr_list, process_variable_l_value,
}
use ntu_csie_complier.Semantic.Dims.{Machine}
use ntu_csie_complier.Semantic.Declare.{process_declaration_node}

abbrev pub typed_node : Node → DataType → Node
typed_node n d = record n { data_type = d }

unfoldable pub print_assignment : Expr → State → State
print_assignment r s =
    if is_ptr (data_type_of r)
    then print_error_msg (line_of r) incompatible_array_dimension s
    else print_when (same_type (data_type_of r) const_string_type) (line_of r) string_operation s

-- The last `else` of `checkAssignmentStmt` replaces the error that an operand gave the statement.
unfoldable pub assignment_type : DataType → DataType → DataType
unfolding get_bigger_type
assignment_type l r =
    if is_ptr r || same_type r const_string_type then error_type else get_bigger_type l r

-- Which returns a function accepts: its return type, and `int` and `float` for one another.
unfoldable pub return_mismatch : DataType → Option DataType → Bool
return_mismatch declared none = not (same_type declared void_type)
return_mismatch declared (some d) =
    not (same_type declared d)
    && not (
        same_type declared float_type && same_type d int_type
        || same_type declared int_type && same_type d float_type)

abbrev pub returned_type : Option Expr → Option DataType
returned_type none = none
returned_type (some e) = some (data_type_of e)

unfoldable pub finish_return : DataType → Node → Option Expr → M Stmt
unfolding return_mismatch
finish_return declared n e s =
    if return_mismatch declared (returned_type e)
    then some (
      return_stmt (typed_node n error_type) e,
      print_error_msg n.linenumber return_type_unmatch s,
    )
    else some (return_stmt (typed_node n declared) e, s)

-- `openScope` and `closeScope`.
unfoldable pub enter_block : State → State
enter_block s = record s { table = open_scope s.table }

abbrev pub with_table : State → Option (SymbolTable SymbolAttribute) → Option (Unit {0} × State)
with_table s none = none
with_table s (some t) = some (tt, record s { table = t })

unfoldable pub leave_block : M (Unit {0})
leave_block s = with_table s (close_scope s.table)

abbrev pub stmt_data_type : Stmt → DataType
stmt_data_type (while_stmt n c b) = n.data_type
stmt_data_type (for_stmt n i cn c st b) = n.data_type
stmt_data_type (assign_stmt n l r) = n.data_type
stmt_data_type (if_stmt n c b e) = n.data_type
stmt_data_type (call_stmt n f p es) = n.data_type
stmt_data_type (return_stmt n e) = n.data_type
stmt_data_type (block_stmt n ds sn ss) = n.data_type
stmt_data_type (nul n) = n.data_type

abbrev pub any_stmt_error : Stmts → Bool
any_stmt_error nil = false
any_stmt_error (cons x xs) = same_type (stmt_data_type x) error_type || any_stmt_error xs

abbrev pub any_decl_error : List Decl → Bool
any_decl_error [] = false
any_decl_error (d ∷ ds) = same_type d.data_type error_type || any_decl_error ds

abbrev pub item_data_type : AssignOrExpr → DataType
item_data_type (assign n l r) = n.data_type
item_data_type (expr e) = data_type_of e

abbrev pub any_item_error : List AssignOrExpr → Bool
any_item_error [] = false
any_item_error (x ∷ xs) = same_type (item_data_type x) error_type || any_item_error xs

module _ (m : Machine) where
  -- `checkAssignmentStmt`: the operands and the statement's node.
  unfoldable pub check_assignment : Node → Expr → Expr → M (Node × Expr × Expr)
  unfolding process_variable_l_value process_expr_related_node print_assignment assignment_type
  check_assignment n l r = do
    l' ← process_variable_l_value (m.fpu) l
    r' ← process_expr_related_node (m.fpu) r
    modify (print_assignment r')
    pure (typed_node n (assignment_type (data_type_of l') (data_type_of r')), l', r')

  unfoldable pub check_assign_or_expr : AssignOrExpr → M AssignOrExpr
  unfolding check_assignment
  check_assign_or_expr (assign n l r) = do
    (n', l', r') ← check_assignment n l r
    pure (assign n' l' r')
  check_assign_or_expr (expr e) = do e' ← process_expr_related_node (m.fpu) e; pure (expr e')

  -- The four loops of `processGeneralNode`; that over expressions is `process_expr_list`.
  unfoldable pub check_items : List AssignOrExpr → M (List AssignOrExpr)
  unfolding check_assign_or_expr
  check_items [] = pure []
  check_items (x ∷ xs) = do x' ← check_assign_or_expr x; xs' ← check_items xs; pure (x' ∷ xs')

  unfoldable pub process_assign_exprs : AssignExprList → M AssignExprList
  unfolding check_items
  process_assign_exprs l = do
    xs ← check_items l.items
    pure (record { node = list_node l.node (any_item_error xs); items = xs })

  unfoldable pub process_decls : List Decl → M (List Decl)
  unfolding process_declaration_node
  process_decls [] = pure []
  process_decls (d ∷ ds) = do
    d' ← process_declaration_node m d
    ds' ← process_decls ds
    pure (d' ∷ ds')

  unfoldable pub process_decl_list : DeclList → M DeclList
  unfolding process_decls
  process_decl_list l = do
    ds ← process_decls l.decls
    pure (record { node = list_node l.node (any_decl_error ds); decls = ds })

  -- `checkReturnStmt`, in a function of return type `declared`.
  unfoldable pub check_return_stmt : DataType → Node → Option Expr → M Stmt
  unfolding finish_return process_expr_related_node
  check_return_stmt declared n none = finish_return declared n none
  check_return_stmt declared n (some e) = do
    e' ← process_expr_related_node (m.fpu) e
    finish_return declared n (some e')

  -- `processStmtNode`. The type of the enclosing function is found by the nodes' parents.
  module _ (declared : DataType) where
    unfoldable mutual
      unfolding check_assignment check_assign_or_expr process_assign_exprs process_decl_list
          check_return_stmt check_function_call process_expr_related_node enter_block leave_block

      pub process_stmt_node : Stmt → M Stmt
      process_stmt_node (while_stmt n c body) = do
        c' ← check_assign_or_expr c
        body' ← process_stmt_node body
        pure (while_stmt n c' body')
      process_stmt_node (for_stmt n init cn cond step body) = do
        init' ← process_assign_exprs init
        cond' ← process_expr_list (m.fpu) cond
        step' ← process_assign_exprs step
        body' ← process_stmt_node body
        pure (for_stmt n init' (list_node cn (any_error cond')) cond' step' body')
      process_stmt_node (assign_stmt n l r) = do
        (n', l', r') ← check_assignment n l r
        pure (assign_stmt n' l' r')
      process_stmt_node (if_stmt n c body rest) = do
        c' ← check_assign_or_expr c
        body' ← process_stmt_node body
        rest' ← process_stmt_node rest
        pure (if_stmt n c' body' rest')
      process_stmt_node (call_stmt n f p es) = do
        c ←
            check_function_call (record { node = n; function_id_node = f; list = p; actuals = es })
              (process_expr_list (m.fpu) es)
        pure (call_stmt c.node c.function_id_node c.list c.actuals)
      process_stmt_node (return_stmt n e) = check_return_stmt declared n e
      process_stmt_node (block_stmt n ds sn ss) = do
        modify enter_block
        ds' ← process_decl_list ds
        ss' ← process_stmts ss
        leave_block
        pure (block_stmt n ds' (list_node sn (any_stmt_error ss')) ss')
      process_stmt_node (nul n) = pure (nul n)

      pub process_stmts : Stmts → M Stmts
      process_stmts nil = pure nil
      process_stmts (cons x xs) = do
        x' ← process_stmt_node x
        xs' ← process_stmts xs
        pure (cons x' xs')
