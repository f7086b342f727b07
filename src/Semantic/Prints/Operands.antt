-- ===== src/Semantic/Prints/Operands.antt =====
-- What checking operands and actual parameters (src/semanticAnalysis.c) prints.
use ntu_csie_complier.Prelude.{ℕ, zero, suc, Bool, true, false, Option, none, some}
use ntu_csie_complier.Types.{BinaryOperator, UnaryOperator, TypeDescriptor, scalar, array, is_ptr}
use ntu_csie_complier.Ast.{ExprNode, Expr, Exprs, nil, cons, data_type_of}
use ntu_csie_complier.Semantic.State.{State}
use ntu_csie_complier.Semantic.Prints.{
  if_pair-Prints, Prints, quiet, printed, Prints-trans, print_when-Prints, if-Prints, PrintsOnly,
}
use ntu_csie_complier.Effect.Post.{faults, returns}
use ntu_csie_complier.Semantic.Fold.{Fpu}
use ntu_csie_complier.Semantic.Operands.{
  check_binary, check_unary, print_operands, print_operand, rebuild_binary,
}
use ntu_csie_complier.Semantic.Calls.{Call, print_write, check_write_count, passing}

pub rebuild_binary-Prints :
    {s t : State} (op : BinaryOperator) (l r : Expr) (n : Option ExprNode)
    → Prints s t
    → PrintsOnly s (rebuild_binary op l r t n)
rebuild_binary-Prints op l r none p = faults
rebuild_binary-Prints op l r (some n) p = returns p

pub check_binary-Prints :
    (fpu : Fpu) (n : ExprNode) (op : BinaryOperator) (l r : Expr) (s : State)
    → PrintsOnly s (check_binary fpu n op l r s)
unfolding check_binary print_operands
check_binary-Prints fpu n op l r s =
    rebuild_binary-Prints op l r _
      (print_when-Prints _ _ _ (print_when-Prints _ _ _ (print_when-Prints _ _ _ quiet)))

pub check_unary-Prints :
    (fpu : Fpu) (n : ExprNode) (op : UnaryOperator) (e : Expr) (s : State)
    → PrintsOnly s (check_unary fpu n op e s)
unfolding check_unary print_operand
check_unary-Prints fpu n op e s = returns (
    if-Prints (is_ptr (data_type_of e)) (print_when-Prints _ _ _ quiet)
      (print_when-Prints _ _ _ quiet))

pub print_write-Prints : (es : Exprs) (s : State) → Prints s (print_write es s)
unfolding print_write
print_write-Prints nil s = quiet
print_write-Prints (cons e es) s =
    Prints-trans (print_when-Prints _ _ _ quiet) (print_write-Prints es _)

pub check_write_count-Prints :
    {s t : State} (k : ℕ) (c : Call) → Prints s t → PrintsOnly s (check_write_count k c t)
check_write_count-Prints zero c p = returns (printed _ _ p)
check_write_count-Prints (suc zero) c p = returns p
check_write_count-Prints (suc (suc k)) c p = returns (printed _ _ p)

pub passing-Prints :
    (t : TypeDescriptor) (b : Bool) (e : Expr) (s : State) → Prints s (passing t b e s).1
passing-Prints (scalar d) true e s = printed _ _ quiet
passing-Prints (array p) false e s = printed _ _ quiet
passing-Prints (scalar d) false e s = if_pair-Prints _ _ _ (printed _ _ quiet) quiet
passing-Prints (array p) true e s = if_pair-Prints _ _ _ (printed _ _ quiet) quiet
