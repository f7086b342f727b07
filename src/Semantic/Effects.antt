-- ===== src/Semantic/Effects.antt =====
-- What the handlers of src/semanticAnalysis.c leave of the scopes and the messages that they find.
use ntu_csie_complier.Prelude.{List, ◌≡◌, refl, ◌∙◌}
use ntu_csie_complier.SymbolTable.Scopes.{IsValid}
use ntu_csie_complier.Types.{DataType}
use ntu_csie_complier.Ast.{Node, Expr, Stmt, GlobalDecl}
use ntu_csie_complier.Semantic.State.{State}
use ntu_csie_complier.Effect.Post
use ntu_csie_complier.Effect.Post.{Post}
use ntu_csie_complier.Semantic.Fold.{Fpu}
use ntu_csie_complier.Semantic.Dims.{Machine}
use ntu_csie_complier.Semantic.Expr.{process_expr_related_node}
use ntu_csie_complier.Semantic.Stmt.{process_stmt_node}
use ntu_csie_complier.Semantic.Function.{process_program_node}
use ntu_csie_complier.Semantic.Prints.Exprs.{process_expr_related_node-Prints}
use ntu_csie_complier.Semantic.Runs.Stmt.{process_stmt_node-Run}
use ntu_csie_complier.Semantic.Runs.Function.{process_program_node-Run}
use ntu_csie_complier.Semantic.Runs.Facts.{
  SameScopes, inner-SameScopes, Run-Kept, OnlyMessages, Prints-OnlyMessages, Run-Reported,
  is_nonempty,
}
use ntu_csie_complier.Semantic.Initial.{initial_state, initialize_symbol_table-IsValid}

-- Where processing an expression has a result, the symbol table and the function signatures are as
-- they were, and messages have been added to those that there were.
pub process_expr_related_node-OnlyMessages :
    (fpu : Fpu) (e : Expr) (s : State)
    → Post (λ (_ : Expr) t. OnlyMessages s t) (process_expr_related_node fpu e s)
process_expr_related_node-OnlyMessages fpu e s =
    Post.weaken (process_expr_related_node-Prints fpu e s) (λ _ t p. Prints-OnlyMessages p)

-- From a valid table, where processing a statement has a result, the table is valid, at its level,
-- and every scope has the declarations that it had, whatever blocks and declarations are nested in
-- the statement.
pub process_stmt_node-SameScopes :
    (m : Machine) (declared : DataType) (x : Stmt) (s : State)
    → IsValid s.table
    → Post (λ (_ : Stmt) t. SameScopes s t) (process_stmt_node m declared x s)
process_stmt_node-SameScopes m declared x s v =
    Post.weaken (process_stmt_node-Run m declared x s) (λ _ t p. inner-SameScopes p v)

-- Where semantic analysis of a program from the initial state has a result, the table is valid, at
-- the global level, and `g_anyErrorOccur` is set exactly if there is a message.
pub process_program_node-reports :
    (m : Machine) (n : Node) (gs : List GlobalDecl)
    → Post
        (λ (_ : Node × List GlobalDecl) t.
          IsValid t.table
          × (t.table.current_level ≡ 0)
          × (t.any_error_occur ≡ is_nonempty t.messages))
        (process_program_node m n gs initial_state)
unfolding is_nonempty
process_program_node-reports m n gs =
    Post.weaken (process_program_node-Run m n gs initial_state) (λ _ t p.
      let k = Run-Kept p initialize_symbol_table-IsValid.0 in
      (k.valid, k.same_level ∙ initialize_symbol_table-IsValid.2, Run-Reported p refl))
