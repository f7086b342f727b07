-- ===== src/Backend/Tags/Blocks.antt =====
-- The labels in the code of blocks and lists of statements (`genGeneralNode` of src/codeGen.c).
use ntu_csie_complier.Prelude.{ℕ, ◌≡◌}
use ntu_csie_complier.Backend.Spelling.{number_of}
use ntu_csie_complier.Backend.Code.{Label}
use ntu_csie_complier.Backend.State.{Host}
use ntu_csie_complier.Backend.Quiet.Steps.{set_target_node-Quiet}
use ntu_csie_complier.Backend.Tree.{GenNode}
use ntu_csie_complier.Backend.Body.{
  GenStmt, nul, expr, declaration, block, node_list, assign_stmt, return_stmt, if_stmt, while_stmt,
  for_stmt, GenStmts, no_stmts, more_stmts,
}
use ntu_csie_complier.Backend.Nodes.{no_option, temp_node}
use ntu_csie_complier.Backend.Generation.{
  stmt_reg, take_register, list_register, gen_stmt, gen_stmts,
}
use ntu_csie_complier.Backend.Tags.{Balanced, ◌▸◌}
use ntu_csie_complier.Backend.Tags.Nodes.{
  pure-Balanced, modify-Balanced, set_node_reg-Balanced, temp_node-Balanced,
}
use ntu_csie_complier.Backend.Tags.Expressions.{gen_expr-Balanced, temp_reg-Balanced}
use ntu_csie_complier.Backend.Tags.Declarations.{gen_declare-Balanced}
use ntu_csie_complier.Backend.Tags.Statements.{
  gen_assign_stmt-Balanced, gen_return_stmt-Balanced, gen_if_stmt-Balanced, gen_while_stmt-Balanced,
  gen_for_stmt-Balanced,
}

module _ (l : Label) (i : ℕ) (host : Host) (e : number_of l ≡ i) where
  own_reg-Balanced :
      (n : GenNode) → Balanced l i 0 0 (temp_node host n.data_type n.node_id no_option)
  own_reg-Balanced n = temp_node-Balanced l i host n.data_type n.node_id no_option

  stmt_reg-Balanced : (s : GenStmt) → Balanced l i 0 0 (stmt_reg host s)
  unfolding stmt_reg
  stmt_reg-Balanced (nul n) = own_reg-Balanced n
  stmt_reg-Balanced (expr x) = temp_reg-Balanced l i host e x no_option
  stmt_reg-Balanced (declaration n d) = own_reg-Balanced n
  stmt_reg-Balanced (block n b) = own_reg-Balanced n
  stmt_reg-Balanced (node_list n b) = own_reg-Balanced n
  stmt_reg-Balanced (assign_stmt n x y) = own_reg-Balanced n
  stmt_reg-Balanced (return_stmt n b x) = own_reg-Balanced n
  stmt_reg-Balanced (if_stmt n c b x) = own_reg-Balanced n
  stmt_reg-Balanced (while_stmt n c b) = own_reg-Balanced n
  stmt_reg-Balanced (for_stmt n a c p b) = own_reg-Balanced n

  list_register-Balanced :
      (n : GenNode) (ss : GenStmts) → Balanced l i 0 0 (list_register host n ss)
  unfolding list_register take_register
  list_register-Balanced n no_stmts = pure-Balanced l i tt
  list_register-Balanced n (more_stmts s ss) = stmt_reg-Balanced s ▸ λ r.
      set_node_reg-Balanced l i n.node_id r ▸ λ _.
      modify-Balanced l i _ (set_target_node-Quiet l r n.node_id)

  mutual
    unfolding gen_stmt

    pub gen_stmt-Balanced : (s : GenStmt) → Balanced l i 0 0 (gen_stmt host s)
    gen_stmt-Balanced (nul n) = pure-Balanced l i tt
    gen_stmt-Balanced (expr x) = gen_expr-Balanced l i host e x
    gen_stmt-Balanced (declaration n d) = gen_declare-Balanced l i host e d
    gen_stmt-Balanced (block n ss) = gen_stmts-Balanced ss
    gen_stmt-Balanced (node_list n ss) = gen_stmts-Balanced ss ▸ λ _. list_register-Balanced n ss
    gen_stmt-Balanced (assign_stmt n x y) = gen_assign_stmt-Balanced l i host e x y
    gen_stmt-Balanced (return_stmt n returns_int x) =
        gen_return_stmt-Balanced l i host e returns_int _ _ (gen_stmt-Balanced x)
          (stmt_reg-Balanced x)
    gen_stmt-Balanced (if_stmt n c b x) =
        gen_if_stmt-Balanced l i host e _ _ _ (gen_stmt-Balanced c) (stmt_reg-Balanced c)
          (gen_stmt-Balanced b) _ (gen_stmt-Balanced x)
    gen_stmt-Balanced (while_stmt n c b) =
        gen_while_stmt-Balanced l i host e _ _ _ (gen_stmt-Balanced c) (stmt_reg-Balanced c)
          (gen_stmt-Balanced b)
    gen_stmt-Balanced (for_stmt n a c p b) =
        gen_for_stmt-Balanced l i host e _ _ _ (gen_stmt-Balanced c) (stmt_reg-Balanced c)
          (gen_stmt-Balanced b) _ _ (gen_stmt-Balanced a) (gen_stmt-Balanced p)

    gen_stmts-Balanced : (ss : GenStmts) → Balanced l i 0 0 (gen_stmts host ss)
    gen_stmts-Balanced no_stmts = pure-Balanced l i tt
    gen_stmts-Balanced (more_stmts s ss) = gen_stmt-Balanced s ▸ λ _. gen_stmts-Balanced ss
