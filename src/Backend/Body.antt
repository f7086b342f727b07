-- ===== src/Backend/Body.antt =====
-- The statements, declarations and programs that src/codeGen.c reads, in the shapes that src/parser.y
-- builds.
use ntu_csie_complier.Prelude.{Bool, String, List}
use ntu_csie_complier.Backend.Tree.{GenNode, GenId, GenExpr}

-- An identifier of a declaration, by its kind.
pub data Declarator : Type 0 where
  normal_id array_id : GenId → Declarator
  with_init_id : GenId → GenExpr → Declarator

-- A declaration other than that of a function.
pub data GenDecl : Type 0 where
  variable_decl function_parameter_decl : List Declarator → GenDecl
  type_decl : GenDecl

-- `expr` is an expression or a call, `node_list` a list of statements, of declarations or of expressions. `return_stmt` says whether
-- the function around it returns `int`.
mutual
  pub data GenStmt : Type 0 where
    nul : GenNode → GenStmt
    expr : GenExpr → GenStmt
    declaration : GenNode → GenDecl → GenStmt
    block : GenNode → GenStmts → GenStmt
    node_list : GenNode → GenStmts → GenStmt
    assign_stmt : GenNode → GenExpr → GenExpr → GenStmt
    return_stmt : GenNode → Bool → GenStmt → GenStmt
    if_stmt : GenNode → GenStmt → GenStmt → GenStmt → GenStmt
    while_stmt : GenNode → GenStmt → GenStmt → GenStmt
    for_stmt : GenNode → GenStmt → GenStmt → GenStmt → GenStmt → GenStmt

  pub data GenStmts : Type 0 where
    no_stmts : GenStmts
    more_stmts : GenStmt → GenStmts → GenStmts

-- `function_decl` is a function by its name, the declarations of its parameters and its block.
pub data GenGlobal : Type 0 where
  global_stmt : GenStmt → GenGlobal
  function_decl : String → List GenDecl → GenStmt → GenGlobal
