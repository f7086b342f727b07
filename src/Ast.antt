-- ===== src/Ast.antt =====
-- The syntax tree of src/header.h, in the shapes that the grammar of src/parser.y builds. A node
-- keeps the fields that semantic analysis writes; `child` and `rightSibling` are the arguments.
use ntu_csie_complier.Prelude.{ℕ, Bool, String, Option, List}
use ntu_csie_complier.SymbolTable.Defs.{SymbolTableEntry}
use ntu_csie_complier.Types.{DataType, BinaryOperator, UnaryOperator, ConType, SymbolAttribute}

pub record Node : Type 0 where
  pub linenumber : ℕ
  pub data_type : DataType

-- The union `constEvalValue` is its 32 bits.
pub record ExprNode : Type 0 where
  pub linenumber : ℕ
  pub data_type : DataType
  pub is_const_eval : Bool
  pub const_eval_value : ℕ

pub record ConstNode : Type 0 where
  pub linenumber : ℕ
  pub data_type : DataType
  pub const1 : ConType
  pub const_eval_value : ℕ

pub record IdNode : Type 0 where
  pub linenumber : ℕ
  pub data_type : DataType
  pub identifier_name : String
  pub symbol_table_entry : Option (SymbolTableEntry SymbolAttribute)

-- A call's nodes are the statement, the name and the list of actual parameters, whose node is
-- `NUL_NODE` for the empty list.
mutual
  pub data Expr : Type 0 where
    binary : ExprNode → BinaryOperator → Expr → Expr → Expr
    unary : ExprNode → UnaryOperator → Expr → Expr
    call : Node → IdNode → Node → Exprs → Expr
    normal_id : IdNode → Expr
    array_id : IdNode → Exprs → Expr
    const : ConstNode → Expr

  pub data Exprs : Type 0 where
    nil : Exprs
    cons : Expr → Exprs → Exprs

abbrev pub data_type_of : Expr → DataType
data_type_of (Expr.binary n op l r) = n.data_type
data_type_of (Expr.unary n op e) = n.data_type
data_type_of (Expr.call n f p es) = n.data_type
data_type_of (Expr.normal_id i) = i.data_type
data_type_of (Expr.array_id i ds) = i.data_type
data_type_of (Expr.const c) = c.data_type

abbrev pub line_of : Expr → ℕ
line_of (Expr.binary n op l r) = n.linenumber
line_of (Expr.unary n op e) = n.linenumber
line_of (Expr.call n f p es) = n.linenumber
line_of (Expr.normal_id i) = i.linenumber
line_of (Expr.array_id i ds) = i.linenumber
line_of (Expr.const c) = c.linenumber

-- The declared names of a declaration. `array_unsized` is a parameter whose first dimension is
-- left out (a `NUL_NODE` of its own line), before the other dimensions.
pub data DeclId : Type 0 where
  normal : IdNode → DeclId
  array : IdNode → Exprs → DeclId
  array_unsized : IdNode → Exprs → DeclId
  with_init : IdNode → Expr → DeclId

pub data DeclKind : Type 0 where
  variable_decl type_decl function_parameter_decl : DeclKind

pub record Decl : Type 0 where
  pub linenumber : ℕ
  pub data_type : DataType
  pub kind : DeclKind
  pub type_node : IdNode
  pub ids : List DeclId

pub record DeclList : Type 0 where
  pub node : Node
  pub decls : List Decl

-- The operands of `if`, `while` and the lists of `for`: an assignment, or an expression.
pub data AssignOrExpr : Type 0 where
  assign : Node → Expr → Expr → AssignOrExpr
  expr : Expr → AssignOrExpr

pub record AssignExprList : Type 0 where
  pub node : Node
  pub items : List AssignOrExpr

-- A block's two lists are empty where the grammar makes no node for them.
mutual
  pub data Stmt : Type 0 where
    while_stmt : Node → AssignOrExpr → Stmt → Stmt
    for_stmt : Node → AssignExprList → Node → Exprs → AssignExprList → Stmt → Stmt
    assign_stmt : Node → Expr → Expr → Stmt
    if_stmt : Node → AssignOrExpr → Stmt → Stmt → Stmt
    call_stmt : Node → IdNode → Node → Exprs → Stmt
    return_stmt : Node → Option Expr → Stmt
    block_stmt : Node → DeclList → Node → Stmts → Stmt
    nul : Node → Stmt

  pub data Stmts : Type 0 where
    nil : Stmts
    cons : Stmt → Stmts → Stmts

pub record Function : Type 0 where
  pub linenumber : ℕ
  pub data_type : DataType
  pub return_type_node : IdNode
  pub name_node : IdNode
  pub parameters : List Decl
  pub body_decls : DeclList
  pub body_node : Node
  pub body : Stmts

pub data GlobalDecl : Type 0 where
  decl_list : DeclList → GlobalDecl
  function : Function → GlobalDecl
