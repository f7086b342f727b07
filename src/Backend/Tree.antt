-- ===== src/Backend/Tree.antt =====
-- The expressions that src/codeGen.c reads, in the shapes that semantic analysis leaves. A node is known
-- by a number, in place of its address.
use ntu_csie_complier.Prelude.{ℕ, Bool, String, List, if◌then◌else◌}
use ntu_csie_complier.Types.{DataType, int_type, BinaryOperator, UnaryOperator, ConType}
use ntu_csie_complier.Types.Descriptor.{get_data_type}
use ntu_csie_complier.Backend.Frame.{Variable}
use ntu_csie_complier.Backend.Operations.{is_comparison}

-- `data_type` is the field `dataType`.
pub record GenNode : Type 0 where
  pub node_id : ℕ
  pub data_type : DataType

-- An identifier with the entry of its variable. `is_declared` says that its parent is a declaration or
-- a list of parameters, and `is_array_id` that it has subscripts.
pub record GenId : Type 0 where
  pub node : GenNode
  pub variable : Variable
  pub is_declared : Bool
  pub is_array_id : Bool

-- What a call reads of the symbol of the function.
pub record Callee : Type 0 where
  pub function_name : String
  pub parameter_types : List DataType
  pub returns_int : Bool

mutual
  pub data GenExpr : Type 0 where
    const_value : GenNode → ConType → GenExpr
    identifier : GenId → GenExprs → GenExpr
    binary : GenNode → BinaryOperator → GenExpr → GenExpr → GenExpr
    unary : GenNode → UnaryOperator → GenExpr → GenExpr
    call : GenNode → Callee → GenExprs → GenExpr

  pub data GenExprs : Type 0 where
    no_exprs : GenExprs
    more : GenExpr → GenExprs → GenExprs

-- `AST_NODE::getDataType`
abbrev pub get_node_type : GenExpr → DataType
get_node_type (const_value n c) = n.data_type
get_node_type (identifier i es) = get_data_type i.variable.type
get_node_type (binary n op l r) = if is_comparison op then int_type else n.data_type
get_node_type (unary n op e) = n.data_type
get_node_type (call n f es) = n.data_type
