-- ===== src/Semantic/Dims.antt =====
-- Declarations of src/semanticAnalysis.c, up to an array's dimensions: `processTypeNode`, `checkInit` and
-- `processDeclDimList`.
use ntu_csie_complier.Prelude.{
  ℕ, suc, ◌+◌, Bool, true, false, ◌&&◌, ◌||◌, Option, none, some, List, [], ◌∷◌, ◌++◌, ltb, leb,
  if◌then◌else◌, take,
}
use ntu_csie_complier.SymbolTable.Defs.{SymbolTableEntry, retrieve_symbol}
use ntu_csie_complier.Types.{
  DataType, float_type, void_type, const_string_type, error_type, TypeDescriptor, scalar, array,
  SymbolAttribute, variable_attribute, type_attribute, function_signature, same_type, is_ptr,
  max_array_dimension,
}
use ntu_csie_complier.Ast.{
  IdNode, Expr, binary, unary, const, Exprs, nil, cons, data_type_of, line_of,
}
use ntu_csie_complier.Semantic.State.{
  State, M, pure, ◌>>=◌, print_error_msg, print_when, symbol_undeclared, symbol_is_not_type,
  excessive_array_dim_declaration, array_size_not_int, array_size_negative,
  incompatible_array_dimension, string_operation,
}
use ntu_csie_complier.Semantic.Fold.{Fpu, is_negative}
use ntu_csie_complier.Semantic.Calls.{is_error}
use ntu_csie_complier.Semantic.Variables.{typed_id, with_entry}
use ntu_csie_complier.Semantic.Expr.{process_expr_related_node}

-- What a read of the expression members `isConstEval` and `constEvalValue` yields on a node whose
-- union holds another member: the layout of the union and the addresses in it decide.
pub record Machine : Type 0 where
  pub fpu : Fpu
  pub union_is_const_eval : Expr → Bool
  pub union_i_value : Expr → ℕ

-- `processTypeNode`.
abbrev pub descriptor_type : TypeDescriptor → DataType
descriptor_type (scalar d) = d
descriptor_type (array p) = p.element_type

abbrev pub type_attribute_node :
    IdNode → SymbolTableEntry SymbolAttribute → SymbolAttribute → M IdNode
type_attribute_node i e (type_attribute t) s =
    some (typed_id (with_entry i (some e)) (descriptor_type t), s)
type_attribute_node i e _ s =
    some (typed_id i error_type, print_error_msg i.linenumber symbol_is_not_type s)

abbrev pub type_node_found : IdNode → Option (SymbolTableEntry SymbolAttribute) → M IdNode
type_node_found i none s =
    some (typed_id i error_type, print_error_msg i.linenumber symbol_undeclared s)
type_node_found i (some e) s = type_attribute_node i e e.binding.attribute s

unfoldable pub process_type_node : IdNode → M IdNode
process_type_node i s = type_node_found i (retrieve_symbol i.identifier_name s.table) s

-- `symbolTableEntry->attribute->attr.typeDescriptor` of a node.
abbrev pub attribute_descriptor : SymbolAttribute → Option TypeDescriptor
attribute_descriptor (variable_attribute t) = some t
attribute_descriptor (type_attribute t) = some t
attribute_descriptor (function_signature k) = none

abbrev pub entry_descriptor : Option (SymbolTableEntry SymbolAttribute) → Option TypeDescriptor
entry_descriptor none = none
entry_descriptor (some e) = attribute_descriptor e.binding.attribute

-- The loop of `processDeclDimList`: the dimensions, how many there are, the sizes of those that are
-- in order, and the data type of the name.
pub record Dims : Type 0 where
  pub exprs : Exprs
  pub dimension : ℕ
  pub sizes : List ℕ
  pub data_type : DataType

abbrev pub is_void_scalar : TypeDescriptor → Bool
is_void_scalar (scalar d) = same_type d void_type
is_void_scalar (array p) = false

abbrev pub is_array : TypeDescriptor → Bool
is_array (scalar d) = false
is_array (array p) = true

-- `checkInit`: the data type of the name.
unfoldable pub print_init : Expr → State → State
print_init e s =
    if is_ptr (data_type_of e)
    then print_error_msg (line_of e) incompatible_array_dimension s
    else print_when (same_type (data_type_of e) const_string_type) (line_of e) string_operation s

unfoldable pub check_init_type : Expr → DataType → DataType
check_init_type e d =
    if is_ptr (data_type_of e) || (same_type (data_type_of e) const_string_type || is_error e)
    then error_type
    else d

-- A declared name before it is entered: its node, and the descriptor of its attribute.
abbrev pub Named : Type 0
Named = IdNode × Option TypeDescriptor

abbrev pub join_dimensions : IdNode → TypeDescriptor → Dims → State → Named × State
join_dimensions i (scalar d) r s =
    ((i, some (array (record { dimension = r.dimension; sizes = r.sizes; element_type = d }))), s)
join_dimensions i (array p) r s =
    if ltb max_array_dimension (p.dimension + r.dimension)
    then (
      (typed_id i error_type, none),
      print_error_msg i.linenumber excessive_array_dim_declaration s,
    )
    else (
      (
        i,
        some (
            array (record {
              dimension = p.dimension + r.dimension;
              sizes = r.sizes ++ take p.dimension p.sizes;
              element_type = p.element_type;
            })),
      ),
      s,
    )

-- An array's descriptor, from the type in front of the name and the dimensions behind it. An array of
-- arrays has the name's dimensions first.
unfoldable pub array_descriptor : IdNode → TypeDescriptor → Dims → State → Named × State
array_descriptor i t r s =
    if same_type r.data_type error_type
    then ((typed_id i r.data_type, none), s)
    else join_dimensions (typed_id i r.data_type) t r s

module _ (m : Machine) where
  abbrev pub eval_flag : Expr → Bool
  eval_flag (binary n op l r) = n.is_const_eval
  eval_flag (unary n op e) = n.is_const_eval
  eval_flag e = m.union_is_const_eval e

  abbrev pub eval_value : Expr → ℕ
  eval_value (binary n op l r) = n.const_eval_value
  eval_value (unary n op e) = n.const_eval_value
  eval_value (const c) = c.const_eval_value
  eval_value e = m.union_i_value e

  -- One round of the loop, behind the call on the dimension.
  unfoldable pub declare_dim : ℕ → Expr → List ℕ → DataType → State → List ℕ × DataType × State
  declare_dim line e sizes d s =
      if is_error e
      then (sizes, error_type, s)
      else if same_type (data_type_of e) float_type
      then (sizes, error_type, print_error_msg line array_size_not_int s)
      else if eval_flag e && is_negative (eval_value e)
      then (sizes, error_type, print_error_msg line array_size_negative s)
      else (sizes ++ eval_value e ∷ [], d, s)

  abbrev pub next_dim : Expr → Dims → Dims
  next_dim e r = record r { exprs = cons e r.exprs }

  unfoldable pub declare_dims : ℕ → Exprs → ℕ → List ℕ → DataType → M Dims
  unfolding process_expr_related_node declare_dim
  declare_dims line nil k sizes d s =
      some (record { exprs = nil; dimension = k; sizes = sizes; data_type = d }, s)
  declare_dims line (cons e es) k sizes d s =
      if leb max_array_dimension k
      then some (
        record { exprs = cons e es; dimension = k; sizes = sizes; data_type = error_type },
        print_error_msg line excessive_array_dim_declaration s,
      )
      else (do
        e' ← process_expr_related_node (m.fpu) e
        λ s1.
            let (sizes', d', s2) = declare_dim line e' sizes d s1 in
            (do r ← declare_dims line es (suc k) sizes' d'; pure (next_dim e' r)) s2)
          s
