-- ===== src/Semantic/Declare.antt =====
-- Declarations of src/semanticAnalysis.c: `declareIdList` and `processDeclarationNode`.
use ntu_csie_complier.Prelude.{
  ℕ, Bool, true, false, not, ◌&&◌, ◌||◌, Option, none, some, List, [], ◌∷◌, if◌then◌else◌,
}
use ntu_csie_complier.SymbolTable.Defs.{declared_locally, enter_symbol}
use ntu_csie_complier.Types.{
  error_type, TypeDescriptor, SymbolAttribute, variable_attribute, type_attribute, same_type,
}
use ntu_csie_complier.Ast.{
  IdNode, Expr, Exprs, DeclId, DeclKind, variable_decl, type_decl, function_parameter_decl, Decl,
}
use ntu_csie_complier.Semantic.State.{
  State, M, pure, ◌>>=◌, print_error_msg, symbol_redeclare, void_variable, typedef_void_array,
  try_to_init_array,
}
use ntu_csie_complier.Semantic.Variables.{typed_id, with_entry}
use ntu_csie_complier.Semantic.Expr.{process_expr_related_node}
use ntu_csie_complier.Semantic.Dims.{
  Machine, process_type_node, entry_descriptor, Dims, is_void_scalar, is_array, print_init,
  check_init_type, Named, array_descriptor, declare_dims,
}

-- An attribute of the kind that a declaration makes.
pub data NameKind : Type 0 where
  names_variable names_type : NameKind

abbrev pub attribute_for : NameKind → TypeDescriptor → SymbolAttribute
attribute_for names_variable t = variable_attribute t
attribute_for names_type t = type_attribute t

abbrev pub is_type_kind : NameKind → Bool
is_type_kind names_variable = false
is_type_kind names_type = true

-- A name with its node's place in the tree, and what is to be entered.
abbrev pub Attempt : Type 0
Attempt = (IdNode → DeclId) × Named

abbrev pub dims_attempt :
    (Exprs → IdNode → DeclId)
    → IdNode
    → TypeDescriptor
    → Option (Dims × State)
    → Option (Attempt × State)
dims_attempt wrap i t none = none
dims_attempt wrap i t (some (r, s)) =
    let (named, s') = array_descriptor i t r s in some ((λ j. wrap r.exprs j, named), s')

abbrev pub init_attempt : IdNode → TypeDescriptor → Option (Expr × State) → Option (Attempt × State)
init_attempt i t none = none
init_attempt i t (some (e, s)) = some (
  (λ j. DeclId.with_init j e, (typed_id i (check_init_type e i.data_type), some t)),
  print_init e s,
)

-- `enterSymbol`, unless the name's node has `ERROR_TYPE`. The flag is the declaration's error.
abbrev pub enter_named :
    NameKind → (IdNode → DeclId) → IdNode → Option TypeDescriptor → M (DeclId × Bool)
enter_named kind wrap i none s =
    if same_type i.data_type error_type then some ((wrap i, true), s) else none
enter_named kind wrap i (some t) s =
    if same_type i.data_type error_type
    then some ((wrap i, true), s)
    else let (entry, table) = enter_symbol i.identifier_name (attribute_for kind t) s.table in
      some ((wrap (with_entry i entry), false), record s { table = table })

abbrev pub id_of : DeclId → IdNode
id_of (DeclId.normal i) = i
id_of (DeclId.array i ds) = i
id_of (DeclId.array_unsized i ds) = i
id_of (DeclId.with_init i e) = i

abbrev pub set_id : DeclId → IdNode → DeclId
set_id (DeclId.normal i) j = DeclId.normal j
set_id (DeclId.array i ds) j = DeclId.array j ds
set_id (DeclId.array_unsized i ds) j = DeclId.array_unsized j ds
set_id (DeclId.with_init i e) j = DeclId.with_init j e

abbrev pub name_kind : DeclKind → NameKind
name_kind variable_decl = names_variable
name_kind type_decl = names_type
name_kind function_parameter_decl = names_variable

module _ (m : Machine) where
  -- The case `ARRAY_ID`; `k` and `sizes` are what the dimensions begin with.
  abbrev pub array_attempt :
      NameKind
      → TypeDescriptor
      → (Exprs → IdNode → DeclId)
      → IdNode
      → Exprs
      → ℕ
      → List ℕ
      → M Attempt
  array_attempt kind t wrap i ds k sizes s =
      if is_type_kind kind && is_void_scalar t
      then some (
        (λ j. wrap ds j, (typed_id i error_type, none)),
        print_error_msg i.linenumber typedef_void_array s,
      )
      else dims_attempt wrap i t (declare_dims m i.linenumber ds k sizes i.data_type s)

  unfoldable pub attempt : NameKind → TypeDescriptor → DeclId → M Attempt
  unfolding declare_dims array_descriptor print_init check_init_type process_expr_related_node
  attempt kind t (DeclId.normal i) s = some ((DeclId.normal, (i, some t)), s)
  attempt kind t (DeclId.array i ds) s =
      array_attempt kind t (λ es j. DeclId.array j es) i ds 0 [] s
  attempt kind t (DeclId.array_unsized i ds) s =
      array_attempt kind t (λ es j. DeclId.array_unsized j es) i ds 1 (0 ∷ []) s
  attempt kind t (DeclId.with_init i e) s =
      if is_array t
      then some (
        (λ j. DeclId.with_init j e, (typed_id i error_type, none)),
        print_error_msg i.linenumber try_to_init_array s,
      )
      else init_attempt i t (process_expr_related_node (m.fpu) e s)

  -- One round of the loop of `declareIdList`.
  unfoldable pub declare_id : NameKind → TypeDescriptor → DeclId → M (DeclId × Bool)
  unfolding attempt
  declare_id kind t x s =
      if declared_locally (id_of x).identifier_name s.table
      then some (
        (set_id x (typed_id (id_of x) error_type), true),
        print_error_msg (id_of x).linenumber symbol_redeclare s,
      )
      else (do (wrap, (i, descriptor)) ← attempt kind t x; enter_named kind wrap i descriptor) s

  unfoldable pub declare_ids : NameKind → TypeDescriptor → List DeclId → M (List DeclId × Bool)
  unfolding declare_id
  declare_ids kind t [] = pure ([], false)
  declare_ids kind t (x ∷ xs) = do
    (x', failed) ← declare_id kind t x
    (xs', failed') ← declare_ids kind t xs
    pure (x' ∷ xs', failed || failed')

  -- `declareIdList`, for the descriptor of the type's node.
  abbrev pub declare_id_list : Decl → Option TypeDescriptor → M Decl
  declare_id_list d none s = none
  declare_id_list d (some t) s =
      if not (is_type_kind (name_kind d.kind)) && is_void_scalar t
      then some (
        record d { data_type = error_type; type_node = typed_id d.type_node error_type },
        print_error_msg d.type_node.linenumber void_variable s,
      )
      else (do
        (xs, failed) ← declare_ids (name_kind d.kind) t d.ids
        pure (record d { ids = xs; data_type = if failed then error_type else d.data_type }))
          s

  -- `processDeclarationNode`, for all kinds but functions.
  unfoldable pub process_declaration_node : Decl → M Decl
  unfolding process_type_node declare_ids
  process_declaration_node d = do
    i ← process_type_node d.type_node
    if same_type i.data_type error_type
        then pure (record d { type_node = i; data_type = error_type })
        else declare_id_list (record d { type_node = i }) (entry_descriptor i.symbol_table_entry)
