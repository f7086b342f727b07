-- ===== src/Semantic/Runs/Declare.antt =====
-- Declarations (src/semanticAnalysis.c) are runs.
use ntu_csie_complier.Prelude.{
  ℕ, suc, ◌+◌, Bool, true, false, not, ◌&&◌, Option, none, some, List, [], ◌∷◌, ltb, leb,
  if◌then◌else◌,
}
use ntu_csie_complier.SymbolTable.Defs.{SymbolTableEntry, declared_locally}
use ntu_csie_complier.Types.{
  DataType, float_type, error_type, TypeDescriptor, scalar, array, SymbolAttribute,
  variable_attribute, type_attribute, function_signature, same_type, is_ptr, max_array_dimension,
}
use ntu_csie_complier.Ast.{IdNode, Expr, Exprs, nil, cons, data_type_of, DeclId, Decl}
use ntu_csie_complier.Semantic.State.{State}
use ntu_csie_complier.Effect.Post.{returns, faults}
use ntu_csie_complier.Semantic.Prints
use ntu_csie_complier.Semantic.Prints.{
  Prints, quiet, PrintsOnly, Prints-trans, print_when-Prints, if-Prints, if-PrintsOnly,
  if_pair-Prints,
}
use ntu_csie_complier.Semantic.Prints.Exprs.{process_expr_related_node-Prints}
use ntu_csie_complier.Semantic.Expr.{process_expr_related_node}
use ntu_csie_complier.Semantic.Runs.{
  whole, start, printed, entered, RunsOnly, seq, if_action-RunsOnly, prints, if-RunsOnly,
}
use ntu_csie_complier.Semantic.Dims.{
  Machine, process_type_node, type_node_found, type_attribute_node, declare_dims, declare_dim,
  array_descriptor, print_init, Dims, is_void_scalar, is_array, eval_flag, eval_value,
}
use ntu_csie_complier.Semantic.Fold.{is_negative}
use ntu_csie_complier.Semantic.Declare.{
  attempt, array_attempt, dims_attempt, init_attempt, enter_named, declare_id, declare_ids,
  declare_id_list, process_declaration_node, NameKind, name_kind, is_type_kind, id_of,
}

type_attribute_node-Prints :
    (i : IdNode) (e : SymbolTableEntry SymbolAttribute) (a : SymbolAttribute) (s : State)
    → PrintsOnly s (type_attribute_node i e a s)
type_attribute_node-Prints i e (variable_attribute t) s = returns (Prints.printed _ _ quiet)
type_attribute_node-Prints i e (type_attribute t) s = returns quiet
type_attribute_node-Prints i e (function_signature k) s = returns (Prints.printed _ _ quiet)

type_node_found-Prints :
    (i : IdNode) (e : Option (SymbolTableEntry SymbolAttribute)) (s : State)
    → PrintsOnly s (type_node_found i e s)
type_node_found-Prints i none s = returns (Prints.printed _ _ quiet)
type_node_found-Prints i (some e) s = type_attribute_node-Prints i e _ s

pub process_type_node-Prints : (i : IdNode) (s : State) → PrintsOnly s (process_type_node i s)
unfolding process_type_node
process_type_node-Prints i s = type_node_found-Prints i _ s

print_init-Prints : (e : Expr) (s : State) → Prints s (print_init e s)
unfolding print_init
print_init-Prints e s =
    if-Prints (is_ptr (data_type_of e)) (Prints.printed _ _ quiet) (print_when-Prints _ _ _ quiet)

array_descriptor-Prints :
    (i : IdNode) (t : TypeDescriptor) (r : Dims) (s : State) → Prints s (array_descriptor i t r s).1
unfolding array_descriptor
array_descriptor-Prints i (scalar d) r s =
    if_pair-Prints (same_type r.data_type error_type) _ _ quiet quiet
array_descriptor-Prints i (array p) r s =
    if_pair-Prints (same_type r.data_type error_type) _ _ quiet (
      if_pair-Prints (ltb max_array_dimension (p.dimension + r.dimension)) _ _
        (Prints.printed _ _ quiet) quiet)

enter_named-Run :
    (kind : NameKind) (wrap : IdNode → DeclId) (i : IdNode) (t : Option TypeDescriptor) (s : State)
    → RunsOnly whole s (enter_named kind wrap i t s)
enter_named-Run kind wrap i none s =
    if-RunsOnly (same_type i.data_type error_type) (returns start) faults
enter_named-Run kind wrap i (some t) s =
    if-RunsOnly (same_type i.data_type error_type) (returns start) (returns (entered _ _ start))

-- A choice of a round's sizes, data type and state.
if_dim-Prints :
    {s : State} (test : Bool) (x y : List ℕ × DataType × State)
    → Prints s x.2
    → Prints s y.2
    → Prints s (if◌then◌else◌ {A = List ℕ × DataType × State} test x y).2
if_dim-Prints true x y p q = p
if_dim-Prints false x y p q = q

module _ (m : Machine) where
  declare_dim-Prints :
      (line : ℕ) (e : Expr) (sizes : List ℕ) (d : DataType) (s : State)
      → Prints s (declare_dim m line e sizes d s).2
  unfolding declare_dim
  declare_dim-Prints line e sizes d s =
      if_dim-Prints (same_type (data_type_of e) error_type) _ _ quiet (
        if_dim-Prints (same_type (data_type_of e) float_type) _ _ (Prints.printed _ _ quiet) (
          if_dim-Prints (eval_flag m e && is_negative (eval_value m e)) _ _
            (Prints.printed _ _ quiet) quiet))

  declare_dims-Prints :
      (line : ℕ) (es : Exprs) (k : ℕ) (sizes : List ℕ) (d : DataType) (s : State)
      → PrintsOnly s (declare_dims m line es k sizes d s)
  unfolding declare_dims
  declare_dims-Prints line nil k sizes d s = returns quiet
  declare_dims-Prints line (cons e es) k sizes d s =
      if-PrintsOnly (leb max_array_dimension k) (returns (Prints.printed _ _ quiet)) (
        Prints.seq (process_expr_related_node m.fpu e) _ s
          (process_expr_related_node-Prints m.fpu e s)
          (λ e' t. Prints.after (declare_dim-Prints line e' sizes d t) (
            Prints.seq (declare_dims m line es (suc k) _ _) _ _
              (declare_dims-Prints line es (suc k) _ _ _) (λ r u. returns quiet))))

  dims_attempt-Prints :
      {s : State} (wrap : Exprs → IdNode → DeclId) (i : IdNode) (t : TypeDescriptor)
      (r : Option (Dims × State))
      → PrintsOnly s r
      → PrintsOnly s (dims_attempt wrap i t r)
  dims_attempt-Prints wrap i t none faults = faults
  dims_attempt-Prints wrap i t (some (r, u)) (returns p) =
      returns (Prints-trans p (array_descriptor-Prints i t r u))

  init_attempt-Prints :
      {s : State} (i : IdNode) (t : TypeDescriptor) (r : Option (Expr × State))
      → PrintsOnly s r
      → PrintsOnly s (init_attempt i t r)
  init_attempt-Prints i t none faults = faults
  init_attempt-Prints i t (some (e, u)) (returns p) =
      returns (Prints-trans p (print_init-Prints e u))

  array_attempt-Prints :
      (kind : NameKind) (t : TypeDescriptor) (wrap : Exprs → IdNode → DeclId) (i : IdNode)
      (ds : Exprs) (k : ℕ) (sizes : List ℕ) (s : State)
      → PrintsOnly s (array_attempt m kind t wrap i ds k sizes s)
  array_attempt-Prints kind t wrap i ds k sizes s =
      if-PrintsOnly (is_type_kind kind && is_void_scalar t) (returns (Prints.printed _ _ quiet))
        (dims_attempt-Prints wrap i t _ (declare_dims-Prints i.linenumber ds k sizes i.data_type s))

  pub attempt-Prints :
      (kind : NameKind) (t : TypeDescriptor) (x : DeclId) (s : State)
      → PrintsOnly s (attempt m kind t x s)
  unfolding attempt
  attempt-Prints kind t (DeclId.normal i) s = returns quiet
  attempt-Prints kind t (DeclId.array i ds) s =
      array_attempt-Prints kind t (λ es j. DeclId.array j es) i ds 0 [] s
  attempt-Prints kind t (DeclId.array_unsized i ds) s =
      array_attempt-Prints kind t (λ es j. DeclId.array_unsized j es) i ds 1 (0 ∷ []) s
  attempt-Prints kind t (DeclId.with_init i e) s =
      if-PrintsOnly (is_array t) (returns (Prints.printed _ _ quiet))
        (init_attempt-Prints i t _ (process_expr_related_node-Prints m.fpu e s))

  declare_id-Run :
      (kind : NameKind) (t : TypeDescriptor) (x : DeclId) (s : State)
      → RunsOnly whole s (declare_id m kind t x s)
  unfolding declare_id
  declare_id-Run kind t x s =
      if-RunsOnly (declared_locally (id_of x).identifier_name s.table) (returns (printed _ _ start))
        (seq (attempt m kind t x) _ s (prints (attempt-Prints kind t x s))
          (λ a u. let (wrap, (i, d)) = a in enter_named-Run kind wrap i d u))

  declare_ids-Run :
      (kind : NameKind) (t : TypeDescriptor) (xs : List DeclId) (s : State)
      → RunsOnly whole s (declare_ids m kind t xs s)
  unfolding declare_ids
  declare_ids-Run kind t [] s = returns start
  declare_ids-Run kind t (x ∷ xs) s =
      seq (declare_id m kind t x) _ s (declare_id-Run kind t x s) (λ r u.
        seq (declare_ids m kind t xs) _ u (declare_ids-Run kind t xs u) (λ r' v. returns start))

  declare_id_list-Run :
      (d : Decl) (t : Option TypeDescriptor) (s : State)
      → RunsOnly whole s (declare_id_list m d t s)
  declare_id_list-Run d none s = faults
  declare_id_list-Run d (some t) s =
      if-RunsOnly (not (is_type_kind (name_kind d.kind)) && is_void_scalar t)
        (returns (printed _ _ start))
        (seq (declare_ids m (name_kind d.kind) t d.ids) _ s
          (declare_ids-Run (name_kind d.kind) t d.ids s) (λ r u. returns start))

  pub process_declaration_node-Run :
      (d : Decl) (s : State) → RunsOnly whole s (process_declaration_node m d s)
  unfolding process_declaration_node
  process_declaration_node-Run d s =
      seq (process_type_node d.type_node) _ s (prints (process_type_node-Prints d.type_node s))
        (λ i t.
          if_action-RunsOnly (same_type i.data_type error_type) _ _ (returns start)
            (declare_id_list-Run (record d { type_node = i }) _ t))
