-- ===== src/Semantic/Prints/Variables.antt =====
-- What the name of a variable (src/semanticAnalysis.c) prints besides what its subscripts do.
use ntu_csie_complier.Prelude.{Option, none, some, ◌==◌, ltb}
use ntu_csie_complier.SymbolTable.Defs.{SymbolTableEntry}
use ntu_csie_complier.Types.{
  DataType, TypeDescriptor, scalar, array, ArrayProperties, SymbolAttribute, variable_attribute,
  type_attribute, function_signature, same_type, error_type,
}
use ntu_csie_complier.Ast.{IdNode, Expr, normal_id, array_id, Exprs}
use ntu_csie_complier.Semantic.State.{State, M}
use ntu_csie_complier.Semantic.Prints.{if_pair-Prints, Prints, quiet, printed, PrintsOnly}
use ntu_csie_complier.Effect.Post.{faults, returns}
use ntu_csie_complier.Semantic.Calls.{count_exprs}
use ntu_csie_complier.Semantic.Variables.{
  typed_id, r_value_type, with_entry, Subscripts, l_value_normal, l_value_array, r_value_array,
  l_value_attribute, l_value_found, r_value_attribute, r_value_found, process_l_value_normal,
  process_l_value_array, process_r_value_normal, process_r_value_array, r_value_dims,
  r_value_subscripts, l_value_subscripts,
}

l_value_attribute-Prints :
    (wrap : IdNode → Expr) (i : IdNode) (next : TypeDescriptor → M Expr)
    → ((t : TypeDescriptor) (s : State) → PrintsOnly s (next t s))
    → (a : SymbolAttribute) (s : State) → PrintsOnly s (l_value_attribute wrap i next a s)
l_value_attribute-Prints wrap i next h (variable_attribute t) s = h t s
l_value_attribute-Prints wrap i next h (type_attribute t) s = returns (printed _ _ quiet)
l_value_attribute-Prints wrap i next h (function_signature k) s = returns (printed _ _ quiet)

l_value_found-Prints :
    (wrap : IdNode → Expr) (i : IdNode) (next : IdNode → TypeDescriptor → M Expr)
    → ((j : IdNode) (t : TypeDescriptor) (s : State) → PrintsOnly s (next j t s))
    → (entry : Option (SymbolTableEntry SymbolAttribute)) (s : State)
    → PrintsOnly s (l_value_found wrap i next entry s)
l_value_found-Prints wrap i next h none s = returns (printed _ _ quiet)
l_value_found-Prints wrap i next h (some e) s =
    l_value_attribute-Prints wrap (with_entry i (some e)) _ (h _) _ s

r_value_attribute-Prints :
    (wrap : IdNode → Expr) (i : IdNode) (next : TypeDescriptor → M Expr)
    → ((t : TypeDescriptor) (s : State) → PrintsOnly s (next t s))
    → (a : SymbolAttribute) (s : State) → PrintsOnly s (r_value_attribute wrap i next a s)
r_value_attribute-Prints wrap i next h (variable_attribute t) s = h t s
r_value_attribute-Prints wrap i next h (type_attribute t) s = returns (printed _ _ quiet)
r_value_attribute-Prints wrap i next h (function_signature k) s = faults

r_value_found-Prints :
    (wrap : IdNode → Expr) (i : IdNode) (next : IdNode → TypeDescriptor → M Expr)
    → ((j : IdNode) (t : TypeDescriptor) (s : State) → PrintsOnly s (next j t s))
    → (entry : Option (SymbolTableEntry SymbolAttribute)) (s : State)
    → PrintsOnly s (r_value_found wrap i next entry s)
r_value_found-Prints wrap i next h none s = returns (printed _ _ quiet)
r_value_found-Prints wrap i next h (some e) s =
    r_value_attribute-Prints wrap (with_entry i (some e)) _ (h _) _ s

l_value_normal-Prints :
    (i : IdNode) (t : TypeDescriptor) (s : State) → PrintsOnly s (l_value_normal i t s)
l_value_normal-Prints i (scalar d) s = returns quiet
l_value_normal-Prints i (array p) s = returns (printed _ _ quiet)

l_value_array-Prints :
    {s t : State} (i : IdNode) (d : TypeDescriptor) (ds : Exprs)
    → Prints s t
    → Prints s (l_value_array i d ds t).1
l_value_array-Prints i (scalar d) ds p = printed _ _ p
l_value_array-Prints i (array a) ds p =
    if_pair-Prints (count_exprs ds == a.dimension) _ _ p (printed _ _ p)

r_value_array-Prints :
    {s t : State} (i : IdNode) (a : ArrayProperties) (ds : Exprs) (d : DataType)
    → Prints s t
    → Prints s (r_value_array i a ds d t).1
r_value_array-Prints i a ds d p = if_pair-Prints (same_type d error_type) _ _ p (
    if_pair-Prints (count_exprs ds == a.dimension) _ _ p
      (if_pair-Prints (ltb a.dimension (count_exprs ds)) _ _ (printed _ _ p) p))

l_value_subscripts-Prints :
    {s : State} (i : IdNode) (t : TypeDescriptor) (r : Option (Subscripts × State))
    → PrintsOnly s r
    → PrintsOnly s (l_value_subscripts i t r)
l_value_subscripts-Prints i t none faults = faults
l_value_subscripts-Prints i t (some ((ds, d), u)) (returns p) =
    returns (l_value_array-Prints i t ds p)

r_value_subscripts-Prints :
    {s : State} (i : IdNode) (a : ArrayProperties) (r : Option (Subscripts × State))
    → PrintsOnly s r
    → PrintsOnly s (r_value_subscripts i a r)
r_value_subscripts-Prints i a none faults = faults
r_value_subscripts-Prints i a (some ((ds, d), u)) (returns p) =
    returns (r_value_array-Prints i a ds d p)

pub process_l_value_normal-Prints :
    (i : IdNode) (s : State) → PrintsOnly s (process_l_value_normal i s)
unfolding process_l_value_normal
process_l_value_normal-Prints i s =
    l_value_found-Prints normal_id i l_value_normal l_value_normal-Prints _ s

pub process_r_value_normal-Prints :
    (i : IdNode) (s : State) → PrintsOnly s (process_r_value_normal i s)
unfolding process_r_value_normal
process_r_value_normal-Prints i s =
    r_value_found-Prints normal_id i (λ j t u. some (normal_id (typed_id j (r_value_type t)), u))
      (λ j t u. returns quiet) _ s

module _ (process : M Subscripts) (process-Prints : (s : State) → PrintsOnly s (process s)) where
  r_value_dims-Prints :
      (ds : Exprs) (i : IdNode) (t : TypeDescriptor) (s : State)
      → PrintsOnly s (r_value_dims ds process i t s)
  r_value_dims-Prints ds i (scalar d) s = returns (printed _ _ quiet)
  r_value_dims-Prints ds i (array a) s =
      r_value_subscripts-Prints i a (process s) (process-Prints s)

  pub process_l_value_array-Prints :
      (i : IdNode) (ds : Exprs) (s : State) → PrintsOnly s (process_l_value_array i ds process s)
  unfolding process_l_value_array
  process_l_value_array-Prints i ds s =
      l_value_found-Prints (λ j. array_id j ds) i _
        (λ j t u. l_value_subscripts-Prints j t (process u) (process-Prints u)) _ s

  pub process_r_value_array-Prints :
      (i : IdNode) (ds : Exprs) (s : State) → PrintsOnly s (process_r_value_array i ds process s)
  unfolding process_r_value_array
  process_r_value_array-Prints i ds s =
      r_value_found-Prints (λ j. array_id j ds) i _ (r_value_dims-Prints ds) _ s
