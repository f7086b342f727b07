-- ===== src/Semantic/Defined.antt =====
-- Which expressions src/semanticAnalysis.c processes to a result.
use ntu_csie_complier.Prelude.{
  ℕ, Bool, true, false, not, ◌&&◌, Option, none, some, ◌≡◌, ◌≢◌, refl, sym, subst, if◌then◌else◌,
}
use ntu_csie_complier.SymbolTable.Defs.{SymbolTable, SymbolTableEntry, retrieve_symbol}
use ntu_csie_complier.Types.{
  float_type, DataType, int_type, error_type, same_type, BinaryOperator, op_add, op_sub, op_mul,
  op_div, op_eq, op_ge, op_le, op_ne, op_gt, op_lt, op_and, op_or, SymbolAttribute,
  variable_attribute, type_attribute, function_signature, TypeDescriptor, scalar, array,
  ArrayProperties,
}
use ntu_csie_complier.Ast.{
  ExprNode, IdNode, Expr, binary, unary, call, normal_id, array_id, const, Exprs, nil, cons,
  data_type_of,
}
use ntu_csie_complier.Semantic.State.{State, M, ◌>>=◌}
use ntu_csie_complier.Effect.Post.{returns}
use ntu_csie_complier.Semantic.Fold.{
  folded, binary_float, get_float_value, Fpu, evaluate_binary, binary_int, folded_int,
  get_int_value,
}
use ntu_csie_complier.Semantic.Operands.{
  print_operands, check_binary, check_unary, fold_binary, is_const, binary_type, rebuild_binary,
}
use ntu_csie_complier.Semantic.Variables.{
  typed_id, r_value_type, Subscripts, process_r_value_normal, process_r_value_array, r_value_found,
  r_value_attribute, r_value_dims, r_value_subscripts, with_entry,
}
use ntu_csie_complier.Semantic.Expr.{
  process_expr_related_node, process_subscripts, print_subscript, subscript_type,
}
use ntu_csie_complier.Semantic.Prints.{Prints, PrintsOnly}
use ntu_csie_complier.Semantic.Prints
use ntu_csie_complier.Semantic.Prints.Exprs.{
  process_expr_related_node-Prints, process_subscripts-Prints,
}
use ntu_csie_complier.Semantic.Runs.Facts.{Prints-OnlyMessages}

unfoldable pub is_returned : {A : Type 0} → Option A → Bool
is_returned none = false
is_returned (some a) = true

unfoldable pub names_no_function : Option (SymbolTableEntry SymbolAttribute) → Bool
names_no_function none = true
names_no_function (some e) = elim (e.binding.attribute) [ function_signature k ↦ false | _ ↦ true ]

-- An expression of no calls and no divisions, with no name of a function among its variables.
unfoldable mutual
  unfolding names_no_function

  pub IsDefined : SymbolTable SymbolAttribute → Expr → Type 0
  IsDefined t (binary n op l r) = (op ≢ op_div) × IsDefined t l × IsDefined t r
  IsDefined t (unary n op e) = IsDefined t e
  IsDefined t (call n f p es) = ⊥
  IsDefined t (normal_id i) = names_no_function (retrieve_symbol i.identifier_name t) ≡ true
  IsDefined t (array_id i ds) =
      (names_no_function (retrieve_symbol i.identifier_name t) ≡ true) × AreDefined t ds
  IsDefined t (const c) = Unit {0}

  pub AreDefined : SymbolTable SymbolAttribute → Exprs → Type 0
  AreDefined t nil = Unit {0}
  AreDefined t (cons e es) = IsDefined t e × AreDefined t es

then_returned :
    {A B : Type 0} {s : State} (x : Option (A × State)) (k : A → M B)
    → is_returned x ≡ true
    → PrintsOnly s x
    → ((a : A) (t : State) → Prints s t → is_returned (k a t) ≡ true)
    → is_returned (elim x [ none ↦ none | some (a, s') ↦ k a s' ]) ≡ true
unfolding is_returned
then_returned none k h p next = h
then_returned (some (a, t)) k h (returns p) next = next a t p

seq :
    {A B : Type 0} (m : M A) (k : A → M B) (s : State)
    → is_returned (m s) ≡ true
    → PrintsOnly s (m s)
    → ((a : A) (t : State) → Prints s t → is_returned (k a t) ≡ true)
    → is_returned ((m >>= k) s) ≡ true
seq m k s h p next = then_returned (m s) k h p next

folded_int-returned :
    (n : ExprNode) (op : BinaryOperator) (a b : ℕ)
    → op ≢ op_div
    → is_returned (folded_int n (binary_int op a b)) ≡ true
unfolding binary_int is_returned
folded_int-returned n op_add a b h = refl
folded_int-returned n op_sub a b h = refl
folded_int-returned n op_mul a b h = refl
folded_int-returned n op_div a b h = absurd (h refl)
folded_int-returned n op_eq a b h = refl
folded_int-returned n op_ge a b h = refl
folded_int-returned n op_le a b h = refl
folded_int-returned n op_ne a b h = refl
folded_int-returned n op_gt a b h = refl
folded_int-returned n op_lt a b h = refl
folded_int-returned n op_and a b h = refl
folded_int-returned n op_or a b h = refl

if_returned :
    {A : Type 0} (test : Bool) (x y : Option A)
    → is_returned x ≡ true
    → is_returned y ≡ true
    → is_returned (if test then x else y) ≡ true
if_returned true x y p q = p
if_returned false x y p q = q

rebuild_binary-returned :
    (op : BinaryOperator) (l r : Expr) (s : State) (n : Option ExprNode)
    → is_returned n ≡ true
    → is_returned (rebuild_binary op l r s n) ≡ true
unfolding is_returned
rebuild_binary-returned op l r s none h = h
rebuild_binary-returned op l r s (some n) h = refl

evaluate_binary-returned :
    (fpu : Fpu) (n : ExprNode) (op : BinaryOperator) (l r : Expr)
    → op ≢ op_div
    → is_returned (evaluate_binary fpu n op l r) ≡ true
unfolding evaluate_binary is_returned
evaluate_binary-returned fpu n op l r h =
    if_returned (same_type (data_type_of l) int_type && same_type (data_type_of r) int_type)
      (folded_int n (binary_int op (get_int_value l) (get_int_value r)))
      (some
        (folded n float_type (binary_float fpu op (get_float_value fpu l) (get_float_value fpu r))))
      (folded_int-returned n op (get_int_value l) (get_int_value r) h) refl

fold_binary-returned :
    (fpu : Fpu) (n : ExprNode) (op : BinaryOperator) (l r : Expr)
    → op ≢ op_div
    → is_returned (fold_binary fpu n op l r) ≡ true
unfolding fold_binary is_returned
fold_binary-returned fpu n op l r h =
    if_returned (not (same_type n.data_type error_type) && (is_const l && is_const r))
      (evaluate_binary fpu n op l r) (some n) (evaluate_binary-returned fpu n op l r h) refl

check_binary-returned :
    (fpu : Fpu) (n : ExprNode) (op : BinaryOperator) (l r : Expr) (s : State)
    → op ≢ op_div
    → is_returned (check_binary fpu n op l r s) ≡ true
unfolding check_binary
check_binary-returned fpu n op l r s h =
    let d = binary_type op n.data_type (data_type_of l) (data_type_of r) in
    rebuild_binary-returned op l r (print_operands n l r s)
      (fold_binary fpu (record n { data_type = d }) op l r)
      (fold_binary-returned fpu (record n { data_type = d }) op l r h)

r_value_attribute-returned :
    (wrap : IdNode → Expr) (i : IdNode) (next : TypeDescriptor → M Expr) (a : SymbolAttribute)
    (s : State)
    → elim a as (λ (_ : SymbolAttribute). Bool) [ function_signature k ↦ false | _ ↦ true ] ≡ true
    → ((t : TypeDescriptor) → is_returned (next t s) ≡ true)
    → is_returned (r_value_attribute wrap i next a s) ≡ true
unfolding is_returned
r_value_attribute-returned wrap i next (variable_attribute t) s h ok = ok t
r_value_attribute-returned wrap i next (type_attribute t) s h ok = refl
r_value_attribute-returned wrap i next (function_signature k) s h ok = h

r_value_found-returned :
    (wrap : IdNode → Expr) (i : IdNode) (next : IdNode → TypeDescriptor → M Expr)
    (entry : Option (SymbolTableEntry SymbolAttribute)) (s : State)
    → names_no_function entry ≡ true
    → ((j : IdNode) (t : TypeDescriptor) → is_returned (next j t s) ≡ true)
    → is_returned (r_value_found wrap i next entry s) ≡ true
unfolding is_returned names_no_function
r_value_found-returned wrap i next none s h ok = refl
r_value_found-returned wrap i next (some e) s h ok =
    r_value_attribute-returned wrap (with_entry i (some e)) _ e.binding.attribute s h (ok _)

r_value_subscripts-returned :
    (i : IdNode) (p : ArrayProperties) (x : Option (Subscripts × State))
    → is_returned x ≡ true
    → is_returned (r_value_subscripts i p x) ≡ true
unfolding is_returned
r_value_subscripts-returned i p none h = h
r_value_subscripts-returned i p (some ((ds, d), s)) h = refl

r_value_dims-returned :
    (ds : Exprs) (process : M Subscripts) (i : IdNode) (t : TypeDescriptor) (s : State)
    → is_returned (process s) ≡ true
    → is_returned (r_value_dims ds process i t s) ≡ true
unfolding is_returned
r_value_dims-returned ds process i (scalar d) s h = refl
r_value_dims-returned ds process i (array p) s h = r_value_subscripts-returned i p (process s) h

keeps_table : {s t : State} → Prints s t → s.table ≡ t.table
keeps_table p = sym (Prints-OnlyMessages p).same_table

module _ (fpu : Fpu) where
  mutual
    unfolding process_expr_related_node process_subscripts process_r_value_normal
        process_r_value_array check_unary is_returned IsDefined AreDefined print_subscript

    expr_returned :
        (e : Expr) (s : State)
        → IsDefined s.table e
        → is_returned (process_expr_related_node fpu e s) ≡ true
    expr_returned (binary n op l r) s (h, hl, hr) =
        seq (process_expr_related_node fpu l) _ s (expr_returned l s hl)
          (process_expr_related_node-Prints fpu l s)
          (λ l' t p.
            seq (process_expr_related_node fpu r) _ t
              (expr_returned r t
                (subst (λ (x : SymbolTable SymbolAttribute). IsDefined x r) (keeps_table p) hr))
              (process_expr_related_node-Prints fpu r t)
              (λ r' u q. check_binary-returned fpu n op l' r' u h))
    expr_returned (unary n op e) s h =
        seq (process_expr_related_node fpu e) _ s (expr_returned e s h)
          (process_expr_related_node-Prints fpu e s) (λ e' t p. refl)
    expr_returned (call n f p es) s h = absurd h
    expr_returned (normal_id i) s h =
        r_value_found-returned normal_id i
          (λ j t u. some (normal_id (typed_id j (r_value_type t)), u)) _ s h (λ j t. refl)
    expr_returned (array_id i ds) s (h, hs) =
        r_value_found-returned (λ j. array_id j ds) i
          (r_value_dims ds (process_subscripts fpu i.linenumber i.data_type ds)) _ s h
          (λ j t.
            r_value_dims-returned ds (process_subscripts fpu i.linenumber i.data_type ds) j t s
              (subscripts_returned i.linenumber i.data_type ds s hs))
    expr_returned (const c) s h = refl

    subscripts_returned :
        (line : ℕ) (d : DataType) (es : Exprs) (s : State)
        → AreDefined s.table es
        → is_returned (process_subscripts fpu line d es s) ≡ true
    subscripts_returned line d nil s h = refl
    subscripts_returned line d (cons e es) s (h, hs) =
        seq (process_expr_related_node fpu e) _ s (expr_returned e s h)
          (process_expr_related_node-Prints fpu e s)
          (λ e' t p.
            seq (process_subscripts fpu line (subscript_type e' d) es) _ (print_subscript line e' t)
              (subscripts_returned line _ es (print_subscript line e' t) (
                subst (λ (x : SymbolTable SymbolAttribute). AreDefined x es)
                  (keeps_table
                    (Prints.Prints-trans p (Prints.print_when-Prints _ _ _ Prints.quiet)))
                  hs))
              (process_subscripts-Prints fpu line _ es (print_subscript line e' t)) (λ r u q. refl))

  -- An expression of no calls and no divisions, with no name of a function among its variables, is
  -- always processed to a result: folding its constants does not trap.
  pub process_expr_related_node-IsDefined :
      (e : Expr) (s : State)
      → IsDefined s.table e
      → is_returned (process_expr_related_node fpu e s) ≡ true
  process_expr_related_node-IsDefined e s h = expr_returned e s h
