-- ===== src/Semantic/Rollback/Handler.antt =====
-- `declareFunction` of src/semanticAnalysis.c, from its head to the end of its scope.
use ntu_csie_complier.Prelude.{
  Bool, true, false, ◌||◌, Option, none, some, length, String, ◌≡◌, refl, ◌∙◌, ap, sym, subst,
  arith, if◌then◌else◌,
}
use ntu_csie_complier.SymbolTable.Defs.{SymbolTable, declared_locally}
use ntu_csie_complier.SymbolTable.Scopes.{IsValid}
use ntu_csie_complier.SymbolTable.Spec.{declares, declare, view}
use ntu_csie_complier.Types.{
  SymbolAttribute, function_signature, TypeDescriptor, same_type, error_type,
}
use ntu_csie_complier.Ast.{Function}
use ntu_csie_complier.Semantic.State.{State, M}
use ntu_csie_complier.Effect.Post
use ntu_csie_complier.Effect.Post.{Post, faults, returns}
use ntu_csie_complier.Semantic.Dims.{Machine, process_type_node, is_array}
use ntu_csie_complier.Semantic.Stmt.{enter_block, leave_block, process_decl_list, process_stmts}
use ntu_csie_complier.Semantic.Function.{
  check_head, enter_function, process_body, declare_parameters, with_head, process_function,
}
use ntu_csie_complier.Semantic.Runs.{Run, whole, start, Run-trans, after, widen}
use ntu_csie_complier.Semantic.Runs.Facts.{Prints-OnlyMessages}
use ntu_csie_complier.Semantic.Runs.Declare.{process_type_node-Prints}
use ntu_csie_complier.Semantic.Runs.Stmt.{process_decl_list-Run, process_stmts-Run}
use ntu_csie_complier.Semantic.Runs.Function.{
  check_head-Prints, declare_parameters-Run, set_count-Run,
}
use ntu_csie_complier.Semantic.Rollback.{
  Outcome, Processed, unchanged, declared, check_head-name, leave_block-inner, Head,
  finish-Processed, enter_function-name, enter_function-Head,
}

Outcome-from :
    (name : String) (s t u : State) → t.table ≡ s.table → Outcome name t u → Outcome name s u
Outcome-from name s t u same (unchanged e) = unchanged (e ∙ ap view same)
Outcome-from name s t u same (declared k free e) =
    declared k
      (subst (λ (x : SymbolTable SymbolAttribute). declares name (view x) ≡ false) same free)
      (e
        ∙ ap (λ (x : SymbolTable SymbolAttribute). declare name (function_signature k) (view x))
            same)

-- The state that the handler of the type's node starts in has the same table.
Processed-from :
    (name : String) (s t u : State) → t.table ≡ s.table → Processed name t u → Processed name s u
Processed-from name s t u same p = record {
  valid = p.valid;
  same_level = p.same_level ∙ ap (λ (x : SymbolTable SymbolAttribute). x.current_level) same;
  outcome = Outcome-from name s t u same p.outcome;
}

if_action-Post :
    {A : Type 0} {P : A → State → Type 0} (test : Bool) (x y : M A) (s : State)
    → Post P (x s)
    → Post P (y s)
    → Post P (if◌then◌else◌ {A = M A} test x y s)
if_action-Post true x y s p q = p
if_action-Post false x y s p q = q

module _ (m : Machine) where
  process_body-name :
      (error : Bool) (f : Function) (s : State)
      → Post
          (λ (f' : Function) t.
            Run whole s t × (f'.name_node.identifier_name ≡ f.name_node.identifier_name))
          (process_body m error f s)
  unfolding process_body
  process_body-name true f s = returns (start, refl)
  process_body-name false f s =
      Post.bind (process_decl_list m f.body_decls) _ s (process_decl_list-Run m f.body_decls s)
        (λ ds t p.
          Post.bind (process_stmts m f.return_type_node.data_type f.body) _ t
            (after p (widen (process_stmts-Run m f.return_type_node.data_type f.body t)))
            (λ ss u q. returns (q, refl)))

  with_head-Processed :
      (f : Function) (t : Option TypeDescriptor) (s : State)
      → IsValid s.table
      → Post (λ (_ : Function) w. Processed f.name_node.identifier_name s w) (with_head m f t s)
  with_head-Processed f none s v = faults
  with_head-Processed f (some t) s v =
      let name = f.name_node.identifier_name in
      let taken = declared_locally name s.table in
      let head_error = is_array t || taken in
      let h : Function × State = check_head (is_array t) taken f s in
      let e : Function × State = enter_function head_error h.0 h.1 in
      let named : e.0.name_node.identifier_name ≡ name =
        enter_function-name head_error h.0 h.1 ∙ check_head-name (is_array t) taken f s in
      let head : Head name s e.1 head_error =
        enter_function-Head name head_error h.0 s h.1 (check_head-name (is_array t) taken f s)
          (Prints-OnlyMessages (check_head-Prints (is_array t) taken f s)).same_table v
          (λ ok. ground arith) in
      Post.bind (declare_parameters m _ head_error e.0.parameters) _ (enter_block e.1)
        (declare_parameters-Run m _ head_error e.0.parameters (enter_block e.1))
        (λ r u p.
          Post.bind (process_body m r.1 (record (e.0) { parameters = r.0 })) _ _
            (process_body-name r.1 (record (e.0) { parameters = r.0 }) _)
            (λ f3 x q.
              Post.bind leave_block _ x
                (leave_block-inner (Run-trans (Run-trans p (set_count-Run _ (length r.0) _ u)) q.0))
                (λ _ y run.
                  returns
                    (finish-Processed name head_error r.1 f3 s e.1 y (q.1 ∙ named) v head run))))

  -- From a valid table, where processing a function has a result, the table is valid, at its
  -- level, and either declares the function's name, which the innermost scope did not declare
  -- before, or has all scopes as they were: of its parameters and its body nothing stays.
  pub process_function-Processed :
      (f : Function) (s : State)
      → IsValid s.table
      → Post
          (λ (_ : Function) t. Processed f.name_node.identifier_name s t)
          (process_function m f s)
  unfolding process_function
  process_function-Processed f s v =
      Post.bind (process_type_node f.return_type_node) _ s
        (process_type_node-Prints f.return_type_node s)
        (λ i t p.
          let same = (Prints-OnlyMessages p).same_table in
          if_action-Post (same_type i.data_type error_type) _ _ t
            (returns (record {
              valid = subst IsValid (sym same) v;
              same_level = ap (λ (x : SymbolTable SymbolAttribute). x.current_level) same;
              outcome = unchanged (ap view same);
            }))
            (Post.weaken
              (with_head-Processed (record f { return_type_node = i }) _ t
                (subst IsValid (sym same) v))
              (λ _ u q. Processed-from f.name_node.identifier_name s t u same q)))
