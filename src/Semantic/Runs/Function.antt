-- ===== src/Semantic/Runs/Function.antt =====
-- Functions and whole programs (src/semanticAnalysis.c) are runs.
use ntu_csie_complier.Prelude.{
  ℕ, Bool, true, false, not, ◌&&◌, ◌||◌, Option, none, some, List, [], ◌∷◌, if◌then◌else◌,
}
use ntu_csie_complier.SymbolTable.Defs.{declared_locally}
use ntu_csie_complier.Types.{error_type, TypeDescriptor, same_type, Parameter, FunctionSignature}
use ntu_csie_complier.Ast.{Node, Decl}
use ntu_csie_complier.Semantic.State.{State}
use ntu_csie_complier.Effect.Post.{Post, returns, faults}
use ntu_csie_complier.Semantic.Prints.{Prints, quiet, print_when-Prints}
use ntu_csie_complier.Ast.{Function, GlobalDecl, decl_list, function}
use ntu_csie_complier.Semantic.Dims.{Machine, process_type_node, is_array}
use ntu_csie_complier.Semantic.Declare.{process_declaration_node}
use ntu_csie_complier.Semantic.Function.{
  declare_parameter, declare_parameters, append_parameter, parameter_of, signature_at, set_count,
  process_body, check_head, enter_function, finish_function, with_head, process_function,
  process_global, process_globals, process_program_node,
}
use ntu_csie_complier.Semantic.Stmt.{process_decl_list, process_stmts, enter_block}
use ntu_csie_complier.Semantic.Runs.{
  widen, whole, Run, Run-trans, Prints-Run, start, signed, entered, removed, leave_block-Run,
  RunsOnly, seq, after, prints, if_action-RunsOnly,
}
use ntu_csie_complier.Semantic.Runs.Declare.{process_declaration_node-Run, process_type_node-Prints}
use ntu_csie_complier.Semantic.Runs.Stmt.{process_decl_list-Run, process_stmts-Run}
use ntu_csie_complier.Effect.Post
use ntu_csie_complier.Prelude.{length}

pub set_count-Run :
    (k n : ℕ) (f : Option FunctionSignature) (s : State) → Run whole s (set_count k n f s)
set_count-Run k n none s = start
set_count-Run k n (some f) s = signed _ start

pub check_head-Prints :
    (returns_array taken : Bool) (f : Function) (s : State)
    → Prints s (check_head returns_array taken f s).1
unfolding check_head
check_head-Prints returns_array taken f s =
    print_when-Prints taken _ _ (print_when-Prints returns_array _ _ quiet)

-- A choice of a function and a state.
if_function-Run :
    {s : State} (test : Bool) (x y : Function × State)
    → Run whole s x.1
    → Run whole s y.1
    → Run whole s (if◌then◌else◌ {A = Function × State} test x y).1
if_function-Run true x y p q = p
if_function-Run false x y p q = q

enter_function-Run :
    (error : Bool) (f : Function) (s : State) → Run whole s (enter_function error f s).1
unfolding enter_function
enter_function-Run error f s =
    if_function-Run error _ _ (signed _ start) (entered _ _ (signed _ start))

finish_function-Run :
    (is_entered error : Bool) (f : Function) (s : State)
    → Run whole s (finish_function is_entered error f s).1
unfolding finish_function
finish_function-Run is_entered error f s =
    if_function-Run (error && is_entered) _ _ (removed _ start) start

append_parameter-Run :
    (k : ℕ) (p : Option Parameter) (f : Option FunctionSignature) (s : State)
    → RunsOnly whole s (append_parameter k p f s)
append_parameter-Run k none f s = faults
append_parameter-Run k (some p) none s = faults
append_parameter-Run k (some p) (some f) s = returns (signed _ start)

module _ (m : Machine) where
  declare_parameter-Run :
      (k : ℕ) (error : Bool) (d : Decl) (s : State)
      → RunsOnly whole s (declare_parameter m k error d s)
  unfolding declare_parameter
  declare_parameter-Run k error d s =
      seq (process_declaration_node m d) _ s (process_declaration_node-Run m d s) (λ d' t.
        if_action-RunsOnly (same_type d'.data_type error_type) _ _ (returns start) (
          if_action-RunsOnly error _ _ (returns start) (
            seq (append_parameter k (parameter_of d'.ids) (signature_at k t.signatures)) _ t
              (append_parameter-Run k _ _ t) (λ x u. returns start))))

  pub declare_parameters-Run :
      (k : ℕ) (error : Bool) (ds : List Decl) (s : State)
      → RunsOnly whole s (declare_parameters m k error ds s)
  unfolding declare_parameters
  declare_parameters-Run k error [] s = returns start
  declare_parameters-Run k error (d ∷ ds) s =
      seq (declare_parameter m k error d) _ s (declare_parameter-Run k error d s) (λ r t.
        seq (declare_parameters m k r.1 ds) _ t (declare_parameters-Run k r.1 ds t)
          (λ r' u. returns start))

  process_body-Run :
      (error : Bool) (f : Function) (s : State) → RunsOnly whole s (process_body m error f s)
  unfolding process_body
  process_body-Run true f s = returns start
  process_body-Run false f s =
      seq (process_decl_list m f.body_decls) _ s (process_decl_list-Run m f.body_decls s) (λ ds t.
        seq (process_stmts m f.return_type_node.data_type f.body) _ t
          (widen (process_stmts-Run m f.return_type_node.data_type f.body t))
          (λ ss u. returns start))

  with_head-Run :
      (f : Function) (t : Option TypeDescriptor) (s : State) → RunsOnly whole s (with_head m f t s)
  with_head-Run f none s = faults
  with_head-Run f (some t) s =
      let taken = declared_locally f.name_node.identifier_name s.table in
      let head_error = is_array t || taken in
      let k = length s.signatures in
      let h : Function × State = check_head (is_array t) taken f s in
      let e : Function × State = enter_function head_error h.0 h.1 in
      let run : Run whole s e.1 =
        Run-trans (Prints-Run (check_head-Prints (is_array t) taken f s))
          (enter_function-Run head_error h.0 h.1) in
      Post.bind (declare_parameters m k head_error e.0.parameters) _ (enter_block e.1)
        (declare_parameters-Run k head_error e.0.parameters (enter_block e.1))
        (λ r u p.
          Post.bind (process_body m r.1 (record (e.0) { parameters = r.0 })) _ _
            (after (Run-trans p (set_count-Run k (length r.0) _ u))
              (process_body-Run r.1 (record (e.0) { parameters = r.0 }) _))
            (λ f3 v q.
              leave_block-Run (λ x w. some (finish_function (not head_error) r.1 f3 w)) run q
                (λ w. returns (finish_function-Run (not head_error) r.1 f3 w))))

  pub process_function-Run : (f : Function) (s : State) → RunsOnly whole s (process_function m f s)
  unfolding process_function
  process_function-Run f s =
      seq (process_type_node f.return_type_node) _ s
        (prints (process_type_node-Prints f.return_type_node s))
        (λ i t.
          if_action-RunsOnly (same_type i.data_type error_type) _ _ (returns start)
            (with_head-Run (record f { return_type_node = i }) _ t))

  process_global-Run : (g : GlobalDecl) (s : State) → RunsOnly whole s (process_global m g s)
  unfolding process_global
  process_global-Run (decl_list l) s =
      seq (process_decl_list m l) _ s (process_decl_list-Run m l s) (λ l' t. returns start)
  process_global-Run (function f) s =
      seq (process_function m f) _ s (process_function-Run f s) (λ f' t. returns start)

  process_globals-Run :
      (gs : List GlobalDecl) (s : State) → RunsOnly whole s (process_globals m gs s)
  unfolding process_globals
  process_globals-Run [] s = returns start
  process_globals-Run (g ∷ gs) s =
      seq (process_global m g) _ s (process_global-Run g s)
        (λ g' t. seq (process_globals m gs) _ t (process_globals-Run gs t) (λ gs' u. returns start))

  pub process_program_node-Run :
      (n : Node) (gs : List GlobalDecl) (s : State)
      → RunsOnly whole s (process_program_node m n gs s)
  unfolding process_program_node
  process_program_node-Run n gs s =
      seq (process_globals m gs) _ s (process_globals-Run gs s) (λ gs' t. returns start)
