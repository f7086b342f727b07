-- ===== src/Examples/Programs.antt =====
-- Semantic analysis (src/semanticAnalysis.c) of small trees.
use ntu_csie_complier.Prelude.{
  ◌++◌, arith, ◌≡◌, refl, ◌↔◌, true, false, none, some, List, [], ◌∷◌, String, ◌++◌, Option, Bool,
}
use ntu_csie_complier.SymbolTable.Hash.{hash}
use ntu_csie_complier.SymbolTable.Defs.{retrieve_symbol, declared_locally, open_scope, close_scope}
use ntu_csie_complier.SymbolTable.Scopes.{IsValid}
use ntu_csie_complier.Types.{
  int_type, float_type, none_type, void_type, op_add, scalar, integerc, DataType,
}
use ntu_csie_complier.Ast.{
  Node, ExprNode, IdNode, Expr, nil, cons, DeclId, Decl, variable_decl, Stmt, block_stmt,
  assign_stmt, Stmts, Function, GlobalDecl,
}
use ntu_csie_complier.Semantic.State.{State, print_when, print_error_msg}
use ntu_csie_complier.Effect.Post.{Post}
use ntu_csie_complier.Semantic.Fold.{Fpu}
use ntu_csie_complier.Semantic.Dims.{Machine}
use ntu_csie_complier.Semantic.Expr.{process_expr_related_node}
use ntu_csie_complier.Semantic.Declare.{process_declaration_node, attempt, Attempt, names_variable}
use ntu_csie_complier.Semantic.Stmt.{process_stmt_node, return_mismatch}
use ntu_csie_complier.Semantic.Function.{process_function, process_program_node}
use ntu_csie_complier.Semantic.Runs.Facts.{SameScopes, OnlyMessages, is_nonempty}
use ntu_csie_complier.Semantic.Initial.{
  initialize_symbol_table, initial_state, initialize_symbol_table-IsValid,
}
use ntu_csie_complier.Semantic.Effects
use ntu_csie_complier.Semantic.Defined
use ntu_csie_complier.Semantic.Defined.{IsDefined, names_no_function, is_returned}
use ntu_csie_complier.Semantic.Growth
use ntu_csie_complier.Semantic.Growth.{Grows}
use ntu_csie_complier.Semantic.Rollback.Handler
use ntu_csie_complier.Semantic.Rollback.{Processed}
use ntu_csie_complier.Semantic.Typing
use ntu_csie_complier.Semantic.Typing.{Returns, arity_of}
use ntu_csie_complier.Semantic.Bounds
use ntu_csie_complier.Semantic.Bounds.{WellFormed, IsAttempt}

-- An instance of the machine's `float`s that the trees here do not use.
abbrev fpu : Fpu
fpu = record {
  of_int = λ a. a;
  of_double = λ a. a;
  add = λ a b. a;
  sub = λ a b. a;
  mul = λ a b. a;
  div = λ a b. a;
  eq = λ a b. false;
  ge = λ a b. false;
  le = λ a b. false;
  ne = λ a b. true;
  gt = λ a b. false;
  lt = λ a b. false;
  neg = λ a. a;
  is_nonzero = λ a. true;
}

abbrev machine : Machine
machine = record { fpu = fpu; union_is_const_eval = λ e. false; union_i_value = λ e. 0 }

abbrev node : Node
node = record { linenumber = 1; data_type = none_type }

abbrev id : String → IdNode
id name = record {
  linenumber = 1;
  data_type = none_type;
  identifier_name = name;
  symbol_table_entry = none;
}

abbrev one : Expr
one =
    Expr.const
      (record { linenumber = 1; data_type = none_type; const1 = integerc 1; const_eval_value = 0 })

abbrev expr_node : ExprNode
expr_node = record {
  linenumber = 1;
  data_type = none_type;
  is_const_eval = false;
  const_eval_value = 0;
}

-- `1 + x`
abbrev sum : Expr
sum = Expr.binary expr_node op_add one (Expr.normal_id (id "x"))

-- `int x, y[1];`
abbrev decl : Decl
decl = record {
  linenumber = 1;
  data_type = none_type;
  kind = variable_decl;
  type_node = id "int";
  ids = DeclId.normal (id "x") ∷ DeclId.array (id "y") (cons one nil) ∷ [];
}

-- `{ int x, y[1]; x = 1 + x; }`
abbrev stmt : Stmt
stmt =
    block_stmt node (record { node = node; decls = decl ∷ [] }) node
      (Stmts.cons (assign_stmt node (Expr.normal_id (id "x")) sum) Stmts.nil)

-- `void f(void) { stmt }`
abbrev f : Function
f = record {
  linenumber = 1;
  data_type = none_type;
  return_type_node = id "void";
  name_node = id "f";
  parameters = [];
  body_decls = record { node = node; decls = [] };
  body_node = node;
  body = Stmts.cons stmt Stmts.nil;
}

abbrev program : List GlobalDecl
program =
    GlobalDecl.decl_list (record { node = node; decls = decl ∷ [] }) ∷ GlobalDecl.function f ∷ []

abbrev returns_value : {A : Type 0} → Option A → Bool
returns_value none = false
returns_value (some a) = true

abbrev any_error : {A : Type 0} → Option (A × State) → Bool
any_error none = true
any_error (some (a, s)) = s.any_error_occur

program_returns : returns_value (process_program_node machine node program initial_state) ≡ true
unfolding process_program_node initialize_symbol_table retrieve_symbol hash declared_locally
    open_scope print_when print_error_msg close_scope
program_returns = refl

program_reports_nothing :
    any_error (process_program_node machine node program initial_state) ≡ false
unfolding process_program_node initialize_symbol_table retrieve_symbol hash declared_locally
    open_scope print_when print_error_msg close_scope
program_reports_nothing = refl

-- The same names are declared twice.
redeclaration_reports :
    any_error (process_program_node machine node (program ++ program) initial_state) ≡ true
unfolding process_program_node initialize_symbol_table retrieve_symbol hash declared_locally
    open_scope print_when print_error_msg close_scope
redeclaration_reports = refl

process_program_node-reports_example :
    Post
      (λ (_ : Node × List GlobalDecl) t.
        IsValid t.table
        × (t.table.current_level ≡ 0)
        × (t.any_error_occur ≡ is_nonempty t.messages))
      (process_program_node machine node program initial_state)
process_program_node-reports_example = Effects.process_program_node-reports machine node program

process_expr_related_node-OnlyMessages_example :
    Post
      (λ (_ : Expr) t. OnlyMessages initial_state t)
      (process_expr_related_node fpu sum initial_state)
process_expr_related_node-OnlyMessages_example =
    Effects.process_expr_related_node-OnlyMessages fpu sum initial_state

process_stmt_node-SameScopes_example :
    Post
      (λ (_ : Stmt) t. SameScopes initial_state t)
      (process_stmt_node machine void_type stmt initial_state)
process_stmt_node-SameScopes_example =
    Effects.process_stmt_node-SameScopes machine void_type stmt initial_state
      initialize_symbol_table-IsValid.0

process_declaration_node-Grows_example :
    Post
      (λ (_ : Decl) t. Grows initial_state t)
      (process_declaration_node machine decl initial_state)
process_declaration_node-Grows_example =
    Growth.process_declaration_node-Grows machine decl initial_state
      initialize_symbol_table-IsValid.0

process_function-Processed_example :
    Post
      (λ (_ : Function) t. Processed "f" initial_state t)
      (process_function machine f initial_state)
process_function-Processed_example =
    Handler.process_function-Processed machine f initial_state initialize_symbol_table-IsValid.0

attempt-WellFormed_example :
    Post
      (λ (a : Attempt) u. IsAttempt a)
      (attempt machine names_variable
        (scalar int_type)
        (DeclId.array (id "y") (cons one nil))
        initial_state)
attempt-WellFormed_example =
    Bounds.attempt-WellFormed machine names_variable (scalar int_type)
      (DeclId.array (id "y") (cons one nil)) initial_state tt

-- An `int` and a `float` variable that have been looked up.
abbrev typed_id : DataType → Expr
typed_id d = Expr.normal_id (record (id "x") { data_type = d })

return_mismatch-Returns_example :
    (return_mismatch int_type (some float_type) ≡ false) ↔ Returns int_type float_type
return_mismatch-Returns_example = Typing.return_mismatch-Returns int_type float_type

-- `1 + int`: a type's name as a variable is an error, and no fault.
abbrev sum_of_type : Expr
sum_of_type = Expr.binary expr_node op_add one (Expr.normal_id (id "int"))

sum-IsDefined : IsDefined initial_state.table sum_of_type
unfolding IsDefined names_no_function initialize_symbol_table retrieve_symbol hash
sum-IsDefined = (λ e. absurd (ground arith), tt, refl)

process_expr_related_node-IsDefined_example :
    is_returned (process_expr_related_node fpu sum_of_type initial_state) ≡ true
process_expr_related_node-IsDefined_example =
    Defined.process_expr_related_node-IsDefined fpu sum_of_type initial_state sum-IsDefined
