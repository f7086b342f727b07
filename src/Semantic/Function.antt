-- ===== src/Semantic/Function.antt =====
-- `declareFunction` and `processProgramNode` of src/semanticAnalysis.c.
use ntu_csie_complier.Prelude.{
  ℕ, Bool, true, false, not, ◌&&◌, ◌||◌, Option, none, some, List, [], ◌∷◌, ◌++◌, if◌then◌else◌,
  set, get_elem?, length,
}
use ntu_csie_complier.SymbolTable.Defs.{declared_locally, enter_symbol, remove_symbol}
use ntu_csie_complier.Types.{
  DataType, error_type, Parameter, FunctionSignature, function_signature, same_type, TypeDescriptor,
}
use ntu_csie_complier.Ast.{Node, IdNode, DeclId, Decl, Function, GlobalDecl, decl_list, function}
use ntu_csie_complier.Semantic.State.{
  State, M, pure, ◌>>=◌, ◌>>◌, modify, print_when, return_array, symbol_redeclare,
}
use ntu_csie_complier.Semantic.Calls.{list_node}
use ntu_csie_complier.Semantic.Variables.{typed_id, with_entry}
use ntu_csie_complier.Semantic.Dims.{Machine, process_type_node, entry_descriptor, is_array}
use ntu_csie_complier.Semantic.Declare.{process_declaration_node, id_of}
use ntu_csie_complier.Semantic.Stmt.{
  enter_block, leave_block, any_stmt_error, process_decl_list, process_stmts,
}

abbrev pub signature_at : ℕ → List FunctionSignature → Option FunctionSignature
signature_at k signatures = get_elem? signatures k

-- The parameter that a parameter's declaration stands for: its first name, and that name's type.
abbrev pub named_parameter : IdNode → Option TypeDescriptor → Option Parameter
named_parameter i none = none
named_parameter i (some t) = some (record { type = t; parameter_name = i.identifier_name })

abbrev pub parameter_of : List DeclId → Option Parameter
parameter_of [] = none
parameter_of (x ∷ xs) = named_parameter (id_of x) (entry_descriptor (id_of x).symbol_table_entry)

-- `parameterListTail->next = parameter`.
abbrev pub append_parameter : ℕ → Option Parameter → Option FunctionSignature → M (Unit {0})
append_parameter k none f s = none
append_parameter k (some p) none s = none
append_parameter k (some p) (some f) s = some (
  tt,
  record s {
    signatures = set s.signatures k (record f { parameter_list = f.parameter_list ++ p ∷ [] });
  },
)

abbrev pub set_count : ℕ → ℕ → Option FunctionSignature → State → State
set_count k n none s = s
set_count k n (some f) s = record s {
  signatures = set s.signatures k (record f { parameters_count = n });
}

-- The errors of the head: an array as the return type, and a name that is taken.
unfoldable pub check_head : Bool → Bool → Function → State → Function × State
check_head returns_array taken f s =
    let f1 =
      if returns_array
      then record f { return_type_node = typed_id f.return_type_node error_type }
      else f in
    let s1 = print_when returns_array f.return_type_node.linenumber return_array s in
    (
      if taken then record f1 { name_node = typed_id f1.name_node error_type } else f1,
      print_when taken f.name_node.linenumber symbol_redeclare s1,
    )

-- `malloc` of a signature, and `enterSymbol` of the function's name unless there was an error.
unfoldable pub enter_function : Bool → Function → State → Function × State
enter_function error f s =
    let k = length s.signatures in
    let s1 = record s {
      signatures =
          s.signatures
          ++ record {
            parameters_count = 0;
            parameter_list = [];
            return_type = f.return_type_node.data_type;
          }
            ∷ [];
    } in
    if error
    then (f, s1)
    else let (entry, table) =
        enter_symbol f.name_node.identifier_name (function_signature k) s1.table in
      (record f { name_node = with_entry f.name_node entry }, record s1 { table = table })

-- `closeScope` is behind it. A name that was entered is removed after an error.
unfoldable pub finish_function : Bool → Bool → Function → State → Function × State
finish_function entered error f s =
    if error && entered
    then (
      record f { data_type = error_type },
      record s { table = remove_symbol f.name_node.identifier_name s.table },
    )
    else (f, s)

abbrev pub global_data_type : GlobalDecl → DataType
global_data_type (decl_list l) = l.node.data_type
global_data_type (function f) = f.data_type

abbrev pub any_global_error : List GlobalDecl → Bool
any_global_error [] = false
any_global_error (g ∷ gs) = same_type (global_data_type g) error_type || any_global_error gs

module _ (m : Machine) where
  -- One parameter: `error` is `errorOccur` before and after.
  unfoldable pub declare_parameter : ℕ → Bool → Decl → M (Decl × Bool)
  unfolding process_declaration_node
  declare_parameter k error d = do
    d' ← process_declaration_node m d
    if same_type d'.data_type error_type
        then pure (d', true)
        else if error
        then pure (d', true)
        else λ s.
            (do
              append_parameter k (parameter_of d'.ids) (signature_at k s.signatures)
              pure (d', false))
              s

  -- Both loops of `declareFunction` over the parameters.
  unfoldable pub declare_parameters : ℕ → Bool → List Decl → M (List Decl × Bool)
  unfolding declare_parameter
  declare_parameters k error [] = pure ([], error)
  declare_parameters k error (d ∷ ds) = do
    (d', error') ← declare_parameter k error d
    (ds', error'') ← declare_parameters k error' ds
    pure (d' ∷ ds', error'')

  -- The body, if the head is in order. It shares the scope of the parameters.
  unfoldable pub process_body : Bool → Function → M Function
  unfolding process_decl_list process_stmts
  process_body true f = pure f
  process_body false f = do
    ds ← process_decl_list m f.body_decls
    ss ← process_stmts m f.return_type_node.data_type f.body
    pure (record f {
      body_decls = ds;
      body_node = list_node f.body_node (any_stmt_error ss);
      body = ss;
    })

  abbrev pub with_head : Function → Option TypeDescriptor → M Function
  with_head f none s = none
  with_head f (some t) s =
      let taken = declared_locally f.name_node.identifier_name s.table in
      let head_error = is_array t || taken in
      let k = length s.signatures in
      let (f1, s1) = check_head (is_array t) taken f s in
      let (f2, s2) = enter_function head_error f1 s1 in
      (do
        modify enter_block
        (params, error) ← declare_parameters k head_error f2.parameters
        modify (λ s3. set_count k (length params) (signature_at k s3.signatures) s3)
        f3 ← process_body error (record f2 { parameters = params })
        leave_block
        λ s4. some (finish_function (not head_error) error f3 s4))
        s2

  -- `processDeclarationNode` of a function, with `declareFunction`.
  unfoldable pub process_function : Function → M Function
  unfolding process_type_node declare_parameters process_body check_head enter_function
      finish_function enter_block leave_block
  process_function f = do
    i ← process_type_node f.return_type_node
    if same_type i.data_type error_type
        then pure (record f { return_type_node = i; data_type = error_type })
        else with_head (record f { return_type_node = i }) (entry_descriptor i.symbol_table_entry)

  unfoldable pub process_global : GlobalDecl → M GlobalDecl
  unfolding process_function process_decl_list
  process_global (decl_list l) = do l' ← process_decl_list m l; pure (decl_list l')
  process_global (function f) = do f' ← process_function f; pure (function f')

  unfoldable pub process_globals : List GlobalDecl → M (List GlobalDecl)
  unfolding process_global
  process_globals [] = pure []
  process_globals (g ∷ gs) = do g' ← process_global g; gs' ← process_globals gs; pure (g' ∷ gs')

  -- `processProgramNode`, on the program's node and its declarations.
  unfoldable pub process_program_node : Node → List GlobalDecl → M (Node × List GlobalDecl)
  unfolding process_globals
  process_program_node n gs = do
    gs' ← process_globals gs
    pure (list_node n (any_global_error gs'), gs')
