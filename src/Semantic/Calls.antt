-- ===== src/Semantic/Calls.antt =====
-- Function calls of src/semanticAnalysis.c, given the action that processes the actual parameters.
use ntu_csie_complier.Prelude.{
  ℕ, zero, suc, Bool, true, false, not, ◌&&◌, ◌||◌, Option, none, some, List, [], ◌∷◌, str_eq,
  if◌then◌else◌, get_elem?,
}
use ntu_csie_complier.SymbolTable.Defs.{SymbolTableEntry, retrieve_symbol}
use ntu_csie_complier.Types.{
  DataType, int_type, float_type, void_type, const_string_type, error_type, TypeDescriptor, scalar,
  array, Parameter, FunctionSignature, SymbolAttribute, function_signature, same_type, is_ptr,
}
use ntu_csie_complier.Ast.{
  Node, IdNode, Expr, binary, unary, call, normal_id, array_id, const, Exprs, nil, cons,
  data_type_of, line_of,
}
use ntu_csie_complier.Semantic.State.{
  State, M, ◌>>=◌, print_error_msg, print_when, parameter_type_unmatch, too_few_arguments,
  too_many_arguments, symbol_undeclared, not_function_name, pass_array_to_scalar,
  pass_scalar_to_array,
}

abbrev pub set_data_type : DataType → Expr → Expr
set_data_type d (binary n op l r) = binary (record n { data_type = d }) op l r
set_data_type d (unary n op e) = unary (record n { data_type = d }) op e
set_data_type d (call n f p es) = call (record n { data_type = d }) f p es
set_data_type d (normal_id i) = normal_id (record i { data_type = d })
set_data_type d (array_id i ds) = array_id (record i { data_type = d }) ds
set_data_type d (const c) = const (record c { data_type = d })

abbrev pub is_error : Expr → Bool
is_error e = same_type (data_type_of e) error_type

abbrev pub any_error : Exprs → Bool
any_error nil = false
any_error (cons e es) = is_error e || any_error es

abbrev pub count_exprs : Exprs → ℕ
count_exprs nil = 0
count_exprs (cons e es) = suc (count_exprs es)

-- `processGeneralNode` of a list: the list's node gets the error of a child.
abbrev pub list_node : Node → Bool → Node
list_node p test = if test then record p { data_type = error_type } else p

-- A call with its nodes.
pub record Call : Type 0 where
  pub node : Node
  pub function_id_node : IdNode
  pub list : Node
  pub actuals : Exprs

abbrev pub call_expr : Call → Expr
call_expr c = call c.node c.function_id_node c.list c.actuals

unfoldable pub is_writable : DataType → Bool
is_writable d = same_type d int_type || (same_type d float_type || same_type d const_string_type)

-- The loop of `checkWriteFunction`: its messages, ...
unfoldable pub print_write : Exprs → State → State
unfolding is_writable
print_write nil s = s
print_write (cons e es) s = print_write es (
    print_when (not (is_error e) && not (is_writable (data_type_of e))) (line_of e)
      parameter_type_unmatch s)

abbrev pub check_write_count : ℕ → Call → M Call
check_write_count zero c s = some (
  record c { node = record (c.node) { data_type = error_type } },
  print_error_msg c.function_id_node.linenumber too_few_arguments s,
)
check_write_count (suc zero) c s =
    some (record c { node = record (c.node) { data_type = void_type } }, s)
check_write_count (suc (suc k)) c s = some (
  record c { node = record (c.node) { data_type = error_type } },
  print_error_msg c.function_id_node.linenumber too_many_arguments s,
)

-- ... and what it and the count behind it make of the call's data type: the loop's errors do not
-- outlive a count of one.
unfoldable pub check_write_function : Call → M Call
unfolding print_write
check_write_function c s = check_write_count (count_exprs c.actuals) c (print_write c.actuals s)

-- What is left when one of two lists ends: the formals, the actuals or neither.
pub data Arity : Type 0 where
  matched too_few too_many : Arity

abbrev pub passing : TypeDescriptor → Bool → Expr → State → Expr × State
passing (scalar d) true e s =
    (set_data_type error_type e, print_error_msg (line_of e) pass_array_to_scalar s)
passing (array p) false e s =
    (set_data_type error_type e, print_error_msg (line_of e) pass_scalar_to_array s)
passing _ _ e s =
    if same_type (data_type_of e) const_string_type
    then (set_data_type error_type e, print_error_msg (line_of e) parameter_type_unmatch s)
    else (e, s)

unfoldable pub check_parameter_passing : Parameter → Expr → State → Expr × State
check_parameter_passing formal actual s =
    passing formal.type (is_ptr (data_type_of actual)) actual s

pub record Passed : Type 0 where
  pub actuals : Exprs
  pub error : Bool
  pub arity : Arity
  pub state : State

-- The loop of `checkFunctionCall` over actual and formal parameters.
unfoldable pub pass_parameters : List Parameter → Exprs → State → Passed
unfolding check_parameter_passing
pass_parameters [] nil s = record { actuals = nil; error = false; arity = matched; state = s }
pass_parameters (p ∷ ps) nil s = record { actuals = nil; error = false; arity = too_few; state = s }
pass_parameters [] (cons e es) s = record {
  actuals = cons e es;
  error = false;
  arity = too_many;
  state = s;
}
pass_parameters (p ∷ ps) (cons e es) s =
    let (e', s') = if is_error e then (e, s) else check_parameter_passing p e s in
    let rest = pass_parameters ps es s' in
    record rest { actuals = cons e' rest.actuals; error = is_error e' || rest.error }

abbrev pub typed_call : Call → DataType → Exprs → Call
typed_call c d es = record c { node = record (c.node) { data_type = d }; actuals = es }

-- The end of `checkFunctionCall`: a count that matches gives the call the return type, also after
-- an error in a parameter.
abbrev pub check_arity : Call → DataType → Exprs → Arity → State → Call × State
check_arity c return_type es matched s = (typed_call c return_type es, s)
check_arity c return_type es too_few s =
    (typed_call c error_type es, print_error_msg c.function_id_node.linenumber too_few_arguments s)
check_arity c return_type es too_many s =
    (typed_call c error_type es, print_error_msg c.function_id_node.linenumber too_many_arguments s)

-- Behind the symbol's lookup: both the call and the name get the error.
abbrev pub failed_call : Call → DataType → Call
failed_call c d = record c {
  node = record (c.node) { data_type = d };
  function_id_node = record (c.function_id_node) { data_type = d };
}

abbrev pub call_signature : Call → M Exprs → Option FunctionSignature → M Call
call_signature c process none s = none
call_signature c process (some signature) s =
    (do
      actuals ← process
      λ s1.
          let r = pass_parameters signature.parameter_list actuals s1 in
          let c' = record c { list = list_node c.list (any_error actuals) } in
          some (check_arity c' signature.return_type r.actuals r.arity r.state))
      s

abbrev pub call_attribute : Call → M Exprs → SymbolAttribute → M Call
call_attribute c process (function_signature k) s =
    call_signature c process (get_elem? s.signatures k) s
call_attribute c process _ s =
    some
      (failed_call c error_type, print_error_msg c.function_id_node.linenumber not_function_name s)

abbrev pub call_found : Call → M Exprs → Option (SymbolTableEntry SymbolAttribute) → M Call
call_found c process none s =
    some
      (failed_call c error_type, print_error_msg c.function_id_node.linenumber symbol_undeclared s)
call_found c process (some entry) s = call_attribute c process entry.binding.attribute s

abbrev pub with_entry : Call → Option (SymbolTableEntry SymbolAttribute) → Call
with_entry c entry = record c {
  function_id_node = record (c.function_id_node) { symbol_table_entry = entry };
}

-- `checkFunctionCall`, where `process` is `processGeneralNode` of the actual parameters.
unfoldable pub check_function_call : Call → M Exprs → M Call
unfolding check_write_function pass_parameters
check_function_call c process s =
    if str_eq c.function_id_node.identifier_name "write"
    then (do
      actuals ← process
      check_write_function
          (record c { list = list_node c.list (any_error actuals); actuals = actuals }))
        s
    else let entry = retrieve_symbol c.function_id_node.identifier_name s.table in
      call_found (with_entry c entry) process entry s
