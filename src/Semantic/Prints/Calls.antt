-- ===== src/Semantic/Prints/Calls.antt =====
-- What a function call (src/semanticAnalysis.c) prints besides what its actual parameters do.
use ntu_csie_complier.Semantic.Prints.Operands.{
  passing-Prints, print_write-Prints, check_write_count-Prints,
}
use ntu_csie_complier.Prelude.{Option, none, some, List, [], ◌∷◌, str_eq}
use ntu_csie_complier.SymbolTable.Defs.{SymbolTableEntry, retrieve_symbol}
use ntu_csie_complier.Types.{
  DataType, Parameter, FunctionSignature, SymbolAttribute, variable_attribute, type_attribute,
  function_signature,
}
use ntu_csie_complier.Ast.{Exprs, nil, cons}
use ntu_csie_complier.Semantic.State.{State, M}
use ntu_csie_complier.Semantic.Prints.{
  if_pair-Prints, if-PrintsOnly, Prints, quiet, printed, Prints-trans, PrintsOnly, seq,
  if-PrintsOnly,
}
use ntu_csie_complier.Effect.Post.{faults, returns}
use ntu_csie_complier.Semantic.Calls.{
  list_node, any_error, with_entry, matched, too_few, too_many, Call, Arity, check_function_call,
  pass_parameters, check_parameter_passing, check_write_function, check_arity, call_signature,
  call_attribute, call_found, is_error,
}

pub check_write_function-Prints : (c : Call) (s : State) → PrintsOnly s (check_write_function c s)
unfolding check_write_function
check_write_function-Prints c s = check_write_count-Prints _ c (print_write-Prints c.actuals s)

pass_parameters-Prints :
    (ps : List Parameter) (es : Exprs) (s : State) → Prints s (pass_parameters ps es s).state
unfolding pass_parameters check_parameter_passing
pass_parameters-Prints [] nil s = quiet
pass_parameters-Prints (p ∷ ps) nil s = quiet
pass_parameters-Prints [] (cons e es) s = quiet
pass_parameters-Prints (p ∷ ps) (cons e es) s =
    Prints-trans (if_pair-Prints (is_error e) _ _ quiet (passing-Prints p.type _ e s))
      (pass_parameters-Prints ps es _)

check_arity-Prints :
    {s t : State} (c : Call) (d : DataType) (es : Exprs) (n : Arity)
    → Prints s t
    → Prints s (check_arity c d es n t).1
check_arity-Prints c d es matched p = p
check_arity-Prints c d es too_few p = printed _ _ p
check_arity-Prints c d es too_many p = printed _ _ p

module _ (process : M Exprs) (process-Prints : (s : State) → PrintsOnly s (process s)) where
  call_signature-Prints :
      (c : Call) (f : Option FunctionSignature) (s : State)
      → PrintsOnly s (call_signature c process f s)
  call_signature-Prints c none s = faults
  call_signature-Prints c (some f) s = seq process _ s (process-Prints s) (λ es t. returns (
      check_arity-Prints (record c { list = list_node c.list (any_error es) }) _ _ _
        (pass_parameters-Prints f.parameter_list es t)))

  call_attribute-Prints :
      (c : Call) (a : SymbolAttribute) (s : State) → PrintsOnly s (call_attribute c process a s)
  call_attribute-Prints c (variable_attribute t) s = returns (printed _ _ quiet)
  call_attribute-Prints c (type_attribute t) s = returns (printed _ _ quiet)
  call_attribute-Prints c (function_signature k) s = call_signature-Prints c _ s

  call_found-Prints :
      (c : Call) (entry : Option (SymbolTableEntry SymbolAttribute)) (s : State)
      → PrintsOnly s (call_found c process entry s)
  call_found-Prints c none s = returns (printed _ _ quiet)
  call_found-Prints c (some entry) s = call_attribute-Prints c _ s

  pub check_function_call-Prints :
      (c : Call) (s : State) → PrintsOnly s (check_function_call c process s)
  unfolding check_function_call
  check_function_call-Prints c s =
      if-PrintsOnly (str_eq c.function_id_node.identifier_name "write")
        (seq process _ s (process-Prints s) (λ es t.
          check_write_function-Prints
            (record c { list = list_node c.list (any_error es); actuals = es }) t))
        (call_found-Prints
          (with_entry c (retrieve_symbol c.function_id_node.identifier_name s.table)) _ s)
