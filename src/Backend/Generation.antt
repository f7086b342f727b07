-- ===== src/Backend/Generation.antt =====
-- `genVariable`, `genDeclareNode`, `genStmtNode`, `genGeneralNode` and `codeGen` of src/codeGen.c.
use ntu_csie_complier.Prelude.{
  ℕ, Bool, true, false, none, some, String, List, [], ◌∷◌, ◌==◌, if◌then◌else◌, Option,
}
use ntu_csie_complier.Effect.{pure, ◌>>=◌, ◌>>◌, modify}
use ntu_csie_complier.Types.{DataType}
use ntu_csie_complier.Types.Descriptor.{get_data_type, size}
use ntu_csie_complier.Backend.Code.{Label, prefixed, Instr, Address}
use ntu_csie_complier.Backend.State.{Host, save_to, set_target_node, GenState}
use ntu_csie_complier.Backend.Registers.{initial_gen_state}
use ntu_csie_complier.Backend.Operations.{load_reg}
use ntu_csie_complier.Backend.Frame.{
  ArSystem, Variable, add_variable, global_init_routine, prologue, epilogue, initial_ar_system,
}
use ntu_csie_complier.Backend.Tree.{GenNode, GenId, GenExpr, no_exprs, identifier}
use ntu_csie_complier.Backend.Body.{
  Declarator, normal_id, array_id, with_init_id, GenDecl, variable_decl, type_decl,
  function_parameter_decl, GenStmt, nul, expr, declaration, block, node_list, assign_stmt,
  return_stmt, if_stmt, while_stmt, for_stmt, GenStmts, no_stmts, more_stmts, GenGlobal,
  global_stmt, function_decl,
}
use ntu_csie_complier.Backend.Nodes.{
  Coder, Code, on_gen, write, no_option, disable_load, set_node_reg, temp_node,
}
use ntu_csie_complier.Backend.Elements.{declared_address}
use ntu_csie_complier.Backend.Expressions.{new_tag, gen_expr, temp_reg}
use ntu_csie_complier.Backend.Statements.{
  gen_assign_stmt, gen_return_stmt, gen_if_stmt, gen_while_stmt, gen_for_stmt,
}

abbrev pub declared_id : Declarator → GenId
declared_id (normal_id i) = i
declared_id (array_id i) = i
declared_id (with_init_id i e) = i

-- `ar.addVariable` and `ar.globalInitRoutine`
unfoldable pub declare : Variable → Bool → Code (Unit {0})
unfolding add_variable
declare v is_param s = some (tt, record s { ar = add_variable v is_param s.ar })

unfoldable pub add_routine : Label → Label → Code (Unit {0})
unfolding global_init_routine
add_routine start end s = some (tt, record s { ar = global_init_routine start end s.ar })

-- The name of a global variable in `output.s`.
abbrev pub global_label : GenId → Label
global_label i = prefixed "_" i.variable.name

-- The line of a global variable of one of these types, with the value zero.
abbrev pub scalar_data : DataType → Label → Code (Unit {0})
scalar_data DataType.int_type l = write (Instr.word l 0)
scalar_data DataType.float_type l = write (Instr.float l 0)
scalar_data _ l = pure tt

-- The state behind `prologue` or `epilogue`.
abbrev pub opened : Coder → Option (ArSystem × GenState) → Option (Unit {0} × Coder)
opened s none = none
opened s (some (a, g)) = some (tt, record s { ar = a; gen = g })

-- The state that the compiler starts in.
unfoldable pub initial_coder : Coder
unfolding initial_gen_state initial_ar_system
initial_coder = record {
  gen = initial_gen_state;
  ar = initial_ar_system;
  node_reg = λ n. none;
  arr_variable = λ n. none;
}

module _ (host : Host) where
  -- `getTempReg(RegDisableload)` of a declared identifier.
  abbrev declared_reg : GenId → Code ℕ
  declared_reg i = temp_reg host (identifier i no_exprs) disable_load

  -- The routine that computes the initial value of a global variable.
  unfoldable pub gen_init_routine : Address → GenExpr → Code (Unit {0})
  unfolding new_tag gen_expr save_to add_routine
  gen_init_routine a e = do
    write Instr.text
    start ← new_tag "_InlineSubRoutine_Start"
    end ← new_tag "_InlineSubRoutine_End"
    write (Instr.mark start)
    gen_expr host e
    r ← temp_reg host e no_option
    on_gen (modify (save_to r a))
    write (Instr.jump end)
    add_routine start end

  unfoldable pub gen_global_variable : Declarator → Address → Code (Unit {0})
  unfolding gen_init_routine size
  gen_global_variable (normal_id i) a =
      write Instr.data_segment >> scalar_data (get_data_type i.variable.type) (global_label i)
  gen_global_variable (array_id i) a =
      write Instr.data_segment >> write (Instr.space (global_label i) (size i.variable.type))
  gen_global_variable (with_init_id i e) a = do
    write Instr.data_segment
    scalar_data (get_data_type i.variable.type) (global_label i)
    gen_init_routine a e

  unfoldable pub gen_local_variable : Declarator → Code (Unit {0})
  unfolding gen_expr load_reg
  gen_local_variable (normal_id i) = pure tt
  gen_local_variable (array_id i) = pure tt
  gen_local_variable (with_init_id i e) = do
    gen_expr host e
    reg ← declared_reg i
    r ← temp_reg host e no_option
    on_gen (load_reg host reg r)

  unfoldable pub gen_variable : Bool → Declarator → Code (Unit {0})
  unfolding declare gen_global_variable gen_local_variable declared_address
  gen_variable is_param d =
      declare (declared_id d).variable is_param
      >> (if (declared_id d).variable.nesting_level == 0
          then (do a ← declared_address (declared_id d).variable; gen_global_variable d a)
          else gen_local_variable d)

  unfoldable pub gen_variables : Bool → List Declarator → Code (Unit {0})
  unfolding gen_variable
  gen_variables is_param [] = pure tt
  gen_variables is_param (d ∷ ds) = gen_variable is_param d >> gen_variables is_param ds

  -- `genDeclareNode` of a declaration other than that of a function.
  unfoldable pub gen_declare : GenDecl → Code (Unit {0})
  unfolding gen_variables
  gen_declare (variable_decl ds) = gen_variables false ds
  gen_declare (function_parameter_decl ds) = gen_variables true ds
  gen_declare type_decl = pure tt

  -- `getTempReg` of a node that may be a statement.
  unfoldable pub stmt_reg : GenStmt → Code ℕ
  unfolding temp_node gen_expr
  stmt_reg (nul n) = temp_node host n.data_type n.node_id no_option
  stmt_reg (expr e) = temp_reg host e no_option
  stmt_reg (declaration n d) = temp_node host n.data_type n.node_id no_option
  stmt_reg (block n b) = temp_node host n.data_type n.node_id no_option
  stmt_reg (node_list n b) = temp_node host n.data_type n.node_id no_option
  stmt_reg (assign_stmt n l r) = temp_node host n.data_type n.node_id no_option
  stmt_reg (return_stmt n b e) = temp_node host n.data_type n.node_id no_option
  stmt_reg (if_stmt n c b e) = temp_node host n.data_type n.node_id no_option
  stmt_reg (while_stmt n c b) = temp_node host n.data_type n.node_id no_option
  stmt_reg (for_stmt n i c p b) = temp_node host n.data_type n.node_id no_option

  -- `setRegister` of a list of nodes, with the register of the first one.
  unfoldable pub take_register : GenNode → Code ℕ → Code (Unit {0})
  unfolding set_node_reg set_target_node
  take_register n first = do
    r ← first
    set_node_reg n.node_id r
    on_gen (modify (set_target_node r n.node_id))

  unfoldable pub list_register : GenNode → GenStmts → Code (Unit {0})
  unfolding take_register stmt_reg
  list_register n no_stmts = pure tt
  list_register n (more_stmts s ss) = take_register n (stmt_reg s)

  unfoldable mutual
    -- `genGeneralNode` and `genStmtNode`
    unfolding gen_expr gen_declare list_register gen_assign_stmt gen_return_stmt gen_if_stmt
        gen_while_stmt gen_for_stmt stmt_reg

    pub gen_stmt : GenStmt → Code (Unit {0})
    gen_stmt (nul n) = pure tt
    gen_stmt (expr e) = gen_expr host e
    gen_stmt (declaration n d) = gen_declare d
    gen_stmt (block n ss) = gen_stmts ss
    gen_stmt (node_list n ss) = gen_stmts ss >> list_register n ss
    gen_stmt (assign_stmt n l r) = gen_assign_stmt host l r
    gen_stmt (return_stmt n returns_int e) =
        gen_return_stmt host returns_int (gen_stmt e) (stmt_reg e)
    gen_stmt (if_stmt n c b e) =
        gen_if_stmt host (gen_stmt c) (stmt_reg c) (gen_stmt b) (gen_stmt e)
    gen_stmt (while_stmt n c b) = gen_while_stmt (gen_stmt c) (stmt_reg c) (gen_stmt b)
    gen_stmt (for_stmt n i c p b) =
        gen_for_stmt host (gen_stmt i) (gen_stmt c) (stmt_reg c) (gen_stmt p) (gen_stmt b)

    -- `genGeneralNodeWithSibling`
    pub gen_stmts : GenStmts → Code (Unit {0})
    gen_stmts no_stmts = pure tt
    gen_stmts (more_stmts s ss) = gen_stmt s >> gen_stmts ss

  unfoldable pub gen_params : List GenDecl → Code (Unit {0})
  unfolding gen_declare
  gen_params [] = pure tt
  gen_params (d ∷ ds) = gen_declare d >> gen_params ds

  unfoldable pub open_function : String → Code (Unit {0})
  unfolding prologue
  open_function name s = opened s (prologue host name s.ar s.gen)

  unfoldable pub close_function : Code (Unit {0})
  unfolding epilogue
  close_function s = opened s (epilogue host s.ar s.gen)

  -- The body of a function: the declarations of its parameters and its block.
  unfoldable pub gen_function_body : List GenDecl → GenStmt → Code (Unit {0})
  unfolding gen_params gen_stmt
  gen_function_body params b = gen_params params >> gen_stmt b

  -- `genDeclareNode` of a function.
  unfoldable pub gen_function : String → List GenDecl → GenStmt → Code (Unit {0})
  unfolding open_function gen_function_body close_function
  gen_function name params b = do open_function name; gen_function_body params b; close_function

  unfoldable pub gen_global : GenGlobal → Code (Unit {0})
  unfolding gen_stmt gen_function
  gen_global (global_stmt s) = gen_stmt s
  gen_global (function_decl name params b) = gen_function name params b

  unfoldable pub gen_globals : List GenGlobal → Code (Unit {0})
  unfolding gen_global
  gen_globals [] = pure tt
  gen_globals (g ∷ gs) = gen_global g >> gen_globals gs

  -- `codeGen` of a program.
  unfoldable pub code_gen : List GenGlobal → Option (Unit {0} × Coder)
  unfolding gen_globals initial_coder
  code_gen program = gen_globals program initial_coder
