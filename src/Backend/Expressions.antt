-- ===== src/Backend/Expressions.antt =====
-- The functions of src/codeGen.c for expressions: `genExprNode`, `genConStmt`, `genFunctionCall` and
-- `genExprRelatedNode`.
use ntu_csie_complier.Prelude.{
  ℕ, zero, suc, ◌*◌, Bool, true, false, ◌||◌, none, some, String, str_eq, List, [], ◌∷◌, length,
  if◌then◌else◌,
}
use ntu_csie_complier.Effect.{pure, ◌>>=◌, ◌>>◌, modify}
use ntu_csie_complier.Types.{
  DataType, same_type, BinaryOperator, op_add, op_sub, op_and, op_or, UnaryOperator, ConType,
  integerc, floatc, stringc, TypeDescriptor,
}
use ntu_csie_complier.Types.Descriptor.{get_dimension}
use ntu_csie_complier.Backend.Code.{
  Address, Label, extended, named, Instr, reg_address, plus, sp, v0, f0,
}
use ntu_csie_complier.Backend.State.{Host, save_to}
use ntu_csie_complier.Backend.Registers.{get_reg, clear_reg_record}
use ntu_csie_complier.Backend.Operations.{
  operand, operand_int, operand_unary, load_reg, load_int, load_double, branch, branch2,
}
use ntu_csie_complier.Backend.Loads.{load_address}
use ntu_csie_complier.Backend.Syscalls.{
  gen_syscall, print_int, print_float, print_string, read_int, read_float,
}
use ntu_csie_complier.Backend.Frame.{get_tag, add_string}
use ntu_csie_complier.Backend.Tree.{
  GenNode, Callee, GenExpr, GenExprs, const_value, identifier, binary, unary, call, no_exprs, more,
  get_node_type,
}
use ntu_csie_complier.Backend.Nodes.{
  Code, on_gen, write, set_lock, Options, no_option, force_caller, when, temp_id, temp_node,
}
use ntu_csie_complier.Backend.Elements.{
  of_option, subscript_offset, no_subscript_offset, identifier_address, constant_address,
}

unfoldable pub new_tag : String → Code Label
unfolding get_tag
new_tag prefix s = let (l, ar) = get_tag prefix s.ar in some (l, record s { ar = ar })

-- `ARSystem::addVariable` of a string.
unfoldable pub declare_string : String → Code (Unit {0})
unfolding add_string
declare_string str s =
    let (g, ar) = add_string str s.gen s.ar in some (tt, record s { gen = g; ar = ar })

abbrev pub is_and : BinaryOperator → Bool
is_and op_and = true
is_and _ = false

abbrev pub is_or : BinaryOperator → Bool
is_or op_or = true
is_or _ = false

-- Where the `i`th argument is stored, `Address(sp) + 4*i + 4`.
unfoldable pub argument_slot : ℕ → Address
unfolding plus
argument_slot i = plus (plus (reg_address sp) (4 * i)) 4

abbrev pub with_dimension : TypeDescriptor → (ℕ → Code Bool) → Code Bool
with_dimension t k = of_option (get_dimension t) >>= k

module _ (host : Host) where
  -- `genConStmt`
  unfoldable pub load_constant : ℕ → ConType → Code (Unit {0})
  unfolding load_int load_double load_address declare_string constant_address
  load_constant r (integerc value) = on_gen (modify (load_int host r value))
  load_constant r (floatc value) = on_gen (modify (load_double host r value))
  load_constant r (stringc str) = do
    declare_string str
    a ← constant_address (stringc str)
    on_gen (load_address host r a)

  unfoldable pub gen_con_stmt : GenNode → ConType → Code (Unit {0})
  unfolding temp_node load_constant
  gen_con_stmt n c = do r ← temp_node host n.data_type n.node_id force_caller; load_constant r c

  -- The tests of the left operand of `&&` and `||`.
  unfoldable pub short_circuit : BinaryOperator → Label → Code ℕ → Code (Unit {0})
  unfolding branch branch2
  short_circuit op_and tag left = left >>= λ r. on_gen (branch host r (extended "_False" tag))
  short_circuit op_or tag left = left >>= λ r. on_gen (branch2 host r (extended "_False" tag))
  short_circuit _ tag left = pure tt

  -- The end of the code of `&&` and `||`: the value of the left operand.
  unfoldable pub short_value : Label → Code ℕ → Code ℕ → Code (Unit {0})
  unfolding load_reg
  short_value tag node left = do
    write (Instr.jump (extended "End" tag))
    write (Instr.mark (extended "_False" tag))
    r ← node
    l ← left
    on_gen (load_reg host r l)
    write (Instr.mark (extended "End" tag))

  -- `genExprNode` of a binary operation, given the code and the registers of the operands and of the
  -- node.
  unfoldable pub gen_binary :
      BinaryOperator
      → Code (Unit {0})
      → Code ℕ
      → Code (Unit {0})
      → Code ℕ
      → Code ℕ
      → Code ℕ
      → Code (Unit {0})
  unfolding new_tag short_circuit short_value operand
  gen_binary op gen_left left gen_right right node result = do
    gen_left
    l ← left
    set_lock l true
    tag ← new_tag "LogicalShort"
    short_circuit op tag left
    gen_right
    r ← right
    set_lock r true
    left_reg ← left
    right_reg ← right
    reg ← node
    on_gen (operand host reg op left_reg right_reg)
    when (is_and op || is_or op) (short_value tag node left)
    l' ← left
    set_lock l' false
    r' ← right
    set_lock r' false
    shown ← result
    pure tt

  unfoldable pub gen_unary :
      UnaryOperator → Code (Unit {0}) → Code ℕ → Code ℕ → Code ℕ → Code (Unit {0})
  unfolding operand_unary
  gen_unary op gen_child child node result = do
    gen_child
    reg ← node
    c ← child
    on_gen (operand_unary host reg op c)
    shown ← result
    pure tt

  -- `genWriteFunction` and `genReadFunction`
  abbrev pub write_call : DataType → ℕ → Code (Unit {0})
  write_call DataType.int_type r = on_gen (gen_syscall host print_int r)
  write_call DataType.float_type r = on_gen (gen_syscall host print_float r)
  write_call DataType.const_string_type r = on_gen (gen_syscall host print_string r)
  write_call _ r = pure tt

  abbrev pub read_call : DataType → ℕ → Code (Unit {0})
  read_call DataType.int_type r = on_gen (gen_syscall host read_int r)
  read_call DataType.float_type r = on_gen (gen_syscall host read_float r)
  read_call _ r = pure tt

  -- One round of the loop of `genFunctionCall` over the parameters.
  unfoldable pub pass_argument :
      ℕ → DataType → DataType → Code (Unit {0}) → Code ℕ → Code (Unit {0})
  unfolding save_to argument_slot get_reg load_reg
  pass_argument i formal actual gen_param param =
      let slot = argument_slot i in
      gen_param
      >> (if same_type formal actual then (do r ← param; on_gen (modify (save_to r slot))) else (do
        reg ← on_gen (get_reg host formal true)
        r ← param
        on_gen (load_reg host reg r)
        on_gen (modify (save_to reg slot))))

  -- The call of a function that the program defines.
  unfoldable pub gen_call : GenNode → Callee → Code (Unit {0}) → Code (Unit {0})
  unfolding operand_int temp_node load_reg clear_reg_record
  gen_call n f pass_arguments = do
    on_gen (operand_int host sp op_sub sp (4 * length f.parameter_types))
    pass_arguments
    write (Instr.jal (named f.function_name))
    on_gen (modify clear_reg_record)
    on_gen (operand_int host sp op_add sp (4 * length f.parameter_types))
    reg ← temp_node host n.data_type n.node_id no_option
    on_gen (load_reg host reg (if f.returns_int then v0 else f0))

  abbrev pub is_read : String → Bool
  is_read name = str_eq name "read" || str_eq name "fread"

  unfoldable pub gen_read : GenNode → Code (Unit {0})
  unfolding temp_node gen_syscall
  gen_read n = do reg ← temp_node host n.data_type n.node_id no_option; read_call n.data_type reg

  unfoldable mutual
    -- `genGeneralNode` and `genExprRelatedNode` of an expression.
    unfolding temp_id temp_node identifier_address subscript_offset no_subscript_offset gen_binary
        gen_unary gen_con_stmt gen_call gen_read pass_argument

    pub gen_expr : GenExpr → Code (Unit {0})
    gen_expr (const_value n c) = gen_con_stmt n c
    gen_expr (identifier i es) =
        temp_id host (get_node_type (identifier i es)) i.node.node_id
          (identifier_address host i.node.node_id i.variable i.is_declared i.is_array_id (λ offset.
            with_dimension i.variable.type (λ n. gen_subscripts i.variable.type 0 n offset es)))
          no_option
        >>= λ r. pure tt
    gen_expr (binary n op l r) =
        gen_binary op (gen_expr l) (temp_reg l no_option) (gen_expr r) (temp_reg r no_option)
          (temp_node host (get_node_type (binary n op l r)) n.node_id force_caller)
          (temp_node host (get_node_type (binary n op l r)) n.node_id no_option)
    gen_expr (unary n op e) =
        gen_unary op (gen_expr e) (temp_reg e no_option)
          (temp_node host n.data_type n.node_id force_caller)
          (temp_node host n.data_type n.node_id no_option)
    gen_expr (call n f es) =
        if str_eq f.function_name "write"
        then gen_write es
        else if is_read f.function_name
        then gen_read n
        else gen_call n f (pass_arguments 0 f.parameter_types es)

    -- `getTempReg`
    pub temp_reg : GenExpr → Options → Code ℕ
    temp_reg (const_value n c) o = temp_node host n.data_type n.node_id o
    temp_reg (identifier i es) o =
        temp_id host (get_node_type (identifier i es)) i.node.node_id
          (identifier_address host i.node.node_id i.variable i.is_declared i.is_array_id (λ offset.
            with_dimension i.variable.type (λ n. gen_subscripts i.variable.type 0 n offset es)))
          o
    temp_reg (binary n op l r) o = temp_node host (get_node_type (binary n op l r)) n.node_id o
    temp_reg (unary n op e) o = temp_node host n.data_type n.node_id o
    temp_reg (call n f es) o = temp_node host n.data_type n.node_id o

    -- The code of the offset of an element; the result says whether there is a subscript for each
    -- dimension.
    pub gen_subscripts : TypeDescriptor → ℕ → ℕ → ℕ → GenExprs → Code Bool
    gen_subscripts t i zero offset es = pure true
    gen_subscripts t i (suc n) offset no_exprs =
        no_subscript_offset host t i (suc n) offset >> pure false
    gen_subscripts t i (suc n) offset (more e es) =
        subscript_offset host t i offset (gen_expr e) (temp_reg e no_option)
        >> gen_subscripts t (suc i) n offset es

    pub gen_write : GenExprs → Code (Unit {0})
    gen_write no_exprs = of_option none
    gen_write (more e es) =
        gen_expr e >> temp_reg e no_option >>= λ r. write_call (get_node_type e) r

    pub pass_arguments : ℕ → List DataType → GenExprs → Code (Unit {0})
    pass_arguments i [] es = pure tt
    pass_arguments i (t ∷ ts) no_exprs = of_option none
    pass_arguments i (t ∷ ts) (more e es) =
        pass_argument i t (get_node_type e) (gen_expr e) (temp_reg e no_option)
        >> pass_arguments (suc i) ts es
