-- ===== src/Backend/Tags/Expressions.antt =====
-- The labels in the code of an expression (`genExprRelatedNode` and `genFunctionCall` of src/codeGen.c).
use ntu_csie_complier.Prelude.{
  ℕ, zero, suc, ◌*◌, true, false, none, str_eq, List, [], ◌∷◌, length, if◌then◌else◌, ◌≡◌,
}
use ntu_csie_complier.Effect.{modify}
use ntu_csie_complier.Types.{
  DataType, same_type, BinaryOperator, op_add, op_sub, UnaryOperator, TypeDescriptor,
}
use ntu_csie_complier.Types.Descriptor.{get_dimension}
use ntu_csie_complier.Backend.Spelling.{number_of}
use ntu_csie_complier.Backend.Code.{Label, named, Instr, sp, v0, f0, Address}
use ntu_csie_complier.Backend.State.{Host, save_to}
use ntu_csie_complier.Backend.Operations.{operand_int}
use ntu_csie_complier.Backend.Syscalls.{
  gen_syscall, SystemCallCode, print_int, print_float, print_string, read_int, read_float,
}
use ntu_csie_complier.Backend.Quiet.Steps.{save_to-Quiet, clear_reg_record-Quiet}
use ntu_csie_complier.Backend.Quiet.Loads.{gen_syscall-Silent}
use ntu_csie_complier.Backend.Quiet.Operations.{operand_int-Silent, operand_unary-Silent}
use ntu_csie_complier.Backend.Tree.{
  GenNode, Callee, GenExpr, GenExprs, const_value, identifier, binary, unary, call, no_exprs, more,
  get_node_type,
}
use ntu_csie_complier.Backend.Nodes.{Code, on_gen, Options, no_option, force_caller}
use ntu_csie_complier.Backend.Expressions.{
  gen_unary, write_call, read_call, pass_argument, gen_call, is_read, gen_read, argument_slot,
  gen_expr, temp_reg, gen_subscripts, gen_write, pass_arguments,
}
use ntu_csie_complier.Backend.Tags.{Balanced, ◌▸◌, on_gen-Balanced, write-Balanced}
use ntu_csie_complier.Backend.Tags.Nodes.{
  pure-Balanced, modify-Balanced, choice-Balanced, get_reg-Balanced, temp_node-Balanced,
  temp_id-Balanced,
}
use ntu_csie_complier.Backend.Tags.Addresses.{
  of_option-Balanced, load_reg-Balanced, subscript_offset-Balanced, no_subscript_offset-Balanced,
  identifier_address-Balanced,
}
use ntu_csie_complier.Backend.Tags.Constants.{gen_con_stmt-Balanced}
use ntu_csie_complier.Backend.Tags.Binary.{gen_binary-Balanced}

module _ (l : Label) (i : ℕ) (host : Host) (e : number_of l ≡ i) where
  syscall-Balanced : (c : SystemCallCode) (r : ℕ) → Balanced l i 0 0 (on_gen (gen_syscall host c r))
  syscall-Balanced c r = on_gen-Balanced l i _ (gen_syscall-Silent l host c r)

  write_call-Balanced : (t : DataType) (r : ℕ) → Balanced l i 0 0 (write_call host t r)
  write_call-Balanced DataType.int_type r = syscall-Balanced print_int r
  write_call-Balanced DataType.float_type r = syscall-Balanced print_float r
  write_call-Balanced DataType.const_string_type r = syscall-Balanced print_string r
  write_call-Balanced DataType.int_ptr_type r = pure-Balanced l i tt
  write_call-Balanced DataType.float_ptr_type r = pure-Balanced l i tt
  write_call-Balanced DataType.void_type r = pure-Balanced l i tt
  write_call-Balanced DataType.none_type r = pure-Balanced l i tt
  write_call-Balanced DataType.error_type r = pure-Balanced l i tt

  read_call-Balanced : (t : DataType) (r : ℕ) → Balanced l i 0 0 (read_call host t r)
  read_call-Balanced DataType.int_type r = syscall-Balanced read_int r
  read_call-Balanced DataType.float_type r = syscall-Balanced read_float r
  read_call-Balanced DataType.const_string_type r = pure-Balanced l i tt
  read_call-Balanced DataType.int_ptr_type r = pure-Balanced l i tt
  read_call-Balanced DataType.float_ptr_type r = pure-Balanced l i tt
  read_call-Balanced DataType.void_type r = pure-Balanced l i tt
  read_call-Balanced DataType.none_type r = pure-Balanced l i tt
  read_call-Balanced DataType.error_type r = pure-Balanced l i tt

  gen_unary-Balanced :
      (op : UnaryOperator) (gen_child : Code (Unit {0})) (child node result : Code ℕ)
      → Balanced l i 0 0 gen_child
      → Balanced l i 0 0 child
      → Balanced l i 0 0 node
      → Balanced l i 0 0 result
      → Balanced l i 0 0 (gen_unary host op gen_child child node result)
  unfolding gen_unary
  gen_unary-Balanced op gen_child child node result hg hc hn hr = hg ▸ λ _. hn ▸ λ reg. hc ▸ λ c.
      on_gen-Balanced l i _ (operand_unary-Silent l host reg op c) ▸ λ _.
      hr ▸ λ _. pure-Balanced l i tt

  save_to-Balanced : (r : ℕ) (a : Address) → Balanced l i 0 0 (on_gen (modify (save_to r a)))
  save_to-Balanced r a = modify-Balanced l i _ (save_to-Quiet l r a)

  pass_argument-Balanced :
      (k : ℕ) (formal actual : DataType) (gen_param : Code (Unit {0})) (param : Code ℕ)
      → Balanced l i 0 0 gen_param
      → Balanced l i 0 0 param
      → Balanced l i 0 0 (pass_argument host k formal actual gen_param param)
  unfolding pass_argument
  pass_argument-Balanced k formal actual gen_param param h h' =
      let slot = argument_slot k in
      h ▸ λ _.
      choice-Balanced l i (same_type formal actual) _ _ (h' ▸ λ r. save_to-Balanced r slot) (
        get_reg-Balanced l i host formal true ▸ λ reg.
        h' ▸ λ r. load_reg-Balanced l i host reg r ▸ λ _. save_to-Balanced reg slot)

  move_sp-Balanced :
      (op : BinaryOperator) (n : ℕ) → Balanced l i 0 0 (on_gen (operand_int host sp op sp n))
  move_sp-Balanced op n = on_gen-Balanced l i _ (operand_int-Silent l host sp op sp n)

  gen_call-Balanced :
      (n : GenNode) (f : Callee) (m : Code (Unit {0}))
      → Balanced l i 0 0 m
      → Balanced l i 0 0 (gen_call host n f m)
  unfolding gen_call
  gen_call-Balanced n f m h = move_sp-Balanced op_sub (4 * length f.parameter_types) ▸ λ _. h ▸ λ _.
      write-Balanced l i (Instr.jal (named f.function_name)) ▸ λ _.
      modify-Balanced l i _ (clear_reg_record-Quiet l) ▸ λ _.
      move_sp-Balanced op_add (4 * length f.parameter_types) ▸ λ _.
      temp_node-Balanced l i host n.data_type n.node_id no_option ▸ λ reg.
      load_reg-Balanced l i host reg (if f.returns_int then v0 else f0)

  gen_read-Balanced : (n : GenNode) → Balanced l i 0 0 (gen_read host n)
  unfolding gen_read
  gen_read-Balanced n = temp_node-Balanced l i host n.data_type n.node_id no_option ▸ λ reg.
      read_call-Balanced n.data_type reg

  mutual
    unfolding gen_expr

    pub gen_expr-Balanced : (x : GenExpr) → Balanced l i 0 0 (gen_expr host x)
    gen_expr-Balanced (const_value n c) = gen_con_stmt-Balanced l i host e n c
    gen_expr-Balanced (identifier d xs) =
        (temp_id-Balanced l i host _ _ no_option _ (
          identifier_address-Balanced l i host d.node.node_id _
            (λ offset. of_option-Balanced l i (get_dimension d.variable.type) ▸ λ n.
              gen_subscripts-Balanced d.variable.type 0 n offset xs)
            d.variable d.is_declared d.is_array_id))
        ▸ λ _. pure-Balanced l i tt
    gen_expr-Balanced (binary n op x y) =
        gen_binary-Balanced l i host e op _ _ _ _ _ (gen_expr-Balanced y)
          (temp_reg-Balanced x no_option) (temp_reg-Balanced y no_option)
          (temp_node-Balanced l i host _ n.node_id force_caller)
          (temp_node-Balanced l i host _ n.node_id no_option) _ (gen_expr-Balanced x)
    gen_expr-Balanced (unary n op x) =
        gen_unary-Balanced op _ _ _ _ (gen_expr-Balanced x) (temp_reg-Balanced x no_option)
          (temp_node-Balanced l i host n.data_type n.node_id force_caller)
          (temp_node-Balanced l i host n.data_type n.node_id no_option)
    gen_expr-Balanced (call n f xs) =
        choice-Balanced l i (str_eq f.function_name "write") _ _ (gen_write-Balanced xs) (
          choice-Balanced l i (is_read host f.function_name) _ _ (gen_read-Balanced n)
            (gen_call-Balanced n f _ (pass_arguments-Balanced 0 f.parameter_types xs)))

    pub temp_reg-Balanced : (x : GenExpr) (o : Options) → Balanced l i 0 0 (temp_reg host x o)
    temp_reg-Balanced (const_value n c) o = temp_node-Balanced l i host n.data_type n.node_id o
    temp_reg-Balanced (identifier d xs) o = temp_id-Balanced l i host _ _ o _ (
        identifier_address-Balanced l i host d.node.node_id _
          (λ offset. of_option-Balanced l i (get_dimension d.variable.type) ▸ λ n.
            gen_subscripts-Balanced d.variable.type 0 n offset xs)
          d.variable d.is_declared d.is_array_id)
    temp_reg-Balanced (binary n op x y) o = temp_node-Balanced l i host _ n.node_id o
    temp_reg-Balanced (unary n op x) o = temp_node-Balanced l i host n.data_type n.node_id o
    temp_reg-Balanced (call n f xs) o = temp_node-Balanced l i host n.data_type n.node_id o

    gen_subscripts-Balanced :
        (t : TypeDescriptor) (k n offset : ℕ) (xs : GenExprs)
        → Balanced l i 0 0 (gen_subscripts host t k n offset xs)
    gen_subscripts-Balanced t k zero offset xs = pure-Balanced l i true
    gen_subscripts-Balanced t k (suc n) offset no_exprs =
        no_subscript_offset-Balanced l i host t k (suc n) offset ▸ λ _. pure-Balanced l i false
    gen_subscripts-Balanced t k (suc n) offset (more x xs) =
        subscript_offset-Balanced l i host t k offset _ _ (gen_expr-Balanced x)
          (temp_reg-Balanced x no_option)
        ▸ λ _. gen_subscripts-Balanced t (suc k) n offset xs

    gen_write-Balanced : (xs : GenExprs) → Balanced l i 0 0 (gen_write host xs)
    gen_write-Balanced no_exprs = of_option-Balanced l i none
    gen_write-Balanced (more x xs) =
        (gen_expr-Balanced x ▸ λ _. temp_reg-Balanced x no_option) ▸ λ r.
        write_call-Balanced (get_node_type x) r

    pass_arguments-Balanced :
        (k : ℕ) (ts : List DataType) (xs : GenExprs)
        → Balanced l i 0 0 (pass_arguments host k ts xs)
    pass_arguments-Balanced k [] xs = pure-Balanced l i tt
    pass_arguments-Balanced k (t ∷ ts) no_exprs = of_option-Balanced l i none
    pass_arguments-Balanced k (t ∷ ts) (more x xs) =
        pass_argument-Balanced k t (get_node_type x) _ _ (gen_expr-Balanced x)
          (temp_reg-Balanced x no_option)
        ▸ λ _. pass_arguments-Balanced (suc k) ts xs
