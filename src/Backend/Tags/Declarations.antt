-- ===== src/Backend/Tags/Declarations.antt =====
-- The labels in the code of declarations and blocks (`genVariable` and `genGeneralNode` of
-- src/codeGen.c).
use ntu_csie_complier.Prelude.{
  ℕ, ◌+◌, Bool, true, false, List, [], ◌∷◌, ◌++◌, ◌==◌, if◌then◌else◌, ◌≡◌, refl, arith,
}
use ntu_csie_complier.Effect.Post.{returns}
use ntu_csie_complier.Types.{DataType}
use ntu_csie_complier.Types.Descriptor.{get_data_type, size}
use ntu_csie_complier.Backend.Spelling.{number_of}
use ntu_csie_complier.Backend.Code.{Label, Instr, Address}
use ntu_csie_complier.Backend.State.{Host}
use ntu_csie_complier.Backend.Frame.{
  ArSystem, Variable, add_variable, add_global, add_param, add_local, global_init_routine,
}
use ntu_csie_complier.Backend.Labels.{matches}
use ntu_csie_complier.Backend.Quiet.{Grows-refl}
use ntu_csie_complier.Backend.Quiet.Steps.{save_to-Quiet}
use ntu_csie_complier.Backend.Tree.{GenId, GenExpr, no_exprs, identifier}
use ntu_csie_complier.Backend.Body.{
  Declarator, normal_id, array_id, with_init_id, GenDecl, variable_decl, type_decl,
  function_parameter_decl,
}
use ntu_csie_complier.Backend.Nodes.{no_option, disable_load, write}
use ntu_csie_complier.Backend.Generation.{
  declared_id, declare, add_routine, scalar_data, global_label, gen_init_routine,
  gen_global_variable, gen_local_variable, gen_variable, gen_variables, gen_declare,
}
use ntu_csie_complier.Backend.Tags.{
  Balanced, Balanced-eq, ◌▸◌, then-Balanced, write-Balanced, tag-Balanced, unchanged-Step, ends,
  starts,
}
use ntu_csie_complier.Backend.Tags.Nodes.{pure-Balanced, modify-Balanced, choice-Balanced}
use ntu_csie_complier.Backend.Tags.Addresses.{declared_address-Balanced, load_reg-Balanced}
use ntu_csie_complier.Backend.Tags.Expressions.{gen_expr-Balanced, temp_reg-Balanced}
use ntu_csie_complier.Backend.Tags.Statements.{own_once}

ends-snoc :
    (l start end : Label) (v : List (Label × Label))
    → ends l (v ++ (start, end) ∷ []) ≡ ends l v + matches end l
unfolding ends
ends-snoc l start end [] = omega arith
ends-snoc l start end ((a, b) ∷ v) = let h = ends-snoc l start end v in omega arith

starts-snoc :
    (l start end : Label) (v : List (Label × Label))
    → starts l (v ++ (start, end) ∷ []) ≡ starts l v + matches start l
unfolding starts
starts-snoc l start end [] = omega arith
starts-snoc l start end ((a, b) ∷ v) = let h = starts-snoc l start end v in omega arith

-- Giving an address to a variable changes neither the counter, the routines nor the name.
KeptBy : ArSystem → ArSystem → Type 0
KeptBy a b =
    (b.tag_index ≡ a.tag_index) × (b.init_routine ≡ a.init_routine) × (b.func_name ≡ a.func_name)

add_variable-KeptBy :
    (v : Variable) (is_param : Bool) (a : ArSystem) → KeptBy a (add_variable v is_param a)
unfolding add_variable KeptBy
add_variable-KeptBy v is_param a = at_level (v.nesting_level == 0) is_param
  where
    at_level :
        (b c : Bool)
        → KeptBy a (if b then add_global v a else if c then add_param v a else add_local v a)
    at_level true c = (refl, refl, refl)
    at_level false true = (refl, refl, refl)
    at_level false false = (refl, refl, refl)

module _ (l : Label) (i : ℕ) (host : Host) (e : number_of l ≡ i) where
  declare-Balanced : (v : Variable) (is_param : Bool) → Balanced l i 0 0 (declare v is_param)
  unfolding declare KeptBy
  declare-Balanced v is_param s =
      let h = add_variable-KeptBy v is_param s.ar in
      returns (unchanged-Step l i s _ refl h.0 h.1 h.2)

  -- The label of a routine is defined by it, and its end is left to `main`.
  add_routine-Balanced :
      (start end : Label) → Balanced l i (matches end l) (matches start l) (add_routine start end)
  unfolding add_routine global_init_routine
  add_routine-Balanced start end s =
      let h = ends-snoc l start end s.ar.init_routine in
      let h' = starts-snoc l start end s.ar.init_routine in
      returns (record {
        balance = record {
          grows = Grows-refl s.gen;
          tags = omega arith;
          plain = λ h. h;
          at_most = λ x. omega arith;
          at_least = omega arith;
          resolved = λ x. omega arith;
        };
        same_name = refl;
      })

  abbrev matched : Label → ℕ
  matched k = matches k l

  gen_init_routine-Balanced :
      (a : Address) (x : GenExpr) → Balanced l i 0 0 (gen_init_routine host a x)
  unfolding gen_init_routine
  gen_init_routine-Balanced a x = then-Balanced l i _ _ (write-Balanced l i Instr.text) (λ _.
      tag-Balanced l i "_InlineSubRoutine_Start" _ matched matched
        (own_once l i host e "_InlineSubRoutine_Start") (λ j h. h)
        (λ start.
          tag-Balanced l i "_InlineSubRoutine_End" _ matched matched
            (own_once l i host e "_InlineSubRoutine_End") (λ j h. h)
            (λ end. Balanced-eq l i _ (omega arith) (omega arith) (
              write-Balanced l i (Instr.mark start) ▸ λ _. gen_expr-Balanced l i host e x ▸ λ _.
              temp_reg-Balanced l i host e x no_option ▸ λ r.
              modify-Balanced l i _ (save_to-Quiet l r a) ▸ λ _.
              write-Balanced l i (Instr.jump end) ▸ λ _. add_routine-Balanced start end))))

  scalar_data-Balanced :
      (t : DataType) (d : GenId) → Balanced l i 0 0 (scalar_data t (global_label d))
  scalar_data-Balanced DataType.int_type d = write-Balanced l i (Instr.word (global_label d) 0)
  scalar_data-Balanced DataType.float_type d = write-Balanced l i (Instr.float (global_label d) 0)
  scalar_data-Balanced DataType.void_type d = pure-Balanced l i tt
  scalar_data-Balanced DataType.int_ptr_type d = pure-Balanced l i tt
  scalar_data-Balanced DataType.float_ptr_type d = pure-Balanced l i tt
  scalar_data-Balanced DataType.const_string_type d = pure-Balanced l i tt
  scalar_data-Balanced DataType.none_type d = pure-Balanced l i tt
  scalar_data-Balanced DataType.error_type d = pure-Balanced l i tt

  data_segment-Balanced : Balanced l i 0 0 (write Instr.data_segment)
  data_segment-Balanced = write-Balanced l i Instr.data_segment

  gen_global_variable-Balanced :
      (d : Declarator) (a : Address) → Balanced l i 0 0 (gen_global_variable host d a)
  unfolding gen_global_variable
  gen_global_variable-Balanced (normal_id d) a =
      data_segment-Balanced ▸ λ _. scalar_data-Balanced (get_data_type d.variable.type) d
  gen_global_variable-Balanced (array_id d) a = data_segment-Balanced ▸ λ _.
      write-Balanced l i (Instr.space (global_label d) (size d.variable.type))
  gen_global_variable-Balanced (with_init_id d x) a = data_segment-Balanced ▸ λ _.
      scalar_data-Balanced (get_data_type d.variable.type) d ▸ λ _. gen_init_routine-Balanced a x

  gen_local_variable-Balanced : (d : Declarator) → Balanced l i 0 0 (gen_local_variable host d)
  unfolding gen_local_variable
  gen_local_variable-Balanced (normal_id d) = pure-Balanced l i tt
  gen_local_variable-Balanced (array_id d) = pure-Balanced l i tt
  gen_local_variable-Balanced (with_init_id d x) = gen_expr-Balanced l i host e x ▸ λ _.
      temp_reg-Balanced l i host e (identifier d no_exprs) disable_load ▸ λ reg.
      temp_reg-Balanced l i host e x no_option ▸ λ r. load_reg-Balanced l i host reg r

  gen_variable-Balanced :
      (is_param : Bool) (d : Declarator) → Balanced l i 0 0 (gen_variable host is_param d)
  unfolding gen_variable
  gen_variable-Balanced is_param d =
      let v = (declared_id d).variable in
      declare-Balanced v is_param ▸ λ _.
      choice-Balanced l i (v.nesting_level == 0) _ _
        (declared_address-Balanced l i v ▸ λ a. gen_global_variable-Balanced d a)
        (gen_local_variable-Balanced d)

  gen_variables-Balanced :
      (is_param : Bool) (ds : List Declarator) → Balanced l i 0 0 (gen_variables host is_param ds)
  unfolding gen_variables
  gen_variables-Balanced is_param [] = pure-Balanced l i tt
  gen_variables-Balanced is_param (d ∷ ds) =
      gen_variable-Balanced is_param d ▸ λ _. gen_variables-Balanced is_param ds

  pub gen_declare-Balanced : (d : GenDecl) → Balanced l i 0 0 (gen_declare host d)
  unfolding gen_declare
  gen_declare-Balanced (variable_decl ds) = gen_variables-Balanced false ds
  gen_declare-Balanced (function_parameter_decl ds) = gen_variables-Balanced true ds
  gen_declare-Balanced type_decl = pure-Balanced l i tt
