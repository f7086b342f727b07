-- ===== src/Examples/Sums.antt =====
-- Code that the model of src/codeGen.c writes for expressions and assignments.
use ntu_csie_complier.Prelude.{ℕ, false, Option, none, some, List, [], ◌∷◌, ◌≡◌, refl, ◌-◌}
use ntu_csie_complier.Types.{int_type, scalar, op_add, op_and, integerc}
use ntu_csie_complier.Semantic.Fold.{int_mod}
use ntu_csie_complier.Backend.Code.{Instr, indexed, fp, tagged, extended}
use ntu_csie_complier.Backend.State.{Host}
use ntu_csie_complier.Backend.Registers.{initial_gen_state, lock}
use ntu_csie_complier.Backend.Frame.{Variable, initial_ar_system, add_variable}
use ntu_csie_complier.Backend.Tree.{GenNode, GenExpr, identifier, const_value, binary, no_exprs}
use ntu_csie_complier.Backend.Nodes.{Coder}
use ntu_csie_complier.Backend.Expressions.{gen_expr}
use ntu_csie_complier.Backend.Statements.{gen_assign_stmt}

abbrev some_host : Host
some_host = record { random = λ n. n; tries = 20; float_of_int = λ n. n; int_of_double = λ d. d }

abbrev x : Variable
x = record { entry = 1; name = "x"; nesting_level = 1; type = scalar int_type }

abbrev start : Coder
start = record {
  gen = initial_gen_state;
  ar = add_variable x false (record initial_ar_system { func_name = "f"; total_offset = 88 });
  node_reg = λ n. none;
  arr_variable = λ n. none;
}

abbrev node : ℕ → GenNode
node n = record { node_id = n; data_type = int_type }

abbrev x_expr : ℕ → GenExpr
x_expr n =
    identifier (record { node = node n; variable = x; is_declared = false; is_array_id = false })
      no_exprs

abbrev code_of : GenExpr → Option (List Instr)
code_of e = elim (gen_expr some_host e start) [ none ↦ none | some (u, s) ↦ some s.gen.output ]

-- `x + 1`
sum_code :
    code_of (binary (node 1) op_add (x_expr 2) (const_value (node 3) (integerc 1)))
    ≡ some (
        Instr.lw 0 (indexed (int_mod - 92) fp)
        ∷ Instr.li 8 1
        ∷ Instr.binary op_add false 9 0 8
        ∷ [])
unfolding gen_expr initial_gen_state initial_ar_system add_variable lock
sum_code = refl

-- `x && x`
and_code :
    code_of (binary (node 1) op_and (x_expr 2) (x_expr 3))
    ≡ some (
        Instr.lw 0 (indexed (int_mod - 92) fp)
        ∷ Instr.beqz 0 (extended "_False" (tagged "LogicalShort" "f" 0))
        ∷ Instr.binary op_and false 8 0 0
        ∷ Instr.jump (extended "End" (tagged "LogicalShort" "f" 0))
        ∷ Instr.mark (extended "_False" (tagged "LogicalShort" "f" 0))
        ∷ Instr.move 8 0
        ∷ Instr.mark (extended "End" (tagged "LogicalShort" "f" 0))
        ∷ [])
unfolding gen_expr initial_gen_state initial_ar_system add_variable lock
and_code = refl

-- `x = x + 1`
assign_code :
    elim (gen_assign_stmt some_host
      (x_expr 4)
      (binary (node 1) op_add (x_expr 2) (const_value (node 3) (integerc 1)))
      start) [ none ↦ none | some (u, s) ↦ some s.gen.output ]
    ≡ some (
        Instr.lw 0 (indexed (int_mod - 92) fp)
        ∷ Instr.li 8 1
        ∷ Instr.binary op_add false 9 0 8
        ∷ Instr.move 0 9
        ∷ Instr.sw 0 (indexed (int_mod - 92) fp)
        ∷ [])
unfolding gen_assign_stmt initial_gen_state initial_ar_system add_variable lock
assign_code = refl
