-- ===== src/Examples/Compiled.antt =====
-- Programs that the model of src/codeGen.c translates.
use ntu_csie_complier.Prelude.{
  ℕ, ◌≤◌, Bool, true, false, Option, none, some, List, [], ◌∷◌, ◌≡◌, refl, arith, ltb, ltb→lt, ◌&&◌,
  if◌then◌else◌, ◌==◌, All,
}
use ntu_csie_complier.Types.{int_type, scalar, op_add, op_lt, integerc}
use ntu_csie_complier.Backend.Code.{Label, Address, tagged, extended, fp, same_label}
use ntu_csie_complier.Backend.State.{Host}
use ntu_csie_complier.Backend.Registers.{initial_gen_state, lock}
use ntu_csie_complier.Backend.Frame.{Variable}
use ntu_csie_complier.Backend.Tree.{
  GenNode, GenId, GenExpr, identifier, const_value, binary, call, no_exprs, more,
}
use ntu_csie_complier.Backend.Body.{
  normal_id, with_init_id, GenDecl, variable_decl, function_parameter_decl, GenStmt, expr,
  declaration, block, node_list, assign_stmt, return_stmt, while_stmt, no_stmts, more_stmts,
  GenGlobal, global_stmt, function_decl,
}
use ntu_csie_complier.Backend.Nodes.{Coder}
use ntu_csie_complier.Backend.Labels.{total}
use ntu_csie_complier.Backend.Spelling.{last_code}
use ntu_csie_complier.Backend.Quiet.{definitions, uses}
use ntu_csie_complier.Backend.Passing.{
  Parameter, plain, parameter_decls, word_at, parameter-argument,
}
use ntu_csie_complier.Backend.Expressions.{argument_slot}
use ntu_csie_complier.Backend.Written.{IsFresh}
use ntu_csie_complier.Backend.Functions.{Compiled, gen_function-Compiled}
use ntu_csie_complier.Backend.Tags.Programs.{code_gen_unique, code_gen-resolved, HasPlainName}
use ntu_csie_complier.Backend.Generation.{code_gen, gen_function, gen_params, initial_coder}

abbrev some_host : Host
some_host = record { random = λ n. n; tries = 20; float_of_int = λ n. n; int_of_double = λ d. d }

abbrev node : ℕ → GenNode
node n = record { node_id = n; data_type = int_type }

abbrev g : Variable
g = record { entry = 1; name = "g"; nesting_level = 0; type = scalar int_type }

abbrev x : Variable
x = record { entry = 2; name = "x"; nesting_level = 1; type = scalar int_type }

abbrev id_node : Bool → ℕ → Variable → GenId
id_node is_declared n v = record {
  node = node n;
  variable = v;
  is_declared = is_declared;
  is_array_id = false;
}

abbrev read_of : ℕ → Variable → GenExpr
read_of n v = identifier (id_node false n v) no_exprs

abbrev one : ℕ → GenExpr
one n = const_value (node n) (integerc 1)

-- `int g = 1; int f(int x) { while (x < 1) x = x + 1; return x; } int main() { g = f(g); }`
abbrev loop_stmt : GenStmt
loop_stmt =
    while_stmt (node 10) (expr (binary (node 11) op_lt (read_of 12 x) (one 13)))
      (assign_stmt (node 14) (read_of 15 x) (binary (node 16) op_add (read_of 17 x) (one 18)))

abbrev f_params : List GenDecl
f_params = function_parameter_decl (normal_id (id_node true 30 x) ∷ []) ∷ []

abbrev f_block : GenStmt
f_block = block (node 31) (
    more_stmts
      (node_list (node 32) (
        more_stmts loop_stmt
          (more_stmts (return_stmt (node 33) true (expr (read_of 34 x))) no_stmts)))
      no_stmts)

abbrev program : List GenGlobal
program =
    global_stmt
      (declaration (node 20) (variable_decl (with_init_id (id_node true 21 g) (one 22) ∷ [])))
    ∷ function_decl "f" f_params f_block
    ∷ function_decl "main" [] (
        block (node 40) (
          more_stmts
            (node_list (node 41) (
              more_stmts
                (assign_stmt (node 42) (read_of 43 g) (
                  call (node 44)
                    (record {
                      function_name = "f";
                      parameter_types = int_type ∷ [];
                      returns_int = true;
                    })
                    (more (read_of 45 g) no_exprs)))
                no_stmts))
            no_stmts))
    ∷ []

abbrev loop_label : Label
loop_label = extended "_End" (tagged "_WHILE" "f" 2)

-- No routine is left for `main`, and the code goes to the label.
abbrev no_routine : List (Label × Label) → Bool
no_routine [] = true
no_routine (r ∷ v) = false

abbrev is_complete : Coder → Bool
is_complete t = no_routine t.ar.init_routine && ltb 0 (uses loop_label t.gen)

abbrev succeeds : Option (Unit {0} × Coder) → Bool
succeeds none = false
succeeds (some (u, t)) = is_complete t

result_of :
    (r : Option (Unit {0} × Coder))
    → succeeds r ≡ true
    → (t : Coder) × (r ≡ some (tt, t)) × (is_complete t ≡ true)
result_of none h = ground (arith, h)
result_of (some (u, t)) h = (t, refl, h)

no_routine-nil : (v : List (Label × Label)) → no_routine v ≡ true → v ≡ []
no_routine-nil [] h = refl
no_routine-nil (r ∷ v) h = ground (arith, h)

is_some : Option (Unit {0} × Coder) → Bool
is_some none = false
is_some (some r) = true

some_result : (r : Option (Unit {0} × Coder)) → is_some r ≡ true → (t : Coder) × (r ≡ some (tt, t))
unfolding is_some
some_result none h = ground (arith, h)
some_result (some (u, t)) h = (t, refl)

is_compiled : succeeds (code_gen some_host program) ≡ true
unfolding code_gen lock total same_label
is_compiled = refl

compiled : (t : Coder) × (code_gen some_host program ≡ some (tt, t)) × (is_complete t ≡ true)
compiled = result_of (code_gen some_host program) is_compiled

both : (a b : Bool) → (a && b) ≡ true → (a ≡ true) × (b ≡ true)
both a b h = ground arith

complete :
    (no_routine compiled.0.ar.init_routine ≡ true) × (ltb 0 (uses loop_label compiled.0.gen) ≡ true)
complete = both _ _ compiled.2

plain_names : All HasPlainName program
unfolding last_code
plain_names = (tt, (refl, (refl, tt)))

code_gen_unique_example : definitions loop_label compiled.0.gen ≤ 1
code_gen_unique_example =
    code_gen_unique some_host program compiled.0 loop_label plain_names compiled.1

code_gen-resolved_example : definitions loop_label compiled.0.gen ≡ 1
code_gen-resolved_example =
    code_gen-resolved some_host program compiled.0 loop_label plain_names compiled.1
      (no_routine-nil compiled.0.ar.init_routine complete.0)
      (ltb→lt 0 (uses loop_label compiled.0.gen) complete.1)

-- The counter 2 in `f1` and 12 in `f` make one label.
one_text : same_label (tagged "_IF" "f1" 2) (tagged "_IF" "f" 12) ≡ true
unfolding same_label
one_text = refl

new_registers : IsFresh initial_coder.gen
unfolding initial_coder initial_gen_state
new_registers = record { new = λ r. refl; unlocked = λ r. refl }

is_function : is_some (gen_function some_host "f" f_params f_block initial_coder) ≡ true
unfolding gen_function initial_coder initial_gen_state lock is_some
is_function = refl

f_compiled :
    (t : Coder) × (gen_function some_host "f" f_params f_block initial_coder ≡ some (tt, t))
f_compiled = some_result _ is_function

gen_function-Compiled_example : Compiled some_host "f" f_params f_block initial_coder f_compiled.0
gen_function-Compiled_example =
    gen_function-Compiled some_host "f" f_params f_block initial_coder f_compiled.0 new_registers
      f_compiled.1

abbrev y : Variable
y = record { entry = 3; name = "y"; nesting_level = 1; type = scalar int_type }

abbrev z : Variable
z = record { entry = 4; name = "z"; nesting_level = 1; type = scalar int_type }

-- A stack pointer of 1000 at the call.
abbrev called : ℕ → ℕ
called r = if r == fp then 996 else 1000

abbrev three_parameters : List Parameter
three_parameters =
    plain (id_node true 1 x) ∷ plain (id_node true 2 y) ∷ plain (id_node true 3 z) ∷ []

parameter-argument_example :
    (t : Coder) × (a : Address) × (gen_params some_host
        (parameter_decls three_parameters)
        initial_coder
      ≡ some (tt, t))
    × (t.ar.local_variable 3 ≡ some a)
    × (word_at called a ≡ word_at called (argument_slot 1))
unfolding initial_coder
parameter-argument_example =
    parameter-argument some_host (plain (id_node true 1 x) ∷ []) (plain (id_node true 2 y))
      (plain (id_node true 3 z) ∷ []) initial_coder called 1000 (refl, (refl, (refl, tt)))
      (refl, tt) (omega arith) refl refl refl
