-- ===== src/Backend/Statements.antt =====
-- The functions of src/codeGen.c for statements, given the code and the registers of their parts.
use ntu_csie_complier.Prelude.{ℕ, Bool, true, false, if◌then◌else◌}
use ntu_csie_complier.Effect.{◌>>=◌, ◌>>◌, modify}
use ntu_csie_complier.Backend.Code.{Label, extended, Instr, v0, f0}
use ntu_csie_complier.Backend.State.{Host, save}
use ntu_csie_complier.Backend.Registers.{save_and_clear}
use ntu_csie_complier.Backend.Operations.{load_reg, branch}
use ntu_csie_complier.Backend.Frame.{end_tag}
use ntu_csie_complier.Backend.Tree.{GenExpr}
use ntu_csie_complier.Backend.Nodes.{Code, on_gen, write, set_lock, no_option, disable_load}
use ntu_csie_complier.Backend.Expressions.{gen_expr, temp_reg, new_tag}

-- The jump to the end of the function around a statement.
unfoldable pub jump_end : Code (Unit {0})
jump_end s = write (Instr.jump (end_tag s.ar)) s

unfoldable pub gen_while_stmt : Code (Unit {0}) → Code ℕ → Code (Unit {0}) → Code (Unit {0})
unfolding new_tag
gen_while_stmt gen_condition condition gen_block = do
  tag ← new_tag "_WHILE"
  write (Instr.mark tag)
  gen_condition
  r ← condition
  write (Instr.beqz r (extended "_End" tag))
  gen_block
  write (Instr.jump tag)
  write (Instr.mark (extended "_End" tag))

module _ (host : Host) where
  unfoldable pub gen_assign_stmt : GenExpr → GenExpr → Code (Unit {0})
  unfolding gen_expr load_reg save
  gen_assign_stmt left right = do
    gen_expr host right
    right_reg ← temp_reg host right no_option
    set_lock right_reg true
    left_reg ← temp_reg host left disable_load
    on_gen (load_reg host left_reg right_reg)
    on_gen (modify (save left_reg))
    set_lock right_reg false

  -- `returns_int` says whether the function around the statement returns `int`.
  unfoldable pub gen_return_stmt : Bool → Code (Unit {0}) → Code ℕ → Code (Unit {0})
  unfolding load_reg jump_end
  gen_return_stmt returns_int gen_child child = do
    gen_child
    r ← child
    on_gen (load_reg host (if returns_int then v0 else f0) r)
    jump_end

  -- The branch to a label on a condition that does not hold.
  unfoldable pub branch_on : Code ℕ → Label → Code (Unit {0})
  unfolding branch
  branch_on condition l = do r ← condition; on_gen (branch host r l)

  unfoldable pub gen_if_stmt :
      Code (Unit {0}) → Code ℕ → Code (Unit {0}) → Code (Unit {0}) → Code (Unit {0})
  unfolding new_tag branch_on save_and_clear
  gen_if_stmt gen_condition condition gen_block gen_else = do
    tag ← new_tag "_IF"
    branch_name ← new_tag "_IfBranch"
    gen_condition
    branch_on condition branch_name
    gen_block
    on_gen (modify save_and_clear)
    write (Instr.jump (extended "_End" tag))
    write (Instr.mark branch_name)
    gen_else
    write (Instr.mark (extended "_End" tag))

  unfoldable pub gen_for_stmt :
      Code (Unit {0})
      → Code (Unit {0})
      → Code ℕ
      → Code (Unit {0})
      → Code (Unit {0})
      → Code (Unit {0})
  unfolding new_tag branch_on save_and_clear
  gen_for_stmt gen_init gen_condition condition gen_step gen_block = do
    tag ← new_tag "_FOR"
    gen_init
    on_gen (modify save_and_clear)
    write (Instr.mark tag)
    gen_condition
    branch_on condition (extended "_End" tag)
    on_gen (modify save_and_clear)
    gen_block
    gen_step
    on_gen (modify save_and_clear)
    write (Instr.jump tag)
    write (Instr.mark (extended "_End" tag))
