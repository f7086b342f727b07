-- ===== src/Backend/Tags/Statements.antt =====
-- The labels in the code of a statement (`genIfStmt`, `genWhileStmt` and `genForStmt` of src/codeGen.c).
use ntu_csie_complier.Prelude.{
  ℕ, suc, ◌+◌, ◌≤◌, Bool, true, false, String, if◌then◌else◌, ◌≡◌, arith,
}
use ntu_csie_complier.Effect.{modify}
use ntu_csie_complier.Backend.Spelling.{number_of, IsPlain, tagged-IsCounted, extended-IsCounted}
use ntu_csie_complier.Backend.Code.{Label, tagged, extended, Instr, v0, f0}
use ntu_csie_complier.Backend.State.{Host}
use ntu_csie_complier.Backend.Registers.{save_and_clear}
use ntu_csie_complier.Backend.Frame.{end_tag}
use ntu_csie_complier.Backend.Labels.{
  matches, between, matches-between, two_labels, tagged-extended,
}
use ntu_csie_complier.Backend.Quiet.Steps.{save-Quiet, save_and_clear-Quiet}
use ntu_csie_complier.Backend.Tree.{GenExpr}
use ntu_csie_complier.Backend.Nodes.{Code, on_gen, no_option, disable_load}
use ntu_csie_complier.Backend.Statements.{
  gen_assign_stmt, gen_return_stmt, gen_if_stmt, gen_while_stmt, gen_for_stmt, branch_on, jump_end,
}
use ntu_csie_complier.Backend.Tags.{
  Balanced, Balanced-eq, ◌▸◌, then-Balanced, write-Balanced, tag-Balanced,
}
use ntu_csie_complier.Backend.Tags.Nodes.{modify-Balanced, set_lock-Balanced}
use ntu_csie_complier.Backend.Tags.Addresses.{load_reg-Balanced}
use ntu_csie_complier.Backend.Tags.Constants.{branch-Balanced}
use ntu_csie_complier.Backend.Tags.Expressions.{gen_expr-Balanced, temp_reg-Balanced}

module _ (l : Label) (i : ℕ) (host : Host) (e : number_of l ≡ i) where
  pub gen_assign_stmt-Balanced : (x y : GenExpr) → Balanced l i 0 0 (gen_assign_stmt host x y)
  unfolding gen_assign_stmt
  gen_assign_stmt-Balanced x y = gen_expr-Balanced l i host e y ▸ λ _.
      temp_reg-Balanced l i host e y no_option ▸ λ right_reg.
      set_lock-Balanced l i right_reg true ▸ λ _.
      temp_reg-Balanced l i host e x disable_load ▸ λ left_reg.
      load_reg-Balanced l i host left_reg right_reg ▸ λ _.
      modify-Balanced l i _ (save-Quiet l left_reg) ▸ λ _. set_lock-Balanced l i right_reg false

  jump_end-Balanced : Balanced l i 0 0 jump_end
  unfolding jump_end
  jump_end-Balanced s = write-Balanced l i (Instr.jump (end_tag s.ar)) s

  pub gen_return_stmt-Balanced :
      (returns_int : Bool) (gen_child : Code (Unit {0})) (child : Code ℕ)
      → Balanced l i 0 0 gen_child
      → Balanced l i 0 0 child
      → Balanced l i 0 0 (gen_return_stmt host returns_int gen_child child)
  unfolding gen_return_stmt
  gen_return_stmt-Balanced returns_int gen_child child h h' = h ▸ λ _. h' ▸ λ r.
      load_reg-Balanced l i host (if returns_int then v0 else f0) r ▸ λ _. jump_end-Balanced

  branch_on-Balanced :
      (condition : Code ℕ) (k : Label)
      → Balanced l i 0 0 condition
      → Balanced l i 0 (matches k l) (branch_on host condition k)
  unfolding branch_on
  branch_on-Balanced condition k h = then-Balanced l i _ _ h (λ r. branch-Balanced l i host e r k)

  clear-Balanced : Balanced l i 0 0 (on_gen (modify save_and_clear))
  clear-Balanced = modify-Balanced l i save_and_clear (save_and_clear-Quiet l)

  -- The label of a construct and the one at its end.
  abbrev pub own : Label → ℕ
  own tag = matches tag l

  abbrev end_of : Label → ℕ
  end_of tag = matches (extended "_End" tag) l

  loop_once :
      (a f : String) (n : ℕ)
      → IsPlain f
      → own (tagged a f n) + end_of (tagged a f n) ≤ between n (suc n) i
  loop_once a f n h =
      let tag = tagged a f n in
      let counted = tagged-IsCounted a f n h in
      two_labels tag (extended "_End" tag) l n i (tagged-extended "_End" tag (omega arith)) counted
        (extended-IsCounted "_End" tag n counted) e

  end_once : (a f : String) (n : ℕ) → IsPlain f → end_of (tagged a f n) ≤ between n (suc n) i
  end_once a f n h =
      let tag = tagged a f n in
      matches-between (extended "_End" tag) l n i
        (extended-IsCounted "_End" tag n (tagged-IsCounted a f n h)) e

  pub own_once : (a f : String) (n : ℕ) → IsPlain f → own (tagged a f n) ≤ between n (suc n) i
  own_once a f n h = matches-between (tagged a f n) l n i (tagged-IsCounted a f n h) e

  module _ (gen_condition : Code (Unit {0})) (condition : Code ℕ) (gen_block : Code (Unit {0}))
      (hc : Balanced l i 0 0 gen_condition) (hr : Balanced l i 0 0 condition)
      (hb : Balanced l i 0 0 gen_block) where
    pub gen_if_stmt-Balanced :
        (gen_else : Code (Unit {0}))
        → Balanced l i 0 0 gen_else
        → Balanced l i 0 0 (gen_if_stmt host gen_condition condition gen_block gen_else)
    unfolding gen_if_stmt
    gen_if_stmt-Balanced gen_else he =
        tag-Balanced l i "_IF" _ end_of end_of (end_once "_IF") (λ j h. h)
          (λ tag.
            tag-Balanced l i "_IfBranch" _ own own (own_once "_IfBranch") (λ j h. h)
              (λ branch. Balanced-eq l i _ (omega arith) (omega arith) (
                hc ▸ λ _. branch_on-Balanced condition branch hr ▸ λ _. hb ▸ λ _.
                clear-Balanced ▸ λ _. write-Balanced l i (Instr.jump (extended "_End" tag)) ▸ λ _.
                write-Balanced l i (Instr.mark branch) ▸ λ _.
                he ▸ λ _. write-Balanced l i (Instr.mark (extended "_End" tag)))))

    pub gen_while_stmt-Balanced :
        Balanced l i 0 0 (gen_while_stmt gen_condition condition gen_block)
    unfolding gen_while_stmt
    gen_while_stmt-Balanced =
        tag-Balanced l i "_WHILE" _ (λ j. own j + end_of j) (λ j. own j + end_of j)
          (loop_once "_WHILE") (λ j h. h)
          (λ tag. Balanced-eq l i _ (omega arith) (omega arith) (
            write-Balanced l i (Instr.mark tag) ▸ λ _. hc ▸ λ _. hr ▸ λ r.
            write-Balanced l i (Instr.beqz r (extended "_End" tag)) ▸ λ _. hb ▸ λ _.
            write-Balanced l i (Instr.jump tag) ▸ λ _.
            write-Balanced l i (Instr.mark (extended "_End" tag))))

    pub gen_for_stmt-Balanced :
        (gen_init gen_step : Code (Unit {0}))
        → Balanced l i 0 0 gen_init
        → Balanced l i 0 0 gen_step
        → Balanced l i 0 0 (gen_for_stmt host gen_init gen_condition condition gen_step gen_block)
    unfolding gen_for_stmt
    gen_for_stmt-Balanced gen_init gen_step hi hs =
        tag-Balanced l i "_FOR" _ (λ j. own j + end_of j) (λ j. own j + end_of j) (loop_once "_FOR")
          (λ j h. h)
          (λ tag. Balanced-eq l i _ (omega arith) (omega arith) (
            hi ▸ λ _. clear-Balanced ▸ λ _. write-Balanced l i (Instr.mark tag) ▸ λ _. hc ▸ λ _.
            branch_on-Balanced condition (extended "_End" tag) hr ▸ λ _. clear-Balanced ▸ λ _.
            hb ▸ λ _. hs ▸ λ _. clear-Balanced ▸ λ _. write-Balanced l i (Instr.jump tag) ▸ λ _.
            write-Balanced l i (Instr.mark (extended "_End" tag))))
