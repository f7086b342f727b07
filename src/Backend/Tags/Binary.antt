-- ===== src/Backend/Tags/Binary.antt =====
-- The labels of `&&` and `||` (`genExprNode` of src/codeGen.c).
use ntu_csie_complier.Prelude.{
  ℕ, suc, ◌+◌, ◌≤◌, Bool, true, false, ◌||◌, String, if◌then◌else◌, ◌≡◌, arith,
}
use ntu_csie_complier.Effect.{pure, ◌>>=◌, ◌>>◌}
use ntu_csie_complier.Types.{
  BinaryOperator, op_add, op_sub, op_mul, op_div, op_eq, op_ge, op_le, op_ne, op_gt, op_lt, op_and,
  op_or,
}
use ntu_csie_complier.Backend.Spelling.{number_of, IsPlain, tagged-IsCounted, extended-IsCounted}
use ntu_csie_complier.Backend.Code.{Label, tagged, extended, Instr}
use ntu_csie_complier.Backend.State.{Host}
use ntu_csie_complier.Backend.Operations.{operand}
use ntu_csie_complier.Backend.Labels.{matches, between, two_labels, extended-extended}
use ntu_csie_complier.Backend.Quiet.Operations.{operand-Silent}
use ntu_csie_complier.Backend.Nodes.{Code, on_gen, set_lock, when}
use ntu_csie_complier.Backend.Expressions.{is_and, is_or, short_circuit, short_value, gen_binary}
use ntu_csie_complier.Backend.Tags.{
  Balanced, Balanced-eq, ◌▸◌, on_gen-Balanced, write-Balanced, tag-Balanced, then-Balanced,
}
use ntu_csie_complier.Backend.Tags.Nodes.{pure-Balanced, set_lock-Balanced}
use ntu_csie_complier.Backend.Tags.Addresses.{load_reg-Balanced}
use ntu_csie_complier.Backend.Tags.Constants.{branch-Balanced, branch2-Balanced}

module _ (l : Label) (i : ℕ) (host : Host) (e : number_of l ≡ i) where
  -- The label of `&&` and `||` behind the right operand, and the one at the end.
  abbrev false_label : Label → ℕ
  false_label tag = matches (extended "_False" tag) l

  abbrev end_label : Label → ℕ
  end_label tag = matches (extended "End" tag) l

  abbrev is_short : BinaryOperator → Bool
  is_short op = is_and op || is_or op

  short_circuit-Balanced :
      (op : BinaryOperator) (tag : Label) (left : Code ℕ)
      → Balanced l i 0 0 left
      → Balanced l i 0 (if is_short op then false_label tag else 0) (short_circuit host op tag left)
  unfolding short_circuit
  short_circuit-Balanced op_and tag left h =
      then-Balanced l i _ _ h (λ r. branch-Balanced l i host e r (extended "_False" tag))
  short_circuit-Balanced op_or tag left h =
      then-Balanced l i _ _ h (λ r. branch2-Balanced l i host e r (extended "_False" tag))
  short_circuit-Balanced op_add tag left h = pure-Balanced l i tt
  short_circuit-Balanced op_sub tag left h = pure-Balanced l i tt
  short_circuit-Balanced op_mul tag left h = pure-Balanced l i tt
  short_circuit-Balanced op_div tag left h = pure-Balanced l i tt
  short_circuit-Balanced op_eq tag left h = pure-Balanced l i tt
  short_circuit-Balanced op_ge tag left h = pure-Balanced l i tt
  short_circuit-Balanced op_le tag left h = pure-Balanced l i tt
  short_circuit-Balanced op_ne tag left h = pure-Balanced l i tt
  short_circuit-Balanced op_gt tag left h = pure-Balanced l i tt
  short_circuit-Balanced op_lt tag left h = pure-Balanced l i tt

  short_value-Balanced :
      (tag : Label) (node left : Code ℕ)
      → Balanced l i 0 0 node
      → Balanced l i 0 0 left
      → Balanced l i
          (false_label tag + end_label tag)
          (end_label tag)
          (short_value host tag node left)
  unfolding short_value
  short_value-Balanced tag node left h h' = Balanced-eq l i _ (omega arith) (omega arith) (
      write-Balanced l i (Instr.jump (extended "End" tag)) ▸ λ _.
      write-Balanced l i (Instr.mark (extended "_False" tag)) ▸ λ _. h ▸ λ r. h' ▸ λ k.
      load_reg-Balanced l i host r k ▸ λ _. write-Balanced l i (Instr.mark (extended "End" tag)))

  when_short-Balanced :
      (b : Bool) (tag : Label) (m : Code (Unit {0}))
      → Balanced l i (false_label tag + end_label tag) (end_label tag) m
      → Balanced l i
          (if b then false_label tag + end_label tag else 0)
          (if b then end_label tag else 0)
          (when b m)
  when_short-Balanced true tag m h = h
  when_short-Balanced false tag m h = pure-Balanced l i tt

  -- The code behind the left operand of a binary operation.
  module _ (op : BinaryOperator) (gen_right : Code (Unit {0})) (left right node result : Code ℕ)
      (hr : Balanced l i 0 0 gen_right) (hl' : Balanced l i 0 0 left) (hr' : Balanced l i 0 0 right)
      (hn : Balanced l i 0 0 node) (he : Balanced l i 0 0 result) where
    unlocked-Balanced :
        Balanced l i 0 0
          (do l' ← left; set_lock l' false; r' ← right; set_lock r' false; shown ← result; pure tt)
    unlocked-Balanced = hl' ▸ λ x. set_lock-Balanced l i x false ▸ λ _.
        hr' ▸ λ y. set_lock-Balanced l i y false ▸ λ _. he ▸ λ _. pure-Balanced l i tt

    abbrev defined_by : Label → ℕ
    defined_by tag = if is_short op then false_label tag + end_label tag else 0

    abbrev used_by : Label → ℕ
    used_by tag =
        (if is_short op then false_label tag else 0) + (if is_short op then end_label tag else 0)

    behind_tag-Balanced :
        (tag : Label)
        → Balanced l i (defined_by tag + 0) (used_by tag + 0) (do
          short_circuit host op tag left
          gen_right
          r ← right
          set_lock r true
          left_reg ← left
          right_reg ← right
          reg ← node
          on_gen (operand host reg op left_reg right_reg)
          when (is_and op || is_or op) (short_value host tag node left)
          l' ← left
          set_lock l' false
          r' ← right
          set_lock r' false
          shown ← result
          pure tt)
    behind_tag-Balanced tag = Balanced-eq l i _ (omega arith) (omega arith) (
        short_circuit-Balanced op tag left hl' ▸ λ _. hr ▸ λ _. hr' ▸ λ r.
        set_lock-Balanced l i r true ▸ λ _. hl' ▸ λ left_reg. hr' ▸ λ right_reg. hn ▸ λ reg.
        on_gen-Balanced l i _ (operand-Silent l host reg op left_reg right_reg) ▸ λ _.
        when_short-Balanced (is_short op) tag _ (short_value-Balanced tag node left hn hl') ▸ λ _.
        unlocked-Balanced)

    short_once :
        (f : String) (n : ℕ)
        → IsPlain f
        → defined_by (tagged "LogicalShort" f n) ≤ between n (suc n) i
    short_once f n h =
        let tag = tagged "LogicalShort" f n in
        let counted = tagged-IsCounted "LogicalShort" f n h in
        let two =
          two_labels (extended "End" tag) (extended "_False" tag) l n i
            (extended-extended "End" "_False" tag (omega arith))
            (extended-IsCounted "End" tag n counted) (extended-IsCounted "_False" tag n counted)
            e in
        ground arith

    pub gen_binary-Balanced :
        (gen_left : Code (Unit {0}))
        → Balanced l i 0 0 gen_left
        → Balanced l i 0 0 (gen_binary host op gen_left left gen_right right node result)
    unfolding gen_binary
    gen_binary-Balanced gen_left hl = hl ▸ λ _. hl' ▸ λ k. set_lock-Balanced l i k true ▸ λ _.
        tag-Balanced l i "LogicalShort" _ defined_by used_by short_once (λ tag h. ground arith)
          behind_tag-Balanced
