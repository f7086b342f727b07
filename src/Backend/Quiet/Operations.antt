-- ===== src/Backend/Quiet/Operations.antt =====
-- The operations of src/Register.cpp and src/gen-part.cpp on registers, which need a free register or
-- have no result.
use ntu_csie_complier.Backend.Quiet.{
  Quiet, Quiet-trans, emit-Quiet, Quiet-if, IsPlain, unchanged-Quiet,
}
use ntu_csie_complier.Backend.Quiet.Steps.{
  set_modified-Quiet, set_both-Quiet, clear_volatile-Quiet, load_int-Quiet, emits-Quiet,
  Given-Quiet, constant_load-IsPlain,
}
use ntu_csie_complier.Prelude.{
  ℕ, ◌-◌, ◌%◌, Bool, true, false, not, ◌&&◌, [], ◌∷◌, ◌==◌, if◌then◌else◌, ◌≡◌, refl,
}
use ntu_csie_complier.Effect.{pure, ◌>>=◌, ◌>>◌, modify}
use ntu_csie_complier.Effect.Post.{weaken}
use ntu_csie_complier.Types.{
  DataType, int_type, float_type, BinaryOperator, op_add, op_sub, op_mul, op_div, op_ge, op_ne,
  op_gt, UnaryOperator, op_positive, op_negative, op_logical_negation,
}
use ntu_csie_complier.Semantic.Fold.{int_mod}
use ntu_csie_complier.Backend.Code.{Label, Instr}
use ntu_csie_complier.Backend.State.{GenState, Host, emit}
use ntu_csie_complier.Backend.Registers.{get_reg, pool}
use ntu_csie_complier.Backend.Operations.{
  set_modified, load_int, convert, load_const_reg, load_reg, float_operand, float_operand_clearing,
  operand_const, operand, operand_int, operand_unary, tested, emits, compare_code, not_code,
  needs_branch, constant_load, reg_is_float,
}
use ntu_csie_complier.Backend.Vacant.{find_vacant-Given}
use ntu_csie_complier.Backend.Quiet.Rules.{
  Silent, pure-Silent, modify-Silent, if-Silent, choice-Silent, emit-Silent, emits-Silent, ◌▹◌,
}

module _ (l : Label) (host : Host) where
  pub get_reg-Silent : (t : DataType) (is_caller : Bool) → Silent l (get_reg host t is_caller)
  unfolding get_reg
  get_reg-Silent t is_caller s =
      weaken (find_vacant-Given host (pool t is_caller) s) (λ r u p. Given-Quiet l p.1)

  convert-Silent : (r from : ℕ) → Silent l (convert host r from)
  unfolding convert
  convert-Silent r from =
      if-Silent l (λ s. not (reg_is_float s r) && reg_is_float s from)
        (do
          tmp ← get_reg host float_type false
          modify (emits (Instr.mov_s tmp from ∷ Instr.cvt_w_s tmp tmp ∷ Instr.mfc1 r tmp ∷ [])))
        (modify λ s.
          if reg_is_float s r && not (reg_is_float s from)
          then emits (Instr.mtc1 from r ∷ Instr.cvt_s_w r r ∷ []) s
          else if reg_is_float s r
          then emit (Instr.mov_s r from) s
          else emit (Instr.move r from) s)
        (get_reg-Silent float_type false ▹ λ tmp.
          emits-Silent l (Instr.mov_s tmp from ∷ Instr.cvt_w_s tmp tmp ∷ Instr.mfc1 r tmp ∷ [])
            ((refl, refl), ((refl, refl), ((refl, refl), tt))))
        (modify-Silent l _ (λ s.
          Quiet-if l (reg_is_float s r && not (reg_is_float s from))
            (emits-Quiet l (Instr.mtc1 from r ∷ Instr.cvt_s_w r r ∷ []) s
              ((refl, refl), ((refl, refl), tt)))
            (Quiet-if l (reg_is_float s r) (emit-Quiet l _ s (refl, refl))
              (emit-Quiet l _ s (refl, refl)))))

  load_const_reg-Silent : (r from : ℕ) → Silent l (load_const_reg host r from)
  unfolding load_const_reg
  load_const_reg-Silent r from =
      choice-Silent l (from == r) (pure tt) _ (pure-Silent l tt)
        (convert-Silent r from ▹ λ _. modify-Silent l _ (set_both-Quiet l r))

  pub load_reg-Silent : (r from : ℕ) → Silent l (load_reg host r from)
  unfolding load_reg
  load_reg-Silent r from = choice-Silent l (from == r) (pure tt) _ (pure-Silent l tt) (
      convert-Silent r from ▹ λ _.
      modify-Silent l _ (set_both-Quiet l r) ▹ λ _. modify-Silent l _ (clear_volatile-Quiet l from))

  float_operand-Silent : (r other : ℕ) → Silent l (float_operand host r other)
  unfolding float_operand
  float_operand-Silent r other =
      if-Silent l (λ s. reg_is_float s other && not (reg_is_float s r))
        (do tmp ← get_reg host float_type true; load_const_reg host tmp r; pure tmp) (pure r)
        (get_reg-Silent float_type true ▹ λ tmp.
          load_const_reg-Silent tmp r ▹ λ _. pure-Silent l tmp)
        (pure-Silent l r)

  float_operand_clearing-Silent : (r other : ℕ) → Silent l (float_operand_clearing host r other)
  unfolding float_operand_clearing
  float_operand_clearing-Silent r other =
      if-Silent l (λ s. reg_is_float s other && not (reg_is_float s r))
        (do tmp ← get_reg host float_type true; load_reg host tmp r; pure tmp) (pure r)
        (get_reg-Silent float_type true ▹ λ tmp. load_reg-Silent tmp r ▹ λ _. pure-Silent l tmp)
        (pure-Silent l r)

  -- The code of an operation, with a comparison of `float`s counted.
  compute-Quiet :
      (op : BinaryOperator) (i r left right : ℕ) (s t : GenState)
      → t.output ≡ (emits (compare_code op i r left right) s).output
      → t.regs ≡ (emits (compare_code op i r left right) s).regs
      → Quiet l s t
  unfolding compare_code
  compute-Quiet op i r left right s t e e' =
      Quiet-trans l _ _ _
        (emits-Quiet l (compare_code op i r left right) s (
          (refl, refl),
          (
            (refl, refl),
            ((refl, refl), ((refl, refl), ((refl, refl), ((refl, refl), ((refl, refl), tt))))),
          ),
        ))
        (unchanged-Quiet l _ t e e')

  operand_const-Silent :
      (r : ℕ) (op : BinaryOperator) (left right : ℕ) → Silent l (operand_const host r op left right)
  unfolding operand_const
  operand_const-Silent r op left right = float_operand-Silent right left ▹ λ right'.
      float_operand-Silent left right' ▹ λ left'.
      modify-Silent l _ (λ s.
        Quiet-if l (needs_branch op left' right' s)
          (compute-Quiet op s.const_branch_index r left' right' s _ refl refl)
          (emit-Quiet l _ s (refl, refl)))
      ▹ λ _. modify-Silent l _ (set_both-Quiet l r)

  pub operand-Silent :
      (r : ℕ) (op : BinaryOperator) (left right : ℕ) → Silent l (operand host r op left right)
  unfolding operand
  operand-Silent r op left right = float_operand_clearing-Silent right left ▹ λ right'.
      float_operand_clearing-Silent left right' ▹ λ left'.
      modify-Silent l _ (λ s.
        Quiet-if l (needs_branch op left' right' s)
          (compute-Quiet op s.branch_index r left' right' s _ refl refl)
          (emit-Quiet l _ s (refl, refl)))
      ▹ λ _. modify-Silent l _ (set_both-Quiet l r) ▹ λ _.
          modify-Silent l _ (clear_volatile-Quiet l left') ▹ λ _.
          modify-Silent l _ (clear_volatile-Quiet l right')

  -- An operation other than addition and subtraction.
  by_register-Silent :
      (r : ℕ) (op : BinaryOperator) (left value : ℕ)
      → Silent l (do
        tmp ← get_reg host int_type true
        modify (load_int host tmp value)
        operand_const host r op left tmp
        modify (set_modified r))
  by_register-Silent r op left value = get_reg-Silent int_type true ▹ λ tmp.
      modify-Silent l _ (load_int-Quiet l host tmp value) ▹ λ _.
      operand_const-Silent r op left tmp ▹ λ _. modify-Silent l _ (set_modified-Quiet l r)

  addi-Silent :
      (r left value : ℕ)
      → Silent l (modify (λ s. set_modified r (emit (Instr.addi r left value) s)))
  addi-Silent r left value =
      modify-Silent l _
        (λ s. Quiet-trans l _ _ _ (emit-Quiet l _ s (refl, refl)) (set_modified-Quiet l r _))

  pub operand_int-Silent :
      (r : ℕ) (op : BinaryOperator) (left value : ℕ) → Silent l (operand_int host r op left value)
  unfolding operand_int
  operand_int-Silent r op_add left value = addi-Silent r left value
  operand_int-Silent r op_sub left value = addi-Silent r left ((int_mod - value) % int_mod)
  operand_int-Silent r op_mul left value = by_register-Silent r op_mul left value
  operand_int-Silent r op_div left value = by_register-Silent r op_div left value
  operand_int-Silent r BinaryOperator.op_eq left value =
      by_register-Silent r BinaryOperator.op_eq left value
  operand_int-Silent r op_ge left value = by_register-Silent r op_ge left value
  operand_int-Silent r BinaryOperator.op_le left value =
      by_register-Silent r BinaryOperator.op_le left value
  operand_int-Silent r op_ne left value = by_register-Silent r op_ne left value
  operand_int-Silent r op_gt left value = by_register-Silent r op_gt left value
  operand_int-Silent r BinaryOperator.op_lt left value =
      by_register-Silent r BinaryOperator.op_lt left value
  operand_int-Silent r BinaryOperator.op_and left value =
      by_register-Silent r BinaryOperator.op_and left value
  operand_int-Silent r BinaryOperator.op_or left value =
      by_register-Silent r BinaryOperator.op_or left value

  not-Quiet :
      (r i from : ℕ) (zero one : Instr) (s t : GenState)
      → IsPlain l zero
      → IsPlain l one
      → t.output ≡ (emits (not_code r i zero one from) s).output
      → t.regs ≡ (emits (not_code r i zero one from) s).regs
      → Quiet l s t
  unfolding not_code
  not-Quiet r i from zero one s t h h' e e' =
      Quiet-trans l _ _ _
        (emits-Quiet l (not_code r i zero one from) s
          ((refl, refl), (h, ((refl, refl), ((refl, refl), (h', ((refl, refl), tt)))))))
        (unchanged-Quiet l _ t e e')

  pub operand_unary-Silent :
      (r : ℕ) (op : UnaryOperator) (from : ℕ) → Silent l (operand_unary host r op from)
  unfolding operand_unary
  operand_unary-Silent r op_positive from =
      modify-Silent l _
        (λ s. Quiet-trans l _ _ _ (emit-Quiet l _ s (refl, refl)) (set_both-Quiet l r _))
  operand_unary-Silent r op_negative from =
      emit-Silent l (Instr.not_bits r from) (refl, refl) ▹ λ _.
      operand_int-Silent r op_add r 1 ▹ λ _. modify-Silent l _ (set_both-Quiet l r)
  operand_unary-Silent r op_logical_negation from = modify-Silent l _ (λ s.
      let t = (s.regs r).reg_type in
      Quiet-trans l _ _ _
        (not-Quiet r s.not_index from (constant_load host t r (host.float_of_int 0))
          (constant_load host t r (host.float_of_int 1)) s _
          (constant_load-IsPlain l host t r (host.float_of_int 0))
          (constant_load-IsPlain l host t r (host.float_of_int 1)) refl refl)
        (set_both-Quiet l r _))

  pub tested-Silent : (r : ℕ) → Silent l (tested host r)
  unfolding tested
  tested-Silent r =
      if-Silent l (λ s. reg_is_float s r)
        (do tmp ← get_reg host int_type true; load_const_reg host tmp r; pure tmp) (pure r)
        (get_reg-Silent int_type true ▹ λ tmp. load_const_reg-Silent tmp r ▹ λ _. pure-Silent l tmp)
        (pure-Silent l r)
