-- ===== src/Backend/Operations.antt =====
-- The code that `Register::operand`, `branch` and `load` of src/Register.cpp write.
use ntu_csie_complier.Prelude.{
  ℕ, suc, ◌-◌, ◌%◌, Bool, true, false, not, ◌&&◌, ◌||◌, some, List, [], ◌∷◌, ◌==◌, if◌then◌else◌,
}
use ntu_csie_complier.Effect.{pure, ◌>>=◌, ◌>>◌, modify}
use ntu_csie_complier.Types.{
  DataType, int_type, float_type, BinaryOperator, op_add, op_sub, op_mul, op_div, op_ge, op_ne,
  op_gt, UnaryOperator, op_positive, op_negative, op_logical_negation,
}
use ntu_csie_complier.Semantic.Fold.{int_mod}
use ntu_csie_complier.Backend.Code.{Label, numbered, at_label, Instr}
use ntu_csie_complier.Backend.State.{GenState, Gen, Host, emit, set_reg, clear, is_float, set_flags}
use ntu_csie_complier.Backend.Registers.{get_reg}

abbrev pub reg_is_float : GenState → ℕ → Bool
reg_is_float s r = is_float (s.regs r).reg_type

-- `this->dirty = true`, and with `this->modified = true`.
unfoldable pub set_dirty : ℕ → GenState → GenState
unfolding set_reg
set_dirty r s = set_flags true (s.regs r).modified r s

unfoldable pub set_modified : ℕ → GenState → GenState
unfolding set_reg
set_modified r s = set_flags (s.regs r).dirty true r s

unfoldable pub set_both : ℕ → GenState → GenState
unfolding set_reg
set_both r s = set_flags true true r s

unfoldable pub clear_volatile : ℕ → GenState → GenState
unfolding clear
clear_volatile r s = if (s.regs r).target_addr.is_volatile then clear r s else s

abbrev pub emits : List Instr → GenState → GenState
emits [] s = s
emits (i ∷ code) s = emits code (emit i s)

-- `op > BINARY_OP_DIV`
abbrev pub is_comparison : BinaryOperator → Bool
is_comparison op_add = false
is_comparison op_sub = false
is_comparison op_mul = false
is_comparison op_div = false
is_comparison _ = true

-- `BinaryNegate`
abbrev pub binary_negate : BinaryOperator → Bool
binary_negate op_ge = true
binary_negate op_ne = true
binary_negate op_gt = true
binary_negate _ = false

abbrev pub word_of : Bool → ℕ
word_of b = if b then 1 else 0

-- The code of a comparison of `float`s.
unfoldable pub compare_code : BinaryOperator → ℕ → ℕ → ℕ → ℕ → List Instr
compare_code op i r left right =
    Instr.compare op left right
    ∷ Instr.bc1f (numbered "_False" i)
    ∷ Instr.li r (word_of (not (binary_negate op)))
    ∷ Instr.jump (numbered "End_False" i)
    ∷ Instr.mark (numbered "_False" i)
    ∷ Instr.li r (word_of (binary_negate op))
    ∷ Instr.mark (numbered "End_False" i)
    ∷ []

-- The code of `!`.
unfoldable pub not_code : ℕ → ℕ → Instr → Instr → ℕ → List Instr
not_code r i load_zero load_one from =
    Instr.beqz from (numbered "_TrueNot" i)
    ∷ load_zero
    ∷ Instr.jump (numbered "_EndNot" i)
    ∷ Instr.mark (numbered "_TrueNot" i)
    ∷ load_one
    ∷ Instr.mark (numbered "_EndNot" i)
    ∷ []

abbrev pub needs_branch : BinaryOperator → ℕ → ℕ → GenState → Bool
needs_branch op left right s = is_comparison op && (reg_is_float s left || reg_is_float s right)

module _ (host : Host) where
  -- `load(double)` and `load(int)`, by the bits of the `double`.
  abbrev pub constant_load : DataType → ℕ → ℕ → Instr
  constant_load t r d = if is_float t then Instr.li_s r d else Instr.li r (host.int_of_double d)

  unfoldable pub load_double : ℕ → ℕ → GenState → GenState
  unfolding set_dirty emit
  load_double r d s = set_dirty r (emit (constant_load (s.regs r).reg_type r d) s)

  unfoldable pub load_int : ℕ → ℕ → GenState → GenState
  unfolding load_double
  load_int r value s = load_double r (host.float_of_int value) s

  unfoldable pub load_label : ℕ → Label → GenState → GenState
  unfolding set_dirty emit
  load_label r l s = set_dirty r (emit (Instr.la r (at_label l)) s)

  -- `load(const Register *)`, from another register.
  unfoldable pub convert : ℕ → ℕ → Gen (Unit {0})
  unfolding get_reg emit
  convert r from s =
      if not (reg_is_float s r) && reg_is_float s from
      then (do
        tmp ← get_reg host float_type false
        modify (emits (Instr.mov_s tmp from ∷ Instr.cvt_w_s tmp tmp ∷ Instr.mfc1 r tmp ∷ [])))
          s
      else some (
        tt,
        if reg_is_float s r && not (reg_is_float s from)
            then emits (Instr.mtc1 from r ∷ Instr.cvt_s_w r r ∷ []) s
            else if reg_is_float s r
            then emit (Instr.mov_s r from) s
            else emit (Instr.move r from) s,
      )

  unfoldable pub load_const_reg : ℕ → ℕ → Gen (Unit {0})
  unfolding convert set_both
  load_const_reg r from = if from == r then pure tt else do convert r from; modify (set_both r)

  -- `load(Register *)`
  unfoldable pub load_reg : ℕ → ℕ → Gen (Unit {0})
  unfolding convert set_both clear_volatile
  load_reg r from =
      if from == r
      then pure tt
      else do convert r from; modify (set_both r); modify (clear_volatile from)

  -- An operand of `operand` as a `float`, if the other one is.
  unfoldable pub float_operand : ℕ → ℕ → Gen ℕ
  unfolding get_reg load_const_reg
  float_operand r other s =
      if reg_is_float s other && not (reg_is_float s r)
      then (do tmp ← get_reg host float_type true; load_const_reg tmp r; pure tmp) s
      else some (r, s)

  -- The same for `Register *`.
  unfoldable pub float_operand_clearing : ℕ → ℕ → Gen ℕ
  unfolding get_reg load_reg
  float_operand_clearing r other s =
      if reg_is_float s other && not (reg_is_float s r)
      then (do tmp ← get_reg host float_type true; load_reg tmp r; pure tmp) s
      else some (r, s)

  -- `operand(op, const Register *, const Register *)`
  unfoldable pub operand_const : ℕ → BinaryOperator → ℕ → ℕ → Gen (Unit {0})
  unfolding float_operand compare_code set_both emit
  operand_const r op left right = do
    right' ← float_operand right left
    left' ← float_operand left right'
    modify λ s.
        if needs_branch op left' right' s
        then record (emits (compare_code op s.const_branch_index r left' right') s) {
          const_branch_index = suc s.const_branch_index;
        }
        else emit (Instr.binary op (reg_is_float s r) r left' right') s
    modify (set_both r)

  -- `operand(op, Register *, Register *)`
  unfoldable pub operand : ℕ → BinaryOperator → ℕ → ℕ → Gen (Unit {0})
  unfolding float_operand_clearing compare_code set_both emit clear_volatile
  operand r op left right = do
    right' ← float_operand_clearing right left
    left' ← float_operand_clearing left right'
    modify λ s.
        if needs_branch op left' right' s
        then record (emits (compare_code op s.branch_index r left' right') s) {
          branch_index = suc s.branch_index;
        }
        else emit (Instr.binary op (reg_is_float s r) r left' right') s
    modify (set_both r)
    modify (clear_volatile left')
    modify (clear_volatile right')

  -- `operand(op, const Register *, const int)`; the value is a word.
  unfoldable pub operand_int : ℕ → BinaryOperator → ℕ → ℕ → Gen (Unit {0})
  unfolding get_reg load_int operand_const set_modified emit
  operand_int r op_add left value s = some (tt, set_modified r (emit (Instr.addi r left value) s))
  operand_int r op_sub left value s =
      some (tt, set_modified r (emit (Instr.addi r left ((int_mod - value) % int_mod)) s))
  operand_int r op left value s =
      (do
        tmp ← get_reg host int_type true
        modify (load_int tmp value)
        operand_const r op left tmp
        modify (set_modified r))
        s

  -- `operand(op, const Register *, const double)`
  unfoldable pub operand_double : ℕ → BinaryOperator → ℕ → ℕ → Gen (Unit {0})
  unfolding get_reg load_double operand_const
  operand_double r op left value = do
    tmp ← get_reg host float_type true
    modify (load_double tmp value)
    operand_const r op left tmp

  -- `operand(op, const Register *)`
  unfoldable pub operand_unary : ℕ → UnaryOperator → ℕ → Gen (Unit {0})
  unfolding operand_int not_code set_both emit set_dirty
  operand_unary r op_positive from = modify λ s. set_both r (emit (Instr.abs r from) s)
  operand_unary r op_negative from = do
    modify (emit (Instr.not_bits r from))
    operand_int r op_add r 1
    modify (set_both r)
  operand_unary r op_logical_negation from = modify λ s.
      let t = (s.regs r).reg_type in
      set_both r
        (record (emits
          (not_code r s.not_index (constant_load t r (host.float_of_int 0))
            (constant_load t r (host.float_of_int 1)) from)
          s) { not_index = suc s.not_index })

  -- The register that `branch` and `branch2` test.
  unfoldable pub tested : ℕ → Gen ℕ
  unfolding get_reg load_const_reg
  tested r s =
      if reg_is_float s r
      then (do tmp ← get_reg host int_type true; load_const_reg tmp r; pure tmp) s
      else some (r, s)

  unfoldable pub branch : ℕ → Label → Gen (Unit {0})
  unfolding tested emit
  branch r l = do t ← tested r; modify (emit (Instr.beqz t l))

  unfoldable pub branch2 : ℕ → Label → Gen (Unit {0})
  unfolding tested emit
  branch2 r l = do t ← tested r; modify (emit (Instr.bne_zero t l))
