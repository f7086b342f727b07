-- ===== src/Backend/Machine.antt =====
-- The machine that the written code is for: what the instructions do to registers and memory words, as
-- the MIPS manuals specify them. `add`, `addi` and `sub` trap where the sum or the difference of the
-- operands, as integers with sign, is no word. It is not a model of the simulator under spim/.
use ntu_csie_complier.Prelude.{
  ℕ, zero, suc, ◌+◌, ◌*◌, ◌-◌, ◌%◌, Bool, true, false, not, Option, none, some, List, [], ◌∷◌, ◌==◌,
  if◌then◌else◌, suc, ◌&&◌,
}
use ntu_csie_complier.Types.{
  BinaryOperator, op_add, op_sub, op_mul, op_div, op_eq, op_ge, op_le, op_ne, op_gt, op_lt, op_and,
  op_or,
}
use ntu_csie_complier.Semantic.Fold.{int_mod, div32, magnitude, is_negative}
use ntu_csie_complier.Semantic.Words.{signed, less}
use ntu_csie_complier.Backend.Code.{Label, AddrName, at_label, indexed, Instr, same_label}

-- `labels` are the addresses that the assembler gives; `and_word` and `or_word` work bit by bit.
pub record Processor : Type 0 where
  pub labels : Label → ℕ
  pub and_word : ℕ → ℕ → ℕ
  pub or_word : ℕ → ℕ → ℕ

pub record Machine : Type 0 where
  pub regs : ℕ → ℕ
  pub mem : ℕ → ℕ

abbrev pub set_at : (ℕ → ℕ) → ℕ → ℕ → ℕ → ℕ
set_at f a v k = if k == a then v else f k

abbrev pub set_word : ℕ → ℕ → Machine → Machine
set_word r v m = record m { regs = set_at m.regs r v }

abbrev pub write_word : ℕ → ℕ → Machine → Machine
write_word a v m = record m { mem = set_at m.mem a v }

abbrev pub bit : Bool → ℕ
bit b = if b then 1 else 0

abbrev pub set_result : ℕ → Machine → Option ℕ → Option Machine
set_result r m none = none
set_result r m (some v) = some (set_word r v m)

-- The sign of the sum, or of the difference, is not the one that those of the operands ask for.
abbrev pub add_overflows : ℕ → ℕ → Bool
add_overflows a b =
    if is_negative a
    then is_negative b && not (is_negative ((a + b) % int_mod))
    else not (is_negative b) && is_negative ((a + b) % int_mod)

abbrev pub sub_overflows : ℕ → ℕ → Bool
sub_overflows a b =
    if is_negative a
    then not (is_negative b) && not (is_negative ((a + int_mod - b) % int_mod))
    else is_negative b && is_negative ((a + int_mod - b) % int_mod)

-- A trap, or the result.
abbrev pub unless : Bool → ℕ → Option ℕ
unless trap v = if trap then none else some v

module _ (p : Processor) where
  unfoldable pub address_of : AddrName → Machine → ℕ
  address_of (at_label l) m = p.labels l
  address_of (indexed o r) m = (m.regs r + o) % int_mod

  unfoldable pub alu : BinaryOperator → ℕ → ℕ → Option ℕ
  unfolding signed div32
  alu op_add a b = unless (add_overflows a b) ((a + b) % int_mod)
  alu op_sub a b = unless (sub_overflows a b) ((a + int_mod - b) % int_mod)
  alu op_mul a b = some (a * b % int_mod)
  alu op_div a b = div32 a b
  alu op_eq a b = some (bit (a == b))
  alu op_ge a b = some (bit (not (less (signed a) (signed b))))
  alu op_le a b = some (bit (not (less (signed b) (signed a))))
  alu op_ne a b = some (bit (not (a == b)))
  alu op_gt a b = some (bit (less (signed b) (signed a)))
  alu op_lt a b = some (bit (less (signed a) (signed b)))
  alu op_and a b = some (p.and_word a b)
  alu op_or a b = some (p.or_word a b)

  -- The instructions that go on to the next one; `none` for the others, for a trap, and for a division
  -- whose result is undefined.
  unfoldable pub step : Instr → Machine → Option Machine
  unfolding address_of alu
  step (Instr.binary op false r a b) m = set_result r m (alu op (m.regs a) (m.regs b))
  step (Instr.addi r a v) m =
      set_result r m (unless (add_overflows (m.regs a) v) ((m.regs a + v) % int_mod))
  step (Instr.li r v) m = some (set_word r v m)
  step (Instr.la r a) m = some (set_word r (address_of a m) m)
  step (Instr.move r a) m = some (set_word r (m.regs a) m)
  step (Instr.abs r a) m = some (set_word r (magnitude (m.regs a)) m)
  step (Instr.not_bits r a) m = some (set_word r (int_mod - 1 - m.regs a) m)
  step (Instr.lw r a) m = some (set_word r (m.mem (address_of a m)) m)
  step (Instr.l_s r a) m = some (set_word r (m.mem (address_of a m)) m)
  step (Instr.sw r a) m = some (write_word (address_of a m) (m.regs r) m)
  step (Instr.s_s r a) m = some (write_word (address_of a m) (m.regs r) m)
  step (Instr.mark l) m = some m
  step Instr.text m = some m
  step _ m = none

  -- A run up to the end of the code or a return to the caller.
  unfoldable pub run : List Instr → Machine → Option Machine
  unfolding step
  run [] m = some m
  run (Instr.jr_ra ∷ code) m = some m
  run (i ∷ code) m = elim (step i m) [ none ↦ none | some m' ↦ run code m' ]

-- The comparisons of `float`s, by their bits.
pub record FloatTests : Type 0 where
  pub float_eq : ℕ → ℕ → Bool
  pub float_le : ℕ → ℕ → Bool
  pub float_lt : ℕ → ℕ → Bool

-- The code behind a label.
abbrev pub behind : Label → List Instr → List Instr
behind l [] = []
behind l (Instr.mark k ∷ code) = if same_label l k then code else behind l code
behind l (i ∷ code) = behind l code

module _ (p : Processor) (f : FloatTests) where
  -- `c.eq.s`, `c.le.s` and `c.lt.s`, in the rows of `Binarycommand`.
  abbrev pub float_flag : BinaryOperator → ℕ → ℕ → Option Bool
  float_flag op_eq a b = some (f.float_eq a b)
  float_flag op_ne a b = some (f.float_eq a b)
  float_flag op_ge a b = some (f.float_le a b)
  float_flag op_le a b = some (f.float_le a b)
  float_flag op_gt a b = some (f.float_lt a b)
  float_flag op_lt a b = some (f.float_lt a b)
  float_flag _ a b = none

  -- A run with jumps inside `code`, for at most so many instructions; `flag` is the one that
  -- comparisons set.
  unfoldable pub run_jumps : ℕ → List Instr → List Instr → Bool → Machine → Option Machine
  unfolding step
  run_jumps n code [] flag m = some m
  run_jumps zero code (i ∷ rest) flag m = none
  run_jumps (suc n) code (Instr.compare op a b ∷ rest) flag m =
      elim (float_flag op (m.regs a) (m.regs b)) [
        | none ↦ none
        | some found ↦ run_jumps n code rest found m
      ]
  run_jumps (suc n) code (Instr.bc1f l ∷ rest) true m = run_jumps n code rest true m
  run_jumps (suc n) code (Instr.bc1f l ∷ rest) false m = run_jumps n code (behind l code) false m
  run_jumps (suc n) code (Instr.jump l ∷ rest) flag m = run_jumps n code (behind l code) flag m
  run_jumps (suc n) code (Instr.beqz r l ∷ rest) flag m = elim (m.regs r == 0) [
    | true ↦ run_jumps n code (behind l code) flag m
    | false ↦ run_jumps n code rest flag m
  ]
  run_jumps (suc n) code (i ∷ rest) flag m = elim (step p i m) [
    | none ↦ none
    | some m' ↦ run_jumps n code rest flag m'
  ]
