-- ===== src/Backend/Arithmetic.antt =====
-- The code of arithmetic that src/Register.cpp writes against the constant folding of
-- src/semanticAnalysis.c.
use ntu_csie_complier.Prelude.{ℕ, ltb, leb, Bool, true, false, ◌||◌, ◌+◌, ◌%◌}
use ntu_csie_complier.Effect.{◌>>=◌, ◌>>◌}
use ntu_csie_complier.Types.{BinaryOperator, op_add, op_sub, op_and, op_or}
use ntu_csie_complier.Semantic.Fold.{int_mod, int_min}
use ntu_csie_complier.Backend.Machine.{Machine}

-- The operators whose code works on `int`s as folding does. `and` and `or` work bit by bit.
abbrev pub is_bitwise : BinaryOperator → Bool
is_bitwise op_and = true
is_bitwise op_or = true
is_bitwise _ = false

-- The integer that a word stands for, from the least one on.
abbrev pub biased : ℕ → ℕ
biased a = (a + int_min) % int_mod

-- The sum, or the difference, of the integers that two words stand for is none that a word stands for.
abbrev pub overflows : BinaryOperator → ℕ → ℕ → Bool
overflows op_add a b =
    ltb (biased a + biased b) int_min || leb (int_mod + int_min) (biased a + biased b)
overflows op_sub a b = ltb (biased a + int_min) (biased b) || leb (biased b + int_min) (biased a)
overflows _ a b = false
