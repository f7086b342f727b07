-- ===== src/Semantic/Words.antt =====
-- The order of `int` words in the constant folding of src/semanticAnalysis.c, against the integers that
-- they stand for.
use ntu_csie_complier.Prelude.{ℕ, ◌-◌, ◌<◌, ◌≡◌, Bool, true, false, ltb, if◌then◌else◌, arith}
use ntu_csie_complier.Semantic.Fold.{int_mod, int_min, lt32}

pub data ℤ : Type 0 where
  pos negsuc : ℕ → ℤ

-- The integer that a word stands for.
unfoldable pub signed : ℕ → ℤ
signed a = if ltb a int_min then pos a else negsuc (int_mod - 1 - a)

abbrev pub less : ℤ → ℤ → Bool
less (pos a) (pos b) = ltb a b
less (pos a) (negsuc b) = false
less (negsuc a) (pos b) = true
less (negsuc a) (negsuc b) = ltb b a

-- The order of words that comparisons of constants use is that of the integers.
pub lt32-less : (a b : ℕ) → a < int_mod → b < int_mod → lt32 a b ≡ less (signed a) (signed b)
unfolding lt32 signed
lt32-less a b ha hb = ground arith
